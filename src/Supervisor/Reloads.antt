-- ===== src/Supervisor/Reloads.antt =====
-- `handle_sighup` and `handle_full_recycle` of nfs-klldap-config/src/supervisor/mod.rs as a whole.
use nfs_klldap_host.Prelude.{◌≡◌, Bool, true, not, Option, none, some, [], refl, ap, ◌∙◌, arith}
use nfs_klldap_host.Supervisor.Apply.{
  FingerprintChanges, regenerate_and_diff, sighup_plan, apply_changes, finish_recycle,
  handle_sighup,
}
use nfs_klldap_host.Supervisor.Emits.{all_acts, Emits, Neutral, do_rules, Emits-get, Emits-act}
use nfs_klldap_host.Supervisor.EmitsServices.{
  refresh-Emits, ganesha_running-Emits, reload_avahi-Emits,
}
use nfs_klldap_host.Supervisor.Ganesha.{refresh_tracked_ganesha_pid}
use nfs_klldap_host.Supervisor.Graceful.{
  is_graceful, is_graceful-Neutral, IsScoped, plan_from_changes-IsScoped,
  execute_recycle_plan-Emits,
}
use nfs_klldap_host.Supervisor.Keeps.{
  Keeps, Ensures, Keeps-bind_ensures, Keeps-then, Keeps-pure, Keeps-when_false,
}
use nfs_klldap_host.Supervisor.State.{
  Act, marked_recycle, reaped, Os, Env, Machine, ◌>>=◌, ◌>>◌, act, steps,
}

-- What a regeneration leaves alone.
pub record Unmoved {os : Os} (m m' : Machine os) : Type 0 where
  pub pids_same : m'.sup.pids ≡ m.sup.pids
  pub started_same : m'.sup.services_started ≡ m.sup.services_started
  pub ganesha_managed_same : m'.sup.ganesha_managed ≡ m.sup.ganesha_managed
  pub avahi_managed_same : m'.sup.avahi_managed ≡ m.sup.avahi_managed
  pub respawn_same : m'.sup.respawn ≡ m.sup.respawn

pub regenerate_and_diff-Unmoved : {os : Os} (m : Machine os) → Unmoved m (regenerate_and_diff m).1
unfolding regenerate_and_diff steps
regenerate_and_diff-Unmoved m = ground arith

pub regenerate_and_diff-allowed :
    {os : Os} (p : Act → Bool) (m : Machine os)
    → Neutral p
    → all_acts p m.trace ≡ true
    → all_acts p (regenerate_and_diff m).1.trace ≡ true
unfolding regenerate_and_diff steps
regenerate_and_diff-allowed p m n h = ground arith

-- A regeneration that fails changes nothing of the supervisor and emits nothing.
pub regenerate_and_diff-none :
    {os : Os} (m : Machine os)
    → (regenerate_and_diff m).0 ≡ none
    → ((regenerate_and_diff m).1.sup ≡ m.sup) × ((regenerate_and_diff m).1.trace ≡ m.trace)
unfolding regenerate_and_diff steps
regenerate_and_diff-none m h = ground arith

sighup_plan-IsScoped :
    {os : Os} (changes : FingerprintChanges) (m : Machine os)
    → m.sup.services_started ≡ true
    → IsScoped (sighup_plan changes m).0
unfolding sighup_plan steps
sighup_plan-IsScoped changes m h = rw h (plan_from_changes-IsScoped _ _ _ _ _)

module _ {os : Os} {e : Env} where
  sighup_plan-Ensures :
      (changes : FingerprintChanges)
      → Ensures {os = os} (Emits is_graceful e true) (sighup_plan changes) IsScoped
  unfolding sighup_plan
  sighup_plan-Ensures changes = record {
    keeps = search (do_rules, ganesha_running-Emits is_graceful-Neutral) depth 14;
    result = λ m q. sighup_plan-IsScoped changes m q.started_is;
  }

  finish_recycle-Emits : Keeps {os = os} (Emits is_graceful e true) finish_recycle
  unfolding finish_recycle
  finish_recycle-Emits = Emits-get _ (λ sup env_is started.
      Keeps-then _ _ _ (Keeps-when_false _ _ _ (ap not started)) (Emits-act marked_recycle refl))

  apply_changes-Emits :
      (changes : Option FingerprintChanges)
      → Keeps {os = os} (Emits is_graceful e true) (apply_changes changes)
  unfolding apply_changes
  apply_changes-Emits none = Keeps-pure _ _
  apply_changes-Emits (some changes) =
      Keeps-bind_ensures _ _ _ (sighup_plan-Ensures changes) (λ plan v.
        Keeps-then _ _ _ (execute_recycle_plan-Emits plan v) (
          search
            (do_rules, finish_recycle-Emits, reload_avahi-Emits is_graceful-Neutral (λ pid. refl))
            depth 12))

  reap_refresh-Emits :
      Keeps {os = os} (Emits is_graceful e true) (act reaped >> refresh_tracked_ganesha_pid)
  reap_refresh-Emits = search (do_rules, refresh-Emits is_graceful-Neutral)

-- The acts before the regeneration, and the state it starts from.
abbrev pub before_regeneration : {os : Os} → Machine os → Machine os
before_regeneration m = (refresh_tracked_ganesha_pid ((act reaped) m).1).1

abbrev pub regenerated : {os : Os} → Machine os → Machine os
regenerated m = (regenerate_and_diff (before_regeneration m)).1

regenerated-Emits :
    {os : Os} (m : Machine os)
    → m.sup.services_started ≡ true
    → m.trace ≡ []
    → Emits is_graceful (regenerated m).sup.env true (regenerated m)
unfolding ◌>>◌
regenerated-Emits m h k =
    let q = reap_refresh-Emits.holds m (record { allowed = rw k; env_is = refl; started_is = h }) in
    record {
      allowed =
          regenerate_and_diff-allowed is_graceful (before_regeneration m) is_graceful-Neutral
            q.allowed;
      env_is = refl;
      started_is =
          (regenerate_and_diff-Unmoved (before_regeneration m)).started_same ∙ q.started_is;
    }

-- A SIGHUP while services run is applied gracefully, whatever the system answers: from an empty
-- trace every act is graceful, that is, neither SSSD, idhelper, the watcher nor D-Bus is signalled,
-- SSSD, idhelper, the watcher and avahi are not started, and avahi gets no signal but SIGHUP.
pub handle_sighup_graceful :
    {os : Os} (m : Machine os)
    → m.sup.services_started ≡ true
    → m.trace ≡ []
    → all_acts is_graceful (handle_sighup m).1.trace ≡ true
unfolding handle_sighup ◌>>=◌ ◌>>◌
handle_sighup_graceful m h k =
    ((apply_changes-Emits (regenerate_and_diff (before_regeneration m)).0).holds (regenerated m)
      (regenerated-Emits m h k)).allowed
