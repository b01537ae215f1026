-- ===== src/Supervisor/Graceful.antt =====
-- What a reload may do to the services: `handle_sighup` and `execute_recycle_plan` of
-- nfs-klldap-config/src/supervisor/mod.rs.
use nfs_klldap_host.Prelude.{◌≡◌, Bool, true, false, refl, arith, if◌then◌else◌}
use nfs_klldap_host.Recycle.{
  GaneshaAction, skip, sighup, stop_start, WebuiAction, leave, reload, restart, ServiceRecyclePlan,
  plan_from_changes, ganesha_sighup_failed,
}
use nfs_klldap_host.Respawn.{Service}
use nfs_klldap_host.Supervisor.Apply.{
  reload_or_escalate, recycle_ganesha, restart_ganesha, recycle_webui, run_plan,
  execute_recycle_plan,
}
use nfs_klldap_host.Supervisor.Emits.{Emits, Permits, Launches, Neutral, do_rules}
use nfs_klldap_host.Supervisor.EmitsServices.{
  ganesha_running-Emits, stop_ganesha-Emits, start_ganesha-Emits, reload_ganesha_exports-Emits,
  start_webui-Emits, reload_webui-Emits, prereqs-Emits,
}
use nfs_klldap_host.Supervisor.Ganesha.{reload_ganesha_exports}
use nfs_klldap_host.Supervisor.Keeps.{
  Keeps, Ensures, Keeps-bind_ensures, Keeps-when_false, Keeps-bind, Keeps-then, Keeps-get,
}
use nfs_klldap_host.Supervisor.State.{
  Act, hup, signalled, pkilled, spawned, spawn_failed, Os, Env, Supervisor, Machine, M, ◌>>=◌, ◌>>◌,
  pure,
}

-- Bouncing SSSD, idhelper, avahi, the watcher or D-Bus is not graceful; avahi may get a SIGHUP, and a
-- D-Bus daemon may be started for Ganesha.
abbrev pub is_graceful : Act → Bool
is_graceful (signalled Service.ganesha signal pid) = true
is_graceful (signalled Service.webui signal pid) = true
is_graceful (signalled Service.avahi hup pid) = true
is_graceful (signalled _ _ _) = false
is_graceful (pkilled Service.ganesha) = true
is_graceful (pkilled Service.webui) = true
is_graceful (pkilled _) = false
is_graceful (spawned Service.ganesha pid) = true
is_graceful (spawned Service.webui pid) = true
is_graceful (spawned Service.dbus pid) = true
is_graceful (spawned _ pid) = false
is_graceful (spawn_failed Service.ganesha) = true
is_graceful (spawn_failed Service.webui) = true
is_graceful (spawn_failed Service.dbus) = true
is_graceful (spawn_failed _) = false
is_graceful _ = true

pub is_graceful-Neutral : Neutral is_graceful
is_graceful-Neutral = record {
  sleeps = λ ms. refl;
  reaps = refl;
  rpcbind = refl;
  dirs = refl;
  permissions = refl;
  seeds = refl;
  preresolves = refl;
  winbind = refl;
}

pub is_graceful-ganesha : Permits is_graceful Service.ganesha
is_graceful-ganesha = record {
  signals = λ signal pid. refl;
  pkills = refl;
  spawns = λ pid. refl;
  failures = refl;
}

is_graceful-webui : Permits is_graceful Service.webui
is_graceful-webui = record {
  signals = λ signal pid. refl;
  pkills = refl;
  spawns = λ pid. refl;
  failures = refl;
}

is_graceful-dbus : Launches is_graceful Service.dbus
is_graceful-dbus = record { spawns = λ pid. refl; failures = refl }

-- A plan that restarts neither identity daemon nor avahi.
pub record IsScoped (plan : ServiceRecyclePlan) : Type 0 where
  pub spares_sssd : plan.restart_sssd ≡ false
  pub spares_idhelper : plan.restart_idhelper ≡ false
  pub spares_avahi : plan.restart_avahi ≡ false

pub plan_from_changes-IsScoped :
    (exports identity shares host running : Bool)
    → IsScoped (plan_from_changes exports identity shares host running)
unfolding plan_from_changes
plan_from_changes-IsScoped e i s h r = ground arith

ganesha_sighup_failed-IsScoped :
    (plan : ServiceRecyclePlan) → IsScoped plan → IsScoped (ganesha_sighup_failed plan)
unfolding ganesha_sighup_failed
ganesha_sighup_failed-IsScoped plan v = ground arith

module _ {os : Os} {p : Act → Bool} {e : Env} {b : Bool} (n : Neutral p)
    (g : Permits p Service.ganesha) where
  reload_or_escalate-Emits :
      (plan : ServiceRecyclePlan) → Keeps {os = os} (Emits p e b) (reload_or_escalate plan)
  unfolding reload_or_escalate
  reload_or_escalate-Emits plan =
      search
        (
          do_rules,
          reload_ganesha_exports-Emits n g,
          ganesha_running-Emits n,
          stop_ganesha-Emits n g,
        )
        depth 12

  recycle_ganesha-Emits :
      (action : GaneshaAction) (plan : ServiceRecyclePlan)
      → Keeps {os = os} (Emits p e b) (recycle_ganesha action plan)
  unfolding recycle_ganesha
  recycle_ganesha-Emits skip plan = search do_rules
  recycle_ganesha-Emits sighup plan = reload_or_escalate-Emits plan
  recycle_ganesha-Emits stop_start plan = search (do_rules, stop_ganesha-Emits n g) depth 12

  restart_ganesha-Emits :
      (plan : ServiceRecyclePlan)
      → Launches p Service.dbus
      → Keeps {os = os} (Emits p e b) (restart_ganesha plan)
  unfolding restart_ganesha
  restart_ganesha-Emits plan d =
      search (do_rules, ganesha_running-Emits n, prereqs-Emits n d, start_ganesha-Emits n g) depth
        16

if_IsScoped :
    {os : Os} (c : Bool) (f g : M os ServiceRecyclePlan) (m : Machine os)
    → IsScoped (f m).0
    → IsScoped (g m).0
    → IsScoped ((if c then f else g) m).0
if_IsScoped true f g m v w = v
if_IsScoped false f g m v w = w

recycle_ganesha-IsScoped :
    {os : Os} (action : GaneshaAction) (plan : ServiceRecyclePlan) (m : Machine os)
    → IsScoped plan
    → IsScoped (recycle_ganesha action plan m).0
unfolding recycle_ganesha reload_or_escalate ◌>>=◌ ◌>>◌ pure
recycle_ganesha-IsScoped skip plan m v = v
recycle_ganesha-IsScoped stop_start plan m v = v
recycle_ganesha-IsScoped sighup plan m v =
    if_IsScoped (reload_ganesha_exports m).0 _ _ (reload_ganesha_exports m).1 v
      (ganesha_sighup_failed-IsScoped plan v)

-- The plan that `run_plan` goes on with.
abbrev ganesha_part : {os : Os} → ServiceRecyclePlan → Supervisor → M os ServiceRecyclePlan
ganesha_part plan sup =
    if sup.env.host_nfs_mode then pure plan else recycle_ganesha plan.ganesha plan

ganesha_part-Ensures :
    {os : Os} {e : Env} {b : Bool} (plan : ServiceRecyclePlan) (sup : Supervisor)
    → IsScoped plan
    → Ensures {os = os} (Emits is_graceful e b) (ganesha_part plan sup) IsScoped
unfolding pure
ganesha_part-Ensures plan sup v = record {
  keeps = search (do_rules, recycle_ganesha-Emits is_graceful-Neutral is_graceful-ganesha);
  result = λ m q.
      if_IsScoped sup.env.host_nfs_mode (pure plan) (recycle_ganesha plan.ganesha plan) m v
        (recycle_ganesha-IsScoped plan.ganesha plan m v);
}

pub recycle_webui-Emits :
    {os : Os} {p : Act → Bool} {e : Env} {b : Bool} (action : WebuiAction)
    → Neutral p
    → Permits p Service.webui
    → Keeps {os = os} (Emits p e b) (recycle_webui action)
unfolding recycle_webui
recycle_webui-Emits leave n w = search do_rules
recycle_webui-Emits reload n w = reload_webui-Emits n w
recycle_webui-Emits restart n w = search (do_rules, start_webui-Emits n w)

run_plan-Emits :
    {os : Os} {e : Env} {b : Bool} (plan : ServiceRecyclePlan)
    → IsScoped plan
    → Keeps {os = os} (Emits is_graceful e b) (run_plan plan)
unfolding run_plan
run_plan-Emits plan v = Keeps-bind _ _ _ (Keeps-get _) (λ sup.
    Keeps-bind_ensures _ _ _ (ganesha_part-Ensures plan sup v) (λ plan' v'.
      Keeps-then _ _ _ (Keeps-when_false _ _ _ v'.spares_sssd) (
        Keeps-then _ _ _ (Keeps-when_false _ _ _ v'.spares_idhelper) (
          Keeps-then _ _ _
            (restart_ganesha-Emits is_graceful-Neutral is_graceful-ganesha plan' is_graceful-dbus)
            (Keeps-then _ _ _
              (recycle_webui-Emits plan'.webui is_graceful-Neutral is_graceful-webui)
              (Keeps-when_false _ _ _ v'.spares_avahi))))))

-- A scoped plan is executed gracefully.
pub execute_recycle_plan-Emits :
    {os : Os} {e : Env} {b : Bool} (plan : ServiceRecyclePlan)
    → IsScoped plan
    → Keeps {os = os} (Emits is_graceful e b) (execute_recycle_plan plan)
unfolding execute_recycle_plan
execute_recycle_plan-Emits plan v = search (do_rules, run_plan-Emits plan v) depth 14
