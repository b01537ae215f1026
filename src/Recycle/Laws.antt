-- ===== src/Recycle/Laws.antt =====
-- What the planners of nfs-klldap-config/src/recycle_plan.rs promise.
use nfs_klldap_host.Prelude.{ℕ, ◌≤◌, ◌≡◌, ◌≢◌, ◌↔◌, Bool, true, false, arith, if◌then◌else◌}
use nfs_klldap_host.Recycle.{
  GaneshaAction, skip, sighup, stop_start, WebuiAction, leave, reload, restart, ServiceRecyclePlan,
  is_noop, plan_from_changes, plan_full_recycle, ganesha_sighup_failed,
}

-- How much an action disturbs the service: nothing, a reload in place, a new process.
abbrev pub ganesha_strength : GaneshaAction → ℕ
ganesha_strength skip = 0
ganesha_strength sighup = 1
ganesha_strength stop_start = 2

abbrev pub webui_strength : WebuiAction → ℕ
webui_strength leave = 0
webui_strength reload = 1
webui_strength restart = 2

abbrev pub flag_strength : Bool → ℕ
flag_strength b = if b then 1 else 0

-- `q` does to every service at least what `p` does, and applies what `p` only stages.
pub record Covers (q p : ServiceRecyclePlan) : Type 0 where
  pub ganesha_covered : ganesha_strength p.ganesha ≤ ganesha_strength q.ganesha
  pub sssd_covered : flag_strength p.restart_sssd ≤ flag_strength q.restart_sssd
  pub idhelper_covered : flag_strength p.restart_idhelper ≤ flag_strength q.restart_idhelper
  pub webui_covered : webui_strength p.webui ≤ webui_strength q.webui
  pub avahi_covered : flag_strength p.restart_avahi ≤ flag_strength q.restart_avahi
  pub staged_applied :
      p.identity_staged ≡ true → (q.restart_sssd ≡ true) × (q.restart_idhelper ≡ true)

-- The forced full recycle covers the scoped plan, for all fingerprint changes: it does at least as
-- much to every service, and restarts SSSD and idhelper where the scoped plan stages identity.
pub plan_full_recycle-Covers :
    (exports_changed identity_changed shares_changed host_nfs_mode ganesha_running : Bool)
    → Covers (plan_full_recycle host_nfs_mode) (
        plan_from_changes exports_changed identity_changed shares_changed host_nfs_mode
          ganesha_running)
unfolding plan_full_recycle plan_from_changes
plan_full_recycle-Covers e i s h g = ground arith

-- Escalation after a failed export reload leaves no reload pending, disturbs Ganesha no less than
-- before and every other service exactly as before, turns no plan into or out of a no-op, and
-- escalating twice is escalating once.
ganesha_sighup_failed_lem :
    (p : ServiceRecyclePlan)
    → ((ganesha_sighup_failed p).ganesha ≢ sighup)
      × (ganesha_strength p.ganesha ≤ ganesha_strength (ganesha_sighup_failed p).ganesha)
      × ((ganesha_sighup_failed p).webui ≡ p.webui)
      × ((ganesha_sighup_failed p).restart_sssd ≡ p.restart_sssd)
      × ((ganesha_sighup_failed p).restart_idhelper ≡ p.restart_idhelper)
      × ((ganesha_sighup_failed p).restart_avahi ≡ p.restart_avahi)
      × (is_noop (ganesha_sighup_failed p) ≡ is_noop p)
      × (ganesha_sighup_failed (ganesha_sighup_failed p) ≡ ganesha_sighup_failed p)
unfolding ganesha_sighup_failed is_noop
ganesha_sighup_failed_lem p = ground arith

-- The scoped plan touches no process exactly when neither the exports nor the shares changed,
-- whatever happened to the identity artifacts, with Ganesha up or down, in either NFS mode.
is_noop-plan_from_changes_iff :
    (exports_changed identity_changed shares_changed host_nfs_mode ganesha_running : Bool)
    → (is_noop (
          plan_from_changes exports_changed identity_changed shares_changed host_nfs_mode
            ganesha_running)
        ≡ true)
      ↔ ((exports_changed ≡ false) × (shares_changed ≡ false))
unfolding is_noop plan_from_changes
is_noop-plan_from_changes_iff e i s h g = ground arith
