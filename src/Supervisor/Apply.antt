-- ===== src/Supervisor/Apply.antt =====
-- The configuration reloads of nfs-klldap-config/src/supervisor/mod.rs: SIGHUP and SIGUSR1.
use nfs_klldap_host.Prelude.{
  ℕ, Bool, true, false, not, ◌&&◌, Option, none, some, if◌then◌else◌, ◌==◌,
}
use nfs_klldap_host.Recycle.{
  GaneshaAction, skip, sighup, stop_start, WebuiAction, leave, reload, restart, ServiceRecyclePlan,
  is_noop, plan_from_changes, plan_full_recycle, ganesha_sighup_failed,
}
use nfs_klldap_host.Supervisor.Ganesha.{
  refresh_tracked_ganesha_pid, ganesha_running, stop_ganesha, start_ganesha, reload_ganesha_exports,
}
use nfs_klldap_host.Supervisor.Services.{
  start_webui, restart_sssd_and_wait, restart_idhelper_and_wait_bulk, ensure_ganesha_prereqs,
  start_avahi, stop_avahi, start_watcher, reload_avahi_services, reload_webui,
}
use nfs_klldap_host.Supervisor.State.{
  reaped, prepared_dirs, fixed_permissions, seeded_probe, marked_recycle, Os, M, ◌>>=◌, ◌>>◌, pure,
  done, when, get, modify, act, observe,
}

pub record FingerprintChanges : Type 0 where
  pub exports_changed : Bool
  pub identity_changed : Bool
  pub shares_changed : Bool
  pub avahi_changed : Bool

abbrev differs : ℕ → ℕ → Bool
differs a b = not (a == b)

abbrev pub or_else : Option ℕ → ℕ → ℕ
or_else none d = d
or_else (some n) d = n

abbrev pub is_stop_start : GaneshaAction → Bool
is_stop_start stop_start = true
is_stop_start _ = false

module _ {os : Os} where
  -- `Command::status_with_timeout` on the generator; false for a failure to run it and for a status
  -- that is not success.
  unfoldable pub generate : M os Bool
  generate s = let (ok, w) = os.generate s.world in (ok, record s { world = w })

  unfoldable pub run_post_generate_hooks : M os Bool
  run_post_generate_hooks s = let (ok, w) = os.hooks s.world in (ok, record s { world = w })

  -- What follows a successful generate and its hooks; the arguments are the fingerprints before.
  unfoldable pub diff_after : ℕ → ℕ → ℕ → ℕ → M os FingerprintChanges
  diff_after exports_before identity_before shares_before avahi_before = do
    act fixed_permissions
    host_nfs ← observe os.host_nfs
    modify (λ s. record s { env = record (s.env) { host_nfs_mode = host_nfs } })
    exports_after ← observe os.exports_fp
    identity_after ← observe os.identity_fp
    avahi_after ← observe os.avahi_fp
    loaded ← observe os.shares_fp
    let shares_after = or_else loaded shares_before
    modify (λ s. record s { last_shares_fingerprint = shares_after })
    pure (record {
      exports_changed = differs exports_before exports_after;
      identity_changed = differs identity_before identity_after;
      shares_changed = differs shares_before shares_after;
      avahi_changed = differs avahi_before avahi_after;
    })

  -- `none` for `Err`.
  unfoldable pub regenerate_and_diff : M os (Option FingerprintChanges)
  unfolding generate run_post_generate_hooks diff_after
  regenerate_and_diff = do
    exports_before ← observe os.exports_fp
    identity_before ← observe os.identity_fp
    sup ← get
    avahi_before ← observe os.avahi_fp
    generated ← generate
    if not generated then pure none else do
      hooked ← run_post_generate_hooks
      if not hooked then pure none else do
        changes ← diff_after exports_before identity_before sup.last_shares_fingerprint avahi_before
        pure (some changes)

  unfoldable pub reload_or_escalate : ServiceRecyclePlan → M os ServiceRecyclePlan
  reload_or_escalate plan = do
    reloaded ← reload_ganesha_exports
    if reloaded then pure plan else do
      running ← ganesha_running
      when running stop_ganesha
      pure (ganesha_sighup_failed plan)

  unfoldable pub recycle_ganesha : GaneshaAction → ServiceRecyclePlan → M os ServiceRecyclePlan
  unfolding reload_or_escalate
  recycle_ganesha skip plan = pure plan
  recycle_ganesha sighup plan = reload_or_escalate plan
  recycle_ganesha stop_start plan = do stop_ganesha; pure plan

  unfoldable pub restart_ganesha : ServiceRecyclePlan → M os (Unit {0})
  restart_ganesha plan = do
    sup ← get
    when (not sup.env.host_nfs_mode && is_stop_start plan.ganesha) (do
      running ← ganesha_running
      when (not running) (do ensure_ganesha_prereqs; start_ganesha))

  unfoldable pub recycle_webui : WebuiAction → M os (Unit {0})
  recycle_webui leave = done
  recycle_webui restart = do started ← start_webui; done
  recycle_webui reload = reload_webui

  unfoldable pub run_plan : ServiceRecyclePlan → M os (Unit {0})
  unfolding recycle_ganesha restart_ganesha recycle_webui
  run_plan plan = do
    sup ← get
    plan' ← if sup.env.host_nfs_mode then pure plan else recycle_ganesha plan.ganesha plan
    when plan'.restart_sssd restart_sssd_and_wait
    when plan'.restart_idhelper restart_idhelper_and_wait_bulk
    restart_ganesha plan'
    recycle_webui plan'.webui
    when plan'.restart_avahi (do stop_avahi; start_avahi)

  unfoldable pub execute_recycle_plan : ServiceRecyclePlan → M os (Unit {0})
  unfolding run_plan
  execute_recycle_plan plan = do
    act prepared_dirs
    sup ← get
    if sup.env.supervise_probe
          && not sup.env.supervise_recycle_probe
          && not sup.env.supervise_identity_recycle_probe
        then act seeded_probe
        else if is_noop plan
        then done
        else run_plan plan

  unfoldable pub touch_recycle_marker : M os (Unit {0})
  touch_recycle_marker = act marked_recycle

  unfoldable pub finish_recycle : M os (Unit {0})
  unfolding touch_recycle_marker
  finish_recycle = do
    sup ← get
    when (not sup.services_started)
        (do modify (λ s. record s { services_started = true }); watching ← start_watcher; done)
    touch_recycle_marker

  -- The plan of `handle_sighup`: scoped when services run, full when they do not.
  unfoldable pub sighup_plan : FingerprintChanges → M os ServiceRecyclePlan
  sighup_plan changes = do
    sup ← get
    if sup.services_started
        then (do
          running ← ganesha_running
          pure (
              plan_from_changes changes.exports_changed changes.identity_changed
                changes.shares_changed sup.env.host_nfs_mode running))
        else pure (plan_full_recycle sup.env.host_nfs_mode)

  unfoldable pub apply_changes : Option FingerprintChanges → M os Bool
  unfolding sighup_plan
  apply_changes none = pure false
  apply_changes (some changes) = do
    plan ← sighup_plan changes
    execute_recycle_plan plan
    when (changes.avahi_changed && not plan.restart_avahi) reload_avahi_services
    finish_recycle
    pure true

  -- True for `Ok`.
  unfoldable pub handle_sighup : M os Bool
  unfolding apply_changes
  handle_sighup = do
    act reaped
    refresh_tracked_ganesha_pid
    changes ← regenerate_and_diff
    apply_changes changes

  unfoldable pub recycle_all : Option FingerprintChanges → M os Bool
  recycle_all none = pure false
  recycle_all (some changes) = do
    sup ← get
    execute_recycle_plan (plan_full_recycle sup.env.host_nfs_mode)
    finish_recycle
    pure true

  -- True for `Ok`.
  unfoldable pub handle_full_recycle : M os Bool
  unfolding recycle_all
  handle_full_recycle = do
    act reaped
    refresh_tracked_ganesha_pid
    changes ← regenerate_and_diff
    recycle_all changes
