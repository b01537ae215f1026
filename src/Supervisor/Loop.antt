-- ===== src/Supervisor/Loop.antt =====
-- The respawns, the bring-up, the shutdown and the main loop of
-- nfs-klldap-config/src/supervisor/mod.rs.
use nfs_klldap_host.Prelude.{
  ℕ, zero, suc, ◌+◌, ◌%◌, Bool, true, false, not, ◌&&◌, Option, none, some, List, [], ◌∷◌,
  if◌then◌else◌, ◌==◌, leb,
}
use nfs_klldap_host.Respawn.{Service, RespawnDecision, decide}
use nfs_klldap_host.Startup.{
  StartupStep, SupervisorLoopAction, process_sighup, process_full_recycle, bring_up_services, idle,
  supervisor_loop_tick,
}
use nfs_klldap_host.Supervisor.Apply.{
  generate, run_post_generate_hooks, or_else, handle_sighup, handle_full_recycle,
  touch_recycle_marker,
}
use nfs_klldap_host.Supervisor.Ganesha.{
  is_some, set_ganesha_managed, stop_ganesha, start_ganesha, wait_for_ganesha_readiness,
}
use nfs_klldap_host.Supervisor.Services.{
  set_avahi_managed, start_webui, restart_sssd_and_wait, restart_idhelper_and_wait_bulk,
  ensure_ganesha_prereqs, start_avahi, start_watcher,
}
use nfs_klldap_host.Supervisor.State.{
  term, signalled, pkilled, slept, reaped, prepared_dirs, fixed_permissions, seeded_probe,
  rotated_logs, marked_wizard, cleared_recycle_marker, shutdown_requested, sighup_requested,
  full_recycle_requested, wizard_complete, recycle_marker, Os, ChildPids, Supervisor, M, ◌>>=◌,
  ◌>>◌, pure, done, when, get, modify, act, ask, observe, live,
}

-- The order of `check_and_respawn_services`.
abbrev pub respawn_order : List Service
respawn_order =
    Service.dbus ∷ Service.sssd ∷ Service.idhelper ∷ Service.watcher ∷ Service.webui
    ∷ Service.ganesha ∷ Service.avahi ∷ []

abbrev pub pid_of : Service → ChildPids → Option ℕ
pid_of Service.dbus p = p.dbus
pid_of Service.sssd p = p.sssd
pid_of Service.idhelper p = p.idhelper
pid_of Service.watcher p = p.watcher
pid_of Service.webui p = p.webui
pid_of Service.ganesha p = p.ganesha
pid_of Service.avahi p = p.avahi

-- `respawn_needed`; the Boolean is whether the tracked pid is live.
unfoldable pub needed_when : Service → Supervisor → Bool → Bool
needed_when Service.webui s alive = is_some s.pids.webui && not alive
needed_when Service.ganesha s alive = s.ganesha_managed && not s.env.host_nfs_mode && not alive
needed_when Service.avahi s alive = s.avahi_managed && not s.env.host_nfs_mode && not alive
needed_when service s alive = s.services_started && is_some (pid_of service s.pids) && not alive

-- How the loop goes on after a tick.
pub data Outcome : Type 0 where
  again exit_ok exit_err : Outcome

module _ {os : Os} where
  unfoldable pub respawn_needed : Service → M os Bool
  unfolding needed_when
  respawn_needed service = do
    sup ← get
    alive ← live (pid_of service sup.pids)
    pure (needed_when service sup alive)

  unfoldable pub respawn_service : Service → M os (Unit {0})
  respawn_service Service.webui = do started ← start_webui; done
  respawn_service Service.watcher = do started ← start_watcher; done
  respawn_service Service.sssd = restart_sssd_and_wait
  respawn_service Service.idhelper = restart_idhelper_and_wait_bulk
  respawn_service Service.dbus = ensure_ganesha_prereqs
  respawn_service Service.ganesha = start_ganesha
  respawn_service Service.avahi = start_avahi

  unfoldable pub respawn_on : RespawnDecision → Service → M os (Unit {0})
  respawn_on RespawnDecision.go service = respawn_service service
  respawn_on _ service = done

  unfoldable pub consider : Service → ℕ → M os (Unit {0})
  unfolding respawn_on
  consider service now = do
    needed ← respawn_needed service
    when needed (do
      sup ← get
      modify (λ s. record s { respawn = (decide sup.respawn service now).0 })
      respawn_on (decide sup.respawn service now).1 service)

  unfoldable pub consider_all : ℕ → List Service → M os (Unit {0})
  consider_all now [] = done
  consider_all now (service ∷ rest) = do consider service now; consider_all now rest

  unfoldable pub check_and_respawn_services : M os (Unit {0})
  check_and_respawn_services = do now ← observe os.now; consider_all now respawn_order

  unfoldable pub start_daemons : M os Bool
  start_daemons = do
    restart_sssd_and_wait
    restart_idhelper_and_wait_bulk
    sup ← get
    when (not sup.env.host_nfs_mode) (do ensure_ganesha_prereqs; start_ganesha; start_avahi)
    pure true

  unfoldable pub after_hooks : M os Bool
  unfolding start_daemons
  after_hooks = do
    act fixed_permissions
    loaded ← observe os.shares_fp
    modify (λ s. record s { last_shares_fingerprint = or_else loaded 0 })
    act prepared_dirs
    sup ← get
    if sup.env.supervise_probe then (do act seeded_probe; pure true) else start_daemons

  -- `Supervisor::bring_up_services`; true for `Ok`.
  unfoldable pub bring_up : M os Bool
  unfolding after_hooks
  bring_up = do
    generated ← generate
    if not generated
        then pure false
        else do hooked ← run_post_generate_hooks; if not hooked then pure false else after_hooks

  -- The arms of the tick for SIGHUP and SIGUSR1: an `Err` leaves everything as it is.
  after_reload : Bool → Bool → M os (Unit {0})
  after_reload need_watcher ok = when ok (do
    modify (λ s. record s { services_started = true })
    when need_watcher (do started ← start_watcher; done))

  bring_up_arm : M os (Unit {0})
  bring_up_arm = do
    act marked_wizard
    up ← bring_up
    when up (do
      modify (λ s. record s { services_started = true })
      watching ← start_watcher
      sup ← get
      when (not sup.env.host_nfs_mode && is_some sup.pids.ganesha)
          (do ready ← wait_for_ganesha_readiness; done)
      started ← start_webui
      touch_recycle_marker)

  unfoldable pub run_action : SupervisorLoopAction → M os (Unit {0})
  unfolding after_reload bring_up_arm
  run_action process_sighup = do
    sup ← get
    ok ← handle_sighup
    after_reload (not (is_some sup.pids.watcher)) ok
  run_action process_full_recycle = do
    sup ← get
    ok ← handle_full_recycle
    after_reload (not (is_some sup.pids.watcher)) ok
  run_action bring_up_services = bring_up_arm
  run_action idle = check_and_respawn_services

  current_step : M os StartupStep
  current_step s =
      if s.sup.services_started
      then (StartupStep.ready, s)
      else let (step, w) =
          if s.sup.env.supervise_probe then os.wizard_step s.world else os.startup_step s.world in
        (step, record s { world = w })

  term_all : List Service → ChildPids → M os (Unit {0})
  term_all [] pids = done
  term_all (service ∷ rest) pids = do term_one service (pid_of service pids); term_all rest pids
    where
      term_one : Service → Option ℕ → M os (Unit {0})
      term_one service none = done
      term_one service (some pid) = act (signalled service term pid)

  -- `cleanup`, up to its `exit(0)`.
  unfoldable pub cleanup : M os (Unit {0})
  unfolding term_all
  cleanup = do
    sup ← get
    term_all
        (Service.webui ∷ Service.ganesha ∷ Service.sssd ∷ Service.watcher ∷ Service.dbus
          ∷ Service.idhelper ∷ Service.avahi ∷ [])
        sup.pids
    stop_ganesha
    set_ganesha_managed false
    set_avahi_managed false
    act (pkilled Service.avahi)
    act (pkilled Service.sssd)
    act (pkilled Service.watcher)
    act (pkilled Service.dbus)
    act (pkilled Service.idhelper)
    act (slept 1000)

  end_of_tick : Bool → ℕ → M os Outcome
  end_of_tick bounded ticks = do
    act reaped
    when (ticks % 30 == 0) (act rotated_logs)
    sup ← get
    if bounded && leb sup.env.supervisor_max_ticks (ticks + 1)
        then (do marker ← ask recycle_marker; pure (if marker then exit_ok else exit_err))
        else do act (slept sup.env.supervisor_tick_ms); pure again

  -- One pass of the loop, with the number of the passes before it.
  unfoldable pub loop_pass : Bool → ℕ → M os Outcome
  unfolding current_step end_of_tick
  loop_pass bounded ticks = do
    stop ← ask shutdown_requested
    if stop then (do cleanup; pure exit_ok) else do
      sighup ← ask sighup_requested
      full ← ask full_recycle_requested
      wizard ← ask wizard_complete
      sup ← get
      step ← current_step
      run_action (supervisor_loop_tick sup.services_started sighup full wizard step).0
      end_of_tick bounded ticks

  -- `supervisor_loop` for so many passes; `again` when they are used up.
  unfoldable pub supervisor_loop_from : Bool → ℕ → ℕ → M os Outcome
  supervisor_loop_from bounded ticks zero s = (again, s)
  supervisor_loop_from bounded ticks (suc passes) s =
      let (outcome, s') = loop_pass bounded ticks s in
      let later = supervisor_loop_from bounded (ticks + 1) passes s' in
      elim outcome [ again ↦ later | exit_ok ↦ (exit_ok, s') | exit_err ↦ (exit_err, s') ]

  -- `run_supervisor` on a preconfigured deployment, up to the loop; false for its `?` on bring-up.
  unfoldable pub start_preconfigured : M os Bool
  start_preconfigured = do
    act marked_wizard
    up ← bring_up
    if not up then pure false else do
      modify (λ s. record s { services_started = true })
      act cleared_recycle_marker
      sup ← get
      when (not sup.env.host_nfs_mode) (do ready ← wait_for_ganesha_readiness; done)
      watching ← start_watcher
      when (not sup.env.host_nfs_mode) (do started ← start_webui; done)
      pure true
