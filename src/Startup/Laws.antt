-- ===== src/Startup/Laws.antt =====
-- The order of the first-run steps, and what one supervisor tick may lose or start.
use nfs_klldap_host.Prelude.{ℕ, ◌<◌, ◌≡◌, ◌≢◌, ◌↔◌, ◌⊎◌, Bool, true, false, some, arith}
use nfs_klldap_host.Startup.{
  StartupStep, wait_for_persistent_volume, set_ldap_uri, add_bind_credentials, ready, LoadedConfig,
  Probes, is_step_complete, compute_wizard_step, compute_startup_step, is_preconfigured_deployment,
  effective_startup_step, should_bring_up_services, process_sighup, process_full_recycle,
  bring_up_services, idle, supervisor_loop_tick,
}

-- The place of a step in the first run.
abbrev pub rank : StartupStep → ℕ
rank wait_for_persistent_volume = 0
rank set_ldap_uri = 1
rank add_bind_credentials = 2
rank ready = 3

-- A step counts as complete exactly when it comes strictly before the current one.
is_step_complete_iff :
    (step current : StartupStep)
    → (is_step_complete step current ≡ true) ↔ (rank step < rank current)
unfolding is_step_complete
is_step_complete_iff step current = ground arith

-- One tick, for all inputs: a pending full recycle never falls back to a scoped reload or to idling
-- (it becomes a full recycle or a cold bring-up); a lone SIGHUP is always processed; services are
-- brought up only while they are down, the wizard is complete and the step is ready; and the tick
-- idles exactly when nothing is pending and no bring-up is due.
pub supervisor_loop_tick_lem :
    (started sighup full wizard : Bool) (step : StartupStep)
    → let action = (supervisor_loop_tick started sighup full wizard step).0 in
      (full ≡ true → (action ≡ process_full_recycle) ⊎ (action ≡ bring_up_services))
      × (full ≡ false → sighup ≡ true → action ≡ process_sighup)
      × (action ≡ bring_up_services → (started ≡ false) × (wizard ≡ true) × (step ≡ ready))
      × ((action ≡ idle) ↔ (
          (full ≡ false)
          × (sighup ≡ false)
          × (should_bring_up_services started wizard step ≡ false)))
unfolding supervisor_loop_tick
supervisor_loop_tick_lem started sighup full wizard step = ground arith

-- After a tick that acted, the reported `services_started` makes the next quiet tick idle.
supervisor_loop_tick_settles :
    (started sighup full wizard : Bool) (step later : StartupStep)
    → (supervisor_loop_tick started sighup full wizard step).0 ≢ idle
    → supervisor_loop_tick
        (supervisor_loop_tick started sighup full wizard step).1
        false
        false
        wizard
        later
      ≡ (idle, true)
unfolding supervisor_loop_tick
supervisor_loop_tick_settles started sighup full wizard step later h = ground arith

-- The wizard reports ready only on a writable volume, with a loadable configuration whose URI is
-- structurally valid and whose bind fields are set, and with the completion marker present.
compute_wizard_step-ready_iff :
    (p : Probes)
    → (compute_wizard_step p ≡ ready) ↔ (
        (p.persistent_writable ≡ true)
        × (p.wizard_marker ≡ true)
        × ((cfg : LoadedConfig) × (p.lenient ≡ some cfg)
            × (cfg.uri_structurally_valid ≡ true)
            × (cfg.bind_dn_blank ≡ false)
            × (cfg.authtok_blank ≡ false)))
unfolding compute_wizard_step
compute_wizard_step-ready_iff p = ground arith

-- The live startup step is ready exactly when the volume is writable, the validated configuration
-- loads with a URI and bind fields, the server is reachable and the bind succeeds.
compute_startup_step-ready_iff :
    (p : Probes)
    → (compute_startup_step p ≡ ready) ↔ (
        (p.persistent_writable ≡ true)
        × (p.reachable ≡ true)
        × (p.bind_ok ≡ true)
        × ((cfg : LoadedConfig) × (p.strict ≡ some cfg)
            × (cfg.uri_blank ≡ false)
            × (cfg.bind_dn_blank ≡ false)
            × (cfg.authtok_blank ≡ false)))
unfolding compute_startup_step
compute_startup_step-ready_iff p = ground arith

-- A preconfigured deployment is ready whatever the LDAP probes answer; any other one has the live
-- step.
effective_startup_step_cases :
    (keytab : Bool) (p : Probes)
    → ((is_preconfigured_deployment keytab p ≡ true)
        × (p.persistent_writable ≡ true)
        × (effective_startup_step keytab p ≡ ready))
      ⊎ ((is_preconfigured_deployment keytab p ≡ false)
          × (effective_startup_step keytab p ≡ compute_startup_step p))
unfolding effective_startup_step
effective_startup_step_cases keytab p = ground arith
