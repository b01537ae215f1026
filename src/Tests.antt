-- ===== src/Tests.antt =====
-- A small operating system to run the supervisor of nfs-klldap-config/src/supervisor on, and the
-- instances of the theorems on it and on concrete plans, budgets and startup steps.
use nfs_klldap_host.Prelude.{
  ℕ, ◌+◌, ◌≡◌, ◌≢◌, Bool, true, false, none, some, List, [], ◌∷◌, refl, arith, ltb,
}
use nfs_klldap_host.Recycle.{ServiceRecyclePlan, plan_full_recycle, sighup, reload}
use nfs_klldap_host.Respawn.{Service, RespawnBudget, RespawnDecision, fresh_budget, decide}
use nfs_klldap_host.Respawn.Attempts.{IsMonotone, Limited, Spaced, grants}
use nfs_klldap_host.Respawn.Window.{grants_bounded, decide-go_of_quiet}
use nfs_klldap_host.Startup.{StartupStep, Probes, LoadedConfig, idle, supervisor_loop_tick}
use nfs_klldap_host.Supervisor.Apply.{handle_sighup, execute_recycle_plan}
use nfs_klldap_host.Supervisor.Emits.{all_acts}
use nfs_klldap_host.Supervisor.Graceful.{is_graceful}
use nfs_klldap_host.Supervisor.HostNfs.{spares_server, execute_recycle_plan_host}
use nfs_klldap_host.Supervisor.HostStart.{start_preconfigured_host}
use nfs_klldap_host.Supervisor.Loop.{check_and_respawn_services, start_preconfigured}
use nfs_klldap_host.Supervisor.ReloadResults.{Reloads, handle_sighup-Reloads}
use nfs_klldap_host.Supervisor.Reloads.{handle_sighup_graceful}
use nfs_klldap_host.Supervisor.Respawns.{check_and_respawn_services_host}
use nfs_klldap_host.Supervisor.State.{Act, slept, Os, Env, ChildPids, Machine}

-- The world is its clock. Processes below 100 stay alive, whatever is sent to them.
abbrev tick : Act → ℕ → ℕ
tick (slept ms) w = w + ms
tick _ w = w

abbrev toy_os : Os
toy_os = record {
  World = ℕ;
  now = λ w. w;
  is_live = λ pid w. ltb pid 100;
  perform = tick;
  spawn = λ service w. (some 500, w);
  ask = λ q w. (true, w);
  generate = λ w. (true, w + 1);
  hooks = λ w. (true, w);
  wizard_step = λ w. (StartupStep.ready, w);
  startup_step = λ w. (StartupStep.ready, w);
  host_nfs = λ w. false;
  exports_fp = λ w. w;
  identity_fp = λ w. 1;
  avahi_fp = λ w. 1;
  shares_fp = λ w. some 5;
  discover_ganesha = λ w. none;
  ganesha_pidfile = λ w. none;
}

abbrev toy_env : Bool → Env
toy_env host = record {
  host_nfs_mode = host;
  supervise_probe = false;
  supervise_wizard_probe = false;
  supervise_loop_probe = false;
  supervise_recycle_probe = false;
  supervise_identity_recycle_probe = false;
  supervise_sighup_hook_probe = false;
  test_persistent = false;
  tick_ms_set = false;
  skip_principal_warm = true;
  stop_term_secs = 1;
  supervisor_max_ticks = 3;
  supervisor_tick_ms = 500;
}

-- Ganesha and SSSD are alive; the WebUI has died.
abbrev toy_pids : ChildPids
toy_pids = record {
  watcher = some 4;
  sssd = some 11;
  ganesha = some 12;
  webui = some 200;
  dbus = some 13;
  idhelper = some 14;
  avahi = none;
}

abbrev running : Bool → Machine toy_os
running host = record {
  sup = record {
    env = toy_env host;
    pids = toy_pids;
    services_started = true;
    ganesha_managed = true;
    avahi_managed = false;
    last_shares_fingerprint = 0;
    respawn = fresh_budget;
  };
  world = 1000;
  trace = [];
}

handle_sighup_graceful_example : all_acts is_graceful (handle_sighup (running false)).1.trace ≡ true
handle_sighup_graceful_example = handle_sighup_graceful (running false) refl refl

handle_sighup-Reloads_example :
    Reloads (running false) (handle_sighup (running false)).0 (handle_sighup (running false)).1
handle_sighup-Reloads_example = handle_sighup-Reloads (running false)

execute_recycle_plan_host_example :
    let m' = (execute_recycle_plan (plan_full_recycle false) (running true)).1 in
    (all_acts spares_server m'.trace ≡ true) × (m'.sup.env.host_nfs_mode ≡ true)
execute_recycle_plan_host_example =
    execute_recycle_plan_host (plan_full_recycle false) (running true) refl refl

check_and_respawn_services_host_example :
    let m' = (check_and_respawn_services (running true)).1 in
    (all_acts spares_server m'.trace ≡ true) × (m'.sup.env.host_nfs_mode ≡ true)
check_and_respawn_services_host_example = check_and_respawn_services_host (running true) refl refl

start_preconfigured_host_example :
    all_acts spares_server (start_preconfigured (running true)).1.trace ≡ true
start_preconfigured_host_example = start_preconfigured_host (running true) refl refl

abbrev calls : List (Service × ℕ)
calls =
    (Service.webui, 0)
    ∷ (Service.webui, 10000)
    ∷ (Service.sssd, 10000)
    ∷ (Service.webui, 20000)
    ∷ (Service.webui, 30000)
    ∷ (Service.webui, 700000)
    ∷ []

calls-IsMonotone : IsMonotone 0 calls
calls-IsMonotone = ground arith

grants_bounded_example :
    Limited (grants Service.webui fresh_budget [] calls)
    × Spaced (grants Service.webui fresh_budget [] calls)
grants_bounded_example = grants_bounded Service.webui calls calls-IsMonotone

-- The WebUI has used its budget up, and the notice is out.
abbrev spent : RespawnBudget
spent = record { attempts = λ s. 1 ∷ 2 ∷ 3 ∷ []; exhausted_logged = λ s. true }

decide-go_of_quiet_example :
    ((decide spent Service.webui 600003).1 ≡ RespawnDecision.go)
    × ((decide spent Service.webui 600003).0.exhausted_logged Service.webui ≡ false)
    × ((decide spent Service.webui 600003).0.attempts Service.webui ≡ 600003 ∷ [])
decide-go_of_quiet_example =
    decide-go_of_quiet spent Service.webui 600003 (omega arith, (omega arith, (omega arith, tt)))

acted : (supervisor_loop_tick false false false true StartupStep.ready).0 ≢ idle
unfolding supervisor_loop_tick
acted = ground arith

abbrev complete : LoadedConfig
complete = record {
  uri_blank = false;
  uri_structurally_valid = true;
  bind_dn_blank = false;
  authtok_blank = false;
}

abbrev probes : Probes
probes = record {
  persistent_writable = true;
  lenient = some complete;
  strict = some complete;
  reachable = false;
  bind_ok = false;
  wizard_marker = true;
}

abbrev reload_plan : ServiceRecyclePlan
reload_plan = record {
  ganesha = sighup;
  restart_sssd = false;
  restart_idhelper = false;
  webui = reload;
  identity_staged = false;
  restart_avahi = false;
}
