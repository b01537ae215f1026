-- ===== src/Supervisor/Services.antt =====
-- The other services' starts, stops and reloads: services.rs and mod.rs of
-- nfs-klldap-config/src/supervisor.
use nfs_klldap_host.Prelude.{ℕ, Bool, true, false, not, ◌||◌, Option, none, some, if◌then◌else◌}
use nfs_klldap_host.Respawn.{Service}
use nfs_klldap_host.Supervisor.Ganesha.{is_some, wait_exit_within}
use nfs_klldap_host.Supervisor.State.{
  term, hup, kill, signalled, pkilled, slept, reaped, ran_rpcbind, prepared_dirs, set_preresolve,
  navahi_enabled, nss_pipe, idhelper_seed, rpcbind_installed, rpcbind_running, dbus_running,
  dbus_ready, Os, M, ◌>>=◌, ◌>>◌, pure, done, when, get, modify, modify_pids, act, start_process,
  ask, live, poll,
}

module _ {os : Os} where
  abbrev pub set_webui : Option ℕ → M os (Unit {0})
  set_webui pid = modify_pids (λ p. record p { webui = pid })

  abbrev pub set_sssd : Option ℕ → M os (Unit {0})
  set_sssd pid = modify_pids (λ p. record p { sssd = pid })

  abbrev pub set_idhelper : Option ℕ → M os (Unit {0})
  set_idhelper pid = modify_pids (λ p. record p { idhelper = pid })

  abbrev pub set_watcher : Option ℕ → M os (Unit {0})
  set_watcher pid = modify_pids (λ p. record p { watcher = pid })

  abbrev pub set_dbus : Option ℕ → M os (Unit {0})
  set_dbus pid = modify_pids (λ p. record p { dbus = pid })

  abbrev pub set_avahi : Option ℕ → M os (Unit {0})
  set_avahi pid = modify_pids (λ p. record p { avahi = pid })

  abbrev pub set_avahi_managed : Bool → M os (Unit {0})
  set_avahi_managed b = modify (λ s. record s { avahi_managed = b })

  -- SIGTERM to the pid that the caller tracks, live or not, and a pause of `ms`.
  unfoldable pub term_tracked : Service → ℕ → Option ℕ → M os (Unit {0})
  term_tracked service ms none = done
  term_tracked service ms (some pid) = do act (signalled service term pid); act (slept ms)

  unfoldable pub adopt_webui : Option ℕ → M os Bool
  adopt_webui none = pure false
  adopt_webui (some pid) = do set_webui (some pid); act (slept 800); pure true

  -- True for `Ok`. A failed spawn leaves the tracked pid as it was.
  unfoldable pub start_webui : M os Bool
  unfolding adopt_webui term_tracked
  start_webui = do
    sup ← get
    if sup.env.supervise_recycle_probe || sup.env.supervise_identity_recycle_probe
          || sup.env.supervise_probe
        then pure true
        else do
          term_tracked Service.webui 300 sup.pids.webui
          child ← start_process Service.webui
          adopt_webui child

  unfoldable pub signal_sssd : Option ℕ → M os (Unit {0})
  signal_sssd none = done
  signal_sssd (some pid) = act (signalled Service.sssd term pid)

  unfoldable pub restart_sssd_and_wait : M os (Unit {0})
  unfolding signal_sssd
  restart_sssd_and_wait = do
    sup ← get
    signal_sssd sup.pids.sssd
    act (pkilled Service.sssd)
    act (slept 500)
    child ← start_process Service.sssd
    when (is_some child) (set_sssd child)
    ready ← poll nss_pipe 300 (if sup.env.test_persistent then 10 else 60)
    done

  unfoldable pub restart_idhelper_and_wait_bulk : M os (Unit {0})
  unfolding term_tracked
  restart_idhelper_and_wait_bulk = do
    act set_preresolve
    sup ← get
    term_tracked Service.idhelper 200 sup.pids.idhelper
    act (pkilled Service.idhelper)
    act (slept 200)
    child ← start_process Service.idhelper
    when (is_some child) (set_idhelper child)
    ready ← poll idhelper_seed 200 (if sup.env.test_persistent then 15 else 60)
    done

  unfoldable pub start_rpcbind : M os (Unit {0})
  start_rpcbind = do
    installed ← ask rpcbind_installed
    when installed (do
      running ← ask rpcbind_running
      when (not running)
          (do act ran_rpcbind; up ← ask rpcbind_running; when (not up) (act ran_rpcbind)))

  unfoldable pub adopt_dbus : Option ℕ → M os (Unit {0})
  adopt_dbus none = done
  adopt_dbus (some pid) = do set_dbus (some pid); act (slept 500)

  unfoldable pub ensure_ganesha_prereqs : M os (Unit {0})
  unfolding start_rpcbind adopt_dbus
  ensure_ganesha_prereqs = do
    start_rpcbind
    act prepared_dirs
    running ← ask dbus_running
    when (not running) (do child ← start_process Service.dbus; adopt_dbus child)
    ready ← poll dbus_ready 200 50
    done

  unfoldable pub adopt_avahi : Option ℕ → M os (Unit {0})
  adopt_avahi none = done
  adopt_avahi (some pid) = do set_avahi (some pid); set_avahi_managed true

  -- Gated on `navahi_discovery` and on the in-container NFS server.
  unfoldable pub start_avahi : M os (Unit {0})
  unfolding adopt_avahi
  start_avahi = do
    enabled ← ask navahi_enabled
    sup ← get
    if not enabled then done else if sup.env.host_nfs_mode then done else do
      alive ← live sup.pids.avahi
      if alive
          then done
          else do set_avahi none; child ← start_process Service.avahi; adopt_avahi child

  unfoldable pub kill_avahi : ℕ → M os (Unit {0})
  kill_avahi pid = do
    alive ← live (some pid)
    when alive (do
      act (signalled Service.avahi term pid)
      gone ← wait_exit_within pid 3000
      still ← live (some pid)
      when still (act (signalled Service.avahi kill pid)))
    set_avahi none

  unfoldable pub stop_avahi_tracked : Option ℕ → M os (Unit {0})
  unfolding kill_avahi
  stop_avahi_tracked none = set_avahi_managed false
  stop_avahi_tracked (some pid) = do kill_avahi pid; set_avahi_managed false

  unfoldable pub stop_avahi : M os (Unit {0})
  unfolding stop_avahi_tracked
  stop_avahi = do sup ← get; stop_avahi_tracked sup.pids.avahi

  unfoldable pub adopt_watcher : Option ℕ → M os Bool
  adopt_watcher none = pure false
  adopt_watcher (some pid) = do set_watcher (some pid); pure true

  -- True for `Ok`.
  unfoldable pub start_watcher : M os Bool
  unfolding adopt_watcher
  start_watcher = do
    sup ← get
    if sup.env.supervise_probe
        then pure true
        else do child ← start_process Service.watcher; adopt_watcher child

  unfoldable pub hup_avahi : Option ℕ → M os (Unit {0})
  hup_avahi none = done
  hup_avahi (some pid) = do
    alive ← live (some pid)
    when alive (act (signalled Service.avahi hup pid))

  unfoldable pub reload_avahi_services : M os (Unit {0})
  unfolding hup_avahi
  reload_avahi_services = do sup ← get; hup_avahi sup.pids.avahi

  unfoldable pub respawn_webui : M os (Unit {0})
  unfolding start_webui
  respawn_webui = do set_webui none; started ← start_webui; done

  unfoldable pub hup_webui : Option ℕ → M os (Unit {0})
  unfolding respawn_webui
  hup_webui none = respawn_webui
  hup_webui (some pid) = do
    alive ← live (some pid)
    if not alive then respawn_webui else do
      act (signalled Service.webui hup pid)
      act (slept 300)
      act reaped
      still ← live (some pid)
      when (not still) respawn_webui

  -- SIGHUP in place; a fresh process only when there is none, or when it dies on the signal.
  unfoldable pub reload_webui : M os (Unit {0})
  unfolding hup_webui
  reload_webui = do sup ← get; hup_webui sup.pids.webui
