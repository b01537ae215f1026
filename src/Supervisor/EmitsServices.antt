-- ===== src/Supervisor/EmitsServices.antt =====
-- The acts of each service operation: those on the service itself, and those that reach no service.
use nfs_klldap_host.Prelude.{ℕ, zero, suc, ◌≡◌, Bool, true, Option, none, some, arith}
use nfs_klldap_host.Respawn.{Service}
use nfs_klldap_host.Supervisor.Emits.{
  Emits, Permits, Launches, Neutral, do_rules, Emits-ask, Emits-act,
}
use nfs_klldap_host.Supervisor.Ganesha.{
  refresh_tracked_ganesha_pid, ganesha_running, wait_exit, wait_exit_within, kill_ganesha,
  stop_tracked, stop_ganesha, start_ganesha, recover_from, confirm_ganesha_daemon_pid_env,
  wait_for_idhelper_socket, warm_identity_principals_before_ganesha, quiet_winbind, adopt_ganesha,
  reload_tracked, reload_ganesha_exports, ready_before, wait_for_ganesha_readiness,
}
use nfs_klldap_host.Supervisor.Keeps.{Keeps}
use nfs_klldap_host.Supervisor.Services.{
  start_webui, restart_sssd_and_wait, restart_idhelper_and_wait_bulk, ensure_ganesha_prereqs,
  start_avahi, stop_avahi, start_watcher, reload_avahi_services, reload_webui, term_tracked,
  adopt_webui, signal_sssd, start_rpcbind, adopt_dbus, adopt_avahi, kill_avahi, stop_avahi_tracked,
  adopt_watcher, hup_avahi, respawn_webui, hup_webui,
}
use nfs_klldap_host.Supervisor.State.{
  Act, slept, reaped, signalled, Signal, hup, Os, Env, act, ask, ganesha_ready,
}

module _ {os : Os} {p : Act → Bool} {e : Env} {b : Bool} (n : Neutral p) where
  pub refresh-Emits : Keeps {os = os} (Emits p e b) refresh_tracked_ganesha_pid
  unfolding refresh_tracked_ganesha_pid
  refresh-Emits = search do_rules depth 12

  pub ganesha_running-Emits : Keeps {os = os} (Emits p e b) ganesha_running
  unfolding ganesha_running
  ganesha_running-Emits = search (do_rules, refresh-Emits) depth 12

  wait_exit-Emits :
      (pid deadline rounds : ℕ) → Keeps {os = os} (Emits p e b) (wait_exit pid deadline rounds)
  unfolding wait_exit
  wait_exit-Emits pid deadline zero = record { holds = λ m v. v }
  wait_exit-Emits pid deadline (suc rounds) = record {
    holds = λ m v. ground (
      arith,
      n.sleeps 100,
      n.reaps,
      (wait_exit-Emits pid deadline rounds).holds ((act reaped) ((act (slept 100)) m).1).1,
    );
  }

  pub wait_exit_within-Emits :
      (pid ms : ℕ) → Keeps {os = os} (Emits p e b) (wait_exit_within pid ms)
  unfolding wait_exit_within
  wait_exit_within-Emits pid ms = search (do_rules, wait_exit-Emits) depth 12

  module _ (g : Permits p Service.ganesha) where
    kill_ganesha-Emits : (pid : ℕ) → Keeps {os = os} (Emits p e b) (kill_ganesha pid)
    unfolding kill_ganesha
    kill_ganesha-Emits pid = search (do_rules, wait_exit_within-Emits, g.signals) depth 14

    stop_tracked-Emits : (pid : Option ℕ) → Keeps {os = os} (Emits p e b) (stop_tracked pid)
    unfolding stop_tracked
    stop_tracked-Emits none = search do_rules
    stop_tracked-Emits (some pid) =
        search (do_rules, wait_exit_within-Emits, kill_ganesha-Emits, g.signals) depth 16

    pub stop_ganesha-Emits : Keeps {os = os} (Emits p e b) stop_ganesha
    unfolding stop_ganesha
    stop_ganesha-Emits = search (do_rules, refresh-Emits, stop_tracked-Emits) depth 12

    recover_from-Emits : (found : Option ℕ) → Keeps {os = os} (Emits p e b) (recover_from found)
    unfolding recover_from
    recover_from-Emits none = search do_rules depth 12
    recover_from-Emits (some pid) = search do_rules

    confirm-Emits : Keeps {os = os} (Emits p e b) confirm_ganesha_daemon_pid_env
    unfolding confirm_ganesha_daemon_pid_env
    confirm-Emits = search (do_rules, recover_from-Emits) depth 14

    socket-Emits : Keeps {os = os} (Emits p e b) wait_for_idhelper_socket
    unfolding wait_for_idhelper_socket
    socket-Emits = search (do_rules, n.sleeps) depth 12

    warm-Emits : Keeps {os = os} (Emits p e b) warm_identity_principals_before_ganesha
    unfolding warm_identity_principals_before_ganesha
    warm-Emits = search do_rules depth 12

    winbind-Emits : Keeps {os = os} (Emits p e b) quiet_winbind
    unfolding quiet_winbind
    winbind-Emits = search (do_rules, n.winbind) depth 12

    adopt_ganesha-Emits : (child : Option ℕ) → Keeps {os = os} (Emits p e b) (adopt_ganesha child)
    unfolding adopt_ganesha
    adopt_ganesha-Emits none = search do_rules
    adopt_ganesha-Emits (some pid) = search (do_rules, n.sleeps, confirm-Emits) depth 14

    pub start_ganesha-Emits : Keeps {os = os} (Emits p e b) start_ganesha
    unfolding start_ganesha
    start_ganesha-Emits =
        search
          (
            do_rules, g.spawns, g.failures, socket-Emits, warm-Emits, winbind-Emits,
            adopt_ganesha-Emits,
          )
          depth 20

    reload_tracked-Emits : (pid : Option ℕ) → Keeps {os = os} (Emits p e b) (reload_tracked pid)
    unfolding reload_tracked
    reload_tracked-Emits none = search do_rules
    reload_tracked-Emits (some pid) = search (do_rules, g.signals) depth 12

    pub reload_ganesha_exports-Emits : Keeps {os = os} (Emits p e b) reload_ganesha_exports
    unfolding reload_ganesha_exports
    reload_ganesha_exports-Emits = search (do_rules, refresh-Emits, reload_tracked-Emits) depth 12

    ready_before-Emits :
        (deadline rounds : ℕ) → Keeps {os = os} (Emits p e b) (ready_before deadline rounds)
    unfolding ready_before
    ready_before-Emits deadline zero = record { holds = λ m v. (Emits-ask ganesha_ready).holds m v }
    ready_before-Emits deadline (suc rounds) = record {
      holds = λ m v. ground (
        arith,
        (Emits-ask ganesha_ready).holds m v,
        (Emits-act {p = p} {e = e} {b = b} (slept 350) (n.sleeps 350)).holds
            ((ask ganesha_ready) m).1,
        (ready_before-Emits deadline rounds).holds ((act (slept 350)) ((ask ganesha_ready) m).1).1,
      );
    }

    pub readiness-Emits : Keeps {os = os} (Emits p e b) wait_for_ganesha_readiness
    unfolding wait_for_ganesha_readiness
    readiness-Emits = search (do_rules, refresh-Emits, ready_before-Emits) depth 16

  term_tracked-Emits :
      (service : Service) (ms : ℕ) (pid : Option ℕ)
      → Permits p service
      → Keeps {os = os} (Emits p e b) (term_tracked service ms pid)
  unfolding term_tracked
  term_tracked-Emits service ms none h = search do_rules
  term_tracked-Emits service ms (some pid) h = search (do_rules, h.signals, n.sleeps) depth 12

  module _ (w : Permits p Service.webui) where
    adopt_webui-Emits : (child : Option ℕ) → Keeps {os = os} (Emits p e b) (adopt_webui child)
    unfolding adopt_webui
    adopt_webui-Emits none = search do_rules
    adopt_webui-Emits (some pid) = search (do_rules, n.sleeps) depth 12

    pub start_webui-Emits : Keeps {os = os} (Emits p e b) start_webui
    unfolding start_webui
    start_webui-Emits =
        search (do_rules, w.spawns, w.failures, term_tracked-Emits, adopt_webui-Emits) depth 16

    respawn_webui-Emits : Keeps {os = os} (Emits p e b) respawn_webui
    unfolding respawn_webui
    respawn_webui-Emits = search (do_rules, start_webui-Emits) depth 12

    hup_webui-Emits : (pid : Option ℕ) → Keeps {os = os} (Emits p e b) (hup_webui pid)
    unfolding hup_webui
    hup_webui-Emits none = respawn_webui-Emits
    hup_webui-Emits (some pid) =
        search (do_rules, w.signals, n.sleeps, n.reaps, respawn_webui-Emits) depth 16

    pub reload_webui-Emits : Keeps {os = os} (Emits p e b) reload_webui
    unfolding reload_webui
    reload_webui-Emits = search (do_rules, hup_webui-Emits) depth 12

  module _ (s : Permits p Service.sssd) where
    signal_sssd-Emits : (pid : Option ℕ) → Keeps {os = os} (Emits p e b) (signal_sssd pid)
    unfolding signal_sssd
    signal_sssd-Emits none = search do_rules
    signal_sssd-Emits (some pid) = search (do_rules, s.signals)

    pub restart_sssd-Emits : Keeps {os = os} (Emits p e b) restart_sssd_and_wait
    unfolding restart_sssd_and_wait
    restart_sssd-Emits =
        search (do_rules, s.spawns, s.failures, s.pkills, n.sleeps, signal_sssd-Emits) depth 20

  pub restart_idhelper-Emits :
      Permits p Service.idhelper → Keeps {os = os} (Emits p e b) restart_idhelper_and_wait_bulk
  unfolding restart_idhelper_and_wait_bulk
  restart_idhelper-Emits h =
      search (do_rules, h.spawns, h.failures, h.pkills, n.sleeps, n.preresolves, term_tracked-Emits)
        depth 20

  module _ (d : Launches p Service.dbus) where
    rpcbind-Emits : Keeps {os = os} (Emits p e b) start_rpcbind
    unfolding start_rpcbind
    rpcbind-Emits = search (do_rules, n.rpcbind) depth 20

    adopt_dbus-Emits : (child : Option ℕ) → Keeps {os = os} (Emits p e b) (adopt_dbus child)
    unfolding adopt_dbus
    adopt_dbus-Emits none = search do_rules
    adopt_dbus-Emits (some pid) = search (do_rules, n.sleeps) depth 12

    pub prereqs-Emits : Keeps {os = os} (Emits p e b) ensure_ganesha_prereqs
    unfolding ensure_ganesha_prereqs
    prereqs-Emits =
        search (do_rules, d.spawns, d.failures, n.dirs, n.sleeps, rpcbind-Emits, adopt_dbus-Emits)
          depth 20

  module _ (a : Launches p Service.avahi) where
    adopt_avahi-Emits : (child : Option ℕ) → Keeps {os = os} (Emits p e b) (adopt_avahi child)
    unfolding adopt_avahi
    adopt_avahi-Emits none = search do_rules
    adopt_avahi-Emits (some pid) = search do_rules depth 12

    pub start_avahi-Emits : Keeps {os = os} (Emits p e b) start_avahi
    unfolding start_avahi
    start_avahi-Emits = search (do_rules, a.spawns, a.failures, adopt_avahi-Emits) depth 20

  module _ (a : (signal : Signal) (pid : ℕ) → p (signalled Service.avahi signal pid) ≡ true) where
    kill_avahi-Emits : (pid : ℕ) → Keeps {os = os} (Emits p e b) (kill_avahi pid)
    unfolding kill_avahi
    kill_avahi-Emits pid = search (do_rules, a, wait_exit_within-Emits) depth 20

    stop_avahi_tracked-Emits :
        (pid : Option ℕ) → Keeps {os = os} (Emits p e b) (stop_avahi_tracked pid)
    unfolding stop_avahi_tracked
    stop_avahi_tracked-Emits none = search do_rules
    stop_avahi_tracked-Emits (some pid) = search (do_rules, kill_avahi-Emits) depth 12

    pub stop_avahi-Emits : Keeps {os = os} (Emits p e b) stop_avahi
    unfolding stop_avahi
    stop_avahi-Emits = search (do_rules, stop_avahi_tracked-Emits) depth 12

  module _ (v : Permits p Service.watcher) where
    adopt_watcher-Emits : (child : Option ℕ) → Keeps {os = os} (Emits p e b) (adopt_watcher child)
    unfolding adopt_watcher
    adopt_watcher-Emits none = search do_rules
    adopt_watcher-Emits (some pid) = search do_rules depth 12

    pub start_watcher-Emits : Keeps {os = os} (Emits p e b) start_watcher
    unfolding start_watcher
    start_watcher-Emits = search (do_rules, v.spawns, v.failures, adopt_watcher-Emits) depth 16

  module _ (h : (pid : ℕ) → p (signalled Service.avahi hup pid) ≡ true) where
    hup_avahi-Emits : (pid : Option ℕ) → Keeps {os = os} (Emits p e b) (hup_avahi pid)
    unfolding hup_avahi
    hup_avahi-Emits none = search do_rules
    hup_avahi-Emits (some pid) = search (do_rules, h) depth 12

    pub reload_avahi-Emits : Keeps {os = os} (Emits p e b) reload_avahi_services
    unfolding reload_avahi_services
    reload_avahi-Emits = search (do_rules, hup_avahi-Emits) depth 12
