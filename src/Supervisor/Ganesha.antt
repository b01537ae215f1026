-- ===== src/Supervisor/Ganesha.antt =====
-- Ganesha's start, stop and reload: services.rs and mod.rs of nfs-klldap-config/src/supervisor.
use nfs_klldap_host.Prelude.{
  ℕ, zero, suc, ◌+◌, ◌*◌, ◌/◌, Bool, true, false, not, ◌&&◌, ◌||◌, Option, none, some,
  if◌then◌else◌, leb,
}
use nfs_klldap_host.Respawn.{ganesha}
use nfs_klldap_host.Supervisor.State.{
  term, hup, kill, signalled, slept, reaped, quieted_winbind, idhelper_socket, principals_warm,
  ganesha_ready, wbinfo_installed, Os, Env, M, ◌>>=◌, ◌>>◌, pure, done, when, get, modify,
  modify_pids, act, start_process, ask, observe, live, poll,
}

abbrev pub is_some : Option ℕ → Bool
is_some none = false
is_some (some pid) = true

-- The mode flags that stand for a probe or test run.
abbrev pub is_probe : Env → Bool
is_probe e =
    e.supervise_probe || e.supervise_wizard_probe || e.supervise_loop_probe
    || e.supervise_recycle_probe || e.supervise_identity_recycle_probe
    || e.supervise_sighup_hook_probe

-- Rounds of 100 ms that reach a deadline `ms` ahead.
abbrev pub rounds_for : ℕ → ℕ
rounds_for ms = ms / 100 + 2

module _ {os : Os} where
  abbrev pub set_ganesha : Option ℕ → M os (Unit {0})
  set_ganesha pid = modify_pids (λ p. record p { ganesha = pid })

  abbrev pub set_ganesha_managed : Bool → M os (Unit {0})
  set_ganesha_managed b = modify (λ s. record s { ganesha_managed = b })

  -- The process is gone: drop the pid, and it is no longer managed.
  abbrev pub forget_ganesha : M os (Unit {0})
  forget_ganesha = do set_ganesha none; set_ganesha_managed false

  unfoldable pub refresh_tracked_ganesha_pid : M os (Unit {0})
  refresh_tracked_ganesha_pid = do
    sup ← get
    alive ← live sup.pids.ganesha
    when (is_some sup.pids.ganesha && not alive) (set_ganesha none)

  unfoldable pub ganesha_running : M os Bool
  ganesha_running = do refresh_tracked_ganesha_pid; sup ← get; live sup.pids.ganesha

  -- The two waits of `stop_ganesha`: true when the process exits before the deadline.
  unfoldable pub wait_exit : ℕ → ℕ → ℕ → M os Bool
  unfolding act
  wait_exit pid deadline zero s = (not (os.is_live pid s.world), s)
  wait_exit pid deadline (suc rounds) s =
      let later = wait_exit pid deadline rounds ((act reaped) ((act (slept 100)) s).1).1 in
      if not (os.is_live pid s.world)
      then (true, s)
      else if leb deadline (os.now s.world)
      then (false, s)
      else later

  unfoldable pub wait_exit_within : ℕ → ℕ → M os Bool
  wait_exit_within pid ms = do t ← observe os.now; wait_exit pid (t + ms) (rounds_for ms)

  -- After the timeout: SIGKILL, and a pid that survives it stays tracked and managed.
  unfoldable pub kill_ganesha : ℕ → M os (Unit {0})
  kill_ganesha pid = do
    alive ← live (some pid)
    when alive (act (signalled ganesha kill pid))
    gone ← wait_exit_within pid 2000
    when gone forget_ganesha

  unfoldable pub stop_tracked : Option ℕ → M os (Unit {0})
  stop_tracked none = set_ganesha_managed false
  stop_tracked (some pid) = do
    alive ← live (some pid)
    sup ← get
    if not alive then forget_ganesha else do
      act (signalled ganesha term pid)
      gone ← wait_exit_within pid (sup.env.stop_term_secs * 1000)
      if gone then forget_ganesha else kill_ganesha pid

  unfoldable pub stop_ganesha : M os (Unit {0})
  stop_ganesha = do refresh_tracked_ganesha_pid; sup ← get; stop_tracked sup.pids.ganesha

  unfoldable pub recover_from : Option ℕ → M os (Unit {0})
  recover_from (some pid) = set_ganesha (some pid)
  recover_from none = do
    file ← observe os.ganesha_pidfile
    alive ← live file
    when alive (set_ganesha file)

  -- Only a tracked pid that died is looked for again.
  unfoldable pub confirm_ganesha_daemon_pid_env : M os (Unit {0})
  unfolding recover_from
  confirm_ganesha_daemon_pid_env = do
    sup ← get
    alive ← live sup.pids.ganesha
    when (sup.ganesha_managed && not alive)
        (do found ← observe os.discover_ganesha; recover_from found)

  unfoldable pub wait_for_idhelper_socket : M os Bool
  wait_for_idhelper_socket = do
    sup ← get
    if is_probe sup.env || sup.env.test_persistent
        then ask idhelper_socket
        else poll idhelper_socket 100 30

  unfoldable pub warm_identity_principals_before_ganesha : M os Bool
  warm_identity_principals_before_ganesha = do
    sup ← get
    if is_probe sup.env
          || sup.env.host_nfs_mode
          || sup.env.tick_ms_set
          || sup.env.test_persistent
          || sup.env.skip_principal_warm
        then pure true
        else ask principals_warm

  unfoldable pub quiet_winbind : M os (Unit {0})
  quiet_winbind = do installed ← ask wbinfo_installed; when installed (act quieted_winbind)

  unfoldable pub adopt_ganesha : Option ℕ → M os (Unit {0})
  adopt_ganesha none = done
  adopt_ganesha (some pid) = do
    set_ganesha (some pid)
    set_ganesha_managed true
    act (slept 800)
    confirm_ganesha_daemon_pid_env

  -- A tracked pid that is still live is never spawned over.
  unfoldable pub start_ganesha : M os (Unit {0})
  start_ganesha = do
    sup ← get
    alive ← live sup.pids.ganesha
    if alive then done else do
      set_ganesha none
      socket ← wait_for_idhelper_socket
      warm ← warm_identity_principals_before_ganesha
      when warm (do quiet_winbind; child ← start_process ganesha; adopt_ganesha child)

  unfoldable pub reload_tracked : Option ℕ → M os Bool
  reload_tracked none = pure false
  reload_tracked (some pid) = do
    alive ← live (some pid)
    if not alive
        then (do set_ganesha none; pure false)
        else do act (signalled ganesha hup pid); pure true

  unfoldable pub reload_ganesha_exports : M os Bool
  unfolding reload_tracked
  reload_ganesha_exports = do
    refresh_tracked_ganesha_pid
    sup ← get
    reload_tracked sup.pids.ganesha

  -- The readiness loop of 20 s with a probe every 350 ms, and the final probe.
  unfoldable pub ready_before : ℕ → ℕ → M os Bool
  unfolding ask act
  ready_before deadline zero s = (ask ganesha_ready) s
  ready_before deadline (suc rounds) s =
      let (ready, s') = (ask ganesha_ready) s in
      let later = ready_before deadline rounds ((act (slept 350)) s').1 in
      if leb deadline (os.now s.world)
      then (ask ganesha_ready) s
      else if ready
      then (true, s')
      else later

  unfoldable pub wait_for_ganesha_readiness : M os Bool
  wait_for_ganesha_readiness = do
    sup ← get
    if is_probe sup.env || sup.env.host_nfs_mode || sup.env.tick_ms_set || sup.env.test_persistent
        then pure true
        else do
          socket ← ask idhelper_socket
          if not socket
              then pure false
              else do refresh_tracked_ganesha_pid; t ← observe os.now; ready_before (t + 20000) 60
