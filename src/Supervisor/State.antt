-- ===== src/Supervisor/State.antt =====
-- The state of nfs-klldap-config/src/supervisor/mod.rs and what it asks of the operating system.
-- Log lines and the process's own environment variables are left out.
use nfs_klldap_host.Prelude.{
  ℕ, zero, suc, Bool, true, false, Option, none, some, List, ◌∷◌, if◌then◌else◌,
}
use nfs_klldap_host.Respawn.{Service, RespawnBudget}
use nfs_klldap_host.Startup.{StartupStep}

pub data Signal : Type 0 where
  term hup kill : Signal

-- What the supervisor does to the system. A signal names the service whose tracked pid it goes to.
pub data Act : Type 0 where
  signalled : Service → Signal → ℕ → Act
  pkilled : Service → Act
  spawned : Service → ℕ → Act
  spawn_failed : Service → Act
  slept : ℕ → Act
  reaped : Act
  ran_rpcbind : Act
  prepared_dirs : Act
  fixed_permissions : Act
  seeded_probe : Act
  set_preresolve : Act
  rotated_logs : Act
  quieted_winbind : Act
  marked_recycle : Act
  marked_wizard : Act
  cleared_recycle_marker : Act

-- A question that the system answers with yes or no.
pub data Query : Type 0 where
  navahi_enabled idhelper_socket principals_warm ganesha_ready nss_pipe idhelper_seed : Query
  wbinfo_installed rpcbind_installed rpcbind_running dbus_running dbus_ready : Query
  shutdown_requested sighup_requested full_recycle_requested wizard_complete : Query
  recycle_marker preflight config_initialized preconfigured : Query

-- The operating system and the programs it runs. `perform` and `spawn` change the world; so may the
-- time that passes in a question. `generate` is `nfs-klldap-config generate` and its exit status,
-- `hooks` the post-generate hooks on a configuration that loads.
pub record Os : Type 1 where
  pub World : Type 0
  pub now : World → ℕ
  pub is_live : ℕ → World → Bool
  pub perform : Act → World → World
  pub spawn : Service → World → Option ℕ × World
  pub ask : Query → World → Bool × World
  pub generate : World → Bool × World
  pub hooks : World → Bool × World
  pub wizard_step : World → StartupStep × World
  pub startup_step : World → StartupStep × World
  pub host_nfs : World → Bool
  pub exports_fp : World → ℕ
  pub identity_fp : World → ℕ
  pub avahi_fp : World → ℕ
  pub shares_fp : World → Option ℕ
  pub discover_ganesha : World → Option ℕ
  pub ganesha_pidfile : World → Option ℕ

-- `SupervisorEnv`, with the environment variables that mod.rs and services.rs read by themselves.
pub record Env : Type 0 where
  pub host_nfs_mode : Bool
  pub supervise_probe : Bool
  pub supervise_wizard_probe : Bool
  pub supervise_loop_probe : Bool
  pub supervise_recycle_probe : Bool
  pub supervise_identity_recycle_probe : Bool
  pub supervise_sighup_hook_probe : Bool
  pub test_persistent : Bool
  pub tick_ms_set : Bool
  pub skip_principal_warm : Bool
  pub stop_term_secs : ℕ
  pub supervisor_max_ticks : ℕ
  pub supervisor_tick_ms : ℕ

pub record ChildPids : Type 0 where
  pub watcher : Option ℕ
  pub sssd : Option ℕ
  pub ganesha : Option ℕ
  pub webui : Option ℕ
  pub dbus : Option ℕ
  pub idhelper : Option ℕ
  pub avahi : Option ℕ

pub record Supervisor : Type 0 where
  pub env : Env
  pub pids : ChildPids
  pub services_started : Bool
  pub ganesha_managed : Bool
  pub avahi_managed : Bool
  pub last_shares_fingerprint : ℕ
  pub respawn : RespawnBudget

-- The supervisor, the world it runs in, and its acts so far, newest first.
pub record Machine (os : Os) : Type 0 where
  pub sup : Supervisor
  pub world : os.World
  pub trace : List Act

abbrev pub M : Os → Type 0 → Type 0
M os A = Machine os → A × Machine os

module _ {os : Os} {A B : Type 0} where
  infixl 5 ◌>>=◌
  unfoldable pub ◌>>=◌ : M os A → (A → M os B) → M os B
  ◌>>=◌ m f s = f (m s).0 (m s).1

module _ {os : Os} {B : Type 0} where
  infixl 5 ◌>>◌
  unfoldable pub ◌>>◌ : M os (Unit {0}) → M os B → M os B
  ◌>>◌ m k s = k (m s).1

unfoldable pub pure : {os : Os} {A : Type 0} → A → M os A
pure a s = (a, s)

unfoldable pub done : {os : Os} → M os (Unit {0})
done s = (tt, s)

abbrev pub when : {os : Os} → Bool → M os (Unit {0}) → M os (Unit {0})
when c m = if c then m else done

-- The supervisor's own fields.
unfoldable pub get : {os : Os} → M os Supervisor
get s = (s.sup, s)

unfoldable pub modify : {os : Os} → (Supervisor → Supervisor) → M os (Unit {0})
modify f s = (tt, record s { sup = f s.sup })

unfoldable pub modify_pids : {os : Os} → (ChildPids → ChildPids) → M os (Unit {0})
unfolding modify
modify_pids f = modify (λ s. record s { pids = f s.pids })

unfoldable pub spawned_as : Service → Option ℕ → Act
spawned_as service none = spawn_failed service
spawned_as service (some pid) = spawned service pid

module _ {os : Os} where
  unfoldable pub act : Act → M os (Unit {0})
  act a s = (tt, record s { world = os.perform a s.world; trace = a ∷ s.trace })

  -- A `Command::spawn`, and the pid when it succeeds.
  unfoldable pub start_process : Service → M os (Option ℕ)
  unfolding spawned_as
  start_process service s =
      let (child, w) = os.spawn service s.world in
      (child, record s { world = w; trace = spawned_as service child ∷ s.trace })

  unfoldable pub ask : Query → M os Bool
  ask q s = let (b, w) = os.ask q s.world in (b, record s { world = w })

  unfoldable pub observe : {A : Type 0} → (os.World → A) → M os A
  observe f s = (f s.world, s)

  -- `Option::is_some_and(process_is_live)`
  unfoldable pub live : Option ℕ → M os Bool
  live none s = (false, s)
  live (some pid) s = (os.is_live pid s.world, s)

  -- `for _ in 0..attempts { if probe { return true } sleep }`
  unfoldable pub poll : Query → ℕ → ℕ → M os Bool
  unfolding ask act
  poll q ms zero s = (false, s)
  poll q ms (suc attempts) s =
      let (found, s') = (ask q) s in
      let later = poll q ms attempts ((act (slept ms)) s').1 in if found then (true, s') else later

  -- The steps that a do block is made of, to be unfolded together.
  unfoldable pub steps : M os (Unit {0})
  unfolding ◌>>=◌ ◌>>◌ pure done get modify modify_pids act start_process ask observe live
  steps = done
