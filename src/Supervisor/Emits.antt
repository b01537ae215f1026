-- ===== src/Supervisor/Emits.antt =====
-- The acts that the service operations of nfs-klldap-config/src/supervisor may emit.
use nfs_klldap_host.Prelude.{
  ℕ, zero, suc, ◌≡◌, Bool, true, ◌&&◌, Option, none, some, List, [], ◌∷◌, refl, arith,
}
use nfs_klldap_host.Respawn.{Service}
use nfs_klldap_host.Supervisor.Ganesha.{set_ganesha_managed}
use nfs_klldap_host.Supervisor.Services.{set_avahi_managed}
use nfs_klldap_host.Supervisor.Keeps.{
  Keeps, Keeps-bind, Keeps-then, Keeps-pure, Keeps-done, Keeps-get, Keeps-if, Keeps-when_false,
  Keeps-observe, Keeps-live,
}
use nfs_klldap_host.Supervisor.State.{
  Act, slept, signalled, spawned, spawn_failed, pkilled, reaped, ran_rpcbind, prepared_dirs,
  fixed_permissions, seeded_probe, set_preresolve, quieted_winbind, Signal, Query, Os, Env,
  ChildPids, Supervisor, Machine, M, spawned_as, ◌>>=◌, get, modify, modify_pids, act,
  start_process, ask, poll,
}

abbrev pub all_acts : (Act → Bool) → List Act → Bool
all_acts p [] = true
all_acts p (a ∷ as') = p a && all_acts p as'

-- Every act so far passes the test, and the environment and `services_started` are these.
pub record Emits {os : Os} (p : Act → Bool) (e : Env) (b : Bool) (m : Machine os) : Type 0 where
  pub allowed : all_acts p m.trace ≡ true
  pub env_is : m.sup.env ≡ e
  pub started_is : m.sup.services_started ≡ b

-- The test lets the supervisor do anything to this service.
pub record Permits (p : Act → Bool) (service : Service) : Type 0 where
  pub signals : (signal : Signal) (pid : ℕ) → p (signalled service signal pid) ≡ true
  pub pkills : p (pkilled service) ≡ true
  pub spawns : (pid : ℕ) → p (spawned service pid) ≡ true
  pub failures : p (spawn_failed service) ≡ true

-- The test lets the supervisor start this service.
pub record Launches (p : Act → Bool) (service : Service) : Type 0 where
  pub spawns : (pid : ℕ) → p (spawned service pid) ≡ true
  pub failures : p (spawn_failed service) ≡ true

-- The test lets through the acts that reach no service.
pub record Neutral (p : Act → Bool) : Type 0 where
  pub sleeps : (ms : ℕ) → p (slept ms) ≡ true
  pub reaps : p reaped ≡ true
  pub rpcbind : p ran_rpcbind ≡ true
  pub dirs : p prepared_dirs ≡ true
  pub permissions : p fixed_permissions ≡ true
  pub seeds : p seeded_probe ≡ true
  pub preresolves : p set_preresolve ≡ true
  pub winbind : p quieted_winbind ≡ true

spawned_as_permitted :
    (p : Act → Bool) (service : Service) (child : Option ℕ)
    → ((pid : ℕ) → p (spawned service pid) ≡ true)
    → p (spawn_failed service) ≡ true
    → p (spawned_as service child) ≡ true
unfolding spawned_as
spawned_as_permitted p service none h k = k
spawned_as_permitted p service (some pid) h k = h pid

module _ {os : Os} {p : Act → Bool} {e : Env} {b : Bool} where
  pub Emits-act : (a : Act) → p a ≡ true → Keeps {os = os} (Emits p e b) (act a)
  unfolding act
  Emits-act a h = record { holds = λ m q. ground arith }

  pub Emits-modify_pids :
      (f : ChildPids → ChildPids) → Keeps {os = os} (Emits p e b) (modify_pids f)
  unfolding modify_pids
  Emits-modify_pids f = record { holds = λ m q. ground arith }

  pub Emits-modify :
      (f : Supervisor → Supervisor)
      → ((s : Supervisor) → (f s).env ≡ s.env)
      → ((s : Supervisor) → (f s).services_started ≡ s.services_started)
      → Keeps {os = os} (Emits p e b) (modify f)
  unfolding modify
  Emits-modify f h k = record { holds = λ m q. ground (arith, h m.sup, k m.sup) }

  pub Emits-get :
      {A : Type 0} (g : Supervisor → M os A)
      → ((s : Supervisor) → s.env ≡ e → s.services_started ≡ b → Keeps (Emits p e b) (g s))
      → Keeps {os = os} (Emits p e b) (get >>= g)
  unfolding get ◌>>=◌
  Emits-get g k = record { holds = λ m q. (k m.sup q.env_is q.started_is).holds m q }

  pub Emits-ask : (q : Query) → Keeps {os = os} (Emits p e b) (ask q)
  unfolding ask
  Emits-ask q = record { holds = λ m h. ground arith }

  pub Emits-start_process :
      (service : Service)
      → ((pid : ℕ) → p (spawned service pid) ≡ true)
      → p (spawn_failed service) ≡ true
      → Keeps {os = os} (Emits p e b) (start_process service)
  unfolding start_process
  Emits-start_process service h k = record {
    holds = λ m q. ground (arith, spawned_as_permitted p service (os.spawn service m.world).0 h k);
  }

  pub Emits-poll :
      (q : Query) (ms attempts : ℕ)
      → ((n : ℕ) → p (slept n) ≡ true)
      → Keeps {os = os} (Emits p e b) (poll q ms attempts)
  unfolding poll
  Emits-poll q ms zero h = record { holds = λ m v. v }
  Emits-poll q ms (suc k) h = record {
    holds =
        λ m v. ground (arith, h ms, (Emits-poll q ms k h).holds ((act (slept ms)) ((ask q) m).1).1);
  }

module _ {os : Os} {p : Act → Bool} {e : Env} {b : Bool} where
  pub Emits-ganesha_managed : (c : Bool) → Keeps {os = os} (Emits p e b) (set_ganesha_managed c)
  Emits-ganesha_managed c = Emits-modify _ (λ s. refl) (λ s. refl)

  pub Emits-avahi_managed : (c : Bool) → Keeps {os = os} (Emits p e b) (set_avahi_managed c)
  Emits-avahi_managed c = Emits-modify _ (λ s. refl) (λ s. refl)

pub ruleset do_rules = (
  Keeps-bind, Keeps-then, Keeps-pure, Keeps-done, Keeps-get, Keeps-if, Keeps-observe, Keeps-live,
  Emits-act, Emits-modify_pids, Emits-ask, Emits-start_process, Emits-poll, Emits-ganesha_managed,
  Emits-avahi_managed,
)
