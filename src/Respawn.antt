-- ===== src/Respawn.antt =====
-- nfs-klldap-config/src/supervisor/respawn.rs: the respawn budget of each service. Times are
-- milliseconds of the monotonic clock, and `duration_since` saturates at 0. The two hash maps are
-- functions from the service; an absent history is `[]`, an absent flag is `false`.
pub mod Attempts
pub mod Window
use nfs_klldap_host.Prelude.{
  ℕ, ◌-◌, ◌≡◌, Bool, true, false, not, Option, none, some, List, [], ◌∷◌, ◌++◌, if◌then◌else◌, ltb,
  leb, length, retain, last?,
}

-- The services that `check_and_respawn_services` walks.
pub data Service : Type 0 where
  dbus sssd idhelper watcher webui ganesha avahi : Service

pub Service-discrete : Discrete Service
Service-discrete = hlevel

abbrev pub same : Service → Service → Bool
same dbus dbus = true
same sssd sssd = true
same idhelper idhelper = true
same watcher watcher = true
same webui webui = true
same ganesha ganesha = true
same avahi avahi = true
same _ _ = false

abbrev pub respawn_window : ℕ
respawn_window = 600000

abbrev pub respawn_budget : ℕ
respawn_budget = 3

abbrev pub respawn_cooldown : ℕ
respawn_cooldown = 10000

pub data RespawnDecision : Type 0 where
  go : RespawnDecision
  cooldown : RespawnDecision
  exhausted : Bool → RespawnDecision

pub record RespawnBudget : Type 0 where
  pub attempts : Service → List ℕ
  pub exhausted_logged : Service → Bool

abbrev pub update {ℓ} : {A : Type ℓ} → (Service → A) → Service → A → Service → A
update f s v t = if same s t then v else f t

-- The test on the last attempt.
abbrev pub cooling : Option ℕ → ℕ → Bool
cooling none now = false
cooling (some last) now = ltb (now - last) respawn_cooldown

abbrev pub recent : ℕ → List ℕ → List ℕ
recent now hist = retain (λ t. ltb (now - t) respawn_window) hist

unfoldable pub decide_on : List ℕ → RespawnBudget → Service → ℕ → RespawnBudget × RespawnDecision
decide_on hist b service now =
    let kept = record b { attempts = update b.attempts service hist } in
    if cooling (last? hist) now
    then (kept, cooldown)
    else if leb respawn_budget (length hist)
    then (
      record kept { exhausted_logged = update b.exhausted_logged service true },
      exhausted (not (b.exhausted_logged service)),
    )
    else (
      record {
        attempts = update b.attempts service (hist ++ now ∷ []);
        exhausted_logged = update b.exhausted_logged service false;
      },
      go,
    )

unfoldable pub decide : RespawnBudget → Service → ℕ → RespawnBudget × RespawnDecision
unfolding decide_on
decide b service now = decide_on (recent now (b.attempts service)) b service now

abbrev pub fresh_budget : RespawnBudget
fresh_budget = record { attempts = λ s. []; exhausted_logged = λ s. false }
