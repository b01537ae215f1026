-- ===== src/Respawn/Attempts.antt =====
-- The attempts in the window of nfs-klldap-config/src/supervisor/respawn.rs, and what is tracked of the
-- grants to one service.
use nfs_klldap_host.Prelude.{
  ℕ, ◌+◌, ◌-◌, ◌≤◌, ◌≡◌, ◌⊎◌, inl, inr, Bool, true, false, ◌&&◌, refl, List, [], ◌∷◌, ◌++◌, some,
  none, arith, if◌then◌else◌, length, retain, last?, Bool-cases, ltb,
}
use nfs_klldap_host.Respawn.{
  Service, same, respawn_window, respawn_budget, respawn_cooldown, RespawnDecision, go,
  RespawnBudget, recent, decide,
}

-- How many of the times lie in the window that ends at `now`.
abbrev pub within : ℕ → List ℕ → ℕ
within now ts = length (recent now ts)

-- Grants, newest first: the window that ends at a grant holds at most the budget.
abbrev pub Limited : List ℕ → Type 0
Limited [] = Unit
Limited (t ∷ ts) = (within t (t ∷ ts) ≤ respawn_budget) × Limited ts

-- Each grant comes at least a cooldown after the grant before it.
abbrev pub Spaced : List ℕ → Type 0
Spaced [] = Unit
Spaced (t ∷ []) = Unit
Spaced (t ∷ u ∷ ts) = (u + respawn_cooldown ≤ t) × Spaced (u ∷ ts)

abbrev pub is_go : RespawnDecision → Bool
is_go go = true
is_go _ = false

-- The times at which service `s` is granted a respawn, newest first, before `past`.
unfoldable pub grants : Service → RespawnBudget → List ℕ → List (Service × ℕ) → List ℕ
grants s b past [] = past
grants s b past ((t, now) ∷ calls) =
    let (b', d) = decide b t now in
    grants s b' (if same t s && is_go d then now ∷ past else past) calls

-- The clock does not run backwards between calls.
abbrev pub IsMonotone : ℕ → List (Service × ℕ) → Type 0
IsMonotone start [] = Unit
IsMonotone start ((t, now) ∷ calls) = (start ≤ now) × IsMonotone now calls

pub within-recent :
    (now later : ℕ) (ts : List ℕ) → now ≤ later → within later (recent now ts) ≡ within later ts
within-recent now later [] h = refl
within-recent now later (t ∷ ts) h = ground (arith, within-recent now later ts h)

pub within-append : (now t : ℕ) (ts : List ℕ) → within now (ts ++ t ∷ []) ≡ within now (t ∷ ts)
within-append now t [] = refl
within-append now t (u ∷ ts) = ground (arith, within-append now t ts)

pub last?-append : (t : ℕ) (ts : List ℕ) → last? (ts ++ t ∷ []) ≡ some t
last?-append t [] = refl
last?-append t (u ∷ []) = refl
last?-append t (u ∷ v ∷ ts) = last?-append t (v ∷ ts)

pub last?-cons : (t : ℕ) {g : ℕ} (ts : List ℕ) → last? ts ≡ some g → last? (t ∷ ts) ≡ some g
last?-cons t [] h = cc
last?-cons t (u ∷ ts) h = h

pub last?-retain :
    (p : ℕ → Bool) {g : ℕ} (ts : List ℕ)
    → last? ts ≡ some g
    → p g ≡ true
    → last? (retain p ts) ≡ some g
last?-retain p [] h k = cc
last?-retain p (t ∷ []) h k = ground arith
last?-retain p (t ∷ u ∷ ts) h k = elim (Bool-cases (p t)) [
  | inl e ↦ rw e (last?-cons t (retain p (u ∷ ts)) (last?-retain p (u ∷ ts) h k))
  | inr e ↦ rw e (last?-retain p (u ∷ ts) h k)
]

-- The newest grant is the last recorded attempt, or has left the window.
abbrev pub Newest : ℕ → List ℕ → List ℕ → Type 0
Newest now [] ts = Unit
Newest now (g ∷ gs) ts = (last? ts ≡ some g) ⊎ (g + respawn_window ≤ now)

pub record IsTracked (s : Service) (b : RespawnBudget) (past : List ℕ) (now : ℕ) : Type 0 where
  pub counts : (l : ℕ) → now ≤ l → within l past ≡ within l (b.attempts s)
  pub newest : Newest now past (b.attempts s)
  pub limited : Limited past
  pub spaced : Spaced past

pub Newest-recent :
    (now later : ℕ) (past ts : List ℕ)
    → now ≤ later
    → Newest now past ts
    → Newest later past (recent later ts)
Newest-recent now later [] ts h n = tt
Newest-recent now later (g ∷ gs) ts h (inr far) = inr (omega arith)
Newest-recent now later (g ∷ gs) ts h (inl here) =
    elim (Bool-cases (ltb (later - g) respawn_window)) [
      | inl young ↦ inl (last?-retain (λ t. ltb (later - t) respawn_window) ts here young)
      | inr old ↦ inr (ground arith)
    ]

pub same_refl : (s : Service) → same s s ≡ true
same_refl Service.dbus = refl
same_refl _ = refl

pub same_eq : (t s : Service) → same t s ≡ true → t ≡ s
same_eq t s h = ground arith

-- The first time after the newest grant at which the cooldown allows another.
pub Spaced-cons :
    (now : ℕ) (past hist : List ℕ)
    → Newest now past hist
    → Spaced past
    → (last? hist ≡ none)
      ⊎ ((g : ℕ) × (last? hist ≡ some g) × (ltb (now - g) respawn_cooldown ≡ false))
    → Spaced (now ∷ past)
Spaced-cons now [] hist n h c = tt
Spaced-cons now (g ∷ gs) hist (inr far) h c = (omega arith, h)
Spaced-cons now (g ∷ gs) hist (inl here) h (inl empty) = absurd (cc (here))
Spaced-cons now (g ∷ gs) hist (inl here) h (inr (k, e, far)) = (ground arith, h)
