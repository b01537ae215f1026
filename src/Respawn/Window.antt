-- ===== src/Respawn/Window.antt =====
-- The sliding-window bound on respawns, over any sequence of calls of `decide`.
use nfs_klldap_host.Prelude.{
  ℕ, ◌-◌, ◌≤◌, ◌≡◌, ◌≢◌, ◌⊎◌, inl, inr, true, false, refl, sym, ap, ◌∙◌, List, [], ◌∷◌, ◌++◌, some,
  none, arith, if◌then◌else◌, length, last?, Bool-cases, Option-cases, ltb, All, ◌+◌,
}
use nfs_klldap_host.Respawn.{
  Service, same, respawn_cooldown, go, exhausted, RespawnBudget, cooling, recent, decide,
  fresh_budget,
}
use nfs_klldap_host.Respawn.Attempts.{
  within, Limited, Spaced, is_go, grants, IsMonotone, within-recent, within-append, last?-append,
  Newest, IsTracked, Newest-recent, same_refl, same_eq, Spaced-cons,
}

module _ (s : Service) {b : RespawnBudget} {past : List ℕ} {now : ℕ} (later : ℕ) where
  IsTracked-wait :
      (c : RespawnBudget)
      → c.attempts s ≡ recent later (b.attempts s)
      → now ≤ later
      → IsTracked s b past now
      → IsTracked s c past later
  IsTracked-wait c e h v = record {
    counts = λ l k.
        v.counts l (omega arith)
        ∙ sym (within-recent later l (b.attempts s) k)
        ∙ ap (within l) (sym e);
    newest = rw e (Newest-recent now later past (b.attempts s) h v.newest);
    limited = v.limited;
    spaced = v.spaced;
  }

  IsTracked-go :
      (c : RespawnBudget)
      → c.attempts s ≡ recent later (b.attempts s) ++ later ∷ []
      → (last? (recent later (b.attempts s)) ≡ none)
        ⊎ ((g : ℕ) × (last? (recent later (b.attempts s)) ≡ some g)
            × (ltb (later - g) respawn_cooldown ≡ false))
      → length (recent later (b.attempts s)) ≤ 2
      → now ≤ later
      → IsTracked s b past now
      → IsTracked s c (later ∷ past) later
  IsTracked-go c e free few h v = record {
    counts = λ l k. rw e (
        rw (within-append l later (recent later (b.attempts s)))
          (ground (arith, v.counts l (omega arith), within-recent later l (b.attempts s) k)));
    newest = inl (rw e (last?-append later (recent later (b.attempts s))));
    limited = (ground (arith, v.counts later h), v.limited);
    spaced =
        Spaced-cons later past (recent later (b.attempts s))
          (Newest-recent now later past (b.attempts s) h v.newest) v.spaced free;
  }

-- The newest attempt does not hold a grant back.
abbrev IsFree : List ℕ → ℕ → Type 0
IsFree hist now =
    (last? hist ≡ none)
    ⊎ ((g : ℕ) × (last? hist ≡ some g) × (ltb (now - g) respawn_cooldown ≡ false))

cooling-IsFree : (hist : List ℕ) (now : ℕ) → cooling (last? hist) now ≡ false → IsFree hist now
cooling-IsFree hist now h = elim (Option-cases (last? hist)) [
  | inl e ↦ inl e
  | inr (g, e) ↦ inr (g, e, rw e at h)
]

decide_cases :
    (b : RespawnBudget) (s : Service) (now : ℕ)
    → ((is_go (decide b s now).1 ≡ false)
        × ((decide b s now).0.attempts s ≡ recent now (b.attempts s)))
      ⊎ ((is_go (decide b s now).1 ≡ true)
          × ((decide b s now).0.attempts s ≡ recent now (b.attempts s) ++ now ∷ [])
          × (cooling (last? (recent now (b.attempts s))) now ≡ false)
          × (length (recent now (b.attempts s)) ≤ 2))
unfolding decide
decide_cases b s now = ground (arith, same_refl s)

decide-IsTracked_self :
    (s : Service) (b : RespawnBudget) (past : List ℕ) (now later : ℕ)
    → now ≤ later
    → IsTracked s b past now
    → IsTracked s
        (decide b s later).0
        (if is_go (decide b s later).1 then later ∷ past else past)
        later
decide-IsTracked_self s b past now later h v = elim (decide_cases b s later) [
  | inl (held, e) ↦ rw held (IsTracked-wait s later (decide b s later).0 e h v)
  | inr (granted, e, free, few) ↦ rw granted (
      IsTracked-go s later (decide b s later).0 e
        (cooling-IsFree (recent later (b.attempts s)) later free) few h v)
]

decide-attempts_other :
    (b : RespawnBudget) (s t : Service) (now : ℕ)
    → same t s ≡ false
    → ((decide b t now).0.attempts s ≡ b.attempts s)
      × ((decide b t now).0.exhausted_logged s ≡ b.exhausted_logged s)
unfolding decide
decide-attempts_other b s t now ne = ground arith

Newest-later :
    {now later : ℕ} (past ts : List ℕ) → now ≤ later → Newest now past ts → Newest later past ts
Newest-later [] ts h n = tt
Newest-later (g ∷ gs) ts h (inl e) = inl e
Newest-later (g ∷ gs) ts h (inr far) = inr (omega arith)

decide-IsTracked-same :
    (s t : Service) (b : RespawnBudget) (past : List ℕ) (now later : ℕ)
    → same t s ≡ true
    → now ≤ later
    → IsTracked s b past now
    → IsTracked s
        (decide b t later).0
        (if is_go (decide b t later).1 then later ∷ past else past)
        later
decide-IsTracked-same s t b past now later e h v =
    rw (same_eq t s e) (decide-IsTracked_self s b past now later h v)

decide-IsTracked_other :
    (s t : Service) (b : RespawnBudget) (past : List ℕ) (now later : ℕ)
    → same t s ≡ false
    → now ≤ later
    → IsTracked s b past now
    → IsTracked s (decide b t later).0 past later
decide-IsTracked_other s t b past now later ne h v = record {
  counts = λ l k.
      v.counts l (omega arith) ∙ ap (within l) (sym (decide-attempts_other b s t later ne).0);
  newest =
      rw (decide-attempts_other b s t later ne).0 (Newest-later past (b.attempts s) h v.newest);
  limited = v.limited;
  spaced = v.spaced;
}

grants-IsTracked :
    (s : Service) (calls : List (Service × ℕ)) (b : RespawnBudget) (past : List ℕ) (now : ℕ)
    → IsMonotone now calls
    → IsTracked s b past now
    → Limited (grants s b past calls) × Spaced (grants s b past calls)
unfolding grants
grants-IsTracked s [] b past now m v = (v.limited, v.spaced)
grants-IsTracked s ((t, later) ∷ calls) b past now (h, m) v = elim (Bool-cases (same t s)) [
  | inl e ↦ rw e (
      grants-IsTracked s calls (decide b t later).0
        (if is_go (decide b t later).1 then later ∷ past else past) later m
        (decide-IsTracked-same s t b past now later e h v))
  | inr e ↦ rw e (
      grants-IsTracked s calls (decide b t later).0 past later m
        (decide-IsTracked_other s t b past now later e h v))
]

-- The respawns granted to one service, over any calls of `decide` for all services with a clock
-- that does not run backwards, from an empty budget: the ten-minute window that ends at any grant
-- holds at most three grants, and two grants are never less than ten seconds apart.
pub grants_bounded :
    (s : Service) (calls : List (Service × ℕ))
    → IsMonotone 0 calls
    → Limited (grants s fresh_budget [] calls) × Spaced (grants s fresh_budget [] calls)
grants_bounded s calls m =
    grants-IsTracked s calls fresh_budget [] 0 m
      (record { counts = λ l k. refl; newest = tt; limited = tt; spaced = tt })

recent_old : (now : ℕ) (ts : List ℕ) → All (λ t. t + 600000 ≤ now) ts → recent now ts ≡ []
recent_old now [] h = refl
recent_old now (t ∷ ts) (old, h) = ground (arith, recent_old now ts h)

-- The budget is given back: a service whose recorded attempts are all at least ten minutes (600,000
-- ms) old, however many they are, and whether or not its exhaustion has been reported, is granted a
-- respawn; its exhaustion notice is armed again, and only the new attempt is still recorded.
pub decide-go_of_quiet :
    (b : RespawnBudget) (s : Service) (now : ℕ)
    → All (λ t. t + 600000 ≤ now) (b.attempts s)
    → ((decide b s now).1 ≡ go)
      × ((decide b s now).0.exhausted_logged s ≡ false)
      × ((decide b s now).0.attempts s ≡ now ∷ [])
unfolding decide
decide-go_of_quiet b s now h = rw (recent_old now (b.attempts s) h, same_refl s) (refl, refl, refl)

-- The fatal notice comes once per episode: a first exhaustion report sets the flag of the service,
-- the flag stays until the service is granted a respawn, and while it is set no decision for it is a
-- first report. Decisions for another service change neither its attempts nor its flag.
decide-notice_once :
    (b : RespawnBudget) (s t : Service) (now : ℕ)
    → (b.exhausted_logged s ≡ true → (decide b s now).1 ≢ exhausted true)
      × ((decide b s now).1 ≡ exhausted true → (decide b s now).0.exhausted_logged s ≡ true)
      × ((decide b s now).1 ≢ go
          → b.exhausted_logged s ≡ true
          → (decide b s now).0.exhausted_logged s ≡ true)
      × (same t s ≡ false
          → ((decide b t now).0.attempts s ≡ b.attempts s)
            × ((decide b t now).0.exhausted_logged s ≡ b.exhausted_logged s))
unfolding decide
decide-notice_once b s t now = (
  ground arith,
  ground (arith, same_refl s),
  ground (arith, same_refl s),
  decide-attempts_other b s t now,
)
