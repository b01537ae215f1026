-- ===== src/Permissions/Slot.antt =====
-- The single slot for an apply in nfs-klldap-ui/src/web/permission_tree.rs. A progress object is its
-- number; many requests run at once, and a claim is one step, since its check and its write hold
-- the lock.
pub mod Exclusive
use nfs_klldap_host.Prelude.{
  ℕ, ◌≡◌, ◌⊎◌, inl, inr, refl, sym, subst, ◌∙◌, arith, Bool, true, false, not, ◌||◌, Option, none,
  some, List, [], ◌∷◌, if◌then◌else◌, ◌==◌, ==_iff, Bool-cases, All,
}

-- The slot, the objects whose finished flag is set, and the applies that were started.
pub record Applies : Type 0 where
  pub slot : Option ℕ
  pub finished : List ℕ
  pub started : List ℕ

abbrev pub has_number : ℕ → List ℕ → Bool
has_number n [] = false
has_number n (m ∷ ms) = n == m || has_number n ms

abbrev pub is_live : List ℕ → Option ℕ → Bool
is_live finished none = false
is_live finished (some n) = not (has_number n finished)

unfoldable pub apply_in_progress : Applies → Bool
apply_in_progress s = is_live s.finished s.slot

-- The claim: what is left, and whether it was granted.
unfoldable pub try_claim_apply_slot : ℕ → Applies → Applies × Bool
unfolding apply_in_progress
try_claim_apply_slot n s =
    if apply_in_progress s then (s, false) else (record s { slot = some n }, true)

-- The drop of `FinishOnDrop`, and the stores before it.
unfoldable pub finish : ℕ → Applies → Applies
finish n s = record s { finished = n ∷ s.finished }

-- A claim by a handler, which starts its task when it is granted.
unfoldable pub begin : ℕ → Applies → Applies
begin n s =
    let (t, granted) = try_claim_apply_slot n s in
    if granted then record t { started = n ∷ t.started } else t

-- Requests claim with a new progress object, and tasks end, in any order.
pub data Turn : Applies → Applies → Type 0 where
  claims :
      (s t : Applies) (n : ℕ)
      → has_number n s.started ≡ false
      → has_number n s.finished ≡ false
      → t ≡ begin n s
      → Turn s t
  ends : (s t : Applies) (n : ℕ) → t ≡ finish n s → Turn s t

pub data Reachable : Applies → Type 0 where
  idle : (s : Applies) → s ≡ record { slot = none; finished = []; started = [] } → Reachable s
  steps : (s t : Applies) → Reachable s → Turn s t → Reachable t
