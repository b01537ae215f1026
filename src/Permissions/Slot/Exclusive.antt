-- ===== src/Permissions/Slot/Exclusive.antt =====
-- At most one apply runs, in nfs-klldap-ui/src/web/permission_tree.rs.
use nfs_klldap_host.Permissions.Slot.{
  Applies, has_number, is_live, try_claim_apply_slot, finish, begin, claims, ends, Reachable, idle,
  steps,
}
use nfs_klldap_host.Prelude.{
  ℕ, ◌≡◌, ◌⊎◌, inl, inr, refl, sym, subst, ◌∙◌, arith, true, false, not, Option, some, List, [],
  ◌∷◌, ◌==◌, ==_iff, Bool-cases, All,
}

-- A started apply has finished, or holds the slot.
abbrev IsHeld : Applies → ℕ → Type 0
IsHeld s n = (has_number n s.finished ≡ true) ⊎ (s.slot ≡ some n)

All-map : {P Q : ℕ → Type 0} (xs : List ℕ) → ((n : ℕ) → P n → Q n) → All P xs → All Q xs
All-map [] f h = tt
All-map (x ∷ xs) f h = (f x h.0, All-map xs f h.1)

begin-IsHeld :
    (n : ℕ) (s : Applies) → All (IsHeld s) s.started → All (IsHeld (begin n s)) (begin n s).started
unfolding begin try_claim_apply_slot
begin-IsHeld n s h = elim (Bool-cases (is_live s.finished s.slot)) [
  | inl busy ↦ rw busy h
  | inr free ↦ rw free (inr refl, All-map s.started (λ m k. done free m k) h)
]
  where
    done :
        is_live s.finished s.slot ≡ false
        → (m : ℕ) → IsHeld s m
        → IsHeld (record s { slot = some n; started = n ∷ s.started }) m
    done free m (inl f) = inl f
    done free m (inr e) = inl (negated (subst (λ z. is_live s.finished z ≡ false) e free))
      where
        negated : not (has_number m s.finished) ≡ false → has_number m s.finished ≡ true
        negated k = ground (arith, k)

finish-IsHeld :
    (n : ℕ) (s : Applies)
    → All (IsHeld s) s.started
    → All (IsHeld (finish n s)) (finish n s).started
unfolding finish
finish-IsHeld n s h = All-map s.started (λ m k. later m k) h
  where
    later : (m : ℕ) → IsHeld s m → IsHeld (record s { finished = n ∷ s.finished }) m
    later m (inl f) = inl (rw f (ground arith))
    later m (inr e) = inr e

Reachable-IsHeld : (s : Applies) → Reachable s → All (IsHeld s) s.started
Reachable-IsHeld s (idle _ e) = rw e tt
Reachable-IsHeld t (steps s _ r (claims _ _ n new fresh e)) =
    rw e (begin-IsHeld n s (Reachable-IsHeld s r))
Reachable-IsHeld t (steps s _ r (ends _ _ n e)) = rw e (finish-IsHeld n s (Reachable-IsHeld s r))

among :
    (s : Applies) (n : ℕ) (ns : List ℕ) → All (IsHeld s) ns → has_number n ns ≡ true → IsHeld s n
among s n [] h k = absurd (cc k)
among s n (m ∷ ns) h k = elim (Bool-cases (n == m)) [
  | inl e ↦ rw ((==_iff n m).0 e) h.0
  | inr e ↦ among s n ns h.1 (ground (arith, k, e))
]

-- In whatever order requests claim the slot and tasks end, two applies that have been started and have
-- not finished are one and the same; and when the apply that holds the slot has finished, the next
-- claim is granted.
pub try_claim_apply_slot-IsExclusive :
    (s : Applies) (m n : ℕ)
    → Reachable s
    → has_number m s.started ≡ true
    → has_number n s.started ≡ true
    → has_number m s.finished ≡ false
    → has_number n s.finished ≡ false
    → (m ≡ n) × ((k : ℕ) → (try_claim_apply_slot k (finish m s)).1 ≡ true)
unfolding try_claim_apply_slot finish
try_claim_apply_slot-IsExclusive s m n r sm sn fm fn =
    let holds =
      λ (k : ℕ) (started : has_number k s.started ≡ true) (f : has_number k s.finished ≡ false).
        held k (among s k s.started (Reachable-IsHeld s r) started) f in
    (some_inj m n (sym (holds m sm fm) ∙ holds n sn fn), λ k. rw (holds m sm fm) (ground arith))
  where
    held : (k : ℕ) → IsHeld s k → has_number k s.finished ≡ false → s.slot ≡ some k
    held k (inl f) g = absurd (cc (f, g))
    held k (inr e) g = e

    some_inj : (a b : ℕ) → ◌≡◌ {A = Option ℕ} (some a) (some b) → a ≡ b
    some_inj a b e = ground (arith, e)
