-- ===== src/Validation/Lists.antt =====
-- Membership and distinctness in the loops of nfs-klldap-config/src/validate.rs.
use nfs_klldap_host.Identity.Members.{has_text}
use nfs_klldap_host.Prelude.{
  ℕ, ◌==◌, ◌&&◌, ◌≡◌, ◌≢◌, refl, sym, subst, arith, Bool, true, false, ◌||◌, Option, none, some,
  List, [], ◌∷◌, ◌++◌, Text, same_text, same_text_sound, same_text_refl, is_empty, starts_with, All,
  Among, Bool-cases, inl, inr,
}

abbrev pub Meets {ℓ κ} : {A : Type ℓ} → (A → Type κ) → Option A → Type κ
Meets P none = Unit
Meets P (some a) = P a

-- No two of the list have the same text.
abbrev pub Apart : {A : Type 0} → (A → Text) → List A → Type 0
Apart f [] = Unit
Apart f (x ∷ xs) = All (λ y. f y ≢ f x) xs × Apart f xs

-- Each text is new after those seen and those before it.
abbrev pub Fresh : {A : Type 0} → (A → Text) → List Text → List A → Type 0
Fresh f seen [] = Unit
Fresh f seen (x ∷ xs) = (has_text (f x) seen ≡ false) × Fresh f (f x ∷ seen) xs

or_right : (a b : Bool) → b ≡ true → (a || b) ≡ true
or_right true b h = refl
or_right false b h = h

module _ {A : Type 0} (f : A → Text) where
  differ :
      (z : Text) (seen : List Text) (xs : List A)
      → has_text z seen ≡ true
      → Fresh f seen xs
      → All (λ y. f y ≢ z) xs
  differ z seen [] h k = tt
  differ z seen (x ∷ xs) h (new, rest) = (
    λ e. cc (new, subst (λ t. has_text t seen ≡ true) (sym e) h),
    differ z (f x ∷ seen) xs (or_right (same_text (f x) z) _ h) rest,
  )

  pub Fresh-Apart : (seen : List Text) (xs : List A) → Fresh f seen xs → Apart f xs
  Fresh-Apart seen [] k = tt
  Fresh-Apart seen (x ∷ xs) (new, rest) = (
    differ (f x) (f x ∷ seen) xs (rw (same_text_refl (f x)) refl) rest,
    Fresh-Apart (f x ∷ seen) xs rest,
  )

pub has_text-Among : (x : Text) (xs : List Text) → has_text x xs ≡ true → Among x xs
has_text-Among x [] h = absurd (cc h)
has_text-Among x (y ∷ ys) h = elim (Bool-cases (same_text y x)) [
  | inl e ↦ inl (sym (same_text_sound y x e))
  | inr n ↦ inr (has_text-Among x ys (rw n at h))
]

both : (c d : ℕ) (b : Bool) → (c == d && b) ≡ true → (c ≡ d) × (b ≡ true)
both c d b h = ground arith

-- A text that starts with another is that text and a rest.
pub starts_with_lem : (p s : Text) → starts_with p s ≡ true → (rest : Text) × (s ≡ p ++ rest)
starts_with_lem [] s h = (s, refl)
starts_with_lem (c ∷ p) [] h = absurd (cc h)
starts_with_lem (c ∷ p) (d ∷ s) h =
    let (e, k) = both c d (starts_with p s) h in
    let (rest, q) = starts_with_lem p s k in (rest, ground (arith, e, q))

pub is_empty-ne : (s : Text) → is_empty s ≡ false → s ≢ []
is_empty-ne [] h e = cc h
is_empty-ne (c ∷ s) h e = cc
