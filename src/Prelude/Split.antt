-- ===== src/Prelude/Split.antt =====
-- Cutting a text at a character, and the ASCII case of the standard library.
use Prim.Native.Nat.{ℕ, ◌+◌, ◌-◌}
use mathlib.Core.Path.{◌≡◌, refl, ap, ◌∙◌}
use mathlib.Core.Logic.{◌⊎◌, inl, inr}
use mathlib.Core.Bool.{Bool, true, false, not, ◌&&◌, ◌||◌}
use mathlib.Core.Option.{Option, none, some}
use mathlib.Core.List.{List, [], ◌∷◌, ◌++◌, map}
use native.Mathlib.Omega.{arith}
use nfs_klldap_host.Prelude.Tests.{leb, if◌then◌else◌, ◌==◌, ==_iff, Bool-cases}
use nfs_klldap_host.Prelude.Strings.{
  Text, is_whitespace, trim_start, trim_end, trim, is_empty, split_once,
}

abbrev pub to_upper : ℕ → ℕ
to_upper c = if leb 97 c && leb c 122 then c - 32 else c

abbrev pub to_lower : ℕ → ℕ
to_lower c = if leb 65 c && leb c 90 then c + 32 else c

-- `to_ascii_uppercase` and `to_ascii_lowercase`
abbrev pub to_ascii_uppercase : Text → Text
to_ascii_uppercase s = map to_upper s

abbrev pub to_ascii_lowercase : Text → Text
to_ascii_lowercase s = map to_lower s

-- `str::contains`, on a character.
abbrev pub contains : ℕ → Text → Bool
contains d [] = false
contains d (c ∷ s) = c == d || contains d s

-- `split(d).next()`
abbrev pub until : ℕ → Text → Text
until d [] = []
until d (c ∷ s) = let rest = until d s in if c == d then [] else c ∷ rest

abbrev pub or_else {ℓ} : {A : Type ℓ} → Option A → Option A → Option A
or_else none o = o
or_else (some a) o = some a

-- The second part of `rsplit_once`.
abbrev pub after_last : ℕ → Text → Option Text
after_last d [] = none
after_last d (c ∷ s) = or_else (after_last d s) (if c == d then some s else none)

abbrev pub starts_with : Text → Text → Bool
starts_with [] s = true
starts_with (c ∷ p) [] = false
starts_with (c ∷ p) (d ∷ s) = c == d && starts_with p s

abbrev pub add_to_first : ℕ → List Text → List Text
add_to_first c [] = (c ∷ []) ∷ []
add_to_first c (piece ∷ rest) = (c ∷ piece) ∷ rest

-- `str::split`, on a character.
abbrev pub split : ℕ → Text → List Text
split d [] = [] ∷ []
split d (c ∷ s) = let rest = split d s in if c == d then [] ∷ rest else add_to_first c rest

abbrev goes_on : Text → Bool
goes_on [] = false
goes_on (c ∷ s) = not (is_whitespace c)

-- `str::split_whitespace`
abbrev pub split_whitespace : Text → List Text
split_whitespace [] = []
split_whitespace (c ∷ s) =
    let rest = split_whitespace s in
    if is_whitespace c then rest else if goes_on s then add_to_first c rest else (c ∷ []) ∷ rest

-- `str::contains`, on a text.
abbrev pub contains_text : Text → Text → Bool
contains_text p [] = is_empty p
contains_text p (c ∷ s) = starts_with p (c ∷ s) || contains_text p s

abbrev pub is_digit : ℕ → Bool
is_digit c = leb 48 c && leb c 57

abbrev pub all_digits : Text → Bool
all_digits [] = true
all_digits (c ∷ s) = is_digit c && all_digits s

-- No space in front.
abbrev pub leads : Text → Bool
leads [] = true
leads (c ∷ s) = not (is_whitespace c)

pub trim_start-leads : (s : Text) → leads (trim_start s) ≡ true
trim_start-leads [] = refl
trim_start-leads (c ∷ s) = elim (Bool-cases (is_whitespace c)) [
  | inl w ↦ rw w (trim_start-leads s)
  | inr n ↦ rw n (rw n refl)
]

pub trim_start_of_leads : (s : Text) → leads s ≡ true → trim_start s ≡ s
trim_start_of_leads [] h = refl
trim_start_of_leads (c ∷ s) h = elim (Bool-cases (is_whitespace c)) [
  | inl w ↦ absurd (cc (h, w))
  | inr n ↦ rw n refl
]

pub trim_end-leads : (s : Text) → leads s ≡ true → leads (trim_end s) ≡ true
trim_end-leads [] h = refl
trim_end-leads (c ∷ s) h = elim (Bool-cases (is_whitespace c)) [
  | inl w ↦ absurd (cc (h, w))
  | inr n ↦ rw n (rw n refl)
]

pub trim_end-trim_end : (s : Text) → trim_end (trim_end s) ≡ trim_end s
trim_end-trim_end [] = refl
trim_end-trim_end (c ∷ s) = elim (Bool-cases (is_whitespace c && is_empty (trim_end s))) [
  | inl w ↦ rw w refl
  | inr n ↦ rw n (rw (trim_end-trim_end s, n) refl)
]

pub trim-leads : (s : Text) → leads (trim s) ≡ true
trim-leads s = trim_end-leads (trim_start s) (trim_start-leads s)

pub trim_end-trim : (s : Text) → trim_end (trim s) ≡ trim s
trim_end-trim s = trim_end-trim_end (trim_start s)

pub trim-trim : (s : Text) → trim (trim s) ≡ trim s
trim-trim s = ap trim_end (trim_start_of_leads (trim s) (trim-leads s)) ∙ trim_end-trim s

pub is_whitespace-to_upper : (c : ℕ) → is_whitespace (to_upper c) ≡ is_whitespace c
is_whitespace-to_upper c = ground arith

pub to_upper-to_upper : (c : ℕ) → to_upper (to_upper c) ≡ to_upper c
to_upper-to_upper c = ground arith

pub leads-to_ascii_uppercase : (s : Text) → leads (to_ascii_uppercase s) ≡ leads s
leads-to_ascii_uppercase [] = refl
leads-to_ascii_uppercase (c ∷ s) = ap not (is_whitespace-to_upper c)

is_empty-map : (f : ℕ → ℕ) (s : Text) → is_empty (map f s) ≡ is_empty s
is_empty-map f [] = refl
is_empty-map f (c ∷ s) = refl

pub trim_end-to_ascii_uppercase :
    (s : Text) → trim_end (to_ascii_uppercase s) ≡ to_ascii_uppercase (trim_end s)
trim_end-to_ascii_uppercase [] = refl
trim_end-to_ascii_uppercase (c ∷ s) = elim (Bool-cases (is_whitespace c && is_empty (trim_end s))) [
  | inl w ↦
      rw
        (
          is_whitespace-to_upper c,
          trim_end-to_ascii_uppercase s,
          is_empty-map to_upper (trim_end s),
          w,
        )
        refl
  | inr n ↦
      rw
        (
          is_whitespace-to_upper c,
          trim_end-to_ascii_uppercase s,
          is_empty-map to_upper (trim_end s),
          n,
        )
        refl
]

pub to_ascii_uppercase-to_ascii_uppercase :
    (s : Text) → to_ascii_uppercase (to_ascii_uppercase s) ≡ to_ascii_uppercase s
to_ascii_uppercase-to_ascii_uppercase [] = refl
to_ascii_uppercase-to_ascii_uppercase (c ∷ s) =
    ap (λ z. z ∷ to_ascii_uppercase (to_ascii_uppercase s)) (to_upper-to_upper c)
    ∙ ap (λ z. to_upper c ∷ z) (to_ascii_uppercase-to_ascii_uppercase s)

-- A text with a `d` after a part without one is cut there.
pub split_once_at :
    (d : ℕ) (l r : Text) → contains d l ≡ false → split_once d (l ++ d ∷ r) ≡ some (l, r)
split_once_at d [] r h = ground arith
split_once_at d (c ∷ l) r h = ground (arith, split_once_at d l r)

pub until_at : (d : ℕ) (l r : Text) → contains d l ≡ false → until d (l ++ d ∷ r) ≡ l
until_at d [] r h = ground arith
until_at d (c ∷ l) r h = ground (arith, until_at d l r)

pub contains-until : (d : ℕ) (s : Text) → contains d (until d s) ≡ false
contains-until d [] = refl
contains-until d (c ∷ s) = ground (arith, contains-until d s)

pub trim_end-append :
    (d : ℕ) (l r : Text) → is_whitespace d ≡ false → trim_end (l ++ d ∷ r) ≡ l ++ d ∷ trim_end r
trim_end-append d [] r h = rw h refl
trim_end-append d (c ∷ l) r h = tail (trim_end-append d l r h)
  where
    never : (l : Text) (x : Text) → is_empty (l ++ d ∷ x) ≡ false
    never [] x = refl
    never (e ∷ l) x = refl

    tail :
        trim_end (l ++ d ∷ r) ≡ l ++ d ∷ trim_end r
        → trim_end (c ∷ l ++ d ∷ r) ≡ c ∷ l ++ d ∷ trim_end r
    tail e = elim (Bool-cases (is_whitespace c)) [
      | inl w ↦ rw (e, never l (trim_end r), w) refl
      | inr n ↦ rw (e, n) refl
    ]

abbrev pub Cut : ℕ → Text → Type 0
Cut d p =
    ((split_once d p ≡ none) × (contains d p ≡ false))
    ⊎ ((l : Text) × (r : Text) × (p ≡ l ++ d ∷ r) × (contains d l ≡ false))

Cut-cons : (d c : ℕ) (p : Text) → (c == d) ≡ false → Cut d p → Cut d (c ∷ p)
Cut-cons d c p n (inl (uncut, without)) = inl (rw (n, uncut) refl, rw (n, without) refl)
Cut-cons d c p n (inr (l, r, e, without)) = inr (c ∷ l, r, ap (λ z. c ∷ z) e, rw (n, without) refl)

-- Where a text is cut: nowhere, or behind a part without the character.
pub cut : (d : ℕ) (p : Text) → Cut d p
cut d [] = inl (refl, refl)
cut d (c ∷ p) = elim (Bool-cases (c == d)) [
  | inl y ↦ inr ([], p, ap (λ z. z ∷ p) ((==_iff c d).0 y), refl)
  | inr n ↦ Cut-cons d c p n (cut d p)
]

pub leads-append : (d : ℕ) (l r s : Text) → leads (l ++ d ∷ r) ≡ leads (l ++ d ∷ s)
leads-append d [] r s = refl
leads-append d (c ∷ l) r s = refl
