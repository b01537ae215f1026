-- ===== src/Identity/Rows/Decimal.antt =====
-- Numbers in decimal, printed and read back.
use nfs_klldap_host.Identity.Rows.{
  digits_from, in_range, unsigned, without_plus, parse_u32, digits_of, to_decimal,
}
use nfs_klldap_host.Prelude.{
  ℕ, zero, suc, ◌+◌, ◌-◌, ◌*◌, ◌/◌, ◌%◌, ◌^◌, ◌<◌, ◌≡◌, Bool, true, false, some, [], ◌∷◌, ◌++◌,
  refl, ap, ◌∙◌, arith, ltb, ◌==◌, ◌&&◌, Text, is_empty, is_digit, all_digits, Bool-cases, inl, inr,
}

digits_from-snoc :
    (m v c : ℕ) (s : Text)
    → is_digit c ≡ true
    → digits_from m s ≡ some v
    → digits_from m (s ++ c ∷ []) ≡ some (v * 10 + (c - 48))
digits_from-snoc m v c [] d h = ground arith
digits_from-snoc m v c (x ∷ s) d h = elim (Bool-cases (is_digit x)) [
  | inl y ↦ rw y (digits_from-snoc (m * 10 + (x - 48)) v c s d (rest y))
  | inr n ↦ absurd (cc (h, n))
]
  where
    rest : is_digit x ≡ true → digits_from (m * 10 + (x - 48)) s ≡ some v
    rest y = ground arith

whole : (n : ℕ) → n / 10 * 10 + (48 + n % 10 - 48) ≡ n
whole n = omega arith

digits_from-digits_of : (fuel n : ℕ) → n < 10 ^ fuel → digits_from 0 (digits_of fuel n) ≡ some n
digits_from-digits_of zero n h = ap some (omega arith)
digits_from-digits_of (suc fuel) n h = elim (Bool-cases (ltb n 10)) [
  | inl y ↦ rw y (ground arith)
  | inr b ↦ rw b (
      digits_from-snoc 0 (n / 10) (48 + n % 10) (digits_of fuel (n / 10)) (ground arith)
        (digits_from-digits_of fuel (n / 10) (omega arith))
      ∙ ap some (whole n))
]

all_digits-snoc :
    (c : ℕ) (s : Text) → is_digit c ≡ true → all_digits s ≡ true → all_digits (s ++ c ∷ []) ≡ true
all_digits-snoc c [] d h = rw d refl
all_digits-snoc c (x ∷ s) d h = ground (arith, all_digits-snoc c s d)

pub all_digits-digits_of : (fuel n : ℕ) → all_digits (digits_of fuel n) ≡ true
all_digits-digits_of zero n = refl
all_digits-digits_of (suc fuel) n = elim (Bool-cases (ltb n 10)) [
  | inl y ↦ rw y (ground arith)
  | inr b ↦ rw b (
      all_digits-snoc (48 + n % 10) (digits_of fuel (n / 10)) (ground arith)
        (all_digits-digits_of fuel (n / 10)))
]

is_empty-snoc : (c : ℕ) (s : Text) → is_empty (s ++ c ∷ []) ≡ false
is_empty-snoc c [] = refl
is_empty-snoc c (x ∷ s) = refl

pub is_empty-digits_of : (fuel n : ℕ) → is_empty (digits_of (suc fuel) n) ≡ false
is_empty-digits_of fuel n = elim (Bool-cases (ltb n 10)) [
  | inl y ↦ rw y refl
  | inr b ↦ rw b (is_empty-snoc (48 + n % 10) (digits_of fuel (n / 10)))
]

not_plus : (c : ℕ) (b : Bool) → (is_digit c && b) ≡ true → (c == 43) ≡ false
not_plus c b h = ground arith

in_range_of : (w n : ℕ) → n < 2 ^ w → in_range w (some n) ≡ some n
in_range_of w n h = ground arith

parse_digits :
    (s : Text) (n : ℕ)
    → is_empty s ≡ false
    → all_digits s ≡ true
    → digits_from 0 s ≡ some n
    → n < 2 ^ 32
    → in_range 32 (unsigned (without_plus s)) ≡ some n
parse_digits [] n full d h small = absurd (cc full)
parse_digits (c ∷ s) n full d h small =
    rw (not_plus c (all_digits s) d) (ap (in_range 32) h ∙ in_range_of 32 n small)

-- A u32 that is printed is read back.
pub parse_u32-to_decimal : (n : ℕ) → n < 2 ^ 32 → parse_u32 (to_decimal n) ≡ some n
unfolding parse_u32 to_decimal
parse_u32-to_decimal n h =
    parse_digits (digits_of 10 n) n (is_empty-digits_of 9 n) (all_digits-digits_of 10 n)
      (digits_from-digits_of 10 n (omega arith)) h
