-- ===== src/Identity/Rows/Passwd.antt =====
-- The passwd lines that the identity helper writes, read by its own parser.
use nfs_klldap_host.Identity.Rows.{
  splitn, row_of_parts, is_skipped, parse_passwd_row, digits_of, to_decimal, passwd_line,
  comment_on,
}
use nfs_klldap_host.Identity.Rows.Decimal.{all_digits-digits_of, parse_u32-to_decimal}
use nfs_klldap_host.Prelude.{
  ℕ, suc, ◌^◌, ◌<◌, ◌≡◌, true, false, some, List, [], ◌∷◌, ◌++◌, refl, ap, ◌∙◌, arith, ◌==◌, Text,
  is_empty, is_digit, all_digits, is_whitespace, trim, trim_end, leads, trim_start_of_leads,
  trim_end-append, split_once_at, contains, All, Bool-cases, inl, inr,
}

-- Fit for a field: neither a colon nor a space, nor the sign of a comment.
abbrev pub IsField : ℕ → Type 0
IsField c = (is_whitespace c ≡ false) × ((c == 58) ≡ false) × ((c == 35) ≡ false)

contains-IsField : (s : Text) → All IsField s → contains 58 s ≡ false
contains-IsField [] h = refl
contains-IsField (c ∷ s) ((w, colon, hash), h) = rw colon (contains-IsField s h)

leads-IsField : (s : Text) → All IsField s → leads s ≡ true
leads-IsField [] h = refl
leads-IsField (c ∷ s) ((w, colon, hash), h) = rw w refl

trim_end-IsField : (s : Text) → All IsField s → trim_end s ≡ s
trim_end-IsField [] h = refl
trim_end-IsField (c ∷ s) ((w, colon, hash), h) = rw w (ap (λ z. c ∷ z) (trim_end-IsField s h))

trim-IsField : (s : Text) → All IsField s → trim s ≡ s
trim-IsField s h = ap trim_end (trim_start_of_leads s (leads-IsField s h)) ∙ trim_end-IsField s h

digit-IsField : (c : ℕ) → is_digit c ≡ true → IsField c
digit-IsField c h = (ground arith, ground arith, ground arith)

digits-IsField : (s : Text) → all_digits s ≡ true → All IsField s
digits-IsField [] h = tt
digits-IsField (c ∷ s) h = elim (Bool-cases (is_digit c)) [
  | inl y ↦ (digit-IsField c y, digits-IsField s (ground arith))
  | inr n ↦ absurd (cc (h, n))
]

to_decimal-IsField : (n : ℕ) → All IsField (to_decimal n)
unfolding to_decimal
to_decimal-IsField n = digits-IsField (digits_of 10 n) (all_digits-digits_of 10 n)

-- A field in front stays, and what is cut off behind its colon is read on.
splitn-field :
    (n : ℕ) (s rest : Text)
    → All IsField s
    → splitn (suc (suc n)) 58 (s ++ 58 ∷ rest) ≡ s ∷ splitn (suc n) 58 rest
splitn-field n s rest h = rw (split_once_at 58 s rest (contains-IsField s h)) refl

stays : (l rest : Text) → trim_end rest ≡ rest → trim_end (l ++ 58 ∷ rest) ≡ l ++ 58 ∷ rest
stays l rest h = trim_end-append 58 l rest refl ∙ ap (λ z. l ++ 58 ∷ z) h

trim_end-passwd_line :
    (login gecos : Text) (uid gid : ℕ)
    → trim_end (passwd_line login uid gid gecos) ≡ passwd_line login uid gid gecos
unfolding passwd_line
trim_end-passwd_line login gecos uid gid =
    stays login _ (
      stays (120 ∷ []) _ (stays (to_decimal uid) _ (stays (to_decimal gid) _ (stays gecos _ refl))))

leads-field : (s rest : Text) → All IsField s → is_empty s ≡ false → leads (s ++ rest) ≡ true
leads-field [] rest h full = absurd (cc full)
leads-field (c ∷ s) rest ((w, colon, hash), h) full = rw w refl

is_skipped-field :
    (s rest : Text) → All IsField s → is_empty s ≡ false → is_skipped (s ++ rest) ≡ false
is_skipped-field [] rest h full = absurd (cc full)
is_skipped-field (c ∷ s) rest ((w, colon, hash), h) full = ground arith

leads-passwd_line :
    (login gecos : Text) (uid gid : ℕ)
    → All IsField login
    → is_empty login ≡ false
    → leads (passwd_line login uid gid gecos) ≡ true
unfolding passwd_line
leads-passwd_line login gecos uid gid h full = leads-field login _ h full

is_skipped-passwd_line :
    (login gecos : Text) (uid gid : ℕ)
    → All IsField login
    → is_empty login ≡ false
    → is_skipped (passwd_line login uid gid gecos) ≡ false
unfolding passwd_line
is_skipped-passwd_line login gecos uid gid h full = is_skipped-field login _ h full

splitn-passwd_line :
    (login gecos : Text) (uid gid : ℕ)
    → All IsField login
    → (rest : List Text) × (splitn 7 58 (passwd_line login uid gid gecos)
        ≡ login ∷ (120 ∷ []) ∷ to_decimal uid ∷ to_decimal gid ∷ rest)
unfolding passwd_line
splitn-passwd_line login gecos uid gid h =
    let from_gid = to_decimal gid ++ (58 ∷ comment_on gecos) in
    let from_uid = to_decimal uid ++ (58 ∷ from_gid) in
    (
      _,
      splitn-field 5 login ((120 ∷ []) ++ (58 ∷ from_uid)) h
          ∙ ap (λ z. login ∷ z) (splitn-field 4 (120 ∷ []) from_uid ((refl, refl, refl), tt))
          ∙ ap (λ z. login ∷ (120 ∷ []) ∷ z)
              (splitn-field 3 (to_decimal uid) from_gid (to_decimal-IsField uid))
          ∙ ap (λ z. login ∷ (120 ∷ []) ∷ to_decimal uid ∷ z)
              (splitn-field 2 (to_decimal gid) (comment_on gecos) (to_decimal-IsField gid)),
    )

row_of_parts-line :
    (login : Text) (rest : List Text) (uid gid : ℕ)
    → All IsField login
    → uid < 2 ^ 32
    → gid < 2 ^ 32
    → row_of_parts (login ∷ (120 ∷ []) ∷ to_decimal uid ∷ to_decimal gid ∷ rest)
      ≡ some (record { name = login; uid = uid; gid = gid })
row_of_parts-line login rest uid gid h small_uid small_gid =
    rw
      (
        trim-IsField login h,
        trim-IsField (to_decimal uid) (to_decimal-IsField uid),
        trim-IsField (to_decimal gid) (to_decimal-IsField gid),
        parse_u32-to_decimal uid small_uid,
        parse_u32-to_decimal gid small_gid,
      )
      refl

-- The passwd line of a login whose characters all fit a field is read back as that login, uid and gid
-- (both of 32 bits), whatever its comment is.
pub parse_passwd_row-passwd_line :
    (login gecos : Text) (uid gid : ℕ)
    → All IsField login
    → is_empty login ≡ false
    → uid < 2 ^ 32
    → gid < 2 ^ 32
    → parse_passwd_row (passwd_line login uid gid gecos)
      ≡ some (record { name = login; uid = uid; gid = gid })
unfolding parse_passwd_row
parse_passwd_row-passwd_line login gecos uid gid h full small_uid small_gid =
    let line = passwd_line login uid gid gecos in
    let whole =
      ap trim_end (trim_start_of_leads line (leads-passwd_line login gecos uid gid h full))
      ∙ trim_end-passwd_line login gecos uid gid in
    let (rest, parts) = splitn-passwd_line login gecos uid gid h in
    rw (whole, is_skipped-passwd_line login gecos uid gid h full)
      (ap row_of_parts parts ∙ row_of_parts-line login rest uid gid h small_uid small_gid)
