-- ===== src/Auth/Password/RoundTrip.antt =====
-- Setting and checking the localhost password of nfs-klldap-ui/src/auth.rs.
use nfs_klldap_host.Auth.{hex_encode, hex_digit}
use nfs_klldap_host.Auth.Password.{
  accepted, refused, invalid_password, PasswordFile, Disk, colon, newline, from_hex_digit,
  push_byte, decode_pairs, hex_decode, iterate, hash_password, password_line, set_simple_password,
  localhost, compare_hash, check_fields, check_content, validate_simple_password,
}
use nfs_klldap_host.Prelude.{
  ℕ, zero, suc, ◌+◌, ◌*◌, ◌/◌, ◌%◌, ◌≤◌, ◌<◌, ◌≡◌, ◌≢◌, ◌⊎◌, inl, inr, true, false, none, some,
  List, [], ◌∷◌, ◌++◌, refl, ap, ◌∙◌, arith, if◌then◌else◌, Text, same_text, as_bytes, trim,
  trim_end, is_whitespace, is_empty, split_once, length, All,
}

abbrev pub IsByte : ℕ → Type 0
IsByte b = b < 256

abbrev IsHex : ℕ → Type 0
IsHex c = ((48 ≤ c) × (c ≤ 57)) ⊎ ((97 ≤ c) × (c ≤ 102))

hex_digit-IsHex : (d : ℕ) → d < 16 → IsHex (hex_digit d)
hex_digit-IsHex d h = ground arith

hex_encode-IsHex : (bytes : List ℕ) → All IsByte bytes → All IsHex (hex_encode bytes)
unfolding hex_encode
hex_encode-IsHex [] h = tt
hex_encode-IsHex (b ∷ bytes) (low, h) = (
  hex_digit-IsHex (b / 16) (omega arith),
  (hex_digit-IsHex (b % 16) (omega arith), hex_encode-IsHex bytes h),
)

as_bytes-hex : (s : Text) → All IsHex s → as_bytes s ≡ s
as_bytes-hex [] h = refl
as_bytes-hex (c ∷ s) (x, h) = ground (arith, as_bytes-hex s h)

from_hex_digit-hex_digit : (d : ℕ) → d < 16 → from_hex_digit (hex_digit d) ≡ some d
unfolding from_hex_digit
from_hex_digit-hex_digit d h = ground arith

even_length : (bytes : List ℕ) → length (hex_encode bytes) % 2 ≡ 0
unfolding hex_encode
even_length [] = omega arith
even_length (b ∷ bytes) = omega (arith, even_length bytes)

whole : (b : ℕ) → Path ℕ (b / 16 * 16 + b % 16) b
whole b = omega arith

decode_pairs-hex_encode :
    (bytes : List ℕ) → All IsByte bytes → decode_pairs (hex_encode bytes) ≡ some bytes
unfolding decode_pairs push_byte hex_encode
decode_pairs-hex_encode [] h = refl
decode_pairs-hex_encode (b ∷ bytes) (low, h) =
    rw
      (
        from_hex_digit-hex_digit (b / 16) (omega arith),
        from_hex_digit-hex_digit (b % 16) (omega arith),
        decode_pairs-hex_encode bytes h,
      )
      (ap (λ z. some (z ∷ bytes)) (whole b))

-- Decoding what was encoded gives the bytes back.
pub hex_decode-hex_encode :
    (bytes : List ℕ) → All IsByte bytes → hex_decode (hex_encode bytes) ≡ some bytes
unfolding hex_decode
hex_decode-hex_encode bytes h =
    rw (as_bytes-hex (hex_encode bytes) (hex_encode-IsHex bytes h), even_length bytes)
      (decode_pairs-hex_encode bytes h)

split_once-hex : (a b : Text) → All IsHex a → split_once colon (a ++ colon ∷ b) ≡ some (a, b)
split_once-hex [] b h = refl
split_once-hex (c ∷ a) b (x, h) = ground (arith, split_once-hex a b h)

abbrev IsSolid : ℕ → Type 0
IsSolid c = is_whitespace c ≡ false

trim_end-line : (s : Text) → All IsSolid s → trim_end (s ++ newline ∷ []) ≡ s
trim_end-line [] h = refl
trim_end-line (c ∷ s) (x, h) = rw (x, trim_end-line s h) refl

trim-line : (s : Text) → All IsSolid s → trim (s ++ newline ∷ []) ≡ s
trim-line [] h = refl
trim-line (c ∷ s) (x, h) = rw x (trim_end-line (c ∷ s) (x, h))

IsSolid-of_hex : (c : ℕ) → IsHex c → IsSolid c
IsSolid-of_hex c h = ground arith

hex-IsSolid : (s : Text) → All IsHex s → All IsSolid s
hex-IsSolid [] h = tt
hex-IsSolid (c ∷ s) (x, h) = (IsSolid-of_hex c x, hex-IsSolid s h)

All-append : (P : ℕ → Type 0) (s t : Text) → All P s → All P t → All P (s ++ t)
All-append P [] t h k = k
All-append P (c ∷ s) t (x, h) k = (x, All-append P s t h k)

iterate-IsByte :
    (n : ℕ) (sha256 : List ℕ → List ℕ) (s : List ℕ)
    → ((t : List ℕ) → All IsByte (sha256 t))
    → All IsByte (iterate n sha256 (sha256 s))
unfolding iterate
iterate-IsByte zero sha256 s digest = digest s
iterate-IsByte (suc n) sha256 s digest = digest (iterate n sha256 (sha256 s))

hash_password-IsByte :
    (sha256 : List ℕ → List ℕ) (salt pw : List ℕ)
    → ((t : List ℕ) → All IsByte (sha256 t))
    → All IsByte (hash_password sha256 salt pw)
unfolding hash_password
hash_password-IsByte sha256 salt pw digest = iterate-IsByte 99999 sha256 (salt ++ pw) digest

append_assoc : (s t u : Text) → s ++ t ++ u ≡ (s ++ t) ++ u
append_assoc [] t u = refl
append_assoc (c ∷ s) t u = ap (λ z. c ∷ z) (append_assoc s t u)

-- The trimmed line splits into the two fields.
split_line :
    (a b : Text)
    → All IsHex a
    → All IsHex b
    → split_once colon (trim (a ++ colon ∷ b ++ newline ∷ [])) ≡ some (a, b)
split_line a b h k =
    ap (split_once colon) (
      ap trim (append_assoc a (colon ∷ b) (newline ∷ []))
      ∙ trim-line (a ++ colon ∷ b)
          (All-append IsSolid a (colon ∷ b) (hex-IsSolid a h) (refl, hex-IsSolid b k)))
    ∙ split_once-hex a b h

-- Setting the password either succeeds, for a password that is not blank and has at least 8 bytes,
-- with the new line in the file and nothing else of it changed; or it reports an error, for every way
-- in which the checks or the disk can fail, and leaves the file as it was.
pub set_simple_password_lem :
    (sha256 : List ℕ → List ℕ) (salt : List ℕ) (disk : Disk) (password : Text) (file : PasswordFile)
    → let (error, file') = set_simple_password sha256 salt disk password file in
      ((error ≡ none)
        × (file' ≡ record file { content = some (password_line sha256 salt password) })
        × (8 ≤ length (as_bytes password))
        × (is_empty (trim password) ≡ false))
      ⊎ ((error ≢ none) × (file' ≡ file))
unfolding set_simple_password
set_simple_password_lem sha256 salt disk password file = ground arith

check_line :
    (sha256 : List ℕ → List ℕ) (salt : List ℕ) (password attempt : Text)
    → ((t : List ℕ) → All IsByte (sha256 t))
    → All IsByte salt
    → check_content sha256 attempt true (some (password_line sha256 salt password)) ≡ (
        if same_text
          (hash_password sha256 salt (as_bytes attempt))
          (hash_password sha256 salt (as_bytes password))
        then accepted
        else refused invalid_password)
unfolding check_content check_fields compare_hash password_line
check_line sha256 salt password attempt digest low =
    let hash = hash_password sha256 salt (as_bytes password) in
    let bytes = hash_password-IsByte sha256 salt (as_bytes password) digest in
    rw
      (
        split_line (hex_encode salt) (hex_encode hash) (hex_encode-IsHex salt low)
            (hex_encode-IsHex hash bytes),
        hex_decode-hex_encode salt low,
        hex_decode-hex_encode hash bytes,
      )
      refl

-- After a password was set, an attempt by localhost on a readable file is accepted exactly when its
-- hash under the same salt is the password's, and is refused as an invalid password otherwise, never
-- as a corrupt file. SHA-256 is any function into bytes, the salt any list of bytes.
pub set_simple_password-validate_simple_password :
    (sha256 : List ℕ → List ℕ) (salt : List ℕ) (disk : Disk) (password attempt : Text)
    (file : PasswordFile)
    → ((t : List ℕ) → All IsByte (sha256 t))
    → All IsByte salt
    → file.readable ≡ true
    → (set_simple_password sha256 salt disk password file).0 ≡ none
    → validate_simple_password sha256 localhost attempt
        (set_simple_password sha256 salt disk password file).1
      ≡ (if same_text
            (hash_password sha256 salt (as_bytes attempt))
            (hash_password sha256 salt (as_bytes password))
          then accepted
          else refused invalid_password)
unfolding validate_simple_password
set_simple_password-validate_simple_password sha256 salt disk password attempt file digest low
      readable done_ =
    elim (set_simple_password_lem sha256 salt disk password file) [
      | inl (fine, same, long, shown) ↦
          rw (same, readable) (check_line sha256 salt password attempt digest low)
      | inr (failed, same) ↦ absurd (failed done_)
    ]
