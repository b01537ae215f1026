-- ===== src/Auth/Password.antt =====
-- The localhost password of nfs-klldap-ui/src/auth.rs: its sidecar file, a line `salt:hash` in
-- hexadecimal. The file is its content, absent or unreadable as the disk says; a write says which of
-- its steps works.
pub mod RoundTrip
use nfs_klldap_host.Auth.{hex_encode}
use nfs_klldap_host.Prelude.{
  ℕ, zero, suc, ◌+◌, ◌-◌, ◌*◌, ◌%◌, ◌≡◌, Bool, true, false, not, ◌&&◌, ◌||◌, Option, none, some,
  List, [], ◌∷◌, ◌++◌, if◌then◌else◌, ltb, leb, ◌==◌, Text, same_text, as_bytes, trim, is_empty,
  split_once, length,
}

-- The `Err` texts of the two operations.
pub data PasswordError : Type 0 where
  empty_password short_password open_failed write_failed rename_failed : PasswordError
  wrong_user no_password read_failed bad_format bad_salt bad_hash invalid_password : PasswordError

pub data Checked : Type 0 where
  accepted : Checked
  refused : PasswordError → Checked

-- The sidecar on disk, and whether it can be read.
pub record PasswordFile : Type 0 where
  pub content : Option Text
  pub readable : Bool

-- Which steps of a write work.
pub record Disk : Type 0 where
  pub opens : Bool
  pub writes : Bool
  pub renames : Bool

abbrev pub colon : ℕ
colon = 58

abbrev pub newline : ℕ
newline = 10

unfoldable pub from_hex_digit : ℕ → Option ℕ
from_hex_digit c =
    if leb 48 c && leb c 57
    then some (c - 48)
    else if leb 97 c && leb c 102
    then some (10 + (c - 97))
    else if leb 65 c && leb c 70
    then some (10 + (c - 65))
    else none

-- One byte in front of the decoded rest.
unfoldable pub push_byte : Option ℕ → Option ℕ → Option (List ℕ) → Option (List ℕ)
push_byte (some hi) (some lo) (some rest) = some ((hi * 16 + lo) ∷ rest)
push_byte _ _ _ = none

unfoldable pub decode_pairs : List ℕ → Option (List ℕ)
unfolding push_byte from_hex_digit
decode_pairs [] = some []
decode_pairs (h ∷ []) = none
decode_pairs (h ∷ l ∷ rest) = push_byte (from_hex_digit h) (from_hex_digit l) (decode_pairs rest)

unfoldable pub hex_decode : Text → Option (List ℕ)
hex_decode s = let b = as_bytes s in if length b % 2 == 0 then decode_pairs b else none

unfoldable pub iterate : ℕ → (List ℕ → List ℕ) → List ℕ → List ℕ
iterate zero f s = s
iterate (suc n) f s = f (iterate n f s)

-- The 100,000 rounds of `PW_HASH_ITERATIONS`: one, and 99,999 of the loop.
unfoldable pub hash_password : (List ℕ → List ℕ) → List ℕ → List ℕ → List ℕ
hash_password sha256 salt pw = iterate 99999 sha256 (sha256 (salt ++ pw))

unfoldable pub password_line : (List ℕ → List ℕ) → List ℕ → Text → Text
password_line sha256 salt password =
    hex_encode salt
    ++ colon ∷ hex_encode (hash_password sha256 salt (as_bytes password))
    ++ newline ∷ []

-- `none` is `Ok`. The live file only changes by the rename at the end.
unfoldable pub set_simple_password :
    (List ℕ → List ℕ) → List ℕ → Disk → Text → PasswordFile → Option PasswordError × PasswordFile
unfolding password_line
set_simple_password sha256 salt disk password file =
    if is_empty (trim password)
    then (some empty_password, file)
    else if ltb (length (as_bytes password)) 8
    then (some short_password, file)
    else if not disk.opens
    then (some open_failed, file)
    else if not disk.writes
    then (some write_failed, file)
    else if not disk.renames
    then (some rename_failed, file)
    else (none, record file { content = some (password_line sha256 salt password) })

abbrev pub localhost : Text
localhost = 108 ∷ 111 ∷ 99 ∷ 97 ∷ 108 ∷ 104 ∷ 111 ∷ 115 ∷ 116 ∷ []

unfoldable pub compare_hash : (List ℕ → List ℕ) → Text → Option (List ℕ) → Option (List ℕ) → Checked
compare_hash sha256 password none expected = refused bad_salt
compare_hash sha256 password (some salt) none = refused bad_hash
compare_hash sha256 password (some salt) (some expected) =
    if same_text (hash_password sha256 salt (as_bytes password)) expected
    then accepted
    else refused invalid_password

unfoldable pub check_fields : (List ℕ → List ℕ) → Text → Option (Text × Text) → Checked
unfolding compare_hash
check_fields sha256 password none = refused bad_format
check_fields sha256 password (some (salt_hex, hash_hex)) =
    compare_hash sha256 password (hex_decode salt_hex) (hex_decode hash_hex)

unfoldable pub check_content : (List ℕ → List ℕ) → Text → Bool → Option Text → Checked
unfolding check_fields
check_content sha256 password readable none = refused no_password
check_content sha256 password readable (some raw) =
    if not readable
    then refused read_failed
    else check_fields sha256 password (split_once colon (trim raw))

unfoldable pub validate_simple_password : (List ℕ → List ℕ) → Text → Text → PasswordFile → Checked
unfolding check_content
validate_simple_password sha256 username password file =
    if not (same_text username localhost)
    then refused wrong_user
    else check_content sha256 password file.readable file.content
