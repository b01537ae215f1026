-- ===== src/Identity/Rows.antt =====
-- Lines and numbers: nfs-klldap-identity/src/nss/getent.rs, and `lookup_passwd_file` of
-- nfs-klldap-config/src/bin/idhelper/resolve.rs.
pub mod Decimal
pub mod Passwd
use nfs_klldap_host.Prelude.{
  ℕ, zero, suc, ◌+◌, ◌-◌, ◌*◌, ◌/◌, ◌%◌, ◌^◌, ◌++◌, Bool, true, false, not, ◌&&◌, ◌||◌, Option,
  none, some, List, [], ◌∷◌, if◌then◌else◌, ltb, ◌==◌, Text, same_text, trim, is_empty, split_once,
  until, is_digit, starts_with, add_to_first,
}

abbrev line_feed : ℕ
line_feed = 10

-- `str::lines`: a carriage return goes with the line feed behind it.
abbrev pub lines : Text → List Text
lines [] = []
lines (c ∷ s) =
    let rest = lines s in
    if c == line_feed
    then [] ∷ rest
    else if c == 13 && starts_with (line_feed ∷ []) s
    then rest
    else add_to_first c rest

abbrev splitn_rest : Text → (Text → List Text) → Option (Text × Text) → List Text
splitn_rest s f none = s ∷ []
splitn_rest s f (some (a, b)) = a ∷ f b

-- `str::splitn`, on a character.
abbrev pub splitn : ℕ → ℕ → Text → List Text
splitn zero d s = []
splitn (suc zero) d s = s ∷ []
splitn (suc (suc n)) d s = splitn_rest s (splitn (suc n) d) (split_once d s)

abbrev pub digits_from : ℕ → Text → Option ℕ
digits_from n [] = some n
digits_from n (c ∷ s) =
    let rest = digits_from (n * 10 + (c - 48)) s in if is_digit c then rest else none

abbrev pub in_range : ℕ → Option ℕ → Option ℕ
in_range w none = none
in_range w (some n) = if ltb n (2 ^ w) then some n else none

abbrev pub unsigned : Text → Option ℕ
unsigned [] = none
unsigned (c ∷ s) = digits_from 0 (c ∷ s)

abbrev pub without_plus : Text → Text
without_plus [] = []
without_plus (c ∷ s) = if c == 43 then s else c ∷ s

-- `parse::<u32>`
unfoldable pub parse_u32 : Text → Option ℕ
parse_u32 s = in_range 32 (unsigned (without_plus s))

pub record PasswdRow : Type 0 where
  pub name : Text
  pub uid : ℕ
  pub gid : ℕ

abbrev pub row_of : Text → Option ℕ → Option ℕ → Option PasswdRow
row_of n (some u) (some g) = some (record { name = n; uid = u; gid = g })
row_of n _ _ = none

abbrev pub row_of_parts : List Text → Option PasswdRow
row_of_parts (n ∷ password ∷ u ∷ g ∷ rest) =
    row_of (trim n) (parse_u32 (trim u)) (parse_u32 (trim g))
row_of_parts _ = none

abbrev pub is_skipped : Text → Bool
is_skipped line = is_empty line || starts_with (35 ∷ []) line

unfoldable pub parse_passwd_row : Text → Option PasswdRow
parse_passwd_row line =
    if is_skipped (trim line) then none else row_of_parts (splitn 7 58 (trim line))

abbrev ids_of : Option PasswdRow → Option (ℕ × ℕ)
ids_of none = none
ids_of (some r) = some (r.uid, r.gid)

unfoldable pub parse_getent_passwd : Text → Option (ℕ × ℕ)
parse_getent_passwd line = ids_of (parse_passwd_row line)

abbrev find_login : List Text → Text → Option (ℕ × ℕ)
find_login [] name = none
find_login (line ∷ rest) name =
    let later = find_login rest name in
    if is_skipped (trim line)
    then later
    else if same_text (until 58 (trim line)) name
    then parse_getent_passwd (trim line)
    else later

-- `none` is a file that cannot be read.
unfoldable pub lookup_passwd_file : Option Text → Text → Option (ℕ × ℕ)
lookup_passwd_file none name = none
lookup_passwd_file (some content) name = find_login (lines content) name

abbrev pub digits_of : ℕ → ℕ → Text
digits_of zero n = []
digits_of (suc fuel) n =
    let front = digits_of fuel (n / 10) in
    if ltb n 10 then (48 + n) ∷ [] else front ++ (48 + n % 10) ∷ []

-- A u32 in decimal: at most ten digits.
unfoldable pub to_decimal : ℕ → Text
to_decimal n = digits_of 10 n

abbrev nologin_shell : Text
nologin_shell =
    47 ∷ 117 ∷ 115 ∷ 114 ∷ 47 ∷ 115 ∷ 98 ∷ 105 ∷ 110 ∷ 47 ∷ 110 ∷ 111 ∷ 108 ∷ 111 ∷ 103 ∷ 105 ∷ 110
    ∷ []

abbrev nonexistent_home : Text
nonexistent_home = 47 ∷ 110 ∷ 111 ∷ 110 ∷ 101 ∷ 120 ∷ 105 ∷ 115 ∷ 116 ∷ 101 ∷ 110 ∷ 116 ∷ []

abbrev pub comment_on : Text → Text
comment_on gecos = gecos ++ (58 ∷ (nonexistent_home ++ (58 ∷ nologin_shell)))

-- The line of one login in `build_nss_snapshot` of materialize.rs.
unfoldable pub passwd_line : Text → ℕ → ℕ → Text → Text
passwd_line login uid gid gecos =
    login
    ++ (58
        ∷ ((120 ∷ [])
            ++ (58 ∷ (to_decimal uid ++ (58 ∷ (to_decimal gid ++ (58 ∷ comment_on gecos)))))))
