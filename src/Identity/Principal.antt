-- ===== src/Identity/Principal.antt =====
-- nfs-klldap-identity/src/krb5/principal.rs: Kerberos principals as texts.
pub mod Normal
use nfs_klldap_host.Prelude.{
  Bool, true, false, not, ◌&&◌, ◌||◌, Option, none, some, List, [], ◌∷◌, ◌++◌, if◌then◌else◌, Text,
  same_text, trim, is_empty, split_once, until, after_last, starts_with, contains, all_digits,
  to_ascii_uppercase, to_ascii_lowercase, ℕ,
}

abbrev pub at_sign : ℕ
at_sign = 64

abbrev pub slash : ℕ
slash = 47

abbrev pub principal_local_part : Text → Text
principal_local_part p = until at_sign (trim p)

unfoldable pub is_numeric_local_principal : Text → Bool
is_numeric_local_principal p =
    let local = principal_local_part p in not (is_empty local) && all_digits local

abbrev pub last_segment : Text → Option Text → Text
last_segment local none = local
last_segment local (some name) = name

unfoldable pub machine_short_name : Text → Text
machine_short_name p =
    let local = principal_local_part p in last_segment local (after_last slash local)

abbrev realm_present : Option Text → Bool
realm_present none = false
realm_present (some realm) = not (is_empty (trim realm))

unfoldable pub principal_has_realm : Text → Bool
principal_has_realm p = realm_present (after_last at_sign (trim p))

abbrev with_upper_realm : Text → Option (Text × Text) → Text
with_upper_realm p none = p
with_upper_realm p (some (local, realm)) =
    principal_local_part p ++ at_sign ∷ to_ascii_uppercase (trim realm)

unfoldable pub normalize_principal : Text → Text
normalize_principal p = with_upper_realm (trim p) (split_once at_sign (trim p))

-- The realm is already trimmed and in upper case, and not empty; `p` is trimmed.
abbrev fill_realm : Text → Text → Option (Text × Text) → Text
fill_realm p realm none = if is_empty p then normalize_principal p else p ++ at_sign ∷ realm
fill_realm p realm (some (local, r)) =
    if is_empty (trim r) then local ++ at_sign ∷ realm else normalize_principal p

unfoldable pub canonicalize_principal : Text → Text → Text
canonicalize_principal p realm =
    let realm_u = to_ascii_uppercase (trim realm) in
    if is_empty realm_u
    then normalize_principal (trim p)
    else fill_realm (trim p) realm_u (split_once at_sign (trim p))

-- The texts that go with a classification, by what they say.
pub data Reason : Type 0 where
  known_prefix server_host : Text → Reason
  other_realm : Text → Text → Reason
  bare_service regular_user : Reason

abbrev pub host_prefix : Text
host_prefix = 104 ∷ 111 ∷ 115 ∷ 116 ∷ slash ∷ []

abbrev pub nfs_prefix : Text
nfs_prefix = 110 ∷ 102 ∷ 115 ∷ slash ∷ []

abbrev pub root_prefix : Text
root_prefix = 114 ∷ 111 ∷ 111 ∷ 116 ∷ slash ∷ []

-- `MACHINE_PRINCIPAL_PREFIXES`, any of them in front.
abbrev pub has_machine_prefix : Text → Bool
has_machine_prefix local =
    starts_with host_prefix local || starts_with nfs_prefix local || starts_with root_prefix local

-- The first server variant whose host or nfs principal this is.
abbrev server_variant : Text → List Text → Option Text
server_variant local [] = none
server_variant local (v ∷ variants) =
    let rest = server_variant local variants in
    let v_l = to_ascii_lowercase v in
    if same_text local (host_prefix ++ v_l) || same_text local (nfs_prefix ++ v_l)
    then some v
    else rest

abbrev is_bare_service : Text → Bool
is_bare_service local =
    same_text local (104 ∷ 111 ∷ 115 ∷ 116 ∷ [])
    || same_text local (110 ∷ 102 ∷ 115 ∷ [])
    || same_text local (114 ∷ 111 ∷ 111 ∷ 116 ∷ [])

abbrev upper_realm : Option Text → Text
upper_realm none = []
upper_realm (some r) = to_ascii_uppercase (trim r)

abbrev classify_service : Text → Option Text → Bool × Reason
classify_service local (some v) = (true, server_host v)
classify_service local none =
    if is_bare_service local then (true, bare_service) else (false, regular_user)

unfoldable pub classify_principal : Text → Text → List Text → Bool × Reason
classify_principal p realm server_variants =
    let local = to_ascii_lowercase (principal_local_part (trim p)) in
    let realm_u = to_ascii_uppercase (trim realm) in
    let p_realm = upper_realm (after_last at_sign (trim p)) in
    if has_machine_prefix local
    then (true, known_prefix local)
    else if not (is_empty realm_u)
        && contains at_sign (trim p)
        && not (is_empty p_realm)
        && not (same_text p_realm realm_u)
    then (false, other_realm p_realm realm_u)
    else classify_service local (server_variant local server_variants)
