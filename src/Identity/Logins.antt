-- ===== src/Identity/Logins.antt =====
-- Login names for the NSS stores, in nfs-klldap-config/src/bin/idhelper/materialize.rs.
pub mod Laws
use nfs_klldap_host.Identity.Cache.{Resolved, is_machine, text_ltb}
use nfs_klldap_host.Identity.Principal.{principal_has_realm, principal_local_part}
use nfs_klldap_host.Prelude.{
  ℕ, Bool, true, false, not, ◌&&◌, ◌||◌, List, [], ◌∷◌, map, if◌then◌else◌, leb, ◌==◌, Text,
  same_text, is_empty, is_digit, all_digits, retain,
}

abbrev is_alphanumeric : ℕ → Bool
is_alphanumeric c = is_digit c || leb 65 c && leb c 90 || leb 97 c && leb c 122

abbrev pub is_login_char : ℕ → Bool
is_login_char c = is_alphanumeric c || c == 95 || c == 45 || c == 46

abbrev pub is_realm_login_char : ℕ → Bool
is_realm_login_char c = is_login_char c || c == 64 || c == 47

abbrev pub or_unknown : Text → Text
or_unknown [] = 117 ∷ 110 ∷ 107 ∷ 110 ∷ 111 ∷ 119 ∷ 110 ∷ []
or_unknown (c ∷ s) = c ∷ s

unfoldable pub sanitize_for_nss : Text → Text
sanitize_for_nss name = or_unknown (map (λ c. if is_login_char c then c else 95) name)

unfoldable pub principal_realm_login_for_nss : Text → Text
principal_realm_login_for_nss p = or_unknown (map (λ c. if is_realm_login_char c then c else 95) p)

unfoldable pub is_numeric_login : Text → Bool
is_numeric_login login = not (is_empty login) && all_digits login

-- `BTreeSet::insert`: in order, and once.
abbrev pub insert_login : Text → List Text → List Text
insert_login x [] = x ∷ []
insert_login x (y ∷ ys) =
    let rest = insert_login x ys in
    if same_text x y then y ∷ ys else if text_ltb x y then x ∷ y ∷ ys else y ∷ rest

unfoldable pub nss_passwd_logins_for : Resolved → List Text
nss_passwd_logins_for r =
    let short = sanitize_for_nss r.name in
    let local = principal_local_part r.principal in
    let full = principal_realm_login_for_nss r.principal in
    let start = insert_login short [] in
    if is_machine r.kind && principal_has_realm r.principal
    then insert_login full (if same_text local short then start else insert_login local start)
    else if principal_has_realm r.principal
    then (if same_text full short then start else insert_login full start)
    else start

-- The comment of a passwd row: the principal, or the name without a realm, and no colon in it.
unfoldable pub gecos_for : Resolved → Text
gecos_for r =
    retain (λ c. not (c == 58)) (if principal_has_realm r.principal then r.principal else r.name)
