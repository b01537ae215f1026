-- ===== src/Identity/Lookup.antt =====
-- Where nfs-klldap-config/src/bin/idhelper/resolve.rs looks for a uid and a gid. The answers of
-- getent, of the files, of the LDAP resolver and of the environment are a record; a uid or gid that
-- the resolver gives as an i32 is here its reading as a u32.
use nfs_klldap_host.Identity.Cache.{IdCache}
use nfs_klldap_host.Identity.Principal.{at_sign, principal_local_part, principal_has_realm}
use nfs_klldap_host.Identity.Rows.{lines, parse_u32, parse_getent_passwd, lookup_passwd_file}
use nfs_klldap_host.Prelude.{
  ℕ, Bool, not, ◌&&◌, Option, none, some, List, [], ◌∷◌, if◌then◌else◌, Text, same_text, trim,
  split_once, contains, or_else,
}

-- The calls with an effect outside the cache, in their order. `write_cache` is the cache file, the
-- next two are the stores of nss_wrapper and extrausers.
pub data Act : Type 0 where
  load_full_identities : Act
  resolve_group_by_gid : ℕ → Act
  write_cache materialize_nss : IdCache → Act
  ensure_member : ℕ → Text → Act
  refresh_all : Act
  warm_sssd : Text → Act

-- One state of the LDAP resolver: its snapshot of users, and its live searches.
pub record View : Type 0 where
  pub users : Text → Option (ℕ × ℕ)
  pub resolve_user : Text → Option (ℕ × Option ℕ)

pub record Ldap : Type 0 where
  pub at_first : View
  pub reloaded : View
  pub no_groups : Bool
  pub groups_for_principal : Text → List ℕ

-- `getent` gives the output of `getent passwd NAME` when that succeeds.
pub record Lookups : Type 0 where
  pub getent : Text → Option Text
  pub extrausers_passwd : Option Text
  pub nss_passwd : Option Text
  pub forced : Option Text
  pub ldap : Option Ldap

abbrev pub Found : Type 0
Found = Option (ℕ × ℕ × Text)

abbrev pub sss : Text
sss = 115 ∷ 115 ∷ 115 ∷ []

abbrev pub extrausers : Text
extrausers = 101 ∷ 120 ∷ 116 ∷ 114 ∷ 97 ∷ 117 ∷ 115 ∷ 101 ∷ 114 ∷ 115 ∷ []

abbrev pub nss : Text
nss = 110 ∷ 115 ∷ 115 ∷ []

abbrev pub ldap_source : Text
ldap_source = 108 ∷ 100 ∷ 97 ∷ 112 ∷ []

abbrev pub from : Text → Option (ℕ × ℕ) → Found
from source none = none
from source (some (u, g)) = some (u, g, source)

abbrev first_line : List Text → Text
first_line [] = []
first_line (line ∷ rest) = line

abbrev parse_output : Option Text → Option (ℕ × ℕ)
parse_output none = none
parse_output (some out) = parse_getent_passwd (first_line (lines out))

unfoldable pub resolve_getent : Lookups → Text → Found
resolve_getent x name = or_else (from sss (parse_output (x.getent name))) (
    or_else (from extrausers (lookup_passwd_file x.extrausers_passwd name))
      (from nss (lookup_passwd_file x.nss_passwd name)))

-- `none` behind a realm, for the lookups of a short name.
abbrev pub unless_realm {ℓ} : {A : Type ℓ} → Text → Option A → Option A
unless_realm full o = if principal_has_realm full then none else o

unfoldable pub resolve_identity_candidates :
    Text
    → Found
    → Found
    → Option (ℕ × ℕ)
    → Option (ℕ × ℕ)
    → Option (ℕ × ℕ)
    → Option (ℕ × ℕ)
    → Option (ℕ × ℕ)
    → Found
resolve_identity_candidates full nss_full nss_short test_force_ldap ldap_snap_full ldap_snap_short
      ldap_live_full ldap_live_short =
    or_else nss_full (
      or_else (unless_realm full nss_short) (
        or_else (if contains at_sign full then from ldap_source test_force_ldap else none) (
          or_else (from ldap_source ldap_snap_full) (
            or_else (from ldap_source ldap_live_full) (
              unless_realm full
                (or_else (from ldap_source ldap_snap_short) (from ldap_source ldap_live_short)))))))

abbrev both : Option ℕ → Option ℕ → Option (ℕ × ℕ)
both (some u) (some g) = some (u, g)
both _ _ = none

abbrev parse_pair : Option (Text × Text) → Option (ℕ × ℕ)
parse_pair none = none
parse_pair (some (us, gs)) = both (parse_u32 (trim us)) (parse_u32 (trim gs))

abbrev parse_forced : Option Text → Option (ℕ × ℕ)
parse_forced none = none
parse_forced (some uv) = parse_pair (split_once 58 uv)

-- The override of tests, `TEST_FORCE_LDAP_UID_GID`.
unfoldable pub test_force_ldap_uid_gid : Lookups → Text → Option (ℕ × ℕ)
test_force_ldap_uid_gid x full = if contains at_sign full then parse_forced x.forced else none

abbrev own_gid : Option (ℕ × Option ℕ) → Option (ℕ × ℕ)
own_gid none = none
own_gid (some (u, none)) = some (u, u)
own_gid (some (u, some g)) = some (u, g)

unfoldable pub uid_gid_from_user_resolve : View → Text → Option (ℕ × ℕ)
uid_gid_from_user_resolve v name = own_gid (v.resolve_user name)

unfoldable pub uid_gid_from_snapshot : View → Text → Text → Option (ℕ × ℕ)
uid_gid_from_snapshot v full short = or_else (v.users full) (unless_realm full (v.users short))

unfoldable pub ldap_snapshot_pair : View → Text → Text → Option (ℕ × ℕ) × Option (ℕ × ℕ)
ldap_snapshot_pair v full short =
    (uid_gid_from_snapshot v full short, unless_realm full (v.users short))

abbrev pub untagged : Found → Option (ℕ × ℕ)
untagged none = none
untagged (some (u, g, source)) = some (u, g)

unfoldable pub try_resolve : View → Text → Option (ℕ × ℕ)
try_resolve v name =
    let short = principal_local_part name in
    let (snap_full, snap_short) = ldap_snapshot_pair v name short in
    untagged (
      resolve_identity_candidates name none none none snap_full snap_short
        (uid_gid_from_user_resolve v name) (unless_realm name (uid_gid_from_user_resolve v short)))

abbrev pub after_reload_try : Option (ℕ × ℕ) → Option (ℕ × ℕ) × List Act
after_reload_try none = (none, load_full_identities ∷ [])
after_reload_try (some (u, g)) = (some (u, g), load_full_identities ∷ resolve_group_by_gid g ∷ [])

abbrev pub try_again : View → Text → Option (ℕ × ℕ) → Option (ℕ × ℕ) × List Act
try_again v name (some ids) = (some ids, [])
try_again v name none = after_reload_try (try_resolve v name)

unfoldable pub resolve_via_structured_ldap : Option Ldap → Text → Option (ℕ × ℕ) × List Act
resolve_via_structured_ldap none name = (none, [])
resolve_via_structured_ldap (some d) name = try_again d.reloaded name (try_resolve d.at_first name)

abbrev pub or_ldap : Found → Option (ℕ × ℕ) × List Act → Found × List Act
or_ldap (some found) later = (some found, [])
or_ldap none (ids, acts) = (from ldap_source ids, acts)

unfoldable pub resolve_via_nss : Lookups → Text → Found × List Act
resolve_via_nss x name =
    let full = trim name in
    let short = principal_local_part full in
    let nss_short =
      if not (principal_has_realm full) && not (same_text short full)
      then resolve_getent x short
      else none in
    or_ldap
      (resolve_identity_candidates full (resolve_getent x full) nss_short
        (test_force_ldap_uid_gid x full) none none none none)
      (resolve_via_structured_ldap x.ldap full)
