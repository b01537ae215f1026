-- ===== src/Identity/Resolve.antt =====
-- `resolve_principal` of
-- nfs-klldap-config/src/bin/idhelper/resolve.rs. An operation returns its answer, the cache it leaves
-- and the calls it makes outside the cache.
pub mod Sound
pub mod Again
pub mod Realm
pub mod Closed
use nfs_klldap_host.Identity.Cache.{
  PrincipalKind, user, machine, unknown, is_user, is_machine, as_str, Resolved, IdCache, get_row,
  remove_row, insert_row, prune_malformed_principals, prune_numeric_user_entries,
  content_fingerprint, set_supplemental,
}
use nfs_klldap_host.Identity.Groups.{
  push_new, without, compute_gids_for_resolved, ensure_nss_materialized_for,
}
use nfs_klldap_host.Identity.Lookup.{
  Act, load_full_identities, resolve_group_by_gid, write_cache, materialize_nss, ensure_member,
  refresh_all, warm_sssd, Ldap, Lookups, Found, resolve_via_nss,
}
use nfs_klldap_host.Identity.Principal.{
  at_sign, principal_local_part, is_numeric_local_principal, machine_short_name,
  principal_has_realm, normalize_principal, canonicalize_principal, classify_principal,
}
use nfs_klldap_host.Prelude.{
  ℕ, Bool, true, false, not, ◌&&◌, ◌||◌, Option, none, some, List, [], ◌∷◌, ◌++◌, if◌then◌else◌,
  ◌==◌, Text, same_text, trim, contains, retain, map, to_ascii_lowercase,
}

abbrev pub unresolved_uid : ℕ
unresolved_uid = 4294967295

abbrev pub nobody_uid : ℕ
nobody_uid = 65534

-- `unresolved-fail-closed`
abbrev pub fail_closed_source : Text
fail_closed_source =
    117 ∷ 110 ∷ 114 ∷ 101 ∷ 115 ∷ 111 ∷ 108 ∷ 118 ∷ 101 ∷ 100 ∷ 45 ∷ 102 ∷ 97 ∷ 105 ∷ 108 ∷ 45 ∷ 99
    ∷ 108 ∷ 111 ∷ 115 ∷ 101 ∷ 100 ∷ []

-- `rejected-numeric`
abbrev pub rejected_source : Text
rejected_source =
    114 ∷ 101 ∷ 106 ∷ 101 ∷ 99 ∷ 116 ∷ 101 ∷ 100 ∷ 45 ∷ 110 ∷ 117 ∷ 109 ∷ 101 ∷ 114 ∷ 105 ∷ 99 ∷ []

abbrev pub cache_source : Text
cache_source = 99 ∷ 97 ∷ 99 ∷ 104 ∷ 101 ∷ []

abbrev pub special_source : Text
special_source = 115 ∷ 112 ∷ 101 ∷ 99 ∷ 105 ∷ 97 ∷ 108 ∷ []

abbrev pub direct_source : Text
direct_source = 100 ∷ 105 ∷ 114 ∷ 101 ∷ 99 ∷ 116 ∷ []

unfoldable pub is_unresolved_fail_closed : Resolved → Bool
is_unresolved_fail_closed r = same_text r.source fail_closed_source

-- An answer, the cache and the calls.
pub record Outcome : Type 0 where
  pub answer : Resolved
  pub cache : IdCache
  pub acts : List Act

abbrev pub write_through :
    Text → (Resolved → List ℕ) → IdCache → Option Resolved → IdCache × List Act
write_through key gids c none = (c, [])
write_through key gids c (some e) =
    let written = set_supplemental key gids c in (written, write_cache written ∷ [])

-- The groups that were found, put into the row of a principal and on disk.
unfoldable pub store_groups : Resolved → (Resolved → List ℕ) → IdCache → IdCache × List Act
store_groups r gids c =
    let key = normalize_principal r.principal in write_through key gids c (get_row key c)

-- What follows the insertion of a fresh answer; `refresh_all` is
-- `refresh_supplemental_nss_for_cached_users`.
unfoldable pub remember : Option Ldap → Resolved → Bool → IdCache → IdCache × List Act
remember ldap r changed c =
    let (gids, fetched) = compute_gids_for_resolved ldap r r.principal in
    let (as_user, user_acts) =
      store_groups r (λ e. push_new (without e.gid gids) e.supplemental_gids) c in
    let (as_machine, machine_acts) = store_groups r (λ e. without e.gid gids) c in
    if not (principal_has_realm r.principal)
    then (c, [])
    else if is_user r.kind
    then (as_user, fetched ++ user_acts ++ ensure_nss_materialized_for r gids as_user)
    else if is_machine r.kind
    then (as_machine, fetched ++ machine_acts ++ ensure_nss_materialized_for r gids as_machine)
    else (c, (if changed then materialize_nss c ∷ refresh_all ∷ [] else []))

unfoldable pub kept_after : Resolved → IdCache → IdCache
kept_after r c =
    let inserted = if principal_has_realm r.principal then insert_row r c else c in
    (prune_numeric_user_entries (prune_malformed_principals inserted).0).0

-- The end of a resolution that the cache did not answer.
unfoldable pub settle : Option Ldap → Resolved → List Act → IdCache → Outcome
settle ldap r acts c =
    let kept = kept_after r c in
    let changed = not (content_fingerprint c == content_fingerprint kept) || r.uid == 0 in
    let (left, remembered) = remember ldap r changed kept in
    let written = if changed then write_cache left ∷ [] else [] in
    let warmed =
      if not (r.uid == 0) && not (r.uid == nobody_uid) then warm_sssd r.name ∷ [] else [] in
    if is_unresolved_fail_closed r
    then record { answer = r; cache = c; acts = acts }
    else record { answer = r; cache = left; acts = acts ++ remembered ++ written ++ warmed }

abbrev pub row : Text → Text → ℕ → ℕ → PrincipalKind → Text → Resolved
row p name uid gid kind source = record {
  principal = p;
  name = name;
  uid = uid;
  gid = gid;
  kind = kind;
  source = source;
  supplemental_gids = [];
}

abbrev fetch_primary : Option Ldap → ℕ → List Act
fetch_primary none gid = []
fetch_primary (some d) gid = resolve_group_by_gid gid ∷ []

-- A user principal, by what the lookups found.
unfoldable pub resolve_user_principal : Option Ldap → Text → Found × List Act → IdCache → Outcome
resolve_user_principal ldap p (some (uid, gid, source), acts) c =
    settle ldap (row p (principal_local_part p) uid gid user source)
      (acts ++ fetch_primary ldap gid) c
resolve_user_principal ldap p (none, acts) c =
    let name = principal_local_part p in
    if principal_has_realm p
    then settle ldap (row p name unresolved_uid unresolved_uid unknown fail_closed_source) acts c
    else settle ldap (row p name nobody_uid nobody_uid unknown direct_source) acts c

unfoldable pub resolve_miss : Lookups → Text → Text → List Text → IdCache → Outcome
resolve_miss x p realm server_variants c =
    if (classify_principal p realm server_variants).0
    then settle x.ldap (row p (machine_short_name p) 0 0 machine special_source) [] c
    else resolve_user_principal x.ldap p (resolve_via_nss x p) c

-- What the cache has under the normalized name.
unfoldable pub resolve_cached :
    Lookups → Text → Text → List Text → IdCache → Option Resolved → Outcome
resolve_cached x p realm server_variants c none = resolve_miss x p realm server_variants c
resolve_cached x p realm server_variants c (some e) =
    if is_numeric_local_principal e.principal
    then resolve_miss x p realm server_variants (remove_row (normalize_principal p) c)
    else record { answer = record e { source = cache_source }; cache = c; acts = [] }

unfoldable pub resolve_principal : Lookups → Text → Text → List Text → IdCache → Outcome
resolve_principal x principal realm server_variants c =
    let p = canonicalize_principal (trim principal) realm in
    let norm = normalize_principal p in
    if is_numeric_local_principal p
    then record {
      answer = row p (principal_local_part norm) nobody_uid nobody_uid unknown rejected_source;
      cache = c;
      acts = [];
    }
    else resolve_cached x p realm server_variants c (get_row norm c)
