-- ===== src/IdentityTests.antt =====
-- The identity helper at concrete principals, caches and directory answers: `a` is the user a with
-- uid 7 and gid 8 in the realm R.
use nfs_klldap_host.Identity.Cache.{
  user, machine, Resolved, IdCache, is_machine, get_row, insert_row, remove_row,
  prune_malformed_principals, prune_numeric_user_entries, content_fingerprint, set_supplemental,
  as_str,
}
use nfs_klldap_host.Identity.Flight.{
  FlightGuard, Flights, none_flying, begin_flight, wake, drop_guard, begins, drops, Reachable,
  starts, steps,
}
use nfs_klldap_host.Identity.Flight.Leaders.{IsExclusive, Reachable-IsExclusive}
use nfs_klldap_host.Identity.Grouplist.{
  unresolved_line, format_resolve_socket_line, asks_root, resolve_gids_and_materialize,
}
use nfs_klldap_host.Identity.Grouplist.Laws.{known_groups, resolve_gids_and_materialize-keeps}
use nfs_klldap_host.Identity.Groups.{is_member}
use nfs_klldap_host.Identity.Groups.Laws.{IsUnique, StartsWith, primary_of}
use nfs_klldap_host.Identity.Lookup.{
  Lookups, resolve_getent, resolve_identity_candidates, test_force_ldap_uid_gid,
  resolve_via_structured_ldap, resolve_via_nss,
}
use nfs_klldap_host.Identity.Principal.{
  normalize_principal, canonicalize_principal, principal_has_realm, is_numeric_local_principal,
  classify_principal,
}
use nfs_klldap_host.Identity.Resolve.{
  is_unresolved_fail_closed, resolve_principal, row, cache_source, resolve_cached, resolve_miss,
  resolve_user_principal, settle,
}
use nfs_klldap_host.Identity.Resolve.Again.{IsSettled, resolve_principal-again}
use nfs_klldap_host.Identity.Resolve.Closed.{closed_row, OnlyReads, resolve_principal-closed}
use nfs_klldap_host.Identity.Resolve.Realm.{Agree, resolve_principal-Agree}
use nfs_klldap_host.Identity.Resolve.Sound.{IsSound, resolve_principal-IsSound}
use nfs_klldap_host.Identity.Rows.{
  parse_passwd_row, lookup_passwd_file, parse_getent_passwd, parse_u32,
}
use nfs_klldap_host.Identity.Snapshot.{any_starts, nobody_prefix, root_passwd, build_nss_snapshot}
use nfs_klldap_host.Identity.Snapshot.Rootline.{IsLed, IsOnlyRoot, build_nss_snapshot_lem}
use nfs_klldap_host.Identity.Sync.{IdMapSnapshot, LiveGroupEdges, sync_user_cache_from_snapshot}
use nfs_klldap_host.Identity.Sync.Current.{IsCurrent, sync_user_cache_from_snapshot-IsCurrent}
use nfs_klldap_host.Prelude.{
  ◌≡◌, true, false, none, some, [], ◌∷◌, refl, if◌then◌else◌, Text, same_text, trim, All,
}

abbrev realm : Text
realm = 114 ∷ []

abbrev short_name : Text
short_name = 97 ∷ []

-- `a@R`
abbrev full_name : Text
full_name = 97 ∷ 64 ∷ 82 ∷ []

-- `a:x:7:8`
abbrev passwd_output : Text
passwd_output = 97 ∷ 58 ∷ 120 ∷ 58 ∷ 55 ∷ 58 ∷ 56 ∷ []

abbrev no_lookups : Lookups
no_lookups = record {
  getent = λ name. none;
  extrausers_passwd = none;
  nss_passwd = none;
  forced = none;
  ldap = none;
}

-- getent knows `a@R`.
abbrev getent_lookups : Lookups
getent_lookups = record no_lookups {
  getent = λ name. if same_text name full_name then some passwd_output else none;
}

-- getent knows the short name only.
abbrev short_lookups : Lookups
short_lookups = record no_lookups {
  getent = λ name. if same_text name short_name then some passwd_output else none;
}

canonical : canonicalize_principal short_name realm ≡ full_name
unfolding canonicalize_principal
canonical = refl

resolve_principal-IsSound_example :
    IsSound (resolve_principal getent_lookups short_name realm [] []).cache
resolve_principal-IsSound_example =
    resolve_principal-IsSound getent_lookups short_name realm [] [] tt

known_realm :
    principal_has_realm (resolve_principal getent_lookups short_name realm [] []).answer.principal
    ≡ true
unfolding principal_has_realm resolve_principal is_numeric_local_principal canonicalize_principal
    resolve_cached resolve_miss classify_principal resolve_user_principal resolve_via_nss
    resolve_identity_candidates resolve_getent parse_getent_passwd parse_passwd_row parse_u32 settle
    is_unresolved_fail_closed
known_realm = refl

known_resolved :
    is_unresolved_fail_closed (resolve_principal getent_lookups short_name realm [] []).answer
    ≡ false
unfolding is_unresolved_fail_closed resolve_principal is_numeric_local_principal
    canonicalize_principal resolve_cached resolve_miss classify_principal resolve_user_principal
    resolve_via_nss resolve_identity_candidates resolve_getent parse_getent_passwd parse_passwd_row
    parse_u32 settle
known_resolved = refl

-- The second time the directory is silent.
resolve_principal-again_example :
    IsSettled (resolve_principal getent_lookups short_name realm [] []) (
      resolve_principal no_lookups short_name realm []
        (resolve_principal getent_lookups short_name realm [] []).cache)
resolve_principal-again_example =
    resolve_principal-again getent_lookups no_lookups short_name realm [] [] known_realm
      known_resolved

known_uid : (resolve_principal getent_lookups short_name realm [] []).answer.uid ≡ 7
unfolding resolve_principal is_numeric_local_principal canonicalize_principal resolve_cached
    resolve_miss classify_principal resolve_user_principal resolve_via_nss
    resolve_identity_candidates resolve_getent parse_getent_passwd parse_passwd_row parse_u32 settle
    is_unresolved_fail_closed
known_uid = refl

canonical_realm : principal_has_realm (trim (canonicalize_principal (trim short_name) realm)) ≡ true
unfolding principal_has_realm canonicalize_principal
canonical_realm = refl

silent-Agree :
    Agree (trim (canonicalize_principal (trim short_name) realm)) short_lookups no_lookups
unfolding resolve_getent lookup_passwd_file canonicalize_principal
silent-Agree = (refl, refl, tt)

-- That getent knows the short name makes no difference.
resolve_principal-Agree_example :
    (resolve_principal short_lookups short_name realm [] []).answer
    ≡ (resolve_principal no_lookups short_name realm [] []).answer
resolve_principal-Agree_example =
    resolve_principal-Agree short_lookups no_lookups short_name realm [] [] canonical_realm
      silent-Agree

proper_name : is_numeric_local_principal (canonicalize_principal (trim short_name) realm) ≡ false
unfolding is_numeric_local_principal canonicalize_principal
proper_name = refl

has_realm : principal_has_realm (canonicalize_principal (trim short_name) realm) ≡ true
unfolding principal_has_realm canonicalize_principal
has_realm = refl

is_client : (classify_principal (canonicalize_principal (trim short_name) realm) realm []).0 ≡ false
unfolding classify_principal canonicalize_principal
is_client = refl

is_missed :
    (resolve_via_nss short_lookups (canonicalize_principal (trim short_name) realm)).0 ≡ none
unfolding resolve_via_nss resolve_identity_candidates resolve_getent canonicalize_principal
    lookup_passwd_file principal_has_realm test_force_ldap_uid_gid resolve_via_structured_ldap
is_missed = refl

no_root : asks_root (trim short_name) ≡ false
no_root = refl

resolve_principal-closed_example :
    let p = canonicalize_principal (trim short_name) realm in
    let o = resolve_principal short_lookups short_name realm [] [] in
    let out = resolve_gids_and_materialize short_lookups short_name realm [] [] true in
    (o.answer ≡ closed_row p)
    × (o.cache ≡ [])
    × All OnlyReads o.acts
    × (format_resolve_socket_line o.answer ≡ unresolved_line)
    × (out.gids ≡ [])
    × (out.cache ≡ [])
    × All OnlyReads out.acts
resolve_principal-closed_example =
    resolve_principal-closed short_lookups short_name realm [] [] true proper_name has_realm
      is_client refl is_missed no_root

-- The cached row of the user, in group 9 beside group 8.
abbrev cached_row : Resolved
cached_row = record (row full_name short_name 7 8 user cache_source) { supplemental_gids = 9 ∷ [] }

abbrev cached : IdCache
cached = (full_name, cached_row) ∷ []

cached_resolved :
    is_unresolved_fail_closed (resolve_principal no_lookups short_name realm [] cached).answer
    ≡ false
unfolding is_unresolved_fail_closed resolve_principal is_numeric_local_principal
    canonicalize_principal resolve_cached normalize_principal
cached_resolved = refl

cached_found :
    let o = resolve_principal no_lookups short_name realm [] cached in
    get_row (normalize_principal o.answer.principal) o.cache ≡ some cached_row
unfolding resolve_principal is_numeric_local_principal canonicalize_principal resolve_cached
    normalize_principal
cached_found = refl

resolve_gids_and_materialize-keeps_example :
    let o = resolve_principal no_lookups short_name realm [] cached in
    let out = resolve_gids_and_materialize no_lookups short_name realm [] cached false in
    StartsWith (primary_of o.answer) out.gids
    × IsUnique out.gids
    × All
        (λ g. is_member g out.gids ≡ true)
        (known_groups (get_row (normalize_principal o.answer.principal) o.cache))
resolve_gids_and_materialize-keeps_example =
    resolve_gids_and_materialize-keeps no_lookups short_name realm [] cached false no_root
      cached_resolved

-- A user b with uid 5 and gid 6, whom a live search has in group 4.
abbrev snapshot : IdMapSnapshot
snapshot = record { users = (98 ∷ [], record { uid = 5; gid = 6 }) ∷ []; groups = [] }

abbrev live_edges : LiveGroupEdges
live_edges name = if same_text name (98 ∷ []) then some (4 ∷ []) else none

sync_user_cache_from_snapshot-IsCurrent_example :
    All
      (IsCurrent snapshot live_edges realm cached)
      (sync_user_cache_from_snapshot snapshot realm cached live_edges).0
sync_user_cache_from_snapshot-IsCurrent_example =
    sync_user_cache_from_snapshot-IsCurrent snapshot live_edges realm cached

-- The user a is gone, the user b is there.
revoked :
    get_row full_name (sync_user_cache_from_snapshot snapshot realm cached live_edges).0 ≡ none
unfolding sync_user_cache_from_snapshot prune_numeric_user_entries prune_malformed_principals
    nfs_klldap_host.Identity.Sync.fold_live_all
    nfs_klldap_host.Identity.Sync.seed_cache_and_nss_from_snapshot
    nfs_klldap_host.Identity.Sync.insert_all nfs_klldap_host.Identity.Sync.best_per_uid insert_row
    principal_has_realm is_numeric_local_principal normalize_principal
    nfs_klldap_host.Identity.Cache.prune_non_machine_users
revoked = refl

build_nss_snapshot_lem_example :
    IsLed root_passwd (build_nss_snapshot cached none).0
    × (any_starts nobody_prefix (build_nss_snapshot cached none).0 ≡ true)
    × IsOnlyRoot (build_nss_snapshot cached none).1
build_nss_snapshot_lem_example = build_nss_snapshot_lem cached none

-- Two threads ask for the name a: the first leads, the second waits, and comes through when the first
-- has finished.
abbrev two_asking : Flights
two_asking = begin_flight short_name (begin_flight short_name none_flying)

abbrev leading : FlightGuard
leading = record { key = short_name; leader = true }

two_guards : two_asking.guards ≡ leading ∷ []
unfolding begin_flight
two_guards = refl

two_asking-Reachable : Reachable two_asking
two_asking-Reachable =
    steps _ _ (steps _ _ starts (begins none_flying short_name)) (begins _ short_name)

finished-Reachable : Reachable (drop_guard [] leading [] two_asking)
finished-Reachable = steps _ _ two_asking-Reachable (drops two_asking [] leading [] two_guards)

Reachable-IsExclusive_example : IsExclusive (drop_guard [] leading [] two_asking)
Reachable-IsExclusive_example =
    Reachable-IsExclusive (drop_guard [] leading [] two_asking) finished-Reachable

follows :
    (wake [] short_name [] (drop_guard [] leading [] two_asking)).guards
    ≡ record { key = short_name; leader = false } ∷ []
unfolding wake drop_guard begin_flight
follows = refl
