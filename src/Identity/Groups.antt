-- ===== src/Identity/Groups.antt =====
-- The groups of a resolved principal and its member rows, in
-- nfs-klldap-config/src/bin/idhelper/resolve.rs and materialize.rs.
pub mod Laws
use nfs_klldap_host.Identity.Cache.{Resolved, IdCache, is_user, is_machine}
use nfs_klldap_host.Identity.Logins.{sanitize_for_nss, nss_passwd_logins_for}
use nfs_klldap_host.Identity.Lookup.{
  Act, load_full_identities, resolve_group_by_gid, materialize_nss, ensure_member, Ldap,
}
use nfs_klldap_host.Identity.Principal.{at_sign, principal_has_realm}
use nfs_klldap_host.Prelude.{
  ℕ, Bool, true, false, not, ◌&&◌, ◌||◌, Option, none, some, List, [], ◌∷◌, ◌++◌, if◌then◌else◌,
  ◌==◌, ltb, leb, Text, contains, retain, map,
}

abbrev pub root_login : Text
root_login = 114 ∷ 111 ∷ 111 ∷ 116 ∷ []

abbrev pub is_member : ℕ → List ℕ → Bool
is_member g [] = false
is_member g (x ∷ xs) = x == g || is_member g xs

-- Each of the second list that is not there yet goes to the end.
unfoldable pub push_new : List ℕ → List ℕ → List ℕ
push_new out [] = out
push_new out (g ∷ more) = push_new (if is_member g out then out else out ++ (g ∷ [])) more

unfoldable pub merge_group_gids : ℕ → List ℕ → List ℕ
merge_group_gids primary supplemental = push_new (primary ∷ []) supplemental

abbrev pub without : ℕ → List ℕ → List ℕ
without g gids = retain (λ x. not (x == g)) gids

abbrev snapshot_acts : Ldap → List Act
snapshot_acts d = if d.no_groups then load_full_identities ∷ [] else []

-- The groups of a principal, the primary one first.
unfoldable pub compute_gids_for_resolved : Option Ldap → Resolved → Text → List ℕ × List Act
compute_gids_for_resolved none r p =
    if is_machine r.kind
    then (merge_group_gids 0 r.supplemental_gids, [])
    else (merge_group_gids r.gid [], [])
compute_gids_for_resolved (some d) r p =
    let more = d.groups_for_principal p in
    let extra = push_new r.supplemental_gids (without 0 more) in
    if is_machine r.kind
    then (merge_group_gids 0 extra, snapshot_acts d ++ map resolve_group_by_gid extra)
    else (
      merge_group_gids r.gid more,
      snapshot_acts d ++ map resolve_group_by_gid (r.gid ∷ without r.gid more),
    )

abbrev pub root_on_groups : List ℕ → List Act
root_on_groups [] = []
root_on_groups (g ∷ gids) =
    let rest = root_on_groups gids in if g == 0 then rest else ensure_member g root_login ∷ rest

abbrev members_of : ℕ → List Text → List Act
members_of g logins = map (ensure_member g) logins

abbrev members_of_all : List ℕ → List Text → List Act
members_of_all [] logins = []
members_of_all (g ∷ gids) logins = members_of g logins ++ members_of_all gids logins

abbrev realm_login : ℕ → List Text → List Act
realm_login primary [] = []
realm_login primary (l ∷ logins) =
    let rest = realm_login primary logins in
    if contains at_sign l then ensure_member primary l ∷ [] else rest

-- The member rows of a principal, in both stores.
unfoldable pub ensure_members_for : Resolved → List ℕ → List Act
ensure_members_for r gids =
    let logins = nss_passwd_logins_for r in
    if is_user r.kind && principal_has_realm r.principal
    then members_of_all gids logins
      ++ ensure_member r.gid (sanitize_for_nss r.name) ∷ realm_login r.gid logins
    else if is_machine r.kind
    then root_on_groups gids
    else []

unfoldable pub ensure_nss_materialized_for : Resolved → List ℕ → IdCache → List Act
ensure_nss_materialized_for r gids c = materialize_nss c ∷ ensure_members_for r gids

abbrev add_groups : List ℕ → List ℕ → List ℕ
add_groups supps [] = supps
add_groups supps (g ∷ gids) =
    add_groups (if not (g == 0) && not (is_member g supps) then supps ++ (g ∷ []) else supps) gids

-- Over the rows of machines and of root that have a realm.
abbrev pub root_groups : List ℕ → IdCache → List ℕ
root_groups supps [] = supps
root_groups supps ((k, r) ∷ c) =
    root_groups
      (if (r.uid == 0 || r.gid == 0) && principal_has_realm r.principal
        then add_groups supps r.supplemental_gids
        else supps)
      c

abbrev pub insert_gid : ℕ → List ℕ → List ℕ
insert_gid g [] = g ∷ []
insert_gid g (x ∷ xs) = let rest = insert_gid g xs in if leb g x then g ∷ x ∷ xs else x ∷ rest

-- `sort_unstable`
abbrev pub sort_gids : List ℕ → List ℕ
sort_gids [] = []
sort_gids (g ∷ gids) = insert_gid g (sort_gids gids)

unfoldable pub root_supplemental_gids_from_cache : IdCache → List ℕ
root_supplemental_gids_from_cache c = sort_gids (root_groups [] c)
