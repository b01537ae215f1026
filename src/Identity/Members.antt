-- ===== src/Identity/Members.antt =====
-- Who is in which group, and what a group is called, for the lines that
-- nfs-klldap-config/src/bin/idhelper/materialize.rs builds. A map from gids is a list.
use nfs_klldap_host.Identity.Cache.{Resolved, IdCache, is_user, is_machine, text_ltb}
use nfs_klldap_host.Identity.Groups.{root_login}
use nfs_klldap_host.Identity.Logins.{
  sanitize_for_nss, principal_realm_login_for_nss, is_numeric_login, nss_passwd_logins_for,
}
use nfs_klldap_host.Identity.Principal.{principal_has_realm, is_numeric_local_principal}
use nfs_klldap_host.Identity.Resolve.{nobody_uid}
use nfs_klldap_host.Identity.Rows.{to_decimal}
use nfs_klldap_host.Identity.Sync.{GroupEntry}
use nfs_klldap_host.Prelude.{
  ℕ, Bool, false, not, ◌&&◌, ◌||◌, Option, none, some, List, [], ◌∷◌, ◌++◌, if◌then◌else◌, ◌==◌,
  Text, same_text, retain,
}

abbrev pub LdapGroups : Type 0
LdapGroups = Option (List (Text × GroupEntry))

-- Members by gid, with `entry(g).or_default()`.
abbrev pub GidMap : Type 0
GidMap = List (ℕ × List Text)

abbrev pub members_at : ℕ → GidMap → List Text
members_at g [] = []
members_at g ((h, logins) ∷ m) = let rest = members_at g m in if h == g then logins else rest

abbrev pub has_text : Text → List Text → Bool
has_text x [] = false
has_text x (y ∷ ys) = same_text y x || has_text x ys

abbrev pub push_text : List Text → Text → List Text
push_text logins x = if has_text x logins then logins else logins ++ (x ∷ [])

abbrev pub update_at : ℕ → (List Text → List Text) → GidMap → GidMap
update_at g f [] = (g, f []) ∷ []
update_at g f ((h, logins) ∷ m) =
    let rest = update_at g f m in if h == g then (h, f logins) ∷ m else (h, logins) ∷ rest

abbrev pub push_texts : List Text → List Text → List Text
push_texts out [] = out
push_texts out (x ∷ xs) = push_texts (push_text out x) xs

-- In the order of their principals.
abbrev insert_item : Resolved → List Resolved → List Resolved
insert_item r [] = r ∷ []
insert_item r (s ∷ items) =
    let rest = insert_item r items in
    if text_ltb s.principal r.principal then s ∷ rest else r ∷ s ∷ items

abbrev pub items_of : IdCache → List Resolved
items_of [] = []
items_of ((k, r) ∷ c) =
    let rest = items_of c in if principal_has_realm r.principal then insert_item r rest else rest

abbrev pub primary_logins : Resolved → List Text
primary_logins r =
    let short = sanitize_for_nss r.name in
    let full = principal_realm_login_for_nss r.principal in
    if principal_has_realm r.principal && not (same_text full short)
    then short ∷ full ∷ []
    else short ∷ []

-- The users of each primary group.
abbrev pub users_by_gid : GidMap → List Resolved → GidMap
users_by_gid m [] = m
users_by_gid m (r ∷ items) =
    users_by_gid
      (if is_user r.kind && not (r.gid == 0) && not (is_numeric_local_principal r.principal)
        then update_at r.gid (λ logins. logins ++ primary_logins r) m
        else m)
      items

abbrev pub proper_logins : Resolved → List Text
proper_logins r = retain (λ l. not (is_numeric_login l)) (nss_passwd_logins_for r)

abbrev claimed_logins : Resolved → List Text
claimed_logins r = if is_machine r.kind then root_login ∷ [] else proper_logins r

abbrev claim_all : Resolved → List ℕ → GidMap → GidMap
claim_all r [] m = m
claim_all r (g ∷ gids) m =
    claim_all r gids
      (if g == 0 then m else update_at g (λ logins. push_texts logins (claimed_logins r)) m)

-- The members of every group that a row claims.
abbrev pub members_by_gid : GidMap → List Resolved → GidMap
members_by_gid m [] = m
members_by_gid m (r ∷ items) = members_by_gid (claim_all r (r.gid ∷ r.supplemental_gids) m) items

abbrev pub with_root : List ℕ → GidMap → GidMap
with_root [] m = m
with_root (g ∷ gids) m = with_root gids (update_at g (λ logins. push_text logins root_login) m)

abbrev join_members : List Text → Text
join_members [] = []
join_members (x ∷ []) = x
join_members (x ∷ y ∷ ys) = x ++ (44 ∷ join_members (y ∷ ys))

unfoldable pub group_line_with_members : ℕ → Text → List Text → Text
group_line_with_members gid gname members =
    gname ++ (58 ∷ 120 ∷ 58 ∷ (to_decimal gid ++ (58 ∷ join_members members)))

abbrev pub nobody_name : Text
nobody_name = 110 ∷ 111 ∷ 98 ∷ 111 ∷ 100 ∷ 121 ∷ []

-- root, daemon and bin.
unfoldable pub minimal_root_group_members : List Text
minimal_root_group_members =
    root_login ∷ (100 ∷ 97 ∷ 101 ∷ 109 ∷ 111 ∷ 110 ∷ []) ∷ (98 ∷ 105 ∷ 110 ∷ []) ∷ []

abbrev pub root_group : Text
root_group = group_line_with_members 0 root_login minimal_root_group_members

-- The entry with the lowest key among those of a gid.
abbrev lowest : ℕ → List (Text × GroupEntry) → Option (Text × GroupEntry)
lowest gid [] = none
lowest gid ((k, e) ∷ groups) =
    let rest = lowest gid groups in if e.gid == gid then lower k e rest else rest
  where
    lower : Text → GroupEntry → Option (Text × GroupEntry) → Option (Text × GroupEntry)
    lower k e none = some (k, e)
    lower k e (some (j, f)) = if text_ltb j k then some (j, f) else some (k, e)

abbrev name_in : Option (Text × GroupEntry) → Text → Text
name_in none fallback = sanitize_for_nss fallback
name_in (some (k, e)) fallback = sanitize_for_nss e.display

abbrev lookup_name : ℕ → LdapGroups → Text → Text
lookup_name gid none fallback = sanitize_for_nss fallback
lookup_name gid (some groups) fallback = name_in (lowest gid groups) fallback

unfoldable pub gname_for_gid : ℕ → LdapGroups → Text → Text
gname_for_gid gid groups fallback =
    if gid == nobody_uid then nobody_name else lookup_name gid groups fallback
