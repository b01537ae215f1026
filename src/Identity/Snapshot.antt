-- ===== src/Identity/Snapshot.antt =====
-- The passwd and group lines that nfs-klldap-config/src/bin/idhelper/materialize.rs builds from the
-- cache for Ganesha. A map from gids is a list; a gid that LDAP gives as an i32 is its reading as a
-- u32, and is put in the order of the i32.
pub mod Rootline
use nfs_klldap_host.Identity.Cache.{Resolved, IdCache, is_user, is_machine, text_ltb}
use nfs_klldap_host.Identity.Groups.{root_login, is_member, root_supplemental_gids_from_cache}
use nfs_klldap_host.Identity.Members.{
  LdapGroups, GidMap, members_at, has_text, push_text, push_texts, items_of, primary_logins,
  users_by_gid, proper_logins, members_by_gid, with_root, group_line_with_members, nobody_name,
  root_group, gname_for_gid,
}
use nfs_klldap_host.Identity.Logins.{
  sanitize_for_nss, principal_realm_login_for_nss, is_numeric_login, nss_passwd_logins_for,
  gecos_for,
}
use nfs_klldap_host.Identity.Principal.{principal_has_realm, is_numeric_local_principal}
use nfs_klldap_host.Identity.Resolve.{nobody_uid}
use nfs_klldap_host.Identity.Rows.{to_decimal, passwd_line}
use nfs_klldap_host.Identity.Sync.{GroupEntry}
use nfs_klldap_host.Prelude.{
  ℕ, ◌+◌, ◌%◌, ◌^◌, Bool, true, false, not, ◌&&◌, ◌||◌, Option, none, some, List, [], ◌∷◌, ◌++◌,
  map, if◌then◌else◌, ◌==◌, ltb, Text, same_text, starts_with, retain,
}

abbrev insert_group : Text × GroupEntry → List (Text × GroupEntry) → List (Text × GroupEntry)
insert_group e [] = e ∷ []
insert_group e (f ∷ groups) =
    let rest = insert_group e groups in if text_ltb f.0 e.0 then f ∷ rest else e ∷ f ∷ groups

abbrev sort_groups : List (Text × GroupEntry) → List (Text × GroupEntry)
sort_groups [] = []
sort_groups (e ∷ groups) = insert_group e (sort_groups groups)

-- The place of a gid among the i32.
abbrev signed_rank : ℕ → ℕ
signed_rank g = (g + 2 ^ 31) % 2 ^ 32

-- `entry(gid).or_insert(entry)` of a `BTreeMap`.
abbrev put_group : GroupEntry → List GroupEntry → List GroupEntry
put_group e [] = e ∷ []
put_group e (f ∷ by_gid) =
    let rest = put_group e by_gid in
    if e.gid == f.gid
    then f ∷ by_gid
    else if ltb (signed_rank e.gid) (signed_rank f.gid)
    then e ∷ f ∷ by_gid
    else f ∷ rest

abbrev pub by_gid : List GroupEntry → List (Text × GroupEntry) → List GroupEntry
by_gid out [] = out
by_gid out ((k, e) ∷ groups) = by_gid (put_group e out) groups

-- The lines so far, with the logins and gids that have one.
pub record Lines : Type 0 where
  pub passwd : List Text
  pub group : List Text
  pub seen_login : List Text
  pub seen_gid : List ℕ

-- `seen_gid.insert(g)`, and the line if it was not there.
abbrev pub add_group_line : ℕ → Text → Lines → Lines
add_group_line g line out =
    if is_member g out.seen_gid
    then out
    else record out { group = out.group ++ (line ∷ []); seen_gid = g ∷ out.seen_gid }

-- What the rows are built from.
pub record Tables : Type 0 where
  pub groups : LdapGroups
  pub users : GidMap
  pub members : GidMap

abbrev group_name : ℕ → Text → Text
group_name gid name = if gid == nobody_uid then nobody_name else sanitize_for_nss name

unfoldable pub ldap_rows : Tables → List GroupEntry → Lines → Lines
ldap_rows t [] out = out
ldap_rows t (e ∷ entries) out =
    let listed = map sanitize_for_nss e.members in
    let members =
      push_texts (push_texts listed (members_at e.gid t.users)) (members_at e.gid t.members) in
    ldap_rows t entries (
      add_group_line e.gid (group_line_with_members e.gid (group_name e.gid e.display) members) out)

abbrev ldap_lines : Tables → LdapGroups → Lines → Lines
ldap_lines t none out = out
ldap_lines t (some groups) out = ldap_rows t (by_gid [] (sort_groups groups)) out

abbrev add_login : Resolved → Text → Lines → Lines
add_login r login out = if has_text login out.seen_login then out else record out {
  passwd = out.passwd ++ (passwd_line login r.uid r.gid (gecos_for r) ∷ []);
  seen_login = login ∷ out.seen_login;
}

abbrev add_logins : Resolved → List Text → Lines → Lines
add_logins r [] out = out
add_logins r (login ∷ logins) out = add_logins r logins (add_login r login out)

-- `gN`
abbrev fallback_name : ℕ → Text
fallback_name g = 103 ∷ to_decimal g

abbrev claimed_line : Tables → Resolved → ℕ → Text
claimed_line t r g =
    let members = members_at g t.members in
    let name = gname_for_gid g t.groups (fallback_name g) in
    if g == 0
    then root_group
    else if is_machine r.kind
    then group_line_with_members g name (push_text members root_login)
    else group_line_with_members g name (push_texts members (primary_logins r))

abbrev claimed_rows : Tables → Resolved → List ℕ → Lines → Lines
claimed_rows t r [] out = out
claimed_rows t r (g ∷ gids) out = claimed_rows t r gids (add_group_line g (claimed_line t r g) out)

-- The row of a uid that is no gid of its own; root's needs none.
abbrev uid_row : Resolved → Lines → Lines
uid_row r out =
    let line = (117 ∷ to_decimal r.uid) ++ (58 ∷ 120 ∷ 58 ∷ (to_decimal r.uid ++ (58 ∷ []))) in
    if r.uid == r.gid || is_member r.uid out.seen_gid
    then out
    else if r.uid == 0
    then record out { seen_gid = r.uid ∷ out.seen_gid }
    else add_group_line r.uid line out

unfoldable pub item_rows : Tables → List Resolved → Lines → Lines
item_rows t [] out = out
item_rows t (r ∷ items) out =
    let with_logins = add_logins r (proper_logins r) out in
    item_rows t items (
      if is_numeric_local_principal r.principal
      then out
      else uid_row r (claimed_rows t r (r.gid ∷ r.supplemental_gids) with_logins))

unfoldable pub root_rows : Tables → List ℕ → Lines → Lines
root_rows t [] out = out
root_rows t (g ∷ gids) out = root_rows t gids (
    add_group_line g
      (group_line_with_members g (gname_for_gid g t.groups (fallback_name g))
        (push_text (members_at g t.members) root_login))
      out)

-- `root:x:0:0:root:/root:/bin/sh`
abbrev pub root_passwd : Text
root_passwd =
    114 ∷ 111 ∷ 111 ∷ 116 ∷ 58 ∷ 120 ∷ 58 ∷ 48 ∷ 58 ∷ 48 ∷ 58 ∷ 114 ∷ 111 ∷ 111 ∷ 116 ∷ 58 ∷ 47
    ∷ 114 ∷ 111 ∷ 111 ∷ 116 ∷ 58 ∷ 47 ∷ 98 ∷ 105 ∷ 110 ∷ 47 ∷ 115 ∷ 104 ∷ []

-- `root:x:0:`
abbrev pub root_group_prefix : Text
root_group_prefix = 114 ∷ 111 ∷ 111 ∷ 116 ∷ 58 ∷ 120 ∷ 58 ∷ 48 ∷ 58 ∷ []

abbrev pub root_prefix_line : Text
root_prefix_line = 114 ∷ 111 ∷ 111 ∷ 116 ∷ 58 ∷ []

abbrev pub nobody_prefix : Text
nobody_prefix = nobody_name ++ (58 ∷ [])

abbrev pub any_starts : Text → List Text → Bool
any_starts p [] = false
any_starts p (l ∷ ls) = starts_with p l || any_starts p ls

-- Without the first line of a prefix.
abbrev pub without_first : Text → List Text → List Text
without_first p [] = []
without_first p (l ∷ ls) = let rest = without_first p ls in if starts_with p l then ls else l ∷ rest

abbrev fallback_comment : Text
fallback_comment =
    110 ∷ 102 ∷ 115 ∷ 45 ∷ 107 ∷ 108 ∷ 108 ∷ 100 ∷ 97 ∷ 112 ∷ 32 ∷ 102 ∷ 97 ∷ 108 ∷ 108 ∷ 98 ∷ 97
    ∷ 99 ∷ 107 ∷ []

abbrev pub nobody_passwd : Text
nobody_passwd = passwd_line nobody_name nobody_uid nobody_uid fallback_comment

abbrev pub with_nobody : List Text → List Text
with_nobody passwd =
    if any_starts nobody_prefix passwd then passwd else passwd ++ (nobody_passwd ∷ [])

abbrev pub base_groups : Lines → List Text
base_groups out = if is_member 0 out.seen_gid then out.group else out.group ++ (root_group ∷ [])

abbrev pub base_passwd : Lines → List Text
base_passwd out =
    if any_starts root_prefix_line out.passwd
    then root_passwd ∷ without_first root_prefix_line out.passwd
    else root_passwd ∷ out.passwd

-- Root leads both lists.
unfoldable pub led_by_root : Lines → List Text × List Text
led_by_root out = (
  with_nobody (base_passwd out),
  root_group ∷ retain (λ l. not (starts_with root_group_prefix l)) (base_groups out),
)

unfoldable pub build_nss_snapshot : IdCache → LdapGroups → List Text × List Text
build_nss_snapshot c groups =
    let items = items_of c in
    let root_supps = root_supplemental_gids_from_cache c in
    let tables : Tables = record {
      groups = groups;
      users = users_by_gid [] items;
      members = with_root root_supps (members_by_gid [] items);
    } in
    let none_yet : Lines = record { passwd = []; group = []; seen_login = []; seen_gid = [] } in
    led_by_root
      (root_rows tables root_supps (item_rows tables items (ldap_lines tables groups none_yet)))
