-- ===== src/Identity/Sync.antt =====
-- The cache after a bulk load of LDAP, in nfs-klldap-config/src/bin/idhelper/materialize.rs. The
-- snapshot's maps are lists, in the order in which they are walked; an i32 is its reading as a u32.
pub mod Every
pub mod Current
use nfs_klldap_host.Identity.Cache.{
  user, is_user, Resolved, IdCache, insert_row, prune_non_machine_users, prune_malformed_principals,
  prune_numeric_user_entries,
}
use nfs_klldap_host.Identity.Groups.{is_member, sort_gids}
use nfs_klldap_host.Identity.Logins.{principal_realm_login_for_nss}
use nfs_klldap_host.Identity.Principal.{
  at_sign, slash, principal_local_part, principal_has_realm, has_machine_prefix,
}
use nfs_klldap_host.Prelude.{
  ℕ, suc, Bool, true, false, not, ◌&&◌, ◌||◌, Option, none, some, List, [], ◌∷◌, ◌++◌,
  if◌then◌else◌, ◌==◌, Text, same_text, trim, contains,
}

pub record UserEntry : Type 0 where
  pub uid : ℕ
  pub gid : ℕ

pub record GroupEntry : Type 0 where
  pub gid : ℕ
  pub display : Text
  pub members : List Text

pub record IdMapSnapshot : Type 0 where
  pub users : List (Text × UserEntry)
  pub groups : List (Text × GroupEntry)

-- The entry kept for a uid: a short name and the ids.
pub record BestUser : Type 0 where
  pub name : Text
  pub uid : ℕ
  pub gid : ℕ

abbrev pub renamed : Text → BestUser → BestUser
renamed key b =
    if not (contains at_sign key) && contains at_sign b.name
    then record b { name = principal_local_part key }
    else b

-- `entry(uid).and_modify(..).or_insert(..)`
abbrev pub upsert : Text → UserEntry → List BestUser → List BestUser
upsert key entry [] =
    record { name = principal_local_part key; uid = entry.uid; gid = entry.gid } ∷ []
upsert key entry (b ∷ bs) =
    let rest = upsert key entry bs in if b.uid == entry.uid then renamed key b ∷ bs else b ∷ rest

abbrev pub is_seeded : Text → UserEntry → Bool
is_seeded key entry = not (entry.uid == 0) && not (contains slash key && has_machine_prefix key)

unfoldable pub best_per_uid : List (Text × UserEntry) → List BestUser → List BestUser
best_per_uid [] best = best
best_per_uid ((key, entry) ∷ users) best =
    best_per_uid users (if is_seeded key entry then upsert key entry best else best)

abbrev pub any_member : Text → Text → Text → List Text → Bool
any_member short principal login [] = false
any_member short principal login (m ∷ members) =
    same_text (trim m) short
    || same_text (trim m) principal
    || same_text (trim m) login
    || any_member short principal login members

abbrev pub has_member : Text → Text → GroupEntry → Bool
has_member short principal entry =
    any_member short principal (principal_realm_login_for_nss principal) entry.members

abbrev pub member_gids : Text → Text → ℕ → List (Text × GroupEntry) → List ℕ
member_gids short principal primary [] = []
member_gids short principal primary ((k, entry) ∷ groups) =
    let rest = member_gids short principal primary groups in
    if not (entry.gid == 0 || entry.gid == primary) && has_member short principal entry
    then entry.gid ∷ rest
    else rest

-- `dedup`
abbrev pub dedup : List ℕ → List ℕ
dedup [] = []
dedup (g ∷ []) = g ∷ []
dedup (g ∷ h ∷ gids) = let rest = dedup (h ∷ gids) in if g == h then rest else g ∷ rest

unfoldable pub supplemental_gids_from_snapshot : Text → Text → ℕ → IdMapSnapshot → List ℕ
supplemental_gids_from_snapshot short principal primary snap =
    dedup (sort_gids (member_gids short principal primary snap.groups))

-- `bulk`
abbrev pub bulk : Text
bulk = 98 ∷ 117 ∷ 108 ∷ 107 ∷ []

abbrev pub bulk_row : IdMapSnapshot → Text → BestUser → Resolved
bulk_row snap realm b =
    let p = b.name ++ at_sign ∷ realm in
    record {
      principal = p;
      name = b.name;
      uid = b.uid;
      gid = b.gid;
      kind = user;
      source = bulk;
      supplemental_gids = supplemental_gids_from_snapshot b.name p b.gid snap;
    }

unfoldable pub insert_all : IdMapSnapshot → Text → List BestUser → IdCache → IdCache
insert_all snap realm [] c = c
insert_all snap realm (b ∷ best) c =
    insert_all snap realm best (insert_row (bulk_row snap realm b) c)

abbrev count : List BestUser → ℕ
count [] = 0
count (b ∷ best) = suc (count best)

-- The cache and the number of rows that were seeded.
unfoldable pub seed_cache_and_nss_from_snapshot : IdMapSnapshot → Text → IdCache → IdCache × ℕ
seed_cache_and_nss_from_snapshot snap realm c =
    let best = best_per_uid snap.users [] in (insert_all snap realm best c, count best)

-- The groups of the warm pass, by short name.
abbrev pub LiveGroupEdges : Type 0
LiveGroupEdges = Text → Option (List ℕ)

abbrev pub add_edges : ℕ → List ℕ → List ℕ → List ℕ
add_edges own supps [] = supps
add_edges own supps (g ∷ gids) =
    add_edges own
      (if not (g == 0) && not (g == own) && not (is_member g supps) then supps ++ g ∷ [] else supps)
      gids

abbrev pub with_edges : Resolved → Option (List ℕ) → Resolved
with_edges r none = r
with_edges r (some gids) = record r {
  supplemental_gids = dedup (sort_gids (add_edges r.gid r.supplemental_gids gids));
}

abbrev pub fold_live : LiveGroupEdges → Resolved → Resolved
fold_live live r =
    if not (is_user r.kind) || not (principal_has_realm r.principal)
    then r
    else with_edges r (live r.name)

unfoldable pub fold_live_all : LiveGroupEdges → IdCache → IdCache
fold_live_all live [] = []
fold_live_all live ((k, r) ∷ c) = (k, fold_live live r) ∷ fold_live_all live c

unfoldable pub sync_user_cache_from_snapshot :
    IdMapSnapshot → Text → IdCache → LiveGroupEdges → IdCache × ℕ
sync_user_cache_from_snapshot snap realm c live =
    let seeded = seed_cache_and_nss_from_snapshot snap realm (prune_non_machine_users c).0 in
    let folded = fold_live_all live seeded.0 in
    ((prune_numeric_user_entries (prune_malformed_principals folded).0).0, seeded.1)
