-- ===== src/Identity/Sync/Current.antt =====
-- What the cache holds after a bulk load, in nfs-klldap-config/src/bin/idhelper/materialize.rs.
use nfs_klldap_host.Identity.Cache.{
  PrincipalKind, user, machine, unknown, is_user, is_machine, Resolved, IdCache, insert_row,
  prune_non_machine_users, prune_malformed_principals, prune_numeric_user_entries,
}
use nfs_klldap_host.Identity.Principal.{at_sign, principal_local_part, principal_has_realm}
use nfs_klldap_host.Identity.Resolve.Sound.{All-retain}
use nfs_klldap_host.Identity.Sync.Every.{All-dedup, All-sort_gids, All-add_edges}
use nfs_klldap_host.Identity.Sync.{
  UserEntry, GroupEntry, IdMapSnapshot, BestUser, renamed, upsert, is_seeded, best_per_uid,
  has_member, member_gids, supplemental_gids_from_snapshot, bulk_row, insert_all,
  seed_cache_and_nss_from_snapshot, LiveGroupEdges, with_edges, fold_live, fold_live_all,
  sync_user_cache_from_snapshot,
}
use nfs_klldap_host.Prelude.{
  ℕ, ◌≡◌, ◌⊎◌, Bool, true, false, not, ◌&&◌, ◌||◌, Option, none, some, List, [], ◌∷◌, ◌++◌, refl,
  arith, ◌==◌, Text, contains, All, Among, Among-All, Bool-cases, inl, inr, ==_iff,
}

-- The ids of one entry, which is not root's, and the local part of one key with that uid.
abbrev pub IsBest : List (Text × UserEntry) → BestUser → Type 0
IsBest users b =
    ((key : Text) × (entry : UserEntry) × Among (key, entry) users
      × (b.uid ≡ entry.uid)
      × (b.gid ≡ entry.gid)
      × ((entry.uid == 0) ≡ false))
    × ((key : Text) × (entry : UserEntry) × Among (key, entry) users
        × (b.uid ≡ entry.uid)
        × (b.name ≡ principal_local_part key))

renamed-IsBest :
    (users : List (Text × UserEntry)) (key : Text) (entry : UserEntry) (b : BestUser)
    → Among (key, entry) users
    → b.uid ≡ entry.uid
    → IsBest users b
    → IsBest users (renamed key b)
renamed-IsBest users key entry b k same (ids, name) =
    elim (Bool-cases (not (contains at_sign key) && contains at_sign b.name)) [
      | inl y ↦ rw y (ids, (key, entry, k, same, refl))
      | inr n ↦ rw n (ids, name)
    ]

upsert-IsBest :
    (users : List (Text × UserEntry)) (key : Text) (entry : UserEntry) (best : List BestUser)
    → Among (key, entry) users
    → (entry.uid == 0) ≡ false
    → All (IsBest users) best
    → All (IsBest users) (upsert key entry best)
upsert-IsBest users key entry [] k nonroot h =
    (((key, entry, k, refl, refl, nonroot), (key, entry, k, refl, refl)), tt)
upsert-IsBest users key entry (b ∷ best) k nonroot (this, h) =
    elim (Bool-cases (b.uid == entry.uid)) [
      | inl y ↦ rw y (renamed-IsBest users key entry b k ((==_iff b.uid entry.uid).0 y) this, h)
      | inr n ↦ rw n (this, upsert-IsBest users key entry best k nonroot h)
    ]

left_false : (a b : Bool) → (not a && b) ≡ true → a ≡ false
left_false a b h = ground arith

best_per_uid-IsBest :
    (all users : List (Text × UserEntry)) (best : List BestUser)
    → All (λ u. Among u all) users
    → All (IsBest all) best
    → All (IsBest all) (best_per_uid users best)
unfolding best_per_uid
best_per_uid-IsBest all [] best k h = h
best_per_uid-IsBest all ((key, entry) ∷ users) best (here, k) h =
    elim (Bool-cases (is_seeded key entry)) [
      | inl y ↦ rw y (
          best_per_uid-IsBest all users _ k
            (upsert-IsBest all key entry best here (left_false (entry.uid == 0) _ y) h))
      | inr n ↦ rw n (best_per_uid-IsBest all users best k h)
    ]

-- Why a group is supplemental: an LDAP group lists the user, or the live search did.
abbrev pub IsGranted : IdMapSnapshot → LiveGroupEdges → Text → Text → ℕ → Type 0
IsGranted snap live name principal g =
    ((key : Text) × (entry : GroupEntry) × Among (key, entry) snap.groups
      × (entry.gid ≡ g)
      × (has_member name principal entry ≡ true))
    ⊎ ((gids : List ℕ) × (live name ≡ some gids) × Among g gids)

abbrev pub IsSeeded : IdMapSnapshot → LiveGroupEdges → Text → Resolved → Type 0
IsSeeded snap live realm r =
    IsBest snap.users (record { name = r.name; uid = r.uid; gid = r.gid })
    × (r.principal ≡ r.name ++ at_sign ∷ realm)
    × All (IsGranted snap live r.name r.principal) r.supplemental_gids

abbrev pub IsCurrent : IdMapSnapshot → LiveGroupEdges → Text → IdCache → Text × Resolved → Type 0
IsCurrent snap live realm old (k, r) =
    ((is_machine r.kind ≡ true) × Among (k, r) old) ⊎ IsSeeded snap live realm r

right_true : (a b : Bool) → (a && b) ≡ true → b ≡ true
right_true a b h = ground arith

member_gids-IsGranted :
    (snap : IdMapSnapshot) (live : LiveGroupEdges) (name principal : Text) (primary : ℕ)
    (groups : List (Text × GroupEntry))
    → All (λ e. Among e snap.groups) groups
    → All (IsGranted snap live name principal) (member_gids name principal primary groups)
member_gids-IsGranted snap live name principal primary [] k = tt
member_gids-IsGranted snap live name principal primary ((key, entry) ∷ groups) (here, k) =
    let listed = not (entry.gid == 0 || entry.gid == primary) in
    elim (Bool-cases (listed && has_member name principal entry)) [
      | inl y ↦ rw y (
        inl (key, entry, here, refl, right_true listed (has_member name principal entry) y),
        member_gids-IsGranted snap live name principal primary groups k,
      )
      | inr n ↦ rw n (member_gids-IsGranted snap live name principal primary groups k)
    ]

bulk_row-IsSeeded :
    (snap : IdMapSnapshot) (live : LiveGroupEdges) (realm : Text) (b : BestUser)
    → IsBest snap.users b
    → IsSeeded snap live realm (bulk_row snap realm b)
unfolding supplemental_gids_from_snapshot
bulk_row-IsSeeded snap live realm b h =
    let p = b.name ++ at_sign ∷ realm in
    let granted = IsGranted snap live b.name p in
    (
      h,
      refl,
      All-dedup granted _ (
          All-sort_gids granted _ (
            member_gids-IsGranted snap live b.name p b.gid snap.groups
              (Among-All _ snap.groups (λ e k. k)))),
    )

module _ (snap : IdMapSnapshot) (live : LiveGroupEdges) (realm : Text) (old : IdCache) where
  insert_all-IsCurrent :
      (best : List BestUser) (c : IdCache)
      → All (IsBest snap.users) best
      → All (IsCurrent snap live realm old) c
      → All (IsCurrent snap live realm old) (insert_all snap realm best c)
  unfolding insert_all insert_row
  insert_all-IsCurrent [] c h k = k
  insert_all-IsCurrent (b ∷ best) c (this, h) k =
      insert_all-IsCurrent best _ h
        (inr (bulk_row-IsSeeded snap live realm b this), All-retain _ _ c k)

  with_edges-IsSeeded :
      (r : Resolved) (o : Option (List ℕ))
      → live r.name ≡ o
      → IsSeeded snap live realm r
      → IsSeeded snap live realm (with_edges r o)
  with_edges-IsSeeded r none e h = h
  with_edges-IsSeeded r (some gids) e (best, name, granted) =
      let P = IsGranted snap live r.name r.principal in
      (
        best,
        name,
        All-dedup P _ (
            All-sort_gids P _ (
              All-add_edges P r.gid r.supplemental_gids gids granted
                (Among-All P gids (λ g k. inr (gids, e, k))))),
      )

  machine_is_user : (k : PrincipalKind) → is_machine k ≡ true → is_user k ≡ false
  machine_is_user user h = absurd (cc h)
  machine_is_user machine h = refl
  machine_is_user unknown h = absurd (cc h)

  fold_live-IsCurrent :
      (k : Text) (r : Resolved)
      → IsCurrent snap live realm old (k, r)
      → IsCurrent snap live realm old (k, fold_live live r)
  fold_live-IsCurrent k r (inl (is, there)) = rw (machine_is_user r.kind is) (inl (is, there))
  fold_live-IsCurrent k r (inr h) =
      elim (Bool-cases (not (is_user r.kind) || not (principal_has_realm r.principal))) [
        | inl y ↦ rw y (inr h)
        | inr n ↦ rw n (inr (with_edges-IsSeeded r (live r.name) refl h))
      ]

  fold_live_all-IsCurrent :
      (c : IdCache)
      → All (IsCurrent snap live realm old) c
      → All (IsCurrent snap live realm old) (fold_live_all live c)
  unfolding fold_live_all
  fold_live_all-IsCurrent [] h = tt
  fold_live_all-IsCurrent ((k, r) ∷ c) (this, h) =
      (fold_live-IsCurrent k r this, fold_live_all-IsCurrent c h)

  kept_machines :
      (c : IdCache)
      → All (λ e. Among e old) c
      → All (IsCurrent snap live realm old) (prune_non_machine_users c).0
  unfolding prune_non_machine_users
  kept_machines [] h = tt
  kept_machines ((k, r) ∷ c) (here, h) = elim (Bool-cases (is_machine r.kind)) [
    | inl y ↦ rw y (inl (y, here), kept_machines c h)
    | inr n ↦ rw n (kept_machines c h)
  ]

  -- After a bulk load every row is either a machine's row that was there before, or the row of a user
  -- in the snapshot: its ids are those of an entry that is not root's, its name the local part of a
  -- key with that uid, its principal that name in the realm, and each of its supplemental groups is
  -- granted by the snapshot or by the live searches. Nothing else that was cached survives, so a user
  -- or a membership that LDAP no longer has is gone.
  pub sync_user_cache_from_snapshot-IsCurrent :
      All (IsCurrent snap live realm old) (sync_user_cache_from_snapshot snap realm old live).0
  unfolding sync_user_cache_from_snapshot seed_cache_and_nss_from_snapshot
      prune_malformed_principals prune_numeric_user_entries
  sync_user_cache_from_snapshot-IsCurrent = All-retain _ _ _ (
      All-retain _ _ _ (
        fold_live_all-IsCurrent _ (
          insert_all-IsCurrent (best_per_uid snap.users []) _
            (best_per_uid-IsBest snap.users snap.users [] (Among-All _ snap.users (λ u k. k)) tt)
            (kept_machines old (Among-All _ old (λ e k. k))))))
