-- ===== src/Identity/Grouplist/Laws.antt =====
-- The GROUPS answer of nfs-klldap-config/src/bin/idhelper/resolve.rs.
use nfs_klldap_host.Identity.Cache.{Resolved, IdCache, get_row}
use nfs_klldap_host.Identity.Grouplist.{
  same_gids, persist_groups, grouped, groups_of_outcome, asks_root, resolve_gids_and_materialize,
}
use nfs_klldap_host.Identity.Groups.{is_member, push_new, without}
use nfs_klldap_host.Identity.Groups.Laws.{
  IsUnique, StartsWith, IsGroupList, primary_of, push_new-IsUnique, push_new-StartsWith,
  is_member-push_new, compute_gids_for_resolved-IsGroupList,
}
use nfs_klldap_host.Identity.Lookup.{Lookups}
use nfs_klldap_host.Identity.Principal.{normalize_principal}
use nfs_klldap_host.Identity.Resolve.{Outcome, is_unresolved_fail_closed, resolve_principal}
use nfs_klldap_host.Prelude.{
  ℕ, ◌≡◌, Bool, true, false, ◌||◌, Option, none, some, List, [], ◌∷◌, All, arith, refl, Text, trim,
  Bool-cases, inl, inr,
}

persist_groups-IsGroupList :
    (primary : ℕ) (key : Text) (gids : List ℕ) (c : IdCache) (o : Option Resolved)
    → IsGroupList primary gids
    → IsGroupList primary (persist_groups key gids c o).gids
unfolding persist_groups
persist_groups-IsGroupList primary key gids c none h = h
persist_groups-IsGroupList primary key gids c (some e) (first, u) =
    let supps = push_new (without e.gid gids) e.supplemental_gids in
    elim (Bool-cases (same_gids e.supplemental_gids supps)) [
      | inl y ↦ rw y (push_new-StartsWith primary gids supps first, push_new-IsUnique gids supps u)
      | inr n ↦ rw n (push_new-StartsWith primary gids supps first, push_new-IsUnique gids supps u)
    ]

groups_of_outcome-IsGroupList :
    (x : Lookups) (p : Text) (force : Bool) (o : Outcome)
    → is_unresolved_fail_closed o.answer ≡ false
    → IsGroupList (primary_of o.answer) (groups_of_outcome x p force o).gids
unfolding groups_of_outcome grouped
groups_of_outcome-IsGroupList x p force o shown = rw shown (
    persist_groups-IsGroupList (primary_of o.answer) _ _ o.cache _
      (compute_gids_for_resolved-IsGroupList x.ldap o.answer p))

persist_groups-keeps :
    (g : ℕ) (key : Text) (gids : List ℕ) (c : IdCache) (e : Resolved)
    → is_member g e.supplemental_gids ≡ true
    → is_member g (persist_groups key gids c (some e)).gids ≡ true
unfolding persist_groups
persist_groups-keeps g key gids c e known =
    let old = without e.gid gids in
    let supps = push_new old e.supplemental_gids in
    let there = is_member-push_new g gids supps in
    let through = is_member-push_new g old e.supplemental_gids in
    elim (Bool-cases (same_gids e.supplemental_gids supps)) [
      | inl y ↦ rw y (found (is_member g gids) (is_member g old) there through known)
      | inr n ↦ rw n (found (is_member g gids) (is_member g old) there through known)
    ]
  where
    found : {m s k : Bool} (a b : Bool) → m ≡ (a || s) → s ≡ (b || k) → k ≡ true → m ≡ true
    found a b h h' h'' = ground arith

groups_of_outcome-keeps :
    (g : ℕ) (x : Lookups) (p : Text) (force : Bool) (o : Outcome) (e : Resolved)
    → is_unresolved_fail_closed o.answer ≡ false
    → get_row (normalize_principal o.answer.principal) o.cache ≡ some e
    → is_member g e.supplemental_gids ≡ true
    → is_member g (groups_of_outcome x p force o).gids ≡ true
unfolding groups_of_outcome grouped
groups_of_outcome-keeps g x p force o e shown row known =
    rw (shown, row) (persist_groups-keeps g _ _ o.cache e known)

-- The supplemental groups of a row that may be missing.
abbrev pub known_groups : Option Resolved → List ℕ
known_groups none = []
known_groups (some e) = e.supplemental_gids

in_front : (x : ℕ) (xs : List ℕ) → is_member x (x ∷ xs) ≡ true
in_front x xs = ground arith

behind : (g x : ℕ) (xs : List ℕ) → is_member g xs ≡ true → is_member g (x ∷ xs) ≡ true
behind g x xs h = ground (arith, h)

All-is_member : {P : ℕ → Type 0} (gs : List ℕ) → ((g : ℕ) → is_member g gs ≡ true → P g) → All P gs
All-is_member [] f = tt
All-is_member (x ∷ xs) f = (f x (in_front x xs), All-is_member xs (λ g h. f g (behind g x xs h)))

all_known :
    (x : Lookups) (p : Text) (force : Bool) (o : Outcome) (row : Option Resolved)
    → is_unresolved_fail_closed o.answer ≡ false
    → get_row (normalize_principal o.answer.principal) o.cache ≡ row
    → All (λ g. is_member g (groups_of_outcome x p force o).gids ≡ true) (known_groups row)
all_known x p force o none shown found = tt
all_known x p force o (some e) shown found =
    All-is_member e.supplemental_gids (λ g. groups_of_outcome-keeps g x p force o e shown found)

-- Every GROUPS answer that is not for root and not refused, be the principal in the cache or not,
-- starts with the primary group (0 for a machine), has no group twice, and has every supplemental
-- group of the row, if there is one, that the cache holds for the principal once it is resolved, so
-- that a lookup that misses some loses none.
pub resolve_gids_and_materialize-keeps :
    (x : Lookups) (principal realm : Text) (server_variants : List Text) (c : IdCache)
    (force : Bool)
    → let o = resolve_principal x principal realm server_variants c in
      asks_root (trim principal) ≡ false
      → is_unresolved_fail_closed o.answer ≡ false
      → let out = resolve_gids_and_materialize x principal realm server_variants c force in
        StartsWith (primary_of o.answer) out.gids
        × IsUnique out.gids
        × All
            (λ g. is_member g out.gids ≡ true)
            (known_groups (get_row (normalize_principal o.answer.principal) o.cache))
unfolding resolve_gids_and_materialize
resolve_gids_and_materialize-keeps x principal realm server_variants c force other shown =
    let o = resolve_principal x principal realm server_variants c in
    let list = groups_of_outcome-IsGroupList x principal force o shown in
    rw other (
      list.0,
      list.1,
      all_known x principal force o (get_row (normalize_principal o.answer.principal) o.cache) shown
          refl,
    )
