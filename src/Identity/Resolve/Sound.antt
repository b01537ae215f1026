-- ===== src/Identity/Resolve/Sound.antt =====
-- What every row of the identity cache satisfies, in nfs-klldap-config/src/bin/idhelper/common.rs and
-- resolve.rs.
use nfs_klldap_host.Identity.Cache.{
  unknown, is_machine, is_user, Resolved, IdCache, insert_row, prune_malformed_principals,
  prune_numeric_user_entries, set_supplemental, get_row,
}
use nfs_klldap_host.Identity.Principal.{
  normalize_principal, principal_has_realm, is_numeric_local_principal, principal_local_part,
  classify_principal, canonicalize_principal,
}
use nfs_klldap_host.Identity.Resolve.{
  is_unresolved_fail_closed, store_groups, remember, kept_after, settle, resolve_user_principal,
  resolve_miss, resolve_cached, resolve_principal, write_through, row, unresolved_uid,
  fail_closed_source,
}
use nfs_klldap_host.Identity.Lookup.{Act, Ldap, Lookups, Found, resolve_via_nss}
use nfs_klldap_host.Prelude.{
  ℕ, ◌≡◌, ◌||◌, Bool, true, false, not, Option, none, some, List, [], ◌∷◌, refl, Text, All, retain,
  Bool-cases, inl, inr, if◌then◌else◌, same_text, trim,
}

-- A row stands under its normalized name, which has a realm and, but for a machine, no numeric local
-- part; it is no fail-closed answer, it is a user's or a machine's, and a machine is root.
abbrev pub IsSoundRow : Text × Resolved → Type 0
IsSoundRow (k, r) =
    (k ≡ normalize_principal r.principal)
    × (principal_has_realm r.principal ≡ true)
    × ((is_machine r.kind || not (is_numeric_local_principal r.principal)) ≡ true)
    × (is_unresolved_fail_closed r ≡ false)
    × ((is_user r.kind || is_machine r.kind) ≡ true)
    × (is_machine r.kind ≡ true → (r.uid ≡ 0) × (r.gid ≡ 0))

abbrev pub IsSound : IdCache → Type 0
IsSound c = All IsSoundRow c

pub All-retain {ℓ} :
    {A : Type ℓ} (P : A → Type 0) (p : A → Bool) (xs : List A) → All P xs → All P (retain p xs)
All-retain P p [] h = tt
All-retain P p (x ∷ xs) (this, h) = elim (Bool-cases (p x)) [
  | inl y ↦ rw y (this, All-retain P p xs h)
  | inr n ↦ rw n (All-retain P p xs h)
]

insert_row-IsSound :
    (r : Resolved) (c : IdCache)
    → IsSoundRow (normalize_principal r.principal, r)
    → IsSound c
    → IsSound (insert_row r c)
unfolding insert_row
insert_row-IsSound r c this h = (this, All-retain IsSoundRow _ c h)

pub set_supplemental-IsSound :
    (key : Text) (gids : Resolved → List ℕ) (c : IdCache)
    → IsSound c
    → IsSound (set_supplemental key gids c)
unfolding set_supplemental is_unresolved_fail_closed
set_supplemental-IsSound key gids [] h = tt
set_supplemental-IsSound key gids ((k, r) ∷ c) (this, h) = elim (Bool-cases (same_text k key)) [
  | inl y ↦ rw y (this, h)
  | inr n ↦ rw n (this, set_supplemental-IsSound key gids c h)
]

-- What keeps a row that is inserted sound.
abbrev IsSoundAnswer : Resolved → Type 0
IsSoundAnswer r =
    is_unresolved_fail_closed r ≡ false
    → principal_has_realm r.principal ≡ true
    → IsSoundRow (normalize_principal r.principal, r)

inserted-IsSound :
    (r : Resolved) (c : IdCache)
    → (principal_has_realm r.principal ≡ true → IsSoundRow (normalize_principal r.principal, r))
    → IsSound c
    → IsSound (if principal_has_realm r.principal then insert_row r c else c)
inserted-IsSound r c this h = elim (Bool-cases (principal_has_realm r.principal)) [
  | inl y ↦ rw y (insert_row-IsSound r c (this y) h)
  | inr n ↦ rw n h
]

kept_after-IsSound :
    (r : Resolved) (c : IdCache)
    → (principal_has_realm r.principal ≡ true → IsSoundRow (normalize_principal r.principal, r))
    → IsSound c
    → IsSound (kept_after r c)
unfolding kept_after prune_numeric_user_entries prune_malformed_principals
kept_after-IsSound r c this h =
    All-retain IsSoundRow _ _ (All-retain IsSoundRow _ _ (inserted-IsSound r c this h))

write_through-IsSound :
    (key : Text) (gids : Resolved → List ℕ) (c : IdCache) (o : Option Resolved)
    → IsSound c
    → IsSound (write_through key gids c o).0
write_through-IsSound key gids c none h = h
write_through-IsSound key gids c (some e) h = set_supplemental-IsSound key gids c h

store_groups-IsSound :
    (r : Resolved) (gids : Resolved → List ℕ) (c : IdCache)
    → IsSound c
    → IsSound (store_groups r gids c).0
unfolding store_groups
store_groups-IsSound r gids c h = write_through-IsSound _ gids c (get_row _ c) h

remember-IsSound :
    (ldap : Option Ldap) (r : Resolved) (changed : Bool) (c : IdCache)
    → IsSound c
    → IsSound (remember ldap r changed c).0
unfolding remember
remember-IsSound ldap r changed c h = elim (Bool-cases (principal_has_realm r.principal)) [
  | inr n ↦ rw n h
  | inl y ↦ elim (Bool-cases (is_user r.kind)) [
    | inl u ↦ rw (y, u) (store_groups-IsSound r _ c h)
    | inr nu ↦ elim (Bool-cases (is_machine r.kind)) [
      | inl m ↦ rw (y, nu, m) (store_groups-IsSound r _ c h)
      | inr nm ↦ rw (y, nu, nm) h
    ]
  ]
]

settle-IsSound :
    (ldap : Option Ldap) (r : Resolved) (acts : List Act) (c : IdCache)
    → IsSoundAnswer r
    → IsSound c
    → IsSound (settle ldap r acts c).cache
unfolding settle
settle-IsSound ldap r acts c this h = elim (Bool-cases (is_unresolved_fail_closed r)) [
  | inl closed ↦ rw closed h
  | inr n ↦ rw n (remember-IsSound ldap r _ _ (kept_after-IsSound r c (this n) h))
]

closed_row :
    (p : Text)
    → is_unresolved_fail_closed
        (row p (principal_local_part p) unresolved_uid unresolved_uid unknown fail_closed_source)
      ≡ true
unfolding is_unresolved_fail_closed
closed_row p = refl

resolve_user_principal-IsSound :
    (ldap : Option Ldap) (p : Text) (found : Found) (acts : List Act) (c : IdCache)
    → is_numeric_local_principal p ≡ false
    → IsSound c
    → IsSound (resolve_user_principal ldap p (found, acts) c).cache
unfolding resolve_user_principal
resolve_user_principal-IsSound ldap p (some (uid, gid, source)) acts c proper h =
    settle-IsSound ldap _ _ c
      (λ shown realm. (refl, realm, rw proper refl, shown, refl, λ is. absurd (cc is))) h
resolve_user_principal-IsSound ldap p none acts c proper h =
    elim (Bool-cases (principal_has_realm p)) [
      | inl y ↦
          rw y (settle-IsSound ldap _ acts c (λ shown realm. absurd (cc (closed_row p, shown))) h)
      | inr n ↦ rw n (settle-IsSound ldap _ acts c (λ shown realm. absurd (cc (n, realm))) h)
    ]

resolve_miss-IsSound :
    (x : Lookups) (p realm : Text) (variants : List Text) (c : IdCache)
    → is_numeric_local_principal p ≡ false
    → IsSound c
    → IsSound (resolve_miss x p realm variants c).cache
unfolding resolve_miss
resolve_miss-IsSound x p realm variants c proper h =
    elim (Bool-cases (classify_principal p realm variants).0) [
      | inl m ↦ rw m (
          settle-IsSound x.ldap _ [] c
            (λ shown has. (refl, has, refl, shown, refl, λ is. (refl, refl))) h)
      | inr u ↦ rw u (
          resolve_user_principal-IsSound x.ldap p (resolve_via_nss x p).0 (resolve_via_nss x p).1 c
            proper h)
    ]

resolve_cached-IsSound :
    (x : Lookups) (p realm : Text) (variants : List Text) (c : IdCache) (o : Option Resolved)
    → is_numeric_local_principal p ≡ false
    → IsSound c
    → IsSound (resolve_cached x p realm variants c o).cache
unfolding resolve_cached
resolve_cached-IsSound x p realm variants c none proper h =
    resolve_miss-IsSound x p realm variants c proper h
resolve_cached-IsSound x p realm variants c (some e) proper h =
    elim (Bool-cases (is_numeric_local_principal e.principal)) [
      | inl numeric ↦
          rw numeric
            (resolve_miss-IsSound x p realm variants _ proper (All-retain IsSoundRow _ c h))
      | inr fine ↦ rw fine h
    ]

-- Resolving any principal keeps every cached row sound: filed under its own normalized name, with a
-- realm, never a fail-closed answer or of unknown kind, numeric only for a machine, and a machine's
-- row is uid and gid 0.
pub resolve_principal-IsSound :
    (x : Lookups) (principal realm : Text) (server_variants : List Text) (c : IdCache)
    → IsSound c
    → IsSound (resolve_principal x principal realm server_variants c).cache
unfolding resolve_principal
resolve_principal-IsSound x principal realm server_variants c h =
    let p = canonicalize_principal (trim principal) realm in
    elim (Bool-cases (is_numeric_local_principal p)) [
      | inl numeric ↦ rw numeric h
      | inr proper ↦ rw proper (
          resolve_cached-IsSound x p realm server_variants c (get_row (normalize_principal p) c)
            proper h)
    ]
