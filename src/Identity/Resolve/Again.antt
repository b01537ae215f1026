-- ===== src/Identity/Resolve/Again.antt =====
-- Resolving twice, in nfs-klldap-config/src/bin/idhelper/resolve.rs.
use nfs_klldap_host.Identity.Cache.{
  is_user, is_machine, Resolved, IdCache, get_row, insert_row, prune_malformed_principals,
  prune_numeric_user_entries, set_supplemental,
}
use nfs_klldap_host.Identity.Lookup.{Act, Ldap, Lookups, Found, resolve_via_nss}
use nfs_klldap_host.Identity.Principal.{
  normalize_principal, principal_has_realm, is_numeric_local_principal, classify_principal,
  canonicalize_principal,
}
use nfs_klldap_host.Identity.Resolve.{
  Outcome, is_unresolved_fail_closed, store_groups, remember, kept_after, settle,
  resolve_user_principal, resolve_miss, resolve_cached, resolve_principal, write_through,
}
use nfs_klldap_host.Prelude.{
  ℕ, ◌≡◌, Bool, true, false, Option, none, some, List, [], ◌∷◌, refl, sym, ap, ◌∙◌, subst, Text,
  trim, Bool-cases, inl, inr, same_text_refl,
}

-- All but the source and the supplemental groups.
abbrev pub SameIdentity : Resolved → Resolved → Type 0
SameIdentity r e =
    (e.principal ≡ r.principal)
    × (e.name ≡ r.name)
    × (e.uid ≡ r.uid)
    × (e.gid ≡ r.gid)
    × (e.kind ≡ r.kind)

-- The first row of a cache is one for `r`.
abbrev Leads : Resolved → IdCache → Type 0
Leads r c =
    (e : Resolved) × (rest : IdCache) × (c ≡ (normalize_principal r.principal, e) ∷ rest)
    × SameIdentity r e

kept_after-Leads :
    (r : Resolved) (c : IdCache)
    → principal_has_realm r.principal ≡ true
    → is_numeric_local_principal r.principal ≡ false
    → Leads r (kept_after r c)
unfolding kept_after prune_numeric_user_entries prune_malformed_principals insert_row
kept_after-Leads r c realm proper = elim (Bool-cases (is_machine r.kind)) [
  | inl m ↦ rw (realm, realm, m) (r, _, refl, (refl, refl, refl, refl, refl))
  | inr n ↦ rw (realm, realm, n, proper) (r, _, refl, (refl, refl, refl, refl, refl))
]

set_supplemental-Leads :
    (r : Resolved) (gids : Resolved → List ℕ) (c : IdCache)
    → Leads r c
    → Leads r (set_supplemental (normalize_principal r.principal) gids c)
unfolding set_supplemental
set_supplemental-Leads r gids c (e, rest, same, alike) =
    subst (λ z. Leads r (set_supplemental (normalize_principal r.principal) gids z)) (sym same)
      (rw (same_text_refl (normalize_principal r.principal))
        (record e { supplemental_gids = gids e }, rest, refl, alike))

write_through-Leads :
    (r : Resolved) (gids : Resolved → List ℕ) (c : IdCache) (o : Option Resolved)
    → Leads r c
    → Leads r (write_through (normalize_principal r.principal) gids c o).0
write_through-Leads r gids c none h = h
write_through-Leads r gids c (some e) h = set_supplemental-Leads r gids c h

store_groups-Leads :
    (r : Resolved) (gids : Resolved → List ℕ) (c : IdCache)
    → Leads r c
    → Leads r (store_groups r gids c).0
unfolding store_groups
store_groups-Leads r gids c h = write_through-Leads r gids c (get_row _ c) h

remember-Leads :
    (ldap : Option Ldap) (r : Resolved) (changed : Bool) (c : IdCache)
    → Leads r c
    → Leads r (remember ldap r changed c).0
unfolding remember
remember-Leads ldap r changed c h = elim (Bool-cases (principal_has_realm r.principal)) [
  | inr n ↦ rw n h
  | inl y ↦ elim (Bool-cases (is_user r.kind)) [
    | inl u ↦ rw (y, u) (store_groups-Leads r _ c h)
    | inr nu ↦ elim (Bool-cases (is_machine r.kind)) [
      | inl m ↦ rw (y, nu, m) (store_groups-Leads r _ c h)
      | inr nm ↦ rw (y, nu, nm) h
    ]
  ]
]

-- The row that a name has in a cache answers for `r`.
abbrev Answers : Resolved → Text → IdCache → Type 0
Answers r p c =
    (e : Resolved) × (get_row (normalize_principal p) c ≡ some e)
    × (is_numeric_local_principal e.principal ≡ false)
    × SameIdentity r e

Leads-Answers :
    (r : Resolved) (c : IdCache)
    → is_numeric_local_principal r.principal ≡ false
    → Leads r c
    → Answers r r.principal c
Leads-Answers r c proper (e, rest, same, alike) = (
  e,
  subst (λ z. get_row (normalize_principal r.principal) z ≡ some e) (sym same)
      (rw (same_text_refl (normalize_principal r.principal)) refl),
  ap is_numeric_local_principal alike.0 ∙ proper,
  alike,
)

-- An answer with a realm that is not fail-closed is in the cache afterwards.
abbrev IsStored : Text → Outcome → Type 0
IsStored p o =
    principal_has_realm o.answer.principal ≡ true
    → is_unresolved_fail_closed o.answer ≡ false
    → Answers o.answer p o.cache

settle-IsStored :
    (ldap : Option Ldap) (r : Resolved) (acts : List Act) (c : IdCache)
    → is_numeric_local_principal r.principal ≡ false
    → IsStored r.principal (settle ldap r acts c)
unfolding settle
settle-IsStored ldap r acts c proper = elim (Bool-cases (is_unresolved_fail_closed r)) [
  | inl closed ↦ rw closed (λ realm shown. absurd (cc (closed, shown)))
  | inr n ↦ rw n (λ realm shown.
      Leads-Answers r _ proper (remember-Leads ldap r _ _ (kept_after-Leads r c realm proper)))
]

resolve_user_principal-IsStored :
    (ldap : Option Ldap) (p : Text) (found : Found) (acts : List Act) (c : IdCache)
    → is_numeric_local_principal p ≡ false
    → IsStored p (resolve_user_principal ldap p (found, acts) c)
unfolding resolve_user_principal
resolve_user_principal-IsStored ldap p (some (uid, gid, source)) acts c proper =
    settle-IsStored ldap _ _ c proper
resolve_user_principal-IsStored ldap p none acts c proper =
    elim (Bool-cases (principal_has_realm p)) [
      | inl y ↦ rw y (settle-IsStored ldap _ acts c proper)
      | inr n ↦ rw n (settle-IsStored ldap _ acts c proper)
    ]

resolve_miss-IsStored :
    (x : Lookups) (p realm : Text) (variants : List Text) (c : IdCache)
    → is_numeric_local_principal p ≡ false
    → IsStored p (resolve_miss x p realm variants c)
unfolding resolve_miss
resolve_miss-IsStored x p realm variants c proper =
    elim (Bool-cases (classify_principal p realm variants).0) [
      | inl m ↦ rw m (settle-IsStored x.ldap _ [] c proper)
      | inr u ↦ rw u (
          resolve_user_principal-IsStored x.ldap p (resolve_via_nss x p).0 (resolve_via_nss x p).1 c
            proper)
    ]

-- A second resolution with the same answer, from the cache alone.
abbrev pub IsSettled : Outcome → Outcome → Type 0
IsSettled o again = SameIdentity o.answer again.answer × (again.cache ≡ o.cache) × (again.acts ≡ [])

resolve_cached-IsStored :
    (x : Lookups) (p realm : Text) (variants : List Text) (c : IdCache) (o : Option Resolved)
    → is_numeric_local_principal p ≡ false
    → get_row (normalize_principal p) c ≡ o
    → IsStored p (resolve_cached x p realm variants c o)
unfolding resolve_cached
resolve_cached-IsStored x p realm variants c none proper found =
    resolve_miss-IsStored x p realm variants c proper
resolve_cached-IsStored x p realm variants c (some e) proper found =
    elim (Bool-cases (is_numeric_local_principal e.principal)) [
      | inl numeric ↦ rw numeric (resolve_miss-IsStored x p realm variants _ proper)
      | inr fine ↦ rw fine (λ has shown. (e, found, fine, (refl, refl, refl, refl, refl)))
    ]

from_row :
    (y : Lookups) (p realm : Text) (variants : List Text) (o : Outcome)
    → Answers o.answer p o.cache
    → IsSettled o
        (resolve_cached y p realm variants o.cache (get_row (normalize_principal p) o.cache))
unfolding resolve_cached
from_row y p realm variants o (e, found, fine, alike) = rw (found, fine) (alike, refl, refl)

-- Once a principal is answered with a realm and not fail-closed, resolving it again, whatever the
-- lookups say by then, gives the same identity from the cache, changes nothing and makes no call.
pub resolve_principal-again :
    (x y : Lookups) (principal realm : Text) (server_variants : List Text) (c : IdCache)
    → let o = resolve_principal x principal realm server_variants c in
      principal_has_realm o.answer.principal ≡ true
      → is_unresolved_fail_closed o.answer ≡ false
      → IsSettled o (resolve_principal y principal realm server_variants o.cache)
unfolding resolve_principal
resolve_principal-again x y principal realm server_variants c =
    let p = canonicalize_principal (trim principal) realm in
    elim (Bool-cases (is_numeric_local_principal p)) [
      | inl numeric ↦ rw numeric (λ has shown. ((refl, refl, refl, refl, refl), refl, refl))
      | inr proper ↦ rw proper (λ has shown.
          from_row y p realm server_variants
            (resolve_cached x p realm server_variants c (get_row (normalize_principal p) c))
            (resolve_cached-IsStored x p realm server_variants c _ proper refl has shown))
    ]
