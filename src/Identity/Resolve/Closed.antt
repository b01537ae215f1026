-- ===== src/Identity/Resolve/Closed.antt =====
-- Failing closed, in nfs-klldap-config/src/bin/idhelper/resolve.rs.
use nfs_klldap_host.Identity.Cache.{unknown, Resolved, IdCache, get_row}
use nfs_klldap_host.Identity.Grouplist.{
  unresolved_line, format_resolve_socket_line, asks_root, groups_of_outcome,
  resolve_gids_and_materialize,
}
use nfs_klldap_host.Identity.Lookup.{
  Act, load_full_identities, resolve_group_by_gid, View, Ldap, Lookups, Found, try_resolve,
  after_reload_try, try_again, resolve_via_structured_ldap, or_ldap, resolve_via_nss,
}
use nfs_klldap_host.Identity.Principal.{
  normalize_principal, principal_has_realm, is_numeric_local_principal, principal_local_part,
  classify_principal, canonicalize_principal,
}
use nfs_klldap_host.Identity.Resolve.{
  is_unresolved_fail_closed, settle, resolve_user_principal, resolve_miss, resolve_cached,
  resolve_principal, row, unresolved_uid, fail_closed_source,
}
use nfs_klldap_host.Prelude.{
  ◌≡◌, Bool, true, false, Option, none, some, List, [], refl, ap, ◌∙◌, Text, trim, ℕ, sym, subst,
  All,
}

abbrev pub closed_row : Text → Resolved
closed_row p =
    row p (principal_local_part p) unresolved_uid unresolved_uid unknown fail_closed_source

resolve_user_principal-none :
    (ldap : Option Ldap) (p : Text) (found : Found) (acts : List Act) (c : IdCache)
    → found ≡ none
    → principal_has_realm p ≡ true
    → resolve_user_principal ldap p (found, acts) c
      ≡ record { answer = closed_row p; cache = c; acts = acts }
unfolding resolve_user_principal settle is_unresolved_fail_closed
resolve_user_principal-none ldap p none acts c missed has = rw has refl
resolve_user_principal-none ldap p (some found) acts c missed has = absurd (cc missed)

resolve_closed :
    (x : Lookups) (principal realm : Text) (server_variants : List Text) (c : IdCache)
    → let p = canonicalize_principal (trim principal) realm in
      is_numeric_local_principal p ≡ false
      → principal_has_realm p ≡ true
      → (classify_principal p realm server_variants).0 ≡ false
      → get_row (normalize_principal p) c ≡ none
      → (resolve_via_nss x p).0 ≡ none
      → resolve_principal x principal realm server_variants c
        ≡ record { answer = closed_row p; cache = c; acts = (resolve_via_nss x p).1 }
unfolding resolve_principal resolve_cached resolve_miss
resolve_closed x principal realm server_variants c proper has client fresh missed =
    let p = canonicalize_principal (trim principal) realm in
    rw (proper, fresh, client) (resolve_user_principal-none x.ldap p _ _ c missed has)

closed_line : (p : Text) → format_resolve_socket_line (closed_row p) ≡ unresolved_line
unfolding format_resolve_socket_line is_unresolved_fail_closed
closed_line p = refl

closed_groups :
    (x : Lookups) (principal p : Text) (force : Bool) (c : IdCache) (acts : List Act)
    → groups_of_outcome x principal force (record { answer = closed_row p; cache = c; acts = acts })
      ≡ record { gids = []; cache = c; acts = acts }
unfolding groups_of_outcome is_unresolved_fail_closed
closed_groups x principal p force c acts = refl

-- A request to LDAP, which loads its snapshot or looks a group up; not the cache file, the passwd and
-- group stores, SSSD, or a membership.
abbrev pub OnlyReads : Act → Type 0
OnlyReads load_full_identities = Unit
OnlyReads (resolve_group_by_gid g) = Unit
OnlyReads _ = ⊥

after_reload_try-OnlyReads : (o : Option (ℕ × ℕ)) → All OnlyReads (after_reload_try o).1
after_reload_try-OnlyReads none = (tt, tt)
after_reload_try-OnlyReads (some (u, g)) = (tt, (tt, tt))

try_again-OnlyReads :
    (v : View) (name : Text) (o : Option (ℕ × ℕ)) → All OnlyReads (try_again v name o).1
try_again-OnlyReads v name none = after_reload_try-OnlyReads (try_resolve v name)
try_again-OnlyReads v name (some ids) = tt

structured-OnlyReads :
    (d : Option Ldap) (name : Text) → All OnlyReads (resolve_via_structured_ldap d name).1
unfolding resolve_via_structured_ldap
structured-OnlyReads none name = tt
structured-OnlyReads (some d) name =
    try_again-OnlyReads d.reloaded name (try_resolve d.at_first name)

or_ldap-OnlyReads :
    (found : Found) (later : Option (ℕ × ℕ) × List Act)
    → All OnlyReads later.1
    → All OnlyReads (or_ldap found later).1
or_ldap-OnlyReads none later h = h
or_ldap-OnlyReads (some found) later h = tt

resolve_via_nss-OnlyReads : (x : Lookups) (p : Text) → All OnlyReads (resolve_via_nss x p).1
unfolding resolve_via_nss
resolve_via_nss-OnlyReads x p = or_ldap-OnlyReads _ _ (structured-OnlyReads x.ldap (trim p))

-- A user principal with a realm for which no lookup has a uid, that is not numeric and not in the
-- cache, is answered with the sentinel uid and gid and leaves the cache as it is; every call outside
-- the cache is a request to LDAP, so that neither the cache file nor an NSS store is written; the
-- RESOLVE line is the error line; and a GROUPS request for it, not being one for root, gives no group,
-- leaves the cache as it is and makes no other calls either.
pub resolve_principal-closed :
    (x : Lookups) (principal realm : Text) (server_variants : List Text) (c : IdCache)
    (force : Bool)
    → let p = canonicalize_principal (trim principal) realm in
      is_numeric_local_principal p ≡ false
      → principal_has_realm p ≡ true
      → (classify_principal p realm server_variants).0 ≡ false
      → get_row (normalize_principal p) c ≡ none
      → (resolve_via_nss x p).0 ≡ none
      → asks_root (trim principal) ≡ false
      → let o = resolve_principal x principal realm server_variants c in
        let out = resolve_gids_and_materialize x principal realm server_variants c force in
        (o.answer ≡ closed_row p)
        × (o.cache ≡ c)
        × All OnlyReads o.acts
        × (format_resolve_socket_line o.answer ≡ unresolved_line)
        × (out.gids ≡ [])
        × (out.cache ≡ c)
        × All OnlyReads out.acts
unfolding resolve_gids_and_materialize
resolve_principal-closed x principal realm server_variants c force proper has client fresh missed
      other =
    let p = canonicalize_principal (trim principal) realm in
    let same = resolve_closed x principal realm server_variants c proper has client fresh missed in
    let none_asked =
      ap (groups_of_outcome x principal force) same ∙ closed_groups x principal p force c _ in
    let reads = resolve_via_nss-OnlyReads x p in
    (
      ap (λ o. o.answer) same,
      ap (λ o. o.cache) same,
      subst (λ o. All OnlyReads o.acts) (sym same) reads,
      ap (λ o. format_resolve_socket_line o.answer) same ∙ closed_line p,
      rw other (ap (λ g. g.gids) none_asked),
      rw other (ap (λ g. g.cache) none_asked),
      rw other (subst (λ g. All OnlyReads g.acts) (sym none_asked) reads),
    )
