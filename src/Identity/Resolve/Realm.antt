-- ===== src/Identity/Resolve/Realm.antt =====
-- A principal with a realm is looked up under its own name only, in
-- nfs-klldap-config/src/bin/idhelper/resolve.rs.
use nfs_klldap_host.Identity.Cache.{user, machine, unknown, Resolved, IdCache, get_row}
use nfs_klldap_host.Identity.Lookup.{
  Act, View, Ldap, Lookups, Found, resolve_getent, resolve_identity_candidates,
  test_force_ldap_uid_gid, uid_gid_from_user_resolve, uid_gid_from_snapshot, ldap_snapshot_pair,
  try_resolve, after_reload_try, try_again, resolve_via_structured_ldap, resolve_via_nss,
}
use nfs_klldap_host.Identity.Principal.{
  normalize_principal, principal_has_realm, is_numeric_local_principal, principal_local_part,
  classify_principal, canonicalize_principal, machine_short_name,
}
use nfs_klldap_host.Identity.Resolve.{
  is_unresolved_fail_closed, settle, resolve_user_principal, resolve_miss, resolve_cached,
  resolve_principal, row, unresolved_uid, fail_closed_source, nobody_uid, direct_source,
  special_source,
}
use nfs_klldap_host.Prelude.{
  ℕ, ◌≡◌, true, Option, none, some, List, [], refl, sym, ap, ◌∙◌, Text, trim, Bool-cases, inl, inr,
  if◌then◌else◌,
}

-- The same answers for one name, whatever they are for every other.
abbrev pub AgreeView : Text → View → View → Type 0
AgreeView name v w = (v.users name ≡ w.users name) × (v.resolve_user name ≡ w.resolve_user name)

abbrev pub AgreeLdap : Text → Option Ldap → Option Ldap → Type 0
AgreeLdap name none none = Unit
AgreeLdap name (some d) (some e) =
    AgreeView name d.at_first e.at_first × AgreeView name d.reloaded e.reloaded
AgreeLdap name _ _ = ⊥

abbrev pub Agree : Text → Lookups → Lookups → Type 0
Agree name x y =
    (resolve_getent x name ≡ resolve_getent y name)
    × (x.forced ≡ y.forced)
    × AgreeLdap name x.ldap y.ldap

-- Behind a realm the candidates for a short name are not read.
try_resolve-Agree :
    (v w : View) (name : Text)
    → principal_has_realm name ≡ true
    → AgreeView name v w
    → try_resolve v name ≡ try_resolve w name
unfolding try_resolve resolve_identity_candidates ldap_snapshot_pair uid_gid_from_snapshot
    uid_gid_from_user_resolve
try_resolve-Agree v w name realm (users, live) = rw (realm, users, live) refl

-- `try_again`, by the result of its second attempt.
or_reload : Option (ℕ × ℕ) → Option (ℕ × ℕ) → Option (ℕ × ℕ) × List Act
or_reload later (some ids) = (some ids, [])
or_reload later none = after_reload_try later

resolve_via_structured_ldap-Agree :
    (d e : Option Ldap) (name : Text)
    → principal_has_realm name ≡ true
    → AgreeLdap name d e
    → resolve_via_structured_ldap d name ≡ resolve_via_structured_ldap e name
unfolding resolve_via_structured_ldap or_reload
resolve_via_structured_ldap-Agree none none name realm h = refl
resolve_via_structured_ldap-Agree none (some e) name realm h = absurd h
resolve_via_structured_ldap-Agree (some d) none name realm h = absurd h
resolve_via_structured_ldap-Agree (some d) (some e) name realm (first, later) =
    ap (try_again d.reloaded name) (try_resolve-Agree d.at_first e.at_first name realm first)
    ∙ ap (λ z. or_reload z (try_resolve e.at_first name))
        (try_resolve-Agree d.reloaded e.reloaded name realm later)

resolve_via_nss-Agree :
    (x y : Lookups) (p : Text)
    → principal_has_realm (trim p) ≡ true
    → Agree (trim p) x y
    → resolve_via_nss x p ≡ resolve_via_nss y p
unfolding resolve_via_nss test_force_ldap_uid_gid
resolve_via_nss-Agree x y p realm (nss, forced, ldap) =
    rw (realm, nss, forced, resolve_via_structured_ldap-Agree x.ldap y.ldap (trim p) realm ldap)
      refl

settle-answer :
    (ldap : Option Ldap) (r : Resolved) (acts : List Act) (c : IdCache)
    → (settle ldap r acts c).answer ≡ r
unfolding settle
settle-answer ldap r acts c = elim (Bool-cases (is_unresolved_fail_closed r)) [
  | inl closed ↦ rw closed refl
  | inr n ↦ rw n refl
]

-- The answer for a user, without the effects.
user_answer : Text → Found → Resolved
user_answer p (some (uid, gid, source)) = row p (principal_local_part p) uid gid user source
user_answer p none =
    if principal_has_realm p
    then row p (principal_local_part p) unresolved_uid unresolved_uid unknown fail_closed_source
    else row p (principal_local_part p) nobody_uid nobody_uid unknown direct_source

resolve_user_principal-answer :
    (ldap : Option Ldap) (p : Text) (found : Found) (acts : List Act) (c : IdCache)
    → (resolve_user_principal ldap p (found, acts) c).answer ≡ user_answer p found
unfolding resolve_user_principal user_answer
resolve_user_principal-answer ldap p (some (uid, gid, source)) acts c = settle-answer ldap _ _ c
resolve_user_principal-answer ldap p none acts c = elim (Bool-cases (principal_has_realm p)) [
  | inl y ↦ rw y (settle-answer ldap _ acts c)
  | inr n ↦ rw n (settle-answer ldap _ acts c)
]

resolve_miss-Agree :
    (x y : Lookups) (p realm : Text) (variants : List Text) (c : IdCache)
    → principal_has_realm (trim p) ≡ true
    → Agree (trim p) x y
    → (resolve_miss x p realm variants c).answer ≡ (resolve_miss y p realm variants c).answer
unfolding resolve_miss
resolve_miss-Agree x y p realm variants c has agree =
    elim (Bool-cases (classify_principal p realm variants).0) [
      | inl m ↦ rw m (
          settle-answer x.ldap (row p (machine_short_name p) 0 0 machine special_source) [] c
          ∙ sym
              (settle-answer y.ldap (row p (machine_short_name p) 0 0 machine special_source) [] c))
      | inr u ↦ rw u (
          resolve_user_principal-answer x.ldap p _ _ c
          ∙ ap (λ z. user_answer p z.0) (resolve_via_nss-Agree x y p has agree)
          ∙ sym (resolve_user_principal-answer y.ldap p _ _ c))
    ]

resolve_cached-Agree :
    (x y : Lookups) (p realm : Text) (variants : List Text) (c : IdCache) (o : Option Resolved)
    → principal_has_realm (trim p) ≡ true
    → Agree (trim p) x y
    → (resolve_cached x p realm variants c o).answer
      ≡ (resolve_cached y p realm variants c o).answer
unfolding resolve_cached
resolve_cached-Agree x y p realm variants c none has agree =
    resolve_miss-Agree x y p realm variants c has agree
resolve_cached-Agree x y p realm variants c (some e) has agree =
    elim (Bool-cases (is_numeric_local_principal e.principal)) [
      | inl numeric ↦ rw numeric (resolve_miss-Agree x y p realm variants _ has agree)
      | inr fine ↦ rw fine refl
    ]

-- A principal that has a realm once it is canonical is answered by its own name: lookups that agree
-- on that name give the same answer, whatever they say about its short name or about anyone else.
pub resolve_principal-Agree :
    (x y : Lookups) (principal realm : Text) (server_variants : List Text) (c : IdCache)
    → let p = canonicalize_principal (trim principal) realm in
      principal_has_realm (trim p) ≡ true
      → Agree (trim p) x y
      → (resolve_principal x principal realm server_variants c).answer
        ≡ (resolve_principal y principal realm server_variants c).answer
unfolding resolve_principal
resolve_principal-Agree x y principal realm server_variants c has agree =
    let p = canonicalize_principal (trim principal) realm in
    elim (Bool-cases (is_numeric_local_principal p)) [
      | inl numeric ↦ rw numeric refl
      | inr proper ↦ rw proper (
          resolve_cached-Agree x y p realm server_variants c (get_row (normalize_principal p) c) has
            agree)
    ]
