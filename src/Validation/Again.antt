-- ===== src/Validation/Again.antt =====
-- Validation of nfs-klldap-config/src/validate.rs on what it has accepted.
use nfs_klldap_host.Identity.Members.{has_text}
use nfs_klldap_host.Prelude.{
  ◌≡◌, refl, sym, ap, subst, ◌∙◌, true, false, Option, none, some, List, [], ◌∷◌, if◌then◌else◌,
  Text, trim, trim_end, trim-trim, trim_end-trim, is_empty, starts_with, All, Bool-cases, inl, inr,
}
use nfs_klldap_host.SharePaths.{trim_slashes}
use nfs_klldap_host.Validation.{
  ShareConfig, passed, normalize_pseudo, under_slash, check_settings, check_all_settings,
  check_paths, check_all_paths, check_unique, check_policies, validate_shares,
}
use nfs_klldap_host.Validation.Accepted.{
  Placed, staged_with, name_of, check_all_settings-Named, check_all_paths-Placed,
}
use nfs_klldap_host.Validation.Checks.{
  >>=-passed, passed_inj, Fields, normal, check_settings_of, Paths, check_paths_of,
}
use nfs_klldap_host.Validation.Lists.{Fresh}

trim-slash : (s : Text) → trim_end s ≡ s → trim (47 ∷ s) ≡ 47 ∷ s
trim-slash s h = ap (λ z. 47 ∷ z) h

settled :
    (name p : Text)
    → trim p ≡ p
    → starts_with (47 ∷ []) p ≡ true
    → normalize_pseudo name (some p) ≡ p
settled name [] h k = absurd (cc k)
settled name (c ∷ p) h k =
    subst (λ z. (if is_empty z then 47 ∷ name else under_slash z) ≡ c ∷ p) (sym h) (rw k refl)

normalize_pseudo-settles :
    (name : Text) (o : Option Text)
    → trim name ≡ name
    → normalize_pseudo name (some (normalize_pseudo name o)) ≡ normalize_pseudo name o
normalize_pseudo-settles name o h = settled name _ (trimmed o) (slash o)
  where
    tight : trim_end name ≡ name
    tight = ap trim_end (sym h) ∙ trim_end-trim name ∙ h

    slash_under : (t : Text) → starts_with (47 ∷ []) (under_slash t) ≡ true
    slash_under t = elim (Bool-cases (starts_with (47 ∷ []) t)) [
      | inl y ↦ rw y y
      | inr n ↦ rw n refl
    ]

    trimmed_under : (v : Text) → trim (under_slash (trim v)) ≡ under_slash (trim v)
    trimmed_under v = elim (Bool-cases (starts_with (47 ∷ []) (trim v))) [
      | inl y ↦ rw y (trim-trim v)
      | inr n ↦ rw n (trim-slash (trim v) (trim_end-trim v))
    ]

    slash : (o : Option Text) → starts_with (47 ∷ []) (normalize_pseudo name o) ≡ true
    slash none = refl
    slash (some v) = elim (Bool-cases (is_empty (trim v))) [
      | inl y ↦ rw y refl
      | inr n ↦ rw n (slash_under (trim v))
    ]

    trimmed : (o : Option Text) → trim (normalize_pseudo name o) ≡ normalize_pseudo name o
    trimmed none = trim-slash name tight
    trimmed (some v) = elim (Bool-cases (is_empty (trim v))) [
      | inl y ↦ rw y (trim-slash name tight)
      | inr n ↦ rw n (trimmed_under v)
    ]

module _ (seen seen' : List Text) (root : Text) (s : ShareConfig) (source : Option Text) where
  abbrev left : ShareConfig
  left = staged_with source (normal s)

  normal-left : trim s.name ≡ s.name → normal left ≡ left
  normal-left h =
      ap
        (λ z. record left {
          container_path = z;
          pseudo_path = some (normalize_pseudo s.name left.pseudo_path);
        })
        (trim-trim s.container_path)
      ∙ ap (λ z. record left { pseudo_path = some z })
          (normalize_pseudo-settles s.name s.pseudo_path h)

  check_settings-left :
      Fields seen' s
      → has_text s.name seen ≡ false
      → trim s.name ≡ s.name
      → check_settings seen left ≡ passed left
  check_settings-left f new h =
      check_settings_of seen left (record {
        named = f.named;
        fresh = new;
        hosted = f.hosted;
        security = f.security;
        squash = f.squash;
        pref_read = f.pref_read;
        pref_write = f.pref_write;
        profile = f.profile;
        expiration = f.expiration;
      })
      ∙ ap passed (normal-left h)

  check_paths-left : Paths root (normal s) source → check_paths root left ≡ passed left
  check_paths-left p =
      check_paths_of root left
        (record { placed = p.placed; slash = p.slash; under = p.under; staged = p.staged })

abbrev pub TightName : ShareConfig → Type 0
TightName u = trim u.name ≡ u.name

check_all_settings_again :
    (root : Text) (seen : List Text) (us : List ShareConfig)
    → All (Placed root) us
    → Fresh name_of seen us
    → All TightName us
    → check_all_settings seen us ≡ passed us
unfolding check_all_settings
check_all_settings_again root seen [] p f h = refl
check_all_settings_again root seen (u ∷ us) ((seen', s, source, fields, paths, e), p) (new, f)
      (tight, h) =
    let again : check_settings seen u ≡ passed u =
      subst (λ z. check_settings seen z ≡ passed z) (sym e)
        (check_settings-left seen seen' root s source fields
          (subst (λ z. has_text (name_of z) seen ≡ false) e new) (subst TightName e tight)) in
    rw again (rw (check_all_settings_again root (u.name ∷ seen) us p f h) refl)

check_all_paths_again :
    (root : Text) (us : List ShareConfig)
    → All (Placed root) us
    → check_all_paths root us ≡ passed us
unfolding check_all_paths
check_all_paths_again root [] p = refl
check_all_paths_again root (u ∷ us) ((seen', s, source, fields, paths, e), p) =
    let again : check_paths root u ≡ passed u =
      subst (λ z. check_paths root z ≡ passed z) (sym e)
        (check_paths-left [] seen' root s source paths) in
    rw again (rw (check_all_paths_again root us p) refl)

-- The shares that a validation leaves, if their names have no space around them, pass a validation with
-- the same root and none of their fields is changed by it.
pub validate_shares_again :
    (root : Text) (ss us : List ShareConfig)
    → validate_shares root ss ≡ passed us
    → All TightName us
    → validate_shares root us ≡ passed us
unfolding validate_shares
validate_shares_again root ss us h tight =
    let (ts, named, h1) = >>=-passed (check_all_settings [] ss) _ h in
    let (vs, placed, h2) = >>=-passed (check_all_paths (trim_slashes root) ts) _ h1 in
    let (done, unique, h3) = >>=-passed (check_unique [] [] vs) _ h2 in
    let (done', policies, h4) = >>=-passed (check_policies vs) _ h3 in
    let (n, f) = check_all_settings-Named [] ss ts named in
    let (p, f') = check_all_paths-Placed (trim_slashes root) [] ts vs placed n f in
    subst (λ z. All TightName z → validate_shares root z ≡ passed z) (passed_inj vs us h4)
      (λ tight'.
        rw (check_all_settings_again (trim_slashes root) [] vs p f' tight')
          (rw (check_all_paths_again (trim_slashes root) vs p) (rw unique (rw policies refl))))
      tight
