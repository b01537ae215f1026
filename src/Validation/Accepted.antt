-- ===== src/Validation/Accepted.antt =====
-- The four loops of nfs-klldap-config/src/validate.rs together.
use nfs_klldap_host.Identity.Members.{has_text}
use nfs_klldap_host.Prelude.{
  ◌≡◌, ◌≢◌, sym, ap, subst, ◌∙◌, true, false, Option, some, List, [], ◌∷◌, map, Text, same_text,
  same_text_refl, trim, trim-trim, to_ascii_lowercase, All,
}
use nfs_klldap_host.SharePaths.{trim_slashes}
use nfs_klldap_host.Validation.{
  ShareConfig, passed, allowed_sectypes, allowed_squash, cache_profiles, read_access_policies,
  passes, is_policy, check_settings, check_all_settings, check_paths, check_all_paths,
  derive_share_pseudo, serve_path_for, check_unique, check_policies, validate_shares,
}
use nfs_klldap_host.Validation.Checks.{
  ensure-passed, >>=-passed, not-true, passed_inj, Fields, normal, check_settings-Fields, Paths,
  check_paths-Paths,
}
use nfs_klldap_host.Validation.Lists.{Apart, Fresh, Fresh-Apart, is_empty-ne}
use nfs_klldap_host.Validation.Valid.{
  IsShare, passes-Among, passes-IsPrefSize, passes-pos, starts-IsAbsolute,
  is_under_root-StartsUnder, Source-Meets, normalize_pseudo-IsAbsolute,
  derive_share_pseudo-absolute,
}

-- A share as the first loop leaves it, and as the second does.
abbrev pub Named : ShareConfig → Type 0
Named t = (seen : List Text) × (s : ShareConfig) × Fields seen s × (t ≡ normal s)

abbrev pub Placed : Text → ShareConfig → Type 0
Placed root u =
    (seen : List Text) × (s : ShareConfig) × (source : Option Text) × Fields seen s
    × Paths root (normal s) source
    × (u ≡ record (normal s) { source_path = source })

abbrev pub staged_with : Option Text → ShareConfig → ShareConfig
staged_with source s = record s { source_path = source }

abbrev pub pseudo_of : ShareConfig → Option Text
pseudo_of s = s.pseudo_path

abbrev pub name_of : ShareConfig → Text
name_of s = s.name

pub check_all_settings-Named :
    (seen : List Text) (ss ts : List ShareConfig)
    → check_all_settings seen ss ≡ passed ts
    → All Named ts × Fresh name_of seen ts
unfolding check_all_settings
check_all_settings-Named seen [] ts h = subst P (passed_inj [] ts h) (tt, tt)
  where
    P : List ShareConfig → Type 0
    P ts = All Named ts × Fresh name_of seen ts
check_all_settings-Named seen (s ∷ ss) ts h =
    let (t, one, h1) = >>=-passed (check_settings seen s) _ h in
    let (rest, more, h2) = >>=-passed (check_all_settings (s.name ∷ seen) ss) _ h1 in
    let (fields, e) = check_settings-Fields seen s t one in
    let (named, fresh) = check_all_settings-Named (s.name ∷ seen) ss rest more in
    subst (λ z. All Named z × Fresh name_of seen z) (passed_inj (t ∷ rest) ts h2)
      (
        ((seen, s, fields, e), named),
        subst (λ z. (has_text z seen ≡ false) × Fresh name_of (z ∷ seen) rest) (sym (ap name_of e))
            (fields.fresh, fresh),
      )

pub check_all_paths-Placed :
    (root : Text) (seen : List Text) (ts us : List ShareConfig)
    → check_all_paths root ts ≡ passed us
    → All Named ts
    → Fresh name_of seen ts
    → All (Placed root) us × Fresh name_of seen us
unfolding check_all_paths
check_all_paths-Placed root seen [] us h n f =
    subst (λ z. All (Placed root) z × Fresh name_of seen z) (passed_inj [] us h) (tt, tt)
check_all_paths-Placed root seen (t ∷ ts) us h ((seen', s, fields, e), n) (new, f) =
    let (u, one, h1) = >>=-passed (check_paths root t) _ h in
    let (rest, more, h2) = >>=-passed (check_all_paths root ts) _ h1 in
    let (source, paths, e') = check_paths-Paths root t u one in
    let (placed, fresh) = check_all_paths-Placed root (t.name ∷ seen) ts rest more n f in
    subst (λ z. All (Placed root) z × Fresh name_of seen z) (passed_inj (u ∷ rest) us h2)
      (
        (
          (
            seen',
            s,
            source,
            fields,
            subst (λ z. Paths root z source) e paths,
            e' ∙ ap (staged_with source) e,
          ),
          placed,
        ),
        subst (λ z. (has_text z seen ≡ false) × Fresh name_of (z ∷ seen) rest) (sym (ap name_of e'))
            (new, fresh),
      )

-- What no loop changes.
abbrev pub identity_of : ShareConfig → Text × Text
identity_of s = (s.name, s.host_path)

check_all_settings-kept :
    (seen : List Text) (ss ts : List ShareConfig)
    → check_all_settings seen ss ≡ passed ts
    → map identity_of ts ≡ map identity_of ss
unfolding check_all_settings
check_all_settings-kept seen [] ts h = ap (map identity_of) (sym (passed_inj [] ts h))
check_all_settings-kept seen (s ∷ ss) ts h =
    let (t, one, h1) = >>=-passed (check_settings seen s) _ h in
    let (rest, more, h2) = >>=-passed (check_all_settings (s.name ∷ seen) ss) _ h1 in
    let (fields, e) = check_settings-Fields seen s t one in
    ap (map identity_of) (sym (passed_inj (t ∷ rest) ts h2))
    ∙ ap (λ z. z ∷ map identity_of rest) (ap identity_of e)
    ∙ ap (λ z. identity_of s ∷ z) (check_all_settings-kept (s.name ∷ seen) ss rest more)

check_all_paths-kept :
    (root : Text) (ts us : List ShareConfig)
    → check_all_paths root ts ≡ passed us
    → map identity_of us ≡ map identity_of ts
unfolding check_all_paths
check_all_paths-kept root [] us h = ap (map identity_of) (sym (passed_inj [] us h))
check_all_paths-kept root (t ∷ ts) us h =
    let (u, one, h1) = >>=-passed (check_paths root t) _ h in
    let (rest, more, h2) = >>=-passed (check_all_paths root ts) _ h1 in
    let (source, paths, e) = check_paths-Paths root t u one in
    ap (map identity_of) (sym (passed_inj (u ∷ rest) us h2))
    ∙ ap (λ z. z ∷ map identity_of rest) (ap identity_of e)
    ∙ ap (λ z. identity_of t ∷ z) (check_all_paths-kept root ts rest more)

abbrev pub NotRoot : ShareConfig → Type 0
NotRoot u = derive_share_pseudo u ≢ 47 ∷ []

pub check_unique-Fresh :
    (pseudos serves : List Text) (us : List ShareConfig)
    → check_unique pseudos serves us ≡ passed tt
    → Fresh derive_share_pseudo pseudos us × Fresh serve_path_for serves us × All NotRoot us
unfolding check_unique
check_unique-Fresh pseudos serves [] h = (tt, tt, tt)
check_unique-Fresh pseudos serves (u ∷ us) h =
    let (root, h1) = ensure-passed _ _ _ h in
    let (pseudo, h2) = ensure-passed _ _ _ h1 in
    let (serve, h3) = ensure-passed _ _ _ h2 in
    let (ps, ss, roots) =
      check_unique-Fresh (derive_share_pseudo u ∷ pseudos) (serve_path_for u ∷ serves) us h3 in
    ((not-true _ pseudo, ps), (not-true _ serve, ss), (not_root (not-true _ root), roots))
  where
    not_root : same_text (derive_share_pseudo u) (47 ∷ []) ≡ false → NotRoot u
    not_root n e =
        cc (n, subst (λ z. same_text z (47 ∷ []) ≡ true) (sym e) (same_text_refl (47 ∷ [])))

abbrev pub HasPolicy : ShareConfig → Type 0
HasPolicy u = passes is_policy u.read_access_policy ≡ true

pub check_policies-HasPolicy :
    (us : List ShareConfig) → check_policies us ≡ passed tt → All HasPolicy us
unfolding check_policies
check_policies-HasPolicy [] h = tt
check_policies-HasPolicy (u ∷ us) h =
    let (one, h1) = ensure-passed (passes is_policy u.read_access_policy) _ _ h in
    (one, check_policies-HasPolicy us h1)

-- What generation relies on: every share has a name, a host path, a settled Pseudo
-- path and a trimmed absolute container path, that lies under the container root, as does its staging
-- path; every setting has an allowed value; and no two shares have one name, one Pseudo path or one
-- path to serve, nor is any Pseudo path the root.
pub record IsAccepted (root : Text) (us : List ShareConfig) : Type 0 where
  pub shares : All (IsShare (trim_slashes root)) us
  pub names : Apart name_of us
  pub pseudos : Apart derive_share_pseudo us
  pub serves : Apart serve_path_for us

Placed-IsShare :
    (root : Text) (u : ShareConfig) → Placed root u → NotRoot u → HasPolicy u → IsShare root u
Placed-IsShare root u (seen, s, source, f, p, e) n policy = subst (IsShare root) (sym e) (record {
  named = is_empty-ne _ f.named;
  hosted = is_empty-ne _ f.hosted;
  security = passes-Among allowed_sectypes (λ x. x) s.security f.security;
  squash = passes-Among allowed_squash (λ x. x) s.squash f.squash;
  pref_read = passes-IsPrefSize s.pref_read f.pref_read;
  pref_write = passes-IsPrefSize s.pref_write f.pref_write;
  profile = passes-Among cache_profiles trim s.cache_profile f.profile;
  policy =
      passes-Among read_access_policies (λ x. to_ascii_lowercase (trim x)) s.read_access_policy
        (subst HasPolicy e policy);
  expiration = passes-pos s.attr_expiration_secs f.expiration;
  trimmed = trim-trim s.container_path;
  absolute = starts-IsAbsolute _ p.slash;
  under = is_under_root-StartsUnder root _ p.under;
  staged = Source-Meets root source p.staged;
  exported =
      let (rest, q) = normalize_pseudo-IsAbsolute s.name s.pseudo_path in
      (
        rest,
        ap some q,
        λ blank. n (
            derive_share_pseudo-absolute u rest (ap pseudo_of e ∙ ap some q)
            ∙ ap (λ z. 47 ∷ z) blank),
      );
})

all_shares :
    (root : Text) (us : List ShareConfig)
    → All (Placed root) us
    → All NotRoot us
    → All HasPolicy us
    → All (IsShare root) us
all_shares root [] p n h = tt
all_shares root (u ∷ us) (p, ps) (n, ns) (h, hs) =
    (Placed-IsShare root u p n h, all_shares root us ps ns hs)

-- Whatever the file says, if its shares pass: they are the shares of the file, in order, by name and
-- host path; each has a name, a host path, a Pseudo path below the root, and a trimmed absolute path to
-- serve; as a text this is the container root or starts with it and a slash (`..` parts behind it are
-- not excluded), as is its staging path; every setting has an allowed value; and no two have one name,
-- one Pseudo path or one path to serve.
pub validate_shares-IsAccepted :
    (root : Text) (ss us : List ShareConfig)
    → validate_shares root ss ≡ passed us
    → IsAccepted root us × (map identity_of us ≡ map identity_of ss)
unfolding validate_shares
validate_shares-IsAccepted root ss us h =
    let (ts, named, h1) = >>=-passed (check_all_settings [] ss) _ h in
    let (vs, placed, h2) = >>=-passed (check_all_paths (trim_slashes root) ts) _ h1 in
    let (done, unique, h3) = >>=-passed (check_unique [] [] vs) _ h2 in
    let (done', policies, h4) = >>=-passed (check_policies vs) _ h3 in
    let (n, f) = check_all_settings-Named [] ss ts named in
    let (p, f') = check_all_paths-Placed (trim_slashes root) [] ts vs placed n f in
    let (ps, sv, roots) = check_unique-Fresh [] [] vs unique in
    subst (λ z. IsAccepted root z × (map identity_of z ≡ map identity_of ss)) (passed_inj vs us h4)
      (
        accepted vs
            (all_shares (trim_slashes root) vs p roots (check_policies-HasPolicy vs policies)) f' ps
            sv,
        check_all_paths-kept (trim_slashes root) ts vs placed
            ∙ check_all_settings-kept [] ss ts named,
      )
  where
    accepted :
        (vs : List ShareConfig)
        → All (IsShare (trim_slashes root)) vs
        → Fresh name_of [] vs
        → Fresh derive_share_pseudo [] vs
        → Fresh serve_path_for [] vs
        → IsAccepted root vs
    accepted vs shares f ps sv = record {
      shares = shares;
      names = Fresh-Apart name_of [] vs f;
      pseudos = Fresh-Apart derive_share_pseudo [] vs ps;
      serves = Fresh-Apart serve_path_for [] vs sv;
    }
