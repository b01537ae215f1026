-- ===== src/Validation/Checks.antt =====
-- What a share has passed in each loop of nfs-klldap-config/src/validate.rs, as equations.
use nfs_klldap_host.Identity.Members.{has_text}
use nfs_klldap_host.Prelude.{
  ◌≡◌, refl, sym, subst, Bool, true, false, not, Option, none, some, List, [], ◌∷◌, Text, trim,
  is_empty, starts_with, Bool-cases, inl, inr, trim-trim,
}
use nfs_klldap_host.Validation.{
  ShareConfig, ConfigError, Checked, passed, refused, ◌>>=◌, ◌>>◌, ensure, allowed_sectypes,
  allowed_squash, passes, is_pref_size, is_not_negative, is_profile, normalize_pseudo,
  check_settings, is_under_root, check_source, check_paths,
}

pub ensure-passed {ℓ} :
    {A : Type ℓ} (b : Bool) (e : ConfigError) (k : Checked A) {a : A}
    → (ensure b e >> k) ≡ passed a
    → (b ≡ true) × (k ≡ passed a)
ensure-passed true e k h = (refl, h)
ensure-passed false e k h = cc

pub >>=-passed {ℓ κ} :
    {A : Type ℓ} {B : Type κ} (m : Checked A) (f : A → Checked B) {b : B}
    → (m >>= f) ≡ passed b
    → (a : A) × (m ≡ passed a) × (f a ≡ passed b)
>>=-passed (passed a) f h = (a, refl, h)
>>=-passed (refused e) f h = cc

pub not-true : (b : Bool) → not b ≡ true → b ≡ false
not-true true h = absurd (cc h)
not-true false h = refl

pub passed_inj {ℓ} : {A : Type ℓ} (a b : A) → passed a ≡ passed b → a ≡ b
passed_inj a b h = cc

-- The tests of the first loop.
pub record Fields (seen : List Text) (s : ShareConfig) : Type 0 where
  pub named : is_empty (trim s.name) ≡ false
  pub fresh : has_text s.name seen ≡ false
  pub hosted : is_empty s.host_path ≡ false
  pub security : passes (λ x. has_text x allowed_sectypes) s.security ≡ true
  pub squash : passes (λ x. has_text x allowed_squash) s.squash ≡ true
  pub pref_read : passes is_pref_size s.pref_read ≡ true
  pub pref_write : passes is_pref_size s.pref_write ≡ true
  pub profile : passes is_profile s.cache_profile ≡ true
  pub expiration : passes is_not_negative s.attr_expiration_secs ≡ true

abbrev pub normal : ShareConfig → ShareConfig
normal s = record s {
  container_path = trim s.container_path;
  pseudo_path = some (normalize_pseudo s.name s.pseudo_path);
}

pub check_settings-Fields :
    (seen : List Text) (s t : ShareConfig)
    → check_settings seen s ≡ passed t
    → Fields seen s × (t ≡ normal s)
unfolding check_settings
check_settings-Fields seen s t h =
    let (named, h1) = ensure-passed _ _ _ h in
    let (fresh, h2) = ensure-passed _ _ _ h1 in
    let (hosted, h3) = ensure-passed _ _ _ h2 in
    let (security, h4) = ensure-passed _ _ _ h3 in
    let (squash, h5) = ensure-passed _ _ _ h4 in
    let (pref_read, h6) = ensure-passed _ _ _ h5 in
    let (pref_write, h7) = ensure-passed _ _ _ h6 in
    let (profile, h8) = ensure-passed _ _ _ h7 in
    let (expiration, h9) = ensure-passed _ _ _ h8 in
    (
      record {
        named = not-true _ named;
        fresh = not-true _ fresh;
        hosted = not-true _ hosted;
        security = security;
        squash = squash;
        pref_read = pref_read;
        pref_write = pref_write;
        profile = profile;
        expiration = expiration;
      },
      sym (passed_inj _ _ h9),
    )

pub check_settings_of :
    (seen : List Text) (s : ShareConfig) → Fields seen s → check_settings seen s ≡ passed (normal s)
unfolding check_settings
check_settings_of seen s f = rw f.named (
    rw f.fresh (
      rw f.hosted (
        rw f.security
          (rw f.squash (rw f.pref_read (rw f.pref_write (rw f.profile (rw f.expiration refl))))))))

abbrev pub Source : Text → Option Text → Type 0
Source root none = Unit
Source root (some src) =
    (trim src ≡ src)
    × (is_empty src ≡ false)
    × (starts_with (47 ∷ []) src ≡ true)
    × (is_under_root root src ≡ true)

check_source-Source :
    (root name : Text) (o : Option Text) (o' : Option Text)
    → check_source root name o ≡ passed o'
    → Source root o'
check_source-Source root name none o' h = subst (Source root) (passed_inj none o' h) tt
check_source-Source root name (some raw) o' h = elim (Bool-cases (is_empty (trim raw))) [
  | inl blank ↦ subst (Source root) (passed_inj none o' (rw blank at h)) tt
  | inr full ↦
      let (slash, h1) = ensure-passed _ _ _ (rw full at h) in
      let (under, h2) = ensure-passed _ _ _ h1 in
      subst (Source root) (passed_inj (some (trim raw)) o' h2) (trim-trim raw, full, slash, under)
]

check_source_of :
    (root name : Text) (o : Option Text) → Source root o → check_source root name o ≡ passed o
check_source_of root name none h = refl
check_source_of root name (some src) (trimmed, full, slash, under) =
    rw trimmed (rw full (rw slash (rw under refl)))

-- The tests of the second loop, with the source path that is left.
pub record Paths (root : Text) (s : ShareConfig) (source : Option Text) : Type 0 where
  pub placed : is_empty s.container_path ≡ false
  pub slash : starts_with (47 ∷ []) s.container_path ≡ true
  pub under : is_under_root root s.container_path ≡ true
  pub staged : Source root source

pub check_paths-Paths :
    (root : Text) (s t : ShareConfig)
    → check_paths root s ≡ passed t
    → (source : Option Text) × Paths root s source × (t ≡ record s { source_path = source })
unfolding check_paths
check_paths-Paths root s t h =
    let (placed, h1) = ensure-passed _ _ _ h in
    let (slash, h2) = ensure-passed _ _ _ h1 in
    let (under, h3) = ensure-passed _ _ _ h2 in
    let (source, found, h4) = >>=-passed (check_source root s.name s.source_path) _ h3 in
    (
      source,
      record {
        placed = not-true _ placed;
        slash = slash;
        under = under;
        staged = check_source-Source root s.name s.source_path source found;
      },
      sym (passed_inj _ _ h4),
    )

pub check_paths_of :
    (root : Text) (s : ShareConfig) → Paths root s s.source_path → check_paths root s ≡ passed s
unfolding check_paths
check_paths_of root s p =
    rw p.placed
      (rw p.slash (rw p.under (rw (check_source_of root s.name s.source_path p.staged) refl)))
