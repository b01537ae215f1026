-- ===== src/Validation/Valid.antt =====
-- What the validation of nfs-klldap-config/src/validate.rs guarantees of the shares that it accepts.
use nfs_klldap_host.Identity.Members.{has_text}
use mathlib.Core.List.{append_assoc}
use nfs_klldap_host.Prelude.{
  ℕ, ◌≤◌, ◌≡◌, ◌≢◌, ◌⊎◌, refl, ◌∙◌, arith, true, Option, none, some, List, [], ◌∷◌, ◌++◌, Text,
  same_text, same_text_sound, trim, is_empty, starts_with, to_ascii_lowercase, Among, Bool-cases,
  inl, inr,
}
use nfs_klldap_host.Validation.{
  ℤ, pos, negsuc, ShareConfig, allowed_sectypes, allowed_squash, cache_profiles,
  read_access_policies, passes, is_pref_size, is_not_negative, normalize_pseudo, under_slash,
  is_under_root, derive_share_pseudo,
}
use nfs_klldap_host.Validation.Checks.{Source}
use nfs_klldap_host.Validation.Lists.{Meets, has_text-Among, starts_with_lem}

-- The root itself, or a text that goes on with a slash behind it; `..` parts are not looked at.
abbrev pub StartsUnder : Text → Text → Type 0
StartsUnder root p = (p ≡ root) ⊎ ((rest : Text) × (p ≡ root ++ 47 ∷ rest))

abbrev pub IsAbsolute : Text → Type 0
IsAbsolute p = (rest : Text) × (p ≡ 47 ∷ rest)

abbrev pub IsPrefSize : ℕ → Type 0
IsPrefSize v = (512 ≤ v) × (v ≤ 67108864)

-- A share that generation may take as it stands.
pub record IsShare (root : Text) (s : ShareConfig) : Type 0 where
  pub named : trim s.name ≢ []
  pub hosted : s.host_path ≢ []
  pub security : Meets (λ x. Among x allowed_sectypes) s.security
  pub squash : Meets (λ x. Among x allowed_squash) s.squash
  pub pref_read : Meets IsPrefSize s.pref_read
  pub pref_write : Meets IsPrefSize s.pref_write
  pub profile : Meets (λ p. Among (trim p) cache_profiles) s.cache_profile
  pub policy :
      Meets (λ p. Among (to_ascii_lowercase (trim p)) read_access_policies) s.read_access_policy
  pub expiration : Meets (λ v. (n : ℕ) × (v ≡ pos n)) s.attr_expiration_secs
  pub trimmed : trim s.container_path ≡ s.container_path
  pub absolute : IsAbsolute s.container_path
  pub under : StartsUnder root s.container_path
  pub staged : Meets (λ p. IsAbsolute p × StartsUnder root p) s.source_path
  pub exported : (rest : Text) × (s.pseudo_path ≡ some (47 ∷ rest)) × (rest ≢ [])

pub passes-Among :
    (allowed : List Text) (g : Text → Text) (o : Option Text)
    → passes (λ x. has_text (g x) allowed) o ≡ true
    → Meets (λ x. Among (g x) allowed) o
passes-Among allowed g none h = tt
passes-Among allowed g (some x) h = has_text-Among (g x) allowed h

pub passes-IsPrefSize : (o : Option ℕ) → passes is_pref_size o ≡ true → Meets IsPrefSize o
passes-IsPrefSize none h = tt
passes-IsPrefSize (some v) h = ground arith

pub passes-pos :
    (o : Option ℤ) → passes is_not_negative o ≡ true → Meets (λ v. (n : ℕ) × (v ≡ pos n)) o
passes-pos none h = tt
passes-pos (some (pos n)) h = (n, refl)
passes-pos (some (negsuc n)) h = absurd (cc h)

pub starts-IsAbsolute : (p : Text) → starts_with (47 ∷ []) p ≡ true → IsAbsolute p
starts-IsAbsolute p h = starts_with_lem (47 ∷ []) p h

pub is_under_root-StartsUnder : (root p : Text) → is_under_root root p ≡ true → StartsUnder root p
is_under_root-StartsUnder root p h = elim (Bool-cases (same_text p root)) [
  | inl e ↦ inl (same_text_sound p root e)
  | inr n ↦
      let (rest, e) = starts_with_lem (root ++ 47 ∷ []) p (rw n at h) in
      inr (rest, e ∙ append_assoc root (47 ∷ []) rest)
]

pub Source-Meets :
    (root : Text) (o : Option Text)
    → Source root o
    → Meets (λ p. IsAbsolute p × StartsUnder root p) o
Source-Meets root none h = tt
Source-Meets root (some src) (trimmed, full, slash, under) =
    (starts-IsAbsolute src slash, is_under_root-StartsUnder root src under)

under_slash-IsAbsolute : (t : Text) → IsAbsolute (under_slash t)
under_slash-IsAbsolute t = elim (Bool-cases (starts_with (47 ∷ []) t)) [
  | inl y ↦ rw y (starts-IsAbsolute t y)
  | inr n ↦ rw n (t, refl)
]

pub normalize_pseudo-IsAbsolute :
    (name : Text) (o : Option Text) → IsAbsolute (normalize_pseudo name o)
normalize_pseudo-IsAbsolute name none = (name, refl)
normalize_pseudo-IsAbsolute name (some v) = elim (Bool-cases (is_empty (trim v))) [
  | inl y ↦ rw y (name, refl)
  | inr n ↦ rw n (under_slash-IsAbsolute (trim v))
]

pub derive_share_pseudo-absolute :
    (s : ShareConfig) (rest : Text)
    → s.pseudo_path ≡ some (47 ∷ rest)
    → derive_share_pseudo s ≡ 47 ∷ rest
unfolding derive_share_pseudo
derive_share_pseudo-absolute s rest e = rw e refl
