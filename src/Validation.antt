-- ===== src/Validation.antt =====
-- The shares in `validate_and_derive` of nfs-klldap-config/src/validate.rs: four loops that check and
-- normalise, each over all shares. An error ends the validation; its text is a constructor with the
-- name of the share.
pub mod Lists
pub mod Checks
pub mod Accepted
pub mod Again
pub mod Valid
use nfs_klldap_host.Identity.Members.{has_text}
use nfs_klldap_host.Prelude.{
  ℕ, ◌*◌, Bool, true, false, not, ◌&&◌, ◌||◌, Option, none, some, List, [], ◌∷◌, ◌++◌,
  if◌then◌else◌, leb, Text, same_text, trim, is_empty, starts_with, to_ascii_lowercase,
}
use nfs_klldap_host.SharePaths.{trim_slashes}

-- An i32: `negsuc n` is -(n + 1).
pub data ℤ : Type 0 where
  pos : ℕ → ℤ
  negsuc : ℕ → ℤ

-- The fields of a share that are validated.
pub record ShareConfig : Type 0 where
  pub name : Text
  pub host_path : Text
  pub pseudo_path : Option Text
  pub security : Option Text
  pub squash : Option Text
  pub cache_profile : Option Text
  pub pref_read : Option ℕ
  pub pref_write : Option ℕ
  pub read_access_policy : Option Text
  pub container_path : Text
  pub source_path : Option Text
  pub attr_expiration_secs : Option ℤ

pub data ConfigError : Type 0 where
  empty_name : ConfigError
  duplicate_name no_host_path bad_security bad_squash : Text → ConfigError
  bad_pref_read bad_pref_write bad_cache_profile bad_attr_expiration : Text → ConfigError
  no_container_path container_path_relative container_path_outside : Text → ConfigError
  source_path_relative source_path_outside : Text → ConfigError
  pseudo_root duplicate_pseudo duplicate_serve bad_policy : Text → ConfigError

-- A loop's outcome: `return Err`, or the value it leaves.
pub data Checked {ℓ} (A : Type ℓ) : Type ℓ where
  refused : ConfigError → Checked A
  passed : A → Checked A

infixl 5 ◌>>=◌ ◌>>◌
abbrev pub ◌>>=◌ {ℓ κ} : {A : Type ℓ} {B : Type κ} → Checked A → (A → Checked B) → Checked B
◌>>=◌ m next = elim m [ refused e ↦ refused e | passed a ↦ next a ]

abbrev pub ◌>>◌ {κ} : {B : Type κ} → Checked (Unit {0}) → Checked B → Checked B
◌>>◌ m next = elim m [ refused e ↦ refused e | passed a ↦ next ]

-- `if !condition { return Err(e) }`
abbrev pub ensure : Bool → ConfigError → Checked (Unit {0})
ensure condition e = if condition then passed tt else refused e

abbrev pub allowed_sectypes : List Text
allowed_sectypes =
    (107 ∷ 114 ∷ 98 ∷ 53 ∷ 112 ∷ [])
    ∷ (107 ∷ 114 ∷ 98 ∷ 53 ∷ 105 ∷ [])
    ∷ (107 ∷ 114 ∷ 98 ∷ 53 ∷ [])
    ∷ []

abbrev pub allowed_squash : List Text
allowed_squash =
    (110 ∷ 111 ∷ 95 ∷ 114 ∷ 111 ∷ 111 ∷ 116 ∷ 95 ∷ 115 ∷ 113 ∷ 117 ∷ 97 ∷ 115 ∷ 104 ∷ [])
    ∷ (114 ∷ 111 ∷ 111 ∷ 116 ∷ 95 ∷ 115 ∷ 113 ∷ 117 ∷ 97 ∷ 115 ∷ 104 ∷ [])
    ∷ (114 ∷ 111 ∷ 111 ∷ 116 ∷ 95 ∷ 105 ∷ 100 ∷ 95 ∷ 115 ∷ 113 ∷ 117 ∷ 97 ∷ 115 ∷ 104 ∷ [])
    ∷ (97 ∷ 108 ∷ 108 ∷ 95 ∷ 115 ∷ 113 ∷ 117 ∷ 97 ∷ 115 ∷ 104 ∷ [])
    ∷ []

abbrev pub cache_profiles : List Text
cache_profiles =
    (68 ∷ 101 ∷ 102 ∷ 97 ∷ 117 ∷ 108 ∷ 116 ∷ [])
    ∷ (82 ∷ 101 ∷ 97 ∷ 100 ∷ 32 ∷ 45 ∷ 32 ∷ 66 ∷ 97 ∷ 115 ∷ 105 ∷ 99 ∷ [])
    ∷ (82 ∷ 101 ∷ 97 ∷ 100 ∷ 32 ∷ 45 ∷ 32 ∷ 72 ∷ 101 ∷ 97 ∷ 118 ∷ 121 ∷ [])
    ∷ (77 ∷ 105 ∷ 120 ∷ 101 ∷ 100 ∷ 32 ∷ 85 ∷ 115 ∷ 101 ∷ [])
    ∷ (87 ∷ 114 ∷ 105 ∷ 116 ∷ 101 ∷ 32 ∷ 45 ∷ 32 ∷ 72 ∷ 101 ∷ 97 ∷ 118 ∷ 121 ∷ [])
    ∷ []

abbrev pub read_access_policies : List Text
read_access_policies = (112 ∷ 114 ∷ 101 ∷ []) ∷ (112 ∷ 111 ∷ 115 ∷ 116 ∷ []) ∷ []

-- A setting that is there passes the test.
abbrev pub passes {ℓ} : {A : Type ℓ} → (A → Bool) → Option A → Bool
passes p none = true
passes p (some a) = p a

abbrev pub is_pref_size : ℕ → Bool
is_pref_size v = leb 512 v && leb v (64 * 1024 * 1024)

abbrev pub is_not_negative : ℤ → Bool
is_not_negative (pos n) = true
is_not_negative (negsuc n) = false

-- `resolve_cache_profile` of nfs-klldap-config/src/config.rs knows the profile.
abbrev pub is_profile : Text → Bool
is_profile p = has_text (trim p) cache_profiles

abbrev pub under_slash : Text → Text
under_slash t = if starts_with (47 ∷ []) t then t else 47 ∷ t

abbrev pub normalize_pseudo : Text → Option Text → Text
normalize_pseudo name none = 47 ∷ name
normalize_pseudo name (some v) = if is_empty (trim v) then 47 ∷ name else under_slash (trim v)

-- The first loop, on one share.
unfoldable pub check_settings : List Text → ShareConfig → Checked ShareConfig
check_settings seen s = do
  ensure (not (is_empty (trim s.name))) empty_name
  ensure (not (has_text s.name seen)) (duplicate_name s.name)
  ensure (not (is_empty s.host_path)) (no_host_path s.name)
  ensure (passes (λ x. has_text x allowed_sectypes) s.security) (bad_security s.name)
  ensure (passes (λ x. has_text x allowed_squash) s.squash) (bad_squash s.name)
  ensure (passes is_pref_size s.pref_read) (bad_pref_read s.name)
  ensure (passes is_pref_size s.pref_write) (bad_pref_write s.name)
  ensure (passes is_profile s.cache_profile) (bad_cache_profile s.name)
  ensure (passes is_not_negative s.attr_expiration_secs) (bad_attr_expiration s.name)
  passed (record s {
    container_path = trim s.container_path;
    pseudo_path = some (normalize_pseudo s.name s.pseudo_path);
  })

unfoldable pub check_all_settings : List Text → List ShareConfig → Checked (List ShareConfig)
unfolding check_settings
check_all_settings seen [] = passed []
check_all_settings seen (s ∷ ss) =
    check_settings seen s >>= λ t. check_all_settings (s.name ∷ seen) ss >>= λ ts. passed (t ∷ ts)

abbrev pub is_under_root : Text → Text → Bool
is_under_root root p = same_text p root || starts_with (root ++ 47 ∷ []) p

abbrev pub check_source : Text → Text → Option Text → Checked (Option Text)
check_source root name none = passed none
check_source root name (some raw) =
    let src = trim raw in
    if is_empty src then passed none else do
      ensure (starts_with (47 ∷ []) src) (source_path_relative name)
      ensure (is_under_root root src) (source_path_outside name)
      passed (some src)

-- The second loop.
unfoldable pub check_paths : Text → ShareConfig → Checked ShareConfig
check_paths root s = do
  ensure (not (is_empty s.container_path)) (no_container_path s.name)
  ensure (starts_with (47 ∷ []) s.container_path) (container_path_relative s.name)
  ensure (is_under_root root s.container_path) (container_path_outside s.name)
  source ← check_source root s.name s.source_path
  passed (record s { source_path = source })

unfoldable pub check_all_paths : Text → List ShareConfig → Checked (List ShareConfig)
unfolding check_paths
check_all_paths root [] = passed []
check_all_paths root (s ∷ ss) =
    check_paths root s >>= λ t. check_all_paths root ss >>= λ ts. passed (t ∷ ts)

-- `derive_share_pseudo` of nfs-klldap-config/src/config.rs
unfoldable pub derive_share_pseudo : ShareConfig → Text
derive_share_pseudo s = under_slash (elim s.pseudo_path [ none ↦ 47 ∷ s.name | some p ↦ p ])

unfoldable pub serve_path_for : ShareConfig → Text
serve_path_for s = trim s.container_path

-- The third loop: no two exports with one Pseudo path or one Path.
unfoldable pub check_unique : List Text → List Text → List ShareConfig → Checked (Unit {0})
unfolding derive_share_pseudo serve_path_for
check_unique pseudos serves [] = passed tt
check_unique pseudos serves (s ∷ ss) = do
  ensure (not (same_text (derive_share_pseudo s) (47 ∷ []))) (pseudo_root s.name)
  ensure (not (has_text (derive_share_pseudo s) pseudos)) (duplicate_pseudo s.name)
  ensure (not (has_text (serve_path_for s) serves)) (duplicate_serve s.name)
  check_unique (derive_share_pseudo s ∷ pseudos) (serve_path_for s ∷ serves) ss

abbrev pub is_policy : Text → Bool
is_policy p = has_text (to_ascii_lowercase (trim p)) read_access_policies

-- The fourth loop; what it warns of is not modelled.
unfoldable pub check_policies : List ShareConfig → Checked (Unit {0})
check_policies [] = passed tt
check_policies (s ∷ ss) = do
  ensure (passes is_policy s.read_access_policy) (bad_policy s.name)
  check_policies ss

unfoldable pub validate_shares : Text → List ShareConfig → Checked (List ShareConfig)
unfolding check_all_settings check_all_paths check_unique check_policies
validate_shares container_root shares = do
  named ← check_all_settings [] shares
  placed ← check_all_paths (trim_slashes container_root) named
  check_unique [] [] placed
  check_policies placed
  passed placed
