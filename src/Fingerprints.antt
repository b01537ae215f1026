-- ===== src/Fingerprints.antt =====
-- The FNV-1a fingerprints of nfs-klldap-config/src/exports_fingerprint.rs. The entries of a directory are
-- names with what reading the file gives; bytes are numbers below 256, a fingerprint is a u64.
pub mod Words
pub mod Edits
pub mod Noticed
use Prim.Native.Nat.{bit_xor}
use nfs_klldap_host.Validation.{ShareConfig}
use nfs_klldap_host.Prelude.{
  ℕ, ◌*◌, ◌%◌, ◌^◌, Bool, true, false, ◌&&◌, ◌||◌, ◌==◌, Option, none, some, List, [], ◌∷◌,
  if◌then◌else◌, ltb, Text, as_bytes, same_text, after_last, retain, map,
}

abbrev pub fnv1a_seed : ℕ
fnv1a_seed = 0xcbf29ce484222325

abbrev pub fnv1a_prime : ℕ
fnv1a_prime = 0x100000001b3

-- `h ^= v; h = h.wrapping_mul(…)`
unfoldable pub mix : ℕ → ℕ → ℕ
mix h v = bit_xor h v * fnv1a_prime % 2 ^ 64

unfoldable pub fingerprint_bytes : List ℕ → ℕ → ℕ
unfolding mix
fingerprint_bytes [] h = h
fingerprint_bytes (b ∷ bs) h = fingerprint_bytes bs (mix h b)

-- A file that cannot be read counts 0.
unfoldable pub fingerprint_file : Option (List ℕ) → ℕ
unfolding fingerprint_bytes
fingerprint_file none = 0
fingerprint_file (some bytes) = fingerprint_bytes bytes fnv1a_seed

unfoldable pub fingerprint_identity_artifacts :
    Option (List ℕ) → Option (List ℕ) → Option (List ℕ) → ℕ
unfolding fingerprint_file
fingerprint_identity_artifacts sssd krb5 idmap =
    mix (mix (mix fnv1a_seed (fingerprint_file sssd)) (fingerprint_file krb5))
      (fingerprint_file idmap)

pub record Entry : Type 0 where
  pub file_name : Text
  pub content : Option (List ℕ)

-- `Path::extension`: a leading dot starts no extension.
abbrev pub extension : Text → Option Text
extension [] = none
extension (c ∷ rest) = after_last 46 rest

-- `conf`, `cfg` and `service`
abbrev pub conf_word : Text
conf_word = 99 ∷ 111 ∷ 110 ∷ 102 ∷ []

abbrev pub cfg_word : Text
cfg_word = 99 ∷ 102 ∷ 103 ∷ []

abbrev pub service_word : Text
service_word = 115 ∷ 101 ∷ 114 ∷ 118 ∷ 105 ∷ 99 ∷ 101 ∷ []

abbrev pub has_extension : Text → Text → Bool
has_extension word name = elim (extension name) [ none ↦ false | some x ↦ same_text x word ]

abbrev pub is_export : Text → Bool
is_export name = has_extension conf_word name || has_extension cfg_word name

abbrev pub is_before : Text → Text → Bool
is_before [] [] = false
is_before [] (d ∷ t) = true
is_before (c ∷ s) [] = false
is_before (c ∷ s) (d ∷ t) = if c == d then is_before s t else ltb c d

unfoldable pub insert_entry : Entry → List Entry → List Entry
insert_entry e [] = e ∷ []
insert_entry e (f ∷ fs) =
    let later = f ∷ insert_entry e fs in
    if is_before f.file_name e.file_name then later else e ∷ f ∷ fs

-- `sort_by_key(file_name)`, which is stable.
unfoldable pub sort_by_name : List Entry → List Entry
unfolding insert_entry
sort_by_name [] = []
sort_by_name (e ∷ es) = insert_entry e (sort_by_name es)

-- Each file that can be read, and a separator.
unfoldable pub fingerprint_files : List (Option (List ℕ)) → ℕ → ℕ
unfolding fingerprint_bytes
fingerprint_files [] h = h
fingerprint_files (none ∷ files) h = fingerprint_files files h
fingerprint_files (some bytes ∷ files) h =
    fingerprint_files files (mix (fingerprint_bytes bytes h) 0xff)

abbrev pub contents_of : List Entry → List (Option (List ℕ))
contents_of es = map (λ e. e.content) es

-- `none` for a directory that cannot be read.
unfoldable pub fingerprint_exports_dir : Option (List Entry) → ℕ
unfolding fingerprint_files sort_by_name
fingerprint_exports_dir none = 0
fingerprint_exports_dir (some es) =
    fingerprint_files (contents_of (sort_by_name (retain (λ e. is_export e.file_name) es)))
      fnv1a_seed

unfoldable pub fingerprint_avahi_dir : Option (List Entry) → ℕ
unfolding fingerprint_files sort_by_name
fingerprint_avahi_dir none = 0
fingerprint_avahi_dir (some es) =
    fingerprint_files
      (contents_of (sort_by_name (retain (λ e. has_extension service_word e.file_name) es)))
      fnv1a_seed

-- The share's texts one after the other, and a separator.
unfoldable pub fingerprint_share : ShareConfig → ℕ → ℕ
unfolding fingerprint_bytes
fingerprint_share share h =
    let named =
      fingerprint_bytes (as_bytes share.host_path) (fingerprint_bytes (as_bytes share.name) h) in
    mix (fingerprint_bytes (as_bytes share.container_path) (with_pseudo share.pseudo_path named))
      0xff
  where
    with_pseudo : Option Text → ℕ → ℕ
    with_pseudo none n = n
    with_pseudo (some p) n = fingerprint_bytes (as_bytes p) n

-- The configuration's root and shares.
unfoldable pub fingerprint_shares : Text → List ShareConfig → ℕ
unfolding fingerprint_share
fingerprint_shares container_root shares =
    all_shares shares (mix (fingerprint_bytes (as_bytes container_root) fnv1a_seed) 0x01)
  where
    all_shares : List ShareConfig → ℕ → ℕ
    all_shares [] h = h
    all_shares (share ∷ rest) h = all_shares rest (fingerprint_share share h)
