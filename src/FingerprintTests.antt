-- ===== src/FingerprintTests.antt =====
-- The fingerprints of a directory at concrete files.
use nfs_klldap_host.Fingerprints.{
  Entry, fnv1a_seed, fingerprint_bytes, fingerprint_exports_dir, fingerprint_avahi_dir,
  fingerprint_shares,
}
use nfs_klldap_host.Fingerprints.Edits.{entry}
use nfs_klldap_host.Fingerprints.Noticed.{fingerprint_exports_dir-byte}
use nfs_klldap_host.Validation.{ShareConfig}
use nfs_klldap_host.Prelude.{ℕ, ◌≡◌, ◌≢◌, refl, arith, none, some, List, [], ◌∷◌, Text}

-- `b.conf`, `a.cfg`, `n` and `.conf`
abbrev b_conf : Text
b_conf = 98 ∷ 46 ∷ 99 ∷ 111 ∷ 110 ∷ 102 ∷ []

abbrev a_cfg : Text
a_cfg = 97 ∷ 46 ∷ 99 ∷ 102 ∷ 103 ∷ []

abbrev plain : Text
plain = 110 ∷ []

abbrev hidden : Text
hidden = 46 ∷ 99 ∷ 111 ∷ 110 ∷ 102 ∷ []

abbrev folder : List ℕ → List Entry
folder bytes =
    record { file_name = hidden; content = none } ∷ entry b_conf bytes ∷ entry a_cfg (7 ∷ []) ∷ []

-- The published value for `a`.
fingerprint_of_a : fingerprint_bytes (97 ∷ []) fnv1a_seed ≡ 0xaf63dc4c8601ec8c
unfolding fingerprint_bytes
fingerprint_of_a = refl

-- Neither the order of the entries nor a file with another name counts.
order_of_entries :
    fingerprint_exports_dir (some (entry b_conf (1 ∷ []) ∷ entry a_cfg (2 ∷ []) ∷ []))
    ≡ fingerprint_exports_dir
        (some (entry plain (9 ∷ []) ∷ entry a_cfg (2 ∷ []) ∷ entry b_conf (1 ∷ []) ∷ []))
unfolding fingerprint_exports_dir
order_of_entries = refl

empty_folder : fingerprint_exports_dir (some []) ≡ fnv1a_seed
unfolding fingerprint_exports_dir
empty_folder = refl

missing_folder : fingerprint_avahi_dir none ≡ 0
unfolding fingerprint_avahi_dir
missing_folder = refl

-- The share `a/b` at `/c` and the share `a` at `/b/c`, with the Pseudo path `/p`.
abbrev share : Text → Text → ShareConfig
share name host = record {
  name = name;
  host_path = host;
  pseudo_path = some (47 ∷ 112 ∷ []);
  security = none;
  squash = none;
  cache_profile = none;
  pref_read = none;
  pref_write = none;
  read_access_policy = none;
  container_path = 47 ∷ 120 ∷ [];
  source_path = none;
  attr_expiration_secs = none;
}

shares_confused :
    fingerprint_shares (47 ∷ []) (share (97 ∷ 47 ∷ 98 ∷ []) (47 ∷ 99 ∷ []) ∷ [])
    ≡ fingerprint_shares (47 ∷ []) (share (97 ∷ []) (47 ∷ 98 ∷ 47 ∷ 99 ∷ []) ∷ [])
unfolding fingerprint_shares
shares_confused = refl

fingerprint_exports_dir-byte_example :
    fingerprint_exports_dir (some (folder (1 ∷ 2 ∷ 3 ∷ [])))
    ≢ fingerprint_exports_dir (some (folder (1 ∷ 4 ∷ 3 ∷ [])))
fingerprint_exports_dir-byte_example =
    fingerprint_exports_dir-byte (record { file_name = hidden; content = none } ∷ [])
      (entry a_cfg (7 ∷ []) ∷ []) b_conf (1 ∷ []) (3 ∷ []) 2 4 refl
      (tt, ((omega arith, (omega arith, (omega arith, tt))), ((omega arith, tt), tt)))
      (omega arith, tt) (omega arith) (omega arith) (λ e. absurd (omega (arith, e)))
