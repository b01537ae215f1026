-- ===== src/Identity/Cache.antt =====
-- The identity cache of nfs-klldap-config/src/bin/idhelper/common.rs: resolved principals under their
-- normalized names. The hash map is an association list.

use nfs_klldap_host.Identity.Principal.{
  normalize_principal, principal_has_realm, is_numeric_local_principal,
}
use nfs_klldap_host.Prelude.{
  ℕ, zero, suc, ◌+◌, ◌-◌, ◌*◌, ◌/◌, ◌%◌, ◌^◌, Bool, true, false, not, ◌||◌, Option, none, some,
  List, [], ◌∷◌, ◌++◌, if◌then◌else◌, ltb, ◌==◌, Text, same_text, as_bytes, retain, length,
}

pub data PrincipalKind : Type 0 where
  user machine unknown : PrincipalKind

abbrev pub is_user : PrincipalKind → Bool
is_user user = true
is_user _ = false

abbrev pub is_machine : PrincipalKind → Bool
is_machine machine = true
is_machine _ = false

unfoldable pub as_str : PrincipalKind → Text
as_str user = 117 ∷ 115 ∷ 101 ∷ 114 ∷ []
as_str machine = 109 ∷ 97 ∷ 99 ∷ 104 ∷ 105 ∷ 110 ∷ 101 ∷ []
as_str unknown = 117 ∷ 110 ∷ 107 ∷ 110 ∷ 111 ∷ 119 ∷ 110 ∷ []

pub record Resolved : Type 0 where
  pub principal : Text
  pub name : Text
  pub uid : ℕ
  pub gid : ℕ
  pub kind : PrincipalKind
  pub source : Text
  pub supplemental_gids : List ℕ

abbrev pub IdCache : Type 0
IdCache = List (Text × Resolved)

abbrev pub get_row : Text → IdCache → Option Resolved
get_row norm [] = none
get_row norm ((k, r) ∷ c) = let rest = get_row norm c in if same_text k norm then some r else rest

abbrev pub remove_row : Text → IdCache → IdCache
remove_row norm c = retain (λ e. not (same_text e.0 norm)) c

unfoldable pub insert_row : Resolved → IdCache → IdCache
insert_row r c = let key = normalize_principal r.principal in (key, r) ∷ remove_row key c

-- The pruned cache and the number of rows that went.
abbrev pruned_by : (Resolved → Bool) → IdCache → IdCache × ℕ
pruned_by keep c = let kept = retain (λ e. keep e.1) c in (kept, length c - length kept)

unfoldable pub prune_non_machine_users : IdCache → IdCache × ℕ
prune_non_machine_users c = pruned_by (λ r. is_machine r.kind) c

unfoldable pub prune_malformed_principals : IdCache → IdCache × ℕ
prune_malformed_principals c = pruned_by (λ r. principal_has_realm r.principal) c

unfoldable pub prune_numeric_user_entries : IdCache → IdCache × ℕ
prune_numeric_user_entries c =
    pruned_by (λ r. is_machine r.kind || not (is_numeric_local_principal r.principal)) c

-- The lowest `n` bits of an exclusive or.
abbrev xor_bits : ℕ → ℕ → ℕ → ℕ
xor_bits zero a b = 0
xor_bits (suc n) a b = (a + b) % 2 + 2 * xor_bits n (a / 2) (b / 2)

abbrev to_le_bytes : ℕ → List ℕ
to_le_bytes n = n % 256 ∷ n / 256 % 256 ∷ n / 65536 % 256 ∷ n / 16777216 % 256 ∷ []

abbrev all_le_bytes : List ℕ → List ℕ
all_le_bytes [] = []
all_le_bytes (g ∷ gids) = to_le_bytes g ++ all_le_bytes gids

-- Multiply, then the exclusive or, in 64 bits.
abbrev hash_bytes : ℕ → List ℕ → ℕ
hash_bytes h [] = h
hash_bytes h (b ∷ bytes) = hash_bytes (xor_bits 64 (h * 1099511628211 % 2 ^ 64) b) bytes

-- The order of `str`, that of the UTF-8 bytes, is the order of the characters.
abbrev pub text_ltb : Text → Text → Bool
text_ltb [] [] = false
text_ltb [] (d ∷ t) = true
text_ltb (c ∷ s) [] = false
text_ltb (c ∷ s) (d ∷ t) = let rest = text_ltb s t in if c == d then rest else ltb c d

abbrev insert_key : Text → List Text → List Text
insert_key k [] = k ∷ []
insert_key k (j ∷ ks) = let rest = insert_key k ks in if text_ltb j k then j ∷ rest else k ∷ j ∷ ks

abbrev sort_keys : IdCache → List Text
sort_keys [] = []
sort_keys ((k, r) ∷ c) = insert_key k (sort_keys c)

abbrev row_bytes : Text → Option Resolved → List ℕ
row_bytes k none = []
row_bytes k (some r) =
    as_bytes k
    ++ as_bytes r.name
    ++ to_le_bytes r.uid
    ++ to_le_bytes r.gid
    ++ as_bytes (as_str r.kind)
    ++ all_le_bytes r.supplemental_gids

abbrev hash_rows : IdCache → ℕ → List Text → ℕ
hash_rows c h [] = h
hash_rows c h (k ∷ ks) = hash_rows c (hash_bytes h (row_bytes k (get_row k c))) ks

-- From `FNV1A_SEED`.
unfoldable pub content_fingerprint : IdCache → ℕ
content_fingerprint c = hash_rows c 14695981039346656037 (sort_keys c)

abbrev change_at : Text → (Resolved → Resolved) → IdCache → IdCache
change_at norm f [] = []
change_at norm f ((k, r) ∷ c) =
    let rest = change_at norm f c in if same_text k norm then (k, f r) ∷ c else (k, r) ∷ rest

-- Through `get_mut`: the supplemental groups of the row under a key.
unfoldable pub set_supplemental : Text → (Resolved → List ℕ) → IdCache → IdCache
set_supplemental norm gids c = change_at norm (λ r. record r { supplemental_gids = gids r }) c
