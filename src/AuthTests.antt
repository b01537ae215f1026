-- ===== src/AuthTests.antt =====
-- The theorems on nfs-klldap-ui/src/auth.rs at concrete sessions, tokens and passwords. The toy hash
-- takes every byte modulo 256, and the toy JSON writes at most one entry, as its number of seconds.
use nfs_klldap_host.Auth.{
  Store, Outside, AuthManager, create_privileged_session, validate, logout,
  invalidate_sessions_for_user_except, persist_sessions, new, persisted, token_hash, second,
}
use nfs_klldap_host.Auth.Password.{
  PasswordFile, Disk, accepted, refused, invalid_password, hash_password, set_simple_password,
  validate_simple_password, localhost,
}
use nfs_klldap_host.Auth.Password.RoundTrip.{IsByte, set_simple_password-validate_simple_password}
use nfs_klldap_host.Auth.Restart.{ReadsBack, restart-validate}
use nfs_klldap_host.Auth.Sessions.{
  unless, create_privileged_session-validate, logout-validate,
  invalidate_sessions_for_user_except-validate,
}
use nfs_klldap_host.Prelude.{
  ℕ, ◌+◌, ◌%◌, ◌≡◌, true, Option, none, some, List, [], ◌∷◌, map, refl, arith, if◌then◌else◌, ltb,
  Text, same_text, as_bytes, length, All,
}

abbrev fold_bytes : List ℕ → List ℕ
fold_bytes [] = []
fold_bytes (b ∷ s) = b % 256 ∷ fold_bytes s

-- One entry with a key of two characters and a name of one; no other store is written.
abbrev write_entry : Text → Text → ℕ → Option Text
write_entry (c ∷ d ∷ []) (e ∷ []) n = some (c ∷ d ∷ e ∷ n ∷ [])
write_entry _ _ n = none

abbrev write_one : Store → Option Text
write_one ((k, p) ∷ []) = write_entry k p.username p.expires_unix
write_one _ = none

abbrev read_one : Text → Option Store
read_one (c ∷ d ∷ e ∷ n ∷ []) =
    some ((c ∷ d ∷ [], record { username = e ∷ []; expires_unix = n }) ∷ [])
read_one _ = none

abbrev toy : Outside
toy = record { sha256 = fold_bytes; to_string = write_one; from_str = read_one }

abbrev alice : Text
alice = 97 ∷ []

abbrev bob : Text
bob = 98 ∷ []

-- Alice is signed in by the token `0`, until 5.
abbrev manager : AuthManager
manager = record {
  sessions = (48 ∷ 48 ∷ [], record { username = alice; expires_at = 5 }) ∷ [];
  sidecar = none;
  session_ttl = 100;
}

abbrev zero_token : Text
zero_token = 0 ∷ []

create_privileged_session-validate_example :
    let (token, a') = create_privileged_session toy true (1 ∷ 40 ∷ []) 2 3 bob manager in
    (validate toy true 4 zero_token a').0 ≡ (
      if same_text (token_hash toy token) (token_hash toy zero_token)
      then (if ltb 4 (2 + 100) then some bob else none)
      else (validate toy true 4 zero_token manager).0)
create_privileged_session-validate_example =
    create_privileged_session-validate toy true true (1 ∷ 40 ∷ []) 2 3 4 bob zero_token manager
      (refl, tt) (omega arith)

logout-validate_example :
    (validate toy true 4 zero_token (logout toy true zero_token manager)).0 ≡ (
      if same_text (token_hash toy zero_token) (token_hash toy zero_token)
      then none
      else (validate toy true 4 zero_token manager).0)
logout-validate_example = logout-validate toy true true 4 zero_token zero_token manager (refl, tt)

invalidate_sessions_for_user_except-validate_example :
    let (dropped, a') = invalidate_sessions_for_user_except toy true alice (9 ∷ []) manager in
    ((validate toy true 4 zero_token a').0
      ≡ unless alice
          (same_text (token_hash toy zero_token) (token_hash toy (9 ∷ [])))
          (validate toy true 4 zero_token manager).0)
    × (length a'.sessions + dropped ≡ 1)
invalidate_sessions_for_user_except-validate_example =
    invalidate_sessions_for_user_except-validate toy true true 4 alice (9 ∷ []) zero_token manager
      (refl, tt)

read_entry :
    (k u : Text) (n : ℕ) (raw : Text)
    → write_entry k u n ≡ some raw
    → read_one raw ≡ some ((k, record { username = u; expires_unix = n }) ∷ [])
read_entry k u n raw h = ground arith

toy-ReadsBack : ReadsBack toy
toy-ReadsBack = record { reads = reads_one }
  where
    reads_one :
        (store : Store) (raw : Text) → write_one store ≡ some raw → read_one raw ≡ some store
    reads_one [] raw h = absurd (cc h)
    reads_one ((k, p) ∷ []) raw h = read_entry k p.username p.expires_unix raw h
    reads_one (e ∷ f ∷ rest) raw h = absurd (cc h)

-- Alice's session until 7.5 seconds after the epoch.
abbrev later_manager : AuthManager
later_manager = record {
  sessions = (48 ∷ 48 ∷ [], record { username = alice; expires_at = 7500000000 }) ∷ [];
  sidecar = none;
  session_ttl = 100;
}

stored : toy.to_string (map persisted later_manager.sessions) ≡ some (48 ∷ 48 ∷ 97 ∷ 7 ∷ [])
unfolding persisted
stored = refl

restart-validate_example :
    let b =
      new toy 1 none (persist_sessions toy true later_manager.sessions later_manager).sidecar in
    ((validate toy true 2 zero_token b).0 ≡ some alice
      → (validate toy true 2 zero_token later_manager).0 ≡ some alice)
    × ((validate toy true (2 + second) zero_token later_manager).0 ≡ some alice
        → (validate toy true 2 zero_token b).0 ≡ some alice)
restart-validate_example =
    restart-validate toy true 1 2 none zero_token (48 ∷ 48 ∷ 97 ∷ 7 ∷ []) alice later_manager
      toy-ReadsBack (refl, tt) stored (omega arith)

abbrev salt : List ℕ
salt = 1 ∷ 255 ∷ []

salt-IsByte : All IsByte salt
salt-IsByte = (omega arith, (omega arith, tt))

fold_bytes-IsByte : (s : List ℕ) → All IsByte (fold_bytes s)
fold_bytes-IsByte [] = tt
fold_bytes-IsByte (b ∷ s) = (omega arith, fold_bytes-IsByte s)

abbrev password : Text
password = 115 ∷ 101 ∷ 99 ∷ 114 ∷ 101 ∷ 116 ∷ 49 ∷ 50 ∷ []

abbrev no_file : PasswordFile
no_file = record { content = none; readable = true }

abbrev fine_disk : Disk
fine_disk = record { opens = true; writes = true; renames = true }

set_works : (set_simple_password fold_bytes salt fine_disk password no_file).0 ≡ none
unfolding set_simple_password
set_works = refl

set_simple_password-validate_simple_password_example :
    validate_simple_password fold_bytes localhost
      (alice)
      (set_simple_password fold_bytes salt fine_disk password no_file).1
    ≡ (if same_text
          (hash_password fold_bytes salt (as_bytes alice))
          (hash_password fold_bytes salt (as_bytes password))
        then accepted
        else refused invalid_password)
set_simple_password-validate_simple_password_example =
    set_simple_password-validate_simple_password fold_bytes salt fine_disk password alice no_file
      fold_bytes-IsByte salt-IsByte refl set_works
