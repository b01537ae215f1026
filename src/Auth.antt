-- ===== src/Auth.antt =====
-- nfs-klldap-ui/src/auth.rs: the sessions of the WebUI. `Password` has the localhost password. Times
-- are nanoseconds since the epoch, read from the clock by the caller; the hash map of sessions is an
-- association list with unique keys. SHA-256 and serde_json are the fields of `Outside`; the sidecar
-- file is its content, and a Boolean says whether a save reaches the disk.
pub mod Maps
pub mod Sessions
pub mod Restart
pub mod Password
use nfs_klldap_host.Prelude.{
  ℕ, ◌+◌, ◌-◌, ◌*◌, ◌/◌, ◌%◌, ◌≡◌, Bool, true, false, not, ◌&&◌, ◌||◌, Option, none, some, List, [],
  ◌∷◌, ◌++◌, map, if◌then◌else◌, ltb, leb, Text, same_text, as_bytes, length, retain,
}

pub record Session : Type 0 where
  pub username : Text
  pub expires_at : ℕ

pub record PersistedSession : Type 0 where
  pub username : Text
  pub expires_unix : ℕ

abbrev pub SessionMap : Type 0
SessionMap = List (Text × Session)

abbrev pub Store : Type 0
Store = List (Text × PersistedSession)

pub record Outside : Type 0 where
  pub sha256 : List ℕ → List ℕ
  pub to_string : Store → Option Text
  pub from_str : Text → Option Store

pub record AuthManager : Type 0 where
  pub sessions : SessionMap
  pub sidecar : Option Text
  pub session_ttl : ℕ

-- `HashMap::get`, `remove` and `insert`.
abbrev pub find : Text → SessionMap → Option Session
find key [] = none
find key ((k, s) ∷ rest) = let later = find key rest in if same_text k key then some s else later

abbrev pub remove : Text → SessionMap → SessionMap
remove key m = retain (λ e. not (same_text e.0 key)) m

abbrev pub insert : Text → Session → SessionMap → SessionMap
insert key s m = (key, s) ∷ remove key m

-- One digit of `{:02x}`.
abbrev pub hex_digit : ℕ → ℕ
hex_digit d = if ltb d 10 then 48 + d else 87 + d

unfoldable pub hex_encode : List ℕ → Text
hex_encode [] = []
hex_encode (b ∷ bytes) = hex_digit (b / 16) ∷ hex_digit (b % 16) ∷ hex_encode bytes

unfoldable pub token_hash : Outside → Text → Text
token_hash x token = hex_encode (x.sha256 (as_bytes token))

abbrev pub second : ℕ
second = 1000000000

unfoldable pub persisted : Text × Session → Text × PersistedSession
persisted (key, s) = (key, record { username = s.username; expires_unix = s.expires_at / second })

unfoldable pub restored : Text × PersistedSession → Text × Session
restored (key, p) = (key, record { username = p.username; expires_at = p.expires_unix * second })

unfoldable pub unexpired : ℕ → Text × Session → Bool
unexpired now (key, s) = ltb now s.expires_at

unfoldable pub loaded_store : ℕ → Option Store → SessionMap
unfolding unexpired
loaded_store now none = []
loaded_store now (some entries) = retain (unexpired now) (map restored entries)

unfoldable pub and_then : {A B : Type 0} → Option A → (A → Option B) → Option B
and_then none f = none
and_then (some a) f = f a

-- `load_sessions`; `none` for a sidecar that cannot be read.
unfoldable pub load_sessions : Outside → ℕ → Option Text → SessionMap
unfolding loaded_store and_then
load_sessions x now raw = loaded_store now (and_then raw x.from_str)

-- `AuthManager::new`, after a process that left this sidecar.
unfoldable pub new : Outside → ℕ → Option ℕ → Option Text → AuthManager
new x now ttl sidecar = record {
  sessions = load_sessions x now sidecar;
  sidecar = sidecar;
  session_ttl = elim ttl [ none ↦ 12 * 3600 * second | some d ↦ d ];
}

unfoldable pub written : Bool → Option Text → Option Text → Option Text
written saved old none = old
written saved old (some json) = if saved then some json else old

-- `persist_sessions` on the map that the manager is given.
unfoldable pub persist_sessions : Outside → Bool → SessionMap → AuthManager → AuthManager
unfolding written
persist_sessions x saved m a = record a {
  sessions = m;
  sidecar = written saved a.sidecar (x.to_string (map persisted m));
}

-- The character of a token for a number below 62.
abbrev pub token_char : ℕ → ℕ
token_char c = if leb c 9 then 48 + c else if leb c 35 then 97 + (c - 10) else 65 + (c - 36)

-- The draws of the random generator, and the two readings of the clock.
unfoldable pub create_privileged_session :
    Outside → Bool → List ℕ → ℕ → ℕ → Text → AuthManager → Text × AuthManager
unfolding unexpired
create_privileged_session x saved draws now later username a =
    let token = map token_char draws in
    let m =
      insert (token_hash x token) (record { username = username; expires_at = now + a.session_ttl })
        a.sessions in
    (token, persist_sessions x saved (retain (unexpired later) m) a)

unfoldable pub validate_found :
    Outside → Bool → ℕ → Text → Option Session → AuthManager → Option Text × AuthManager
validate_found x saved now key none a = (none, a)
validate_found x saved now key (some s) a =
    if ltb now s.expires_at
    then (some s.username, a)
    else (none, persist_sessions x saved (remove key a.sessions) a)

unfoldable pub validate : Outside → Bool → ℕ → Text → AuthManager → Option Text × AuthManager
unfolding validate_found
validate x saved now token a =
    validate_found x saved now (token_hash x token) (find (token_hash x token) a.sessions) a

unfoldable pub logout_found : Outside → Bool → Text → Option Session → AuthManager → AuthManager
logout_found x saved key none a = a
logout_found x saved key (some s) a = persist_sessions x saved (remove key a.sessions) a

unfoldable pub logout : Outside → Bool → Text → AuthManager → AuthManager
unfolding logout_found
logout x saved token a =
    logout_found x saved (token_hash x token) (find (token_hash x token) a.sessions) a

unfoldable pub kept_for : Text → Text → Text × Session → Bool
kept_for username keep_key (key, s) = not (same_text s.username username) || same_text key keep_key

unfoldable pub invalidate_sessions_for_user_except :
    Outside → Bool → Text → Text → AuthManager → ℕ × AuthManager
unfolding kept_for
invalidate_sessions_for_user_except x saved username keep_token a =
    let m = retain (kept_for username (token_hash x keep_token)) a.sessions in
    let dropped = length a.sessions - length m in
    (dropped, if ltb 0 dropped then persist_sessions x saved m a else record a { sessions = m })
