-- ===== src/Auth/Restart.antt =====
-- A restart of the WebUI: what `AuthManager::new` of nfs-klldap-ui/src/auth.rs reads back of what
-- `persist_sessions` wrote.
use nfs_klldap_host.Auth.{
  Session, SessionMap, Store, Outside, AuthManager, find, second, persisted, restored, unexpired,
  loaded_store, and_then, load_sessions, new, written, persist_sessions, token_hash, validate,
}
use nfs_klldap_host.Auth.Maps.{IsUnique, find-retain}
use nfs_klldap_host.Auth.Sessions.{user_of, user_of-unexpired, validate_user}
use nfs_klldap_host.Prelude.{
  ℕ, ◌+◌, ◌*◌, ◌/◌, ◌≤◌, ◌≡◌, Bool, true, Option, none, some, [], ◌∷◌, map, refl, sym, ap, ◌∙◌,
  arith, Text, retain,
}

-- A session after the round trip: its expiry is cut to whole seconds.
abbrev truncated : Option Session → Option Session
truncated none = none
truncated (some s) =
    some (record { username = s.username; expires_at = s.expires_at / second * second })

abbrev reread : SessionMap → SessionMap
reread m = map restored (map persisted m)

find-reread : (k : Text) (m : SessionMap) → find k (reread m) ≡ truncated (find k m)
unfolding restored persisted
find-reread k [] = refl
find-reread k ((k', s) ∷ m) = ground (arith, find-reread k m)

reread-IsUnique : (m : SessionMap) → IsUnique m → IsUnique (reread m)
unfolding restored persisted
reread-IsUnique [] u = tt
reread-IsUnique ((k, s) ∷ m) (fresh, u) =
    (find-reread k m ∙ ap truncated fresh, reread-IsUnique m u)

-- What holds of JSON: a store that was written reads back.
pub record ReadsBack (x : Outside) : Type 0 where
  pub reads :
      (store : Store) (raw : Text) → x.to_string store ≡ some raw → x.from_str raw ≡ some store

-- The map of the new process.
loaded :
    (x : Outside) (now : ℕ) (ttl : Option ℕ) (raw : Text) (m : SessionMap) (a : AuthManager)
    → ReadsBack x
    → x.to_string (map persisted m) ≡ some raw
    → (new x now ttl (persist_sessions x true m a).sidecar).sessions
      ≡ retain (unexpired now) (reread m)
unfolding new load_sessions loaded_store and_then persist_sessions written
loaded x now ttl raw m a r h = rw (h, r.reads (map persisted m) raw h) refl

user_of-truncated :
    (t : ℕ) (o : Option Session) (v : Text)
    → (user_of t (truncated o) ≡ some v → user_of t o ≡ some v)
      × (user_of (t + second) o ≡ some v → user_of t (truncated o) ≡ some v)
user_of-truncated t none v = ((λ h. h), (λ h. h))
user_of-truncated t (some s) v = ground arith

-- A restart of the WebUI after a save that reached the disk, for every token and every time not
-- before the start: nobody is signed in by it who was not before, and whoever would still be signed
-- in one second later stays signed in, with the same user name. JSON that was written is assumed to
-- read back.
pub restart-validate :
    (x : Outside) (saved : Bool) (now t : ℕ) (ttl : Option ℕ) (token raw v : Text) (a : AuthManager)
    → ReadsBack x
    → IsUnique a.sessions
    → x.to_string (map persisted a.sessions) ≡ some raw
    → now ≤ t
    → let b = new x now ttl (persist_sessions x true a.sessions a).sidecar in
      ((validate x saved t token b).0 ≡ some v → (validate x saved t token a).0 ≡ some v)
      × ((validate x saved (t + second) token a).0 ≡ some v
          → (validate x saved t token b).0 ≡ some v)
restart-validate x saved now t ttl token raw v a r u h le =
    let k = token_hash x token in
    let b = new x now ttl (persist_sessions x true a.sessions a).sidecar in
    let after : (validate x saved t token b).0 ≡ user_of t (truncated (find k a.sessions)) =
      validate_user x saved t token b
      ∙ ap (λ z. user_of t (find k z)) (loaded x now ttl raw a.sessions a r h)
      ∙ ap (user_of t)
          (find-retain (unexpired now) k (reread a.sessions) (reread-IsUnique a.sessions u))
      ∙ user_of-unexpired now t k (find k (reread a.sessions)) le
      ∙ ap (user_of t) (find-reread k a.sessions) in
    let (down, up) = user_of-truncated t (find k a.sessions) v in
    (
      (λ e. validate_user x saved t token a ∙ down (sym after ∙ e)),
      (λ e. after ∙ up (sym (validate_user x saved (t + second) token a) ∙ e)),
    )
