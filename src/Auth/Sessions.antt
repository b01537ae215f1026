-- ===== src/Auth/Sessions.antt =====
-- What the session operations of nfs-klldap-ui/src/auth.rs do to every token.
use nfs_klldap_host.Auth.{
  Session, SessionMap, Outside, AuthManager, find, insert, token_hash, create_privileged_session,
  validate, logout, logout_found, validate_found, invalidate_sessions_for_user_except,
  persist_sessions, unexpired, kept_for, token_char,
}
use nfs_klldap_host.Auth.Maps.{
  IsUnique, keep_if, find-insert, find-remove_cases, find-retain, retain-IsUnique, insert-IsUnique,
}
use nfs_klldap_host.Prelude.{
  ℕ, ◌+◌, ◌-◌, ◌≤◌, ◌≡◌, Bool, true, false, not, ◌||◌, Option, none, some, List, refl, arith,
  if◌then◌else◌, ltb, Text, same_text, same_text_sound, length, length-retain, subst, Bool-cases,
  retain, map, sym, ap, ◌∙◌, inl, inr,
}

-- Whom a token stands for at a time, on the map alone.
abbrev pub user_of : ℕ → Option Session → Option Text
user_of t none = none
user_of t (some s) = if ltb t s.expires_at then some s.username else none

pub validate_user :
    (x : Outside) (saved : Bool) (t : ℕ) (token : Text) (a : AuthManager)
    → (validate x saved t token a).0 ≡ user_of t (find (token_hash x token) a.sessions)
unfolding validate
validate_user x saved t token a = ground arith

-- Dropping what expired by `later` is not seen from `later` on.
pub user_of-unexpired :
    (later t : ℕ) (k : Text) (o : Option Session)
    → later ≤ t
    → user_of t (keep_if (unexpired later) k o) ≡ user_of t o
unfolding unexpired
user_of-unexpired later t k none h = refl
user_of-unexpired later t k (some s) h = ground arith

user_of_if :
    (t : ℕ) (c : Bool) (o p : Option Session)
    → user_of t (if c then o else p) ≡ (if c then user_of t o else user_of t p)
user_of_if t true o p = refl
user_of_if t false o p = refl

-- Creating a session, for every token `other` and every time `t` not before the clock's second
-- reading: the new token (and any token with the same hash) is the user's until its lifetime is over
-- and nobody's after; any other token is whose it was before.
pub create_privileged_session-validate :
    (x : Outside) (saved again : Bool) (draws : List ℕ) (now later t : ℕ) (username other : Text)
    (a : AuthManager)
    → IsUnique a.sessions
    → later ≤ t
    → let (token, a') = create_privileged_session x saved draws now later username a in
      (validate x again t other a').0 ≡ (
        if same_text (token_hash x token) (token_hash x other)
        then (if ltb t (now + a.session_ttl) then some username else none)
        else (validate x again t other a).0)
unfolding create_privileged_session persist_sessions
create_privileged_session-validate x saved again draws now later t username other a u h =
    let key = token_hash x (map token_char draws) in
    let k = token_hash x other in
    let s : Session = record { username = username; expires_at = now + a.session_ttl } in
    let m = insert key s a.sessions in
    validate_user x again t other _
    ∙ ap (user_of t) (find-retain (unexpired later) k m (insert-IsUnique key s a.sessions u))
    ∙ user_of-unexpired later t k (find k m) h
    ∙ ap (user_of t) (find-insert key k s a.sessions u)
    ∙ user_of_if t (same_text key k) (some s) (find k a.sessions)
    ∙ ap
        (λ z.
          if same_text key k
          then (if ltb t (now + a.session_ttl) then some username else none)
          else z)
        (sym (validate_user x again t other a))

none_of_same :
    (key k : Text) (m : SessionMap) → find key m ≡ none → same_text key k ≡ true → find k m ≡ none
none_of_same key k m h same = ap (λ z. find z m) (sym (same_text_sound key k same)) ∙ h

logout_found-find :
    (x : Outside) (saved : Bool) (key k : Text) (o : Option Session) (a : AuthManager)
    → IsUnique a.sessions
    → find key a.sessions ≡ o
    → find k (logout_found x saved key o a).sessions
      ≡ (if same_text key k then none else find k a.sessions)
unfolding logout_found persist_sessions
logout_found-find x saved key k none a u h = ground (arith, none_of_same key k a.sessions h)
logout_found-find x saved key k (some s) a u h = find-remove_cases key k a.sessions u

-- After a logout the token (and any token with the same hash) is nobody's at any time, and every
-- other token is whose it was.
pub logout-validate :
    (x : Outside) (saved again : Bool) (t : ℕ) (token other : Text) (a : AuthManager)
    → IsUnique a.sessions
    → (validate x again t other (logout x saved token a)).0 ≡ (
        if same_text (token_hash x token) (token_hash x other)
        then none
        else (validate x again t other a).0)
unfolding logout
logout-validate x saved again t token other a u =
    let key = token_hash x token in
    let k = token_hash x other in
    validate_user x again t other _
    ∙ ap (user_of t) (logout_found-find x saved key k (find key a.sessions) a u refl)
    ∙ user_of_if t (same_text key k) none (find k a.sessions)
    ∙ ap (λ z. if same_text key k then none else z) (sym (validate_user x again t other a))

invalidated_sessions :
    (x : Outside) (saved : Bool) (username keep_token : Text) (a : AuthManager)
    → (invalidate_sessions_for_user_except x saved username keep_token a).1.sessions
      ≡ retain (kept_for username (token_hash x keep_token)) a.sessions
unfolding invalidate_sessions_for_user_except persist_sessions
invalidated_sessions x saved username keep_token a = chosen (
    ltb 0 (
      length a.sessions - length (retain (kept_for username (token_hash x keep_token)) a.sessions)))
  where
    chosen :
        (c : Bool)
        → (if c
            then persist_sessions x saved
                (retain (kept_for username (token_hash x keep_token)) a.sessions)
                a
            else record a {
              sessions = retain (kept_for username (token_hash x keep_token)) a.sessions;
            }).sessions
          ≡ retain (kept_for username (token_hash x keep_token)) a.sessions
    chosen true = refl
    chosen false = refl

-- The user of a token once `username` has been signed out, but for the kept token.
abbrev pub unless : Text → Bool → Option Text → Option Text
unless username keep none = none
unless username keep (some v) = if not (same_text v username) || keep then some v else none

user_of-kept_for :
    (t : ℕ) (username keep k : Text) (o : Option Session)
    → user_of t (keep_if (kept_for username keep) k o)
      ≡ unless username (same_text k keep) (user_of t o)
unfolding kept_for
user_of-kept_for t username keep k none = refl
user_of-kept_for t username keep k (some s) = ground arith

-- Invalidating a user's sessions, for every token and time: a token that was that user's is nobody's
-- afterwards unless it has the kept token's hash, and any other token is whose it was; the number
-- returned is the number of sessions dropped, and none is added.
pub invalidate_sessions_for_user_except-validate :
    (x : Outside) (saved again : Bool) (t : ℕ) (username keep_token other : Text) (a : AuthManager)
    → IsUnique a.sessions
    → let (dropped, a') = invalidate_sessions_for_user_except x saved username keep_token a in
      ((validate x again t other a').0
        ≡ unless username
            (same_text (token_hash x other) (token_hash x keep_token))
            (validate x again t other a).0)
      × (length a'.sessions + dropped ≡ length a.sessions)
unfolding invalidate_sessions_for_user_except
invalidate_sessions_for_user_except-validate x saved again t username keep_token other a u =
    let keep = token_hash x keep_token in
    let k = token_hash x other in
    let m = retain (kept_for username keep) a.sessions in
    let same = invalidated_sessions x saved username keep_token a in
    (
      validate_user x again t other _
          ∙ ap (λ z. user_of t (find k z)) same
          ∙ ap (user_of t) (find-retain (kept_for username keep) k a.sessions u)
          ∙ user_of-kept_for t username keep k (find k a.sessions)
          ∙ ap (unless username (same_text k keep)) (sym (validate_user x again t other a)),
      ap (λ z. length z + (length a.sessions - length m)) same
          ∙ omega (arith, length-retain (kept_for username keep) a.sessions),
    )

validate_found-IsUnique :
    (x : Outside) (saved : Bool) (now : ℕ) (key : Text) (o : Option Session) (a : AuthManager)
    → IsUnique a.sessions
    → IsUnique (validate_found x saved now key o a).1.sessions
unfolding validate_found persist_sessions
validate_found-IsUnique x saved now key none a u = u
validate_found-IsUnique x saved now key (some s) a u = elim (Bool-cases (ltb now s.expires_at)) [
  | inl fresh ↦ rw fresh u
  | inr old ↦ rw old (retain-IsUnique _ _ u)
]

logout_found-IsUnique :
    (x : Outside) (saved : Bool) (key : Text) (o : Option Session) (a : AuthManager)
    → IsUnique a.sessions
    → IsUnique (logout_found x saved key o a).sessions
unfolding logout_found persist_sessions
logout_found-IsUnique x saved key none a u = u
logout_found-IsUnique x saved key (some s) a u = retain-IsUnique _ _ u

-- Every operation keeps the keys of the session map unique.
pub sessions-IsUnique :
    (x : Outside) (saved : Bool) (draws : List ℕ) (now later : ℕ) (token username : Text)
    (a : AuthManager)
    → IsUnique a.sessions
    → IsUnique (create_privileged_session x saved draws now later username a).1.sessions
      × IsUnique (validate x saved now token a).1.sessions
      × IsUnique (logout x saved token a).sessions
      × IsUnique (invalidate_sessions_for_user_except x saved username token a).1.sessions
unfolding create_privileged_session persist_sessions validate logout
sessions-IsUnique x saved draws now later token username a u =
    let key = token_hash x (map token_char draws) in
    let s : Session = record { username = username; expires_at = now + a.session_ttl } in
    (
      retain-IsUnique (unexpired later) (insert key s a.sessions)
          (insert-IsUnique key s a.sessions u),
      validate_found-IsUnique x saved now (token_hash x token) _ a u,
      logout_found-IsUnique x saved (token_hash x token) _ a u,
      subst IsUnique (sym (invalidated_sessions x saved username token a)) (retain-IsUnique _ _ u),
    )
