-- ===== src/Auth/Maps.antt =====
-- The session map of nfs-klldap-ui/src/auth.rs as a map: unique keys, and lookups after each change.
use nfs_klldap_host.Auth.{Session, SessionMap, find, remove, insert}
use nfs_klldap_host.Prelude.{
  ◌≡◌, Bool, not, Option, none, some, [], ◌∷◌, refl, arith, if◌then◌else◌, Text, same_text,
  same_text_sound, same_text_refl, same_text_sym, subst, retain, Bool-cases, inl, inr,
}

abbrev pub IsUnique : SessionMap → Type 0
IsUnique [] = Unit
IsUnique ((k, s) ∷ m) = (find k m ≡ none) × IsUnique m

-- What a `retain` leaves of the entry found under a key.
abbrev pub keep_if : (Text × Session → Bool) → Text → Option Session → Option Session
keep_if p k none = none
keep_if p k (some s) = if p (k, s) then some s else none

pub find-none-retain :
    (p : Text × Session → Bool) (k : Text) (m : SessionMap)
    → find k m ≡ none
    → find k (retain p m) ≡ none
find-none-retain p k [] h = refl
find-none-retain p k ((k', s) ∷ m) h = ground (arith, find-none-retain p k m)

find-retain_head :
    (p : Text × Session → Bool) (k : Text) (s : Session) (m : SessionMap)
    → find k m ≡ none
    → find k (retain p ((k, s) ∷ m)) ≡ keep_if p k (find k ((k, s) ∷ m))
find-retain_head p k s m h = ground (arith, same_text_refl k, find-none-retain p k m)

pub find-retain :
    (p : Text × Session → Bool) (k : Text) (m : SessionMap)
    → IsUnique m
    → find k (retain p m) ≡ keep_if p k (find k m)
find-retain p k [] u = refl
find-retain p k ((k', s) ∷ m) (fresh, u) = elim (Bool-cases (same_text k' k)) [
  | inl same ↦
      subst (λ key. find key (retain p ((k', s) ∷ m)) ≡ keep_if p key (find key ((k', s) ∷ m)))
        (same_text_sound k' k same) (find-retain_head p k' s m fresh)
  | inr other ↦ ground (arith, find-retain p k m u)
]

pub retain-IsUnique :
    (p : Text × Session → Bool) (m : SessionMap) → IsUnique m → IsUnique (retain p m)
retain-IsUnique p [] u = tt
retain-IsUnique p ((k, s) ∷ m) (fresh, u) = elim (Bool-cases (p (k, s))) [
  | inl kept ↦ rw kept (find-none-retain p k m fresh, retain-IsUnique p m u)
  | inr gone ↦ rw gone (retain-IsUnique p m u)
]

find-remove : (k : Text) (m : SessionMap) → find k (remove k m) ≡ none
find-remove k [] = refl
find-remove k ((k', s) ∷ m) = ground (arith, find-remove k m)

pub insert-IsUnique :
    (k : Text) (s : Session) (m : SessionMap) → IsUnique m → IsUnique (insert k s m)
insert-IsUnique k s m u = (find-remove k m, retain-IsUnique _ m u)

pub find-remove_cases :
    (key k : Text) (m : SessionMap)
    → IsUnique m
    → find k (remove key m) ≡ (if same_text key k then none else find k m)
find-remove_cases key k m u =
    ground (arith, find-retain (λ e. not (same_text e.0 key)) k m u, same_text_sym k key)

pub find-insert :
    (key k : Text) (s : Session) (m : SessionMap)
    → IsUnique m
    → find k (insert key s m) ≡ (if same_text key k then some s else find k m)
find-insert key k s m u = ground (arith, find-remove_cases key k m u)
