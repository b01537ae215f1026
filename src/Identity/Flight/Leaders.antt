-- ===== src/Identity/Flight/Leaders.antt =====
-- One leader for each name, in nfs-klldap-config/src/bin/idhelper/daemon.rs.
use nfs_klldap_host.Identity.Flight.{
  FlightGuard, Flights, begin_flight, wake, drop_guard, Step, begins, wakes, drops, Reachable,
  starts, steps,
}
use nfs_klldap_host.Identity.Members.{has_text}
use nfs_klldap_host.Prelude.{
  ◌≡◌, Bool, true, false, not, ◌||◌, ◌&&◌, List, [], ◌∷◌, ◌++◌, refl, sym, ap, ◌∙◌, subst, arith,
  if◌then◌else◌, Text, same_text, same_text_sound, same_text_sym, retain, Bool-cases, inl, inr,
}

abbrev pub leader_keys : List FlightGuard → List Text
leader_keys [] = []
leader_keys (g ∷ guards) = let rest = leader_keys guards in if g.leader then g.key ∷ rest else rest

abbrev pub IsDistinct : List Text → Type 0
IsDistinct [] = Unit
IsDistinct (k ∷ keys) = (has_text k keys ≡ false) × IsDistinct keys

-- No two leaders have one key, and the keys that are held are the leaders'.
abbrev pub IsExclusive : Flights → Type 0
IsExclusive s =
    IsDistinct (leader_keys s.guards)
    × ((k : Text) → has_text k s.keys ≡ has_text k (leader_keys s.guards))

begin_flight-IsExclusive :
    (s : Flights) (key : Text) → IsExclusive s → IsExclusive (begin_flight key s)
unfolding begin_flight
begin_flight-IsExclusive s key (distinct, held) = elim (Bool-cases (has_text key s.keys)) [
  | inl y ↦ rw y (distinct, held)
  | inr n ↦ rw n ((sym (held key) ∙ n, distinct), λ k. ap (λ z. same_text key k || z) (held k))
]

wake-IsExclusive :
    (s : Flights) (front : List Text) (key : Text) (back : List Text)
    → IsExclusive s
    → IsExclusive (wake front key back s)
unfolding wake
wake-IsExclusive s front key back (distinct, held) = elim (Bool-cases (has_text key s.keys)) [
  | inl y ↦ rw y (distinct, held)
  | inr n ↦ rw n (distinct, held)
]

-- What is the same as one key is not the same as another one.
other_key :
    (j key k : Text) → same_text j key ≡ false → same_text key k ≡ true → same_text j k ≡ false
other_key j key k n y = ap (same_text j) (sym (same_text_sound key k y)) ∙ n

-- The keys without one of them.
has_text-retain :
    (key k : Text) (keys : List Text)
    → has_text k (retain (λ j. not (same_text j key)) keys)
      ≡ (not (same_text key k) && has_text k keys)
has_text-retain key k [] = ground arith
has_text-retain key k (j ∷ keys) = elim (Bool-cases (same_text j key)) [
  | inl y ↦
      rw (y, ap (λ z. same_text z k) (same_text_sound j key y))
        (ground (arith, has_text-retain key k keys))
  | inr n ↦ elim (Bool-cases (same_text key k)) [
    | inl same ↦ rw (n, same, other_key j key k n same) (ground (arith, has_text-retain key k keys))
    | inr other ↦ rw (n, other) (ground (arith, has_text-retain key k keys))
  ]
]

has_text-append :
    (k : Text) (a b : List Text) → has_text k (a ++ b) ≡ (has_text k a || has_text k b)
has_text-append k [] b = refl
has_text-append k (x ∷ a) b = ground (arith, has_text-append k a b)

leader_keys-append :
    (front back : List FlightGuard)
    → leader_keys (front ++ back) ≡ leader_keys front ++ leader_keys back
leader_keys-append [] back = refl
leader_keys-append (g ∷ front) back = elim (Bool-cases g.leader) [
  | inl y ↦ rw y (ap (λ z. g.key ∷ z) (leader_keys-append front back))
  | inr n ↦ rw n (leader_keys-append front back)
]

parts_false :
    (a b c : Bool) {h : Bool} → h ≡ (a || (b || c)) → h ≡ false → (b ≡ false) × ((a || c) ≡ false)
parts_false a b c e h = (ground arith, ground arith)

-- A key that is taken out of distinct ones leaves distinct ones without it.
IsDistinct-middle :
    (a : List Text) (key : Text) (b : List Text)
    → IsDistinct (a ++ key ∷ b)
    → IsDistinct (a ++ b) × (has_text key (a ++ b) ≡ false)
IsDistinct-middle [] key b (fresh, d) = (d, fresh)
IsDistinct-middle (x ∷ a) key b (fresh, d) =
    let (rest, without) = IsDistinct-middle a key b d in
    let (apart, clear) =
      parts_false (has_text x a) (same_text key x) (has_text x b) (has_text-append x a (key ∷ b))
        fresh in
    ((has_text-append x a b ∙ clear, rest), rw (same_text_sym x key, apart) without)

has_text_middle :
    (a : List Text) (key : Text) (b : List Text) (k : Text)
    → has_text key (a ++ b) ≡ false
    → has_text k (a ++ b) ≡ (not (same_text key k) && has_text k (a ++ key ∷ b))
has_text_middle a key b k without = elim (Bool-cases (same_text key k)) [
  | inl y ↦ rw y (ap (λ z. has_text z (a ++ b)) (sym (same_text_sound key k y)) ∙ without)
  | inr n ↦ rw n (has_text-append k a b ∙ sym (has_text-append k a (key ∷ b) ∙ rw n refl))
]

-- What is left of the leaders.
dropped :
    (keys : List Text) (front : List FlightGuard) (g : FlightGuard) (back : List FlightGuard)
    (b : Bool)
    → g.leader ≡ b
    → IsDistinct (leader_keys (front ++ g ∷ back))
    → ((k : Text) → has_text k keys ≡ has_text k (leader_keys (front ++ g ∷ back)))
    → IsDistinct (leader_keys (front ++ back))
      × ((k : Text)
          → has_text k (if b then retain (λ j. not (same_text j g.key)) keys else keys)
            ≡ has_text k (leader_keys (front ++ back)))
dropped keys front g back false follower distinct held =
    let same =
      leader_keys-append front (g ∷ back) ∙ rw follower (sym (leader_keys-append front back)) in
    (subst IsDistinct same distinct, λ k. held k ∙ ap (has_text k) same)
dropped keys front g back true leads distinct held =
    let whole : leader_keys (front ++ g ∷ back) ≡ leader_keys front ++ g.key ∷ leader_keys back =
      leader_keys-append front (g ∷ back) ∙ rw leads refl in
    let (rest, without) =
      IsDistinct-middle (leader_keys front) g.key (leader_keys back)
        (subst IsDistinct whole distinct) in
    let left = leader_keys-append front back in
    (
      subst IsDistinct (sym left) rest,
      λ k.
          has_text-retain g.key k keys
          ∙ ap (λ z. not (same_text g.key k) && z) (held k ∙ ap (has_text k) whole)
          ∙ sym (has_text_middle (leader_keys front) g.key (leader_keys back) k without)
          ∙ ap (has_text k) (sym left),
    )

Step-IsExclusive : (s t : Flights) → Step s t → IsExclusive s → IsExclusive t
unfolding drop_guard
Step-IsExclusive s _ (begins _ key) h = begin_flight-IsExclusive s key h
Step-IsExclusive s _ (wakes _ front key back e) h = wake-IsExclusive s front key back h
Step-IsExclusive s _ (drops _ front g back e) (distinct, held) =
    dropped s.keys front g back g.leader refl (subst (λ z. IsDistinct (leader_keys z)) e distinct)
      (λ k. held k ∙ ap (λ z. has_text k (leader_keys z)) e)

-- In whatever order threads begin, wake and finish, at every moment no two leaders have the same
-- name, and the names that are held are exactly those of the leaders: none is held for ever by a
-- leader that is gone.
pub Reachable-IsExclusive : (s : Flights) → Reachable s → IsExclusive s
Reachable-IsExclusive _ starts = (tt, λ k. refl)
Reachable-IsExclusive _ (steps s t r step) = Step-IsExclusive s t step (Reachable-IsExclusive s r)
