-- ===== src/AclWatch/Spacing.antt =====
-- How often the re-probe loop of nfs-klldap-ui/src/web/acl_watch.rs asks for a recycle.
use nfs_klldap_host.AclWatch.{
  FlipTracker, Reading, Pass, read_share, read_shares, Tick, Ticked, rate_ok, auto_hup_min_interval,
  schedule, build_alert, acl_reprobe_tick,
}
use nfs_klldap_host.Prelude.{
  ℕ, ◌+◌, ◌≤◌, ◌≡◌, Bool, true, false, ◌&&◌, Option, none, some, List, [], ◌∷◌, refl, ◌∙◌, arith,
  if◌then◌else◌, Text, subst, Bool-cases, inl, inr, ◌⊎◌,
}

-- The recycles that a run of ticks schedules: when the interval was tested, and when it was noted.
abbrev pub scheduled : List Tick → FlipTracker → Option (List Text) → List (ℕ × ℕ)
scheduled [] tracker banner = []
scheduled (tick ∷ ticks) tracker banner =
    let t = acl_reprobe_tick tick tracker banner in
    let later = scheduled ticks t.tracker t.banner in
    if t.outcome.hup_scheduled then (tick.now, tick.after) ∷ later else later

-- Each is at least the interval after the one before it.
abbrev pub IsSpaced : Option ℕ → List (ℕ × ℕ) → Type 0
IsSpaced last [] = Unit
IsSpaced none ((now, after) ∷ hups) = IsSpaced (some after) hups
IsSpaced (some t) ((now, after) ∷ hups) =
    (t + auto_hup_min_interval ≤ now) × IsSpaced (some after) hups

read_share-last_auto_hup :
    (s : Reading) (e : Option Bool) (p : Pass)
    → (read_share s e p).tracker.last_auto_hup ≡ p.tracker.last_auto_hup
unfolding read_share
read_share-last_auto_hup s none p = refl
read_share-last_auto_hup s (some true) p = refl
read_share-last_auto_hup s (some false) p = refl

read_shares-last_auto_hup :
    (shares : List Reading) (p : Pass)
    → (read_shares shares p).tracker.last_auto_hup ≡ p.tracker.last_auto_hup
unfolding read_shares
read_shares-last_auto_hup [] p = refl
read_shares-last_auto_hup (s ∷ shares) p =
    read_shares-last_auto_hup shares (read_share s s.enable_acl p)
    ∙ read_share-last_auto_hup s s.enable_acl p

-- A tick leaves the time of the last recycle, or it schedules one in time and notes it.
abbrev Stepped : Option ℕ → Tick → Ticked → Type 0
Stepped last tick t =
    ((t.outcome.hup_scheduled ≡ false) × (t.tracker.last_auto_hup ≡ last))
    ⊎ ((t.outcome.hup_scheduled ≡ true)
        × (t.tracker.last_auto_hup ≡ some tick.after)
        × (rate_ok last tick.now ≡ true))

left_true : (a b : Bool) → (a && b) ≡ true → a ≡ true
left_true a b h = ground arith

schedule-Stepped :
    (tick : Tick) (alert : Option (List Text)) (flip : Option Text) (tracker : FlipTracker)
    → Stepped tracker.last_auto_hup tick (schedule tick alert flip tracker)
unfolding schedule
schedule-Stepped tick alert none tracker = inl (refl, refl)
schedule-Stepped tick alert (some name) tracker =
    elim (Bool-cases (rate_ok tracker.last_auto_hup tick.now && tick.accepts)) [
      | inl y ↦
          rw y (inr (refl, refl, left_true (rate_ok tracker.last_auto_hup tick.now) tick.accepts y))
      | inr n ↦ rw n (inl (refl, refl))
    ]

if_Stepped :
    (last : Option ℕ) (tick : Tick) (c : Bool) (t u : Ticked)
    → Stepped last tick t
    → Stepped last tick u
    → Stepped last tick (if c then t else u)
if_Stepped last tick true t u h k = h
if_Stepped last tick false t u h k = k

acl_reprobe_tick-Stepped :
    (tick : Tick) (tracker : FlipTracker) (banner : Option (List Text))
    → Stepped tracker.last_auto_hup tick (acl_reprobe_tick tick tracker banner)
unfolding acl_reprobe_tick
acl_reprobe_tick-Stepped tick tracker banner =
    let p = read_shares tick.readings (record { tracker = tracker; flip = none; failing = [] }) in
    let alert = build_alert p.failing in
    if_Stepped tracker.last_auto_hup tick tick.in_flight _ (schedule tick alert p.flip p.tracker)
      (inl (refl, refl))
      (subst (λ z. Stepped z tick (schedule tick alert p.flip p.tracker))
        (read_shares-last_auto_hup tick.readings
          (record { tracker = tracker; flip = none; failing = [] }))
        (schedule-Stepped tick alert p.flip p.tracker))

IsSpaced-cons :
    (last : Option ℕ) (now after : ℕ) (hups : List (ℕ × ℕ))
    → rate_ok last now ≡ true
    → IsSpaced (some after) hups
    → IsSpaced last ((now, after) ∷ hups)
IsSpaced-cons none now after hups h k = k
IsSpaced-cons (some t) now after hups h k = (ground arith, k)

-- Over any run of ticks, whatever the readings, the clock and the scheduler do, a recycle that the
-- loop schedules comes at least 600 seconds after the one before it, the one noted in the tracker at
-- the start included.
pub acl_reprobe_tick-IsSpaced :
    (ticks : List Tick) (tracker : FlipTracker) (banner : Option (List Text))
    → IsSpaced tracker.last_auto_hup (scheduled ticks tracker banner)
acl_reprobe_tick-IsSpaced [] tracker banner = tt
acl_reprobe_tick-IsSpaced (tick ∷ ticks) tracker banner =
    let t = acl_reprobe_tick tick tracker banner in
    let later = acl_reprobe_tick-IsSpaced ticks t.tracker t.banner in
    elim (acl_reprobe_tick-Stepped tick tracker banner) [
      | inl (quiet, kept) ↦
          rw quiet (subst (λ z. IsSpaced z (scheduled ticks t.tracker t.banner)) kept later)
      | inr (hup, noted, fine) ↦ rw hup (
          IsSpaced-cons tracker.last_auto_hup tick.now tick.after
            (scheduled ticks t.tracker t.banner) fine
            (subst (λ z. IsSpaced z (scheduled ticks t.tracker t.banner)) noted later))
    ]
