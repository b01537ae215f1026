-- ===== src/AclWatch.antt =====
-- The ACL re-probe loop of nfs-klldap-ui/src/web/acl_watch.rs. Times are in seconds. The verdicts of
-- one tick and the answer of the recycle scheduler are arguments; a banner is the names in it.
pub mod Flips
pub mod Spacing
use nfs_klldap_host.Mounts.Flags.{AclProbeVerdict, capable, incapable, inconclusive}
use nfs_klldap_host.Prelude.{
  ℕ, suc, ◌+◌, ◌-◌, Bool, true, false, not, ◌&&◌, Option, none, some, List, [], ◌∷◌, ◌++◌, map,
  if◌then◌else◌, ltb, leb, Text, same_text,
}

abbrev pub auto_hup_min_interval : ℕ
auto_hup_min_interval = 600

abbrev pub flip_streak : ℕ
flip_streak = 2

pub record FlipState : Type 0 where
  pub baseline : Bool
  pub last : Bool
  pub streak : ℕ

pub record FlipTracker : Type 0 where
  pub auto : List (Text × FlipState)
  pub incap : List (Text × ℕ)
  pub last_auto_hup : Option ℕ

-- `saturating_add(1)` on a u8.
abbrev pub saturating_suc : ℕ → ℕ
saturating_suc n = if ltb n 255 then suc n else 255

abbrev pub same_bool : Bool → Bool → Bool
same_bool true b = b
same_bool false b = not b

-- The new state, and whether a stable change is to be acted on.
unfoldable pub track_auto_flip : FlipState → Bool → FlipState × Bool
track_auto_flip st current =
    let next =
      if same_bool current st.last
      then record st { streak = saturating_suc st.streak }
      else record st { last = current; streak = 1 } in
    (next, not (same_bool current st.baseline) && leb flip_streak next.streak)

-- `entry(name).or_insert(..)`, then the step.
unfoldable pub track_entry : Text → Bool → List (Text × FlipState) → List (Text × FlipState) × Bool
track_entry name current [] =
    let (st, flips) =
      track_auto_flip (record { baseline = current; last = current; streak = 0 }) current in
    ((name, st) ∷ [], flips)
track_entry name current ((k, st) ∷ auto) =
    let (rest, later) = track_entry name current auto in
    let (next, flips) = track_auto_flip st current in
    if same_text k name then ((k, next) ∷ auto, flips) else ((k, st) ∷ rest, later)

abbrev counted : Bool → ℕ → ℕ
counted failed n = if failed then saturating_suc n else 0

unfoldable pub count_entry : Text → Bool → List (Text × ℕ) → List (Text × ℕ) × ℕ
count_entry name failed [] = ((name, counted failed 0) ∷ [], counted failed 0)
count_entry name failed ((k, n) ∷ incap) =
    let (rest, later) = count_entry name failed incap in
    if same_text k name
    then ((k, counted failed n) ∷ incap, counted failed n)
    else ((k, n) ∷ rest, later)

-- A share of the configuration with the verdict of this tick.
pub record Reading : Type 0 where
  pub name : Text
  pub enable_acl : Option Bool
  pub verdict : AclProbeVerdict

abbrev is_capable : AclProbeVerdict → Bool
is_capable capable = true
is_capable _ = false

abbrev is_incapable : AclProbeVerdict → Bool
is_incapable incapable = true
is_incapable _ = false

-- What the pass over the shares has gathered: the tracker, the first share that flips, and the
-- explicit ones that fail.
pub record Pass : Type 0 where
  pub tracker : FlipTracker
  pub flip : Option Text
  pub failing : List Text

abbrev get_or_insert : Bool → Text → Option Text → Option Text
get_or_insert true name none = some name
get_or_insert _ name flip = flip

unfoldable pub read_share : Reading → Option Bool → Pass → Pass
read_share s none p =
    let (auto, flips) = track_entry s.name (is_capable s.verdict) p.tracker.auto in
    record p {
      tracker = record (p.tracker) { auto = auto };
      flip = get_or_insert flips s.name p.flip;
    }
read_share s (some true) p =
    let (incap, streak) = count_entry s.name (is_incapable s.verdict) p.tracker.incap in
    record p {
      tracker = record (p.tracker) { incap = incap };
      failing = (if leb flip_streak streak then p.failing ++ s.name ∷ [] else p.failing);
    }
read_share s (some false) p = p

unfoldable pub read_shares : List Reading → Pass → Pass
read_shares [] p = p
read_shares (s ∷ shares) p = read_shares shares (read_share s s.enable_acl p)

abbrev pub build_alert : List Text → Option (List Text)
build_alert [] = none
build_alert (name ∷ failing) = some (name ∷ failing)

abbrev adopt : Text × FlipState → Text × FlipState
adopt (k, st) = (k, record st { baseline = st.last; streak = 0 })

-- One tick: the recycle in flight, the readings, the clock when the interval is tested and when the
-- recycle is noted, and whether the scheduler takes the recycle.
pub record Tick : Type 0 where
  pub in_flight : Bool
  pub readings : List Reading
  pub now : ℕ
  pub after : ℕ
  pub accepts : Bool

pub record TickOutcome : Type 0 where
  pub hup_scheduled : Bool
  pub alert : Option (List Text)

-- The outcome, the tracker and the banner.
pub record Ticked : Type 0 where
  pub outcome : TickOutcome
  pub tracker : FlipTracker
  pub banner : Option (List Text)

abbrev pub rate_ok : Option ℕ → ℕ → Bool
rate_ok none now = true
rate_ok (some t) now = leb auto_hup_min_interval (now - t)

unfoldable pub schedule : Tick → Option (List Text) → Option Text → FlipTracker → Ticked
schedule tick alert none tracker = record {
  outcome = record { hup_scheduled = false; alert = alert };
  tracker = tracker;
  banner = alert;
}
schedule tick alert (some name) tracker =
    if rate_ok tracker.last_auto_hup tick.now && tick.accepts
    then record {
      outcome = record { hup_scheduled = true; alert = alert };
      tracker = record tracker { auto = map adopt tracker.auto; last_auto_hup = some tick.after };
      banner = alert;
    }
    else record {
      outcome = record { hup_scheduled = false; alert = alert };
      tracker = tracker;
      banner = alert;
    }

unfoldable pub acl_reprobe_tick : Tick → FlipTracker → Option (List Text) → Ticked
acl_reprobe_tick tick tracker banner =
    let p = read_shares tick.readings (record { tracker = tracker; flip = none; failing = [] }) in
    if tick.in_flight
    then record {
      outcome = record { hup_scheduled = false; alert = none };
      tracker = tracker;
      banner = banner;
    }
    else schedule tick (build_alert p.failing) p.flip p.tracker
