-- ===== src/Identity/Flight.antt =====
-- The single flight of nfs-klldap-config/src/bin/idhelper/daemon.rs: of the threads that resolve one
-- name at a time, one leads and the others wait. The steps of all threads interleave; a thread that
-- waits is its key in `waiting`, one that has come through is its guard in `guards`.
pub mod Leaders
use nfs_klldap_host.Identity.Members.{has_text}
use nfs_klldap_host.Prelude.{
  ◌≡◌, Bool, true, false, not, List, [], ◌∷◌, ◌++◌, if◌then◌else◌, Text, same_text, retain,
}

pub record FlightGuard : Type 0 where
  pub key : Text
  pub leader : Bool

pub record Flights : Type 0 where
  pub keys : List Text
  pub waiting : List Text
  pub guards : List FlightGuard

abbrev pub none_flying : Flights
none_flying = record { keys = []; waiting = []; guards = [] }

-- `begin`, up to the first wait: the key is claimed, or the thread waits for it.
unfoldable pub begin_flight : Text → Flights → Flights
begin_flight key s =
    if has_text key s.keys
    then record s { waiting = key ∷ s.waiting }
    else record s { keys = key ∷ s.keys; guards = record { key = key; leader = true } ∷ s.guards }

-- A woken thread looks again: its key is still held, or it comes through as a follower. The other
-- waiting threads are around it.
unfoldable pub wake : List Text → Text → List Text → Flights → Flights
wake front key back s = if has_text key s.keys then s else record s {
  waiting = front ++ back;
  guards = record { key = key; leader = false } ∷ s.guards;
}

-- A guard is dropped; the other guards are around it.
unfoldable pub drop_guard : List FlightGuard → FlightGuard → List FlightGuard → Flights → Flights
drop_guard front g back s = record s {
  keys = (if g.leader then retain (λ k. not (same_text k g.key)) s.keys else s.keys);
  guards = front ++ back;
}

-- One step of one thread.
pub data Step : Flights → Flights → Type 0 where
  begins : (s : Flights) (key : Text) → Step s (begin_flight key s)
  wakes :
      (s : Flights) (front : List Text) (key : Text) (back : List Text)
      → s.waiting ≡ front ++ (key ∷ back)
      → Step s (wake front key back s)
  drops :
      (s : Flights) (front : List FlightGuard) (g : FlightGuard) (back : List FlightGuard)
      → s.guards ≡ front ++ (g ∷ back)
      → Step s (drop_guard front g back s)

pub data Reachable : Flights → Type 0 where
  starts : Reachable none_flying
  steps : (s t : Flights) → Reachable s → Step s t → Reachable t
