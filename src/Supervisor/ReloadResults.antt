-- ===== src/Supervisor/ReloadResults.antt =====
-- What `handle_sighup` and `handle_full_recycle` of nfs-klldap-config/src/supervisor/mod.rs return,
-- and what they leave behind.
use nfs_klldap_host.Prelude.{
  ℕ, ◌≡◌, ◌≢◌, ◌⊎◌, inl, inr, Bool, true, false, not, Option, none, some, List, [], ◌∷◌, refl, ap,
  sym, ◌∙◌, arith,
}
use mathlib.Core.Path.{subst}
use nfs_klldap_host.Respawn.{Service}
use nfs_klldap_host.Supervisor.Apply.{
  FingerprintChanges, regenerate_and_diff, apply_changes, finish_recycle, handle_sighup,
  handle_full_recycle, recycle_all,
}
use nfs_klldap_host.Supervisor.Emits.{all_acts, Neutral, Permits}
use nfs_klldap_host.Supervisor.EmitsServices.{start_watcher-Emits}
use nfs_klldap_host.Supervisor.Ganesha.{refresh_tracked_ganesha_pid}
use nfs_klldap_host.Supervisor.Reloads.{before_regeneration, regenerated, regenerate_and_diff-none}
use nfs_klldap_host.Supervisor.Services.{start_watcher}
use nfs_klldap_host.Supervisor.State.{
  Act, marked_recycle, reaped, Os, Supervisor, Machine, M, ◌>>=◌, ◌>>◌, done, modify, steps, when,
}

-- The supervisor after a reap, with a tracked Ganesha that has died dropped.
abbrev pub Refreshed : {os : Os} → Machine os → Supervisor → Type 0
Refreshed {os} m sup =
    (sup ≡ m.sup)
    ⊎ ((pid : ℕ) × (m.sup.pids.ganesha ≡ some pid)
        × (os.is_live pid (os.perform reaped m.world) ≡ false)
        × (sup ≡ record (m.sup) { pids = record (m.sup.pids) { ganesha = none } }))

before_regeneration-Refreshed :
    {os : Os} (m : Machine os)
    → Refreshed m (before_regeneration m).sup × ((before_regeneration m).trace ≡ reaped ∷ m.trace)
unfolding refresh_tracked_ganesha_pid steps
before_regeneration-Refreshed m = ground arith

anything : Act → Bool
anything a = true

anything-Permits : (service : Service) → Permits anything service
unfolding anything
anything-Permits service = record {
  signals = λ signal pid. refl;
  pkills = refl;
  spawns = λ pid. refl;
  failures = refl;
}

all_acts-anything : (acts : List Act) → all_acts anything acts ≡ true
unfolding anything
all_acts-anything [] = refl
all_acts-anything (a ∷ acts) = all_acts-anything acts

anything-Neutral : Neutral anything
unfolding anything
anything-Neutral = record {
  sleeps = λ ms. refl;
  reaps = refl;
  rpcbind = refl;
  dirs = refl;
  permissions = refl;
  seeds = refl;
  preresolves = refl;
  winbind = refl;
}

start_watcher-started :
    {os : Os} (m : Machine os) → (start_watcher m).1.sup.services_started ≡ m.sup.services_started
start_watcher-started m =
    ((start_watcher-Emits anything-Neutral (anything-Permits Service.watcher)).holds m
      (record { allowed = all_acts-anything m.trace; env_is = refl; started_is = refl })).started_is

-- The recycle marker is the last act, and services count as started.
abbrev pub IsFinished : {os : Os} → Machine os → Type 0
IsFinished m =
    (m.sup.services_started ≡ true) × ((rest : List Act) × (m.trace ≡ marked_recycle ∷ rest))

-- The first step of `finish_recycle`.
abbrev watch_if : {os : Os} → Bool → M os (Unit {0})
watch_if c =
    when c (do modify (λ s. record s { services_started = true }); watching ← start_watcher; done)

watch_if-started :
    {os : Os} (c : Bool) (m : Machine os)
    → m.sup.services_started ≡ c
    → (watch_if (not c) m).1.sup.services_started ≡ true
unfolding steps
watch_if-started true m h = h
watch_if-started false m h =
    start_watcher-started (record m { sup = record (m.sup) { services_started = true } })

finish_recycle-IsFinished : {os : Os} (m : Machine os) → IsFinished (finish_recycle m).1
unfolding finish_recycle steps
finish_recycle-IsFinished m = (
  watch_if-started m.sup.services_started m refl,
  ((watch_if (not m.sup.services_started) m).1.trace, refl),
)

-- What a reload returns and leaves, from the regeneration's result `r` and the state `m'` after it.
abbrev ReloadResult :
    {os : Os} → Option FingerprintChanges → Machine os → Bool × Machine os → Type 0
ReloadResult r m' (ok, m'') =
    ((r ≡ none) × (ok ≡ false) × (m'' ≡ m')) ⊎ ((r ≢ none) × (ok ≡ true) × IsFinished m'')

some_ne_none : {A : Type 0} (a : A) → some a ≢ none
some_ne_none a e = cc

apply_changes-ReloadResult :
    {os : Os} (r : Option FingerprintChanges) (m : Machine os)
    → ReloadResult r m (apply_changes r m)
unfolding apply_changes steps
apply_changes-ReloadResult none m = inl (refl, refl, refl)
apply_changes-ReloadResult (some c) m = inr (some_ne_none c, refl, finish_recycle-IsFinished _)

recycle_all-ReloadResult :
    {os : Os} (r : Option FingerprintChanges) (m : Machine os) → ReloadResult r m (recycle_all r m)
unfolding recycle_all steps
recycle_all-ReloadResult none m = inl (refl, refl, refl)
recycle_all-ReloadResult (some c) m = inr (some_ne_none c, refl, finish_recycle-IsFinished _)

-- A reload from `m` with result `ok` and final state `m'`: it fails exactly when the regeneration
-- does.
abbrev pub Reloads : {os : Os} → Machine os → Bool → Machine os → Type 0
Reloads m ok m' =
    (((regenerate_and_diff (before_regeneration m)).0 ≡ none)
      × (ok ≡ false)
      × (m'.trace ≡ reaped ∷ m.trace)
      × Refreshed m m'.sup)
    ⊎ (((regenerate_and_diff (before_regeneration m)).0 ≢ none) × (ok ≡ true) × IsFinished m')

ReloadResult-Reloads :
    {os : Os} (m : Machine os) (x : Bool × Machine os)
    → ReloadResult (regenerate_and_diff (before_regeneration m)).0 (regenerated m) x
    → Reloads m x.0 x.1
ReloadResult-Reloads m (ok, m'') (inr went) = inr went
ReloadResult-Reloads m (ok, m'') (inl (r, no_ok, same)) = inl (
  r,
  no_ok,
  rw same (
      (regenerate_and_diff-none (before_regeneration m) r).1 ∙ (before_regeneration-Refreshed m).1),
  subst (Refreshed m)
      (sym (ap (λ x. x.sup) same ∙ (regenerate_and_diff-none (before_regeneration m) r).0))
      (before_regeneration-Refreshed m).0,
)

-- A SIGHUP reload, from any state: if the regeneration fails, so does the reload, its only act is the
-- reap, and the supervisor is as it was but for a tracked Ganesha that has died, whose pid is dropped;
-- otherwise the reload succeeds, services count as started, and the recycle marker is its last act.
pub handle_sighup-Reloads :
    {os : Os} (m : Machine os) → Reloads m (handle_sighup m).0 (handle_sighup m).1
unfolding handle_sighup ◌>>=◌ ◌>>◌
handle_sighup-Reloads m =
    ReloadResult-Reloads m (handle_sighup m)
      (apply_changes-ReloadResult (regenerate_and_diff (before_regeneration m)).0 (regenerated m))

-- The forced full recycle returns and leaves the same: a failed regeneration changes nothing, and
-- otherwise services count as started and the recycle marker is the last act.
pub handle_full_recycle-Reloads :
    {os : Os} (m : Machine os) → Reloads m (handle_full_recycle m).0 (handle_full_recycle m).1
unfolding handle_full_recycle ◌>>=◌ ◌>>◌
handle_full_recycle-Reloads m =
    ReloadResult-Reloads m (handle_full_recycle m)
      (recycle_all-ReloadResult (regenerate_and_diff (before_regeneration m)).0 (regenerated m))
