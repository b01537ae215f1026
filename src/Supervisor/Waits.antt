-- ===== src/Supervisor/Waits.antt =====
-- The wait loop of services.rs in nfs-klldap-config/src/supervisor, on a clock.
use mathlib.Core.List.{append_assoc}
use nfs_klldap_host.Prelude.{
  ℕ, zero, suc, ◌+◌, ◌*◌, ◌≤◌, ◌≡◌, inl, inr, false, not, refl, ◌∙◌, arith, Bool-cases, sym, List,
  [], ◌∷◌, ◌++◌, leb,
}
use nfs_klldap_host.Supervisor.Ganesha.{wait_exit}
use nfs_klldap_host.Supervisor.State.{Act, Query, slept, reaped, Os, Machine, act, steps}

-- The monotonic clock: a sleep takes at least its time, and no act or question turns the clock back.
pub record HasClock (os : Os) : Type 0 where
  pub sleeps : (ms : ℕ) (w : os.World) → os.now w + ms ≤ os.now (os.perform (slept ms) w)
  pub forward : (a : Act) (w : os.World) → os.now w ≤ os.now (os.perform a w)
  pub asks : (q : Query) (w : os.World) → os.now w ≤ os.now (os.ask q w).1

pub wait_exit_result :
    {os : Os} (pid deadline rounds : ℕ) (m : Machine os)
    → let (gone, m') = wait_exit pid deadline rounds m in
      (m'.sup ≡ m.sup) × (gone ≡ not (os.is_live pid m'.world))
unfolding wait_exit steps
wait_exit_result pid deadline zero m = (refl, refl)
wait_exit_result pid deadline (suc rounds) m =
    ground (arith, wait_exit_result pid deadline rounds ((act reaped) ((act (slept 100)) m).1).1)

pub wait_exit_ends :
    {os : Os} (pid deadline rounds : ℕ) (m : Machine os)
    → HasClock os
    → deadline ≤ os.now m.world + 100 * rounds
    → (wait_exit pid deadline (suc rounds) m).0 ≡ false
    → deadline ≤ os.now (wait_exit pid deadline (suc rounds) m).1.world
unfolding wait_exit steps
wait_exit_ends pid deadline zero m c h g = ground arith
wait_exit_ends {os} pid deadline (suc rounds) m c h g = ground (
  arith,
  c.sleeps 100 m.world,
  c.forward reaped (os.perform (slept 100) m.world),
  wait_exit_ends pid deadline rounds ((act reaped) ((act (slept 100)) m).1).1 c,
)

pub wait_exit-trace :
    {os : Os} (pid deadline rounds : ℕ) (m : Machine os)
    → (pre : List Act) × ((wait_exit pid deadline rounds m).1.trace ≡ pre ++ m.trace)
unfolding wait_exit steps
wait_exit-trace pid deadline zero m = ([], refl)
wait_exit-trace {os} pid deadline (suc rounds) m = elim (Bool-cases (os.is_live pid m.world)) [
  | inr dead ↦ rw dead ([], refl)
  | inl alive ↦ elim (Bool-cases (leb deadline (os.now m.world))) [
    | inl late ↦ rw (alive, late) ([], refl)
    | inr early ↦
        let (pre, e) =
          wait_exit-trace pid deadline rounds ((act reaped) ((act (slept 100)) m).1).1 in
        rw (alive, early)
          (
            pre ++ (reaped ∷ slept 100 ∷ []),
            e ∙ sym (append_assoc pre (reaped ∷ slept 100 ∷ []) m.trace),
          )
  ]
]
