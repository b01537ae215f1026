-- ===== src/Supervisor/Readiness.antt =====
-- The readiness loop of `wait_for_ganesha_readiness` in nfs-klldap-config/src/supervisor/mod.rs.
use nfs_klldap_host.Prelude.{ℕ, zero, suc, ◌+◌, ◌*◌, ◌≤◌, ◌≡◌, refl, arith}
use nfs_klldap_host.Supervisor.Ganesha.{ready_before}
use nfs_klldap_host.Supervisor.Waits.{HasClock}
use nfs_klldap_host.Supervisor.State.{Os, Machine, slept, ganesha_ready, act, ask, steps}

ready_before-more :
    {os : Os} (deadline rounds more : ℕ) (m : Machine os)
    → HasClock os
    → rounds ≤ more
    → deadline ≤ os.now m.world + 350 * rounds
    → ready_before deadline more m ≡ ready_before deadline rounds m
unfolding ready_before steps
ready_before-more deadline zero zero m c k h = refl
ready_before-more deadline zero (suc more) m c k h = ground arith
ready_before-more deadline (suc rounds) zero m c k h = absurd (omega arith)
ready_before-more {os} deadline (suc rounds) (suc more) m c k h = ground (
  arith,
  c.asks ganesha_ready m.world,
  c.sleeps 350 (os.ask ganesha_ready m.world).1,
  ready_before-more deadline rounds more ((act (slept 350)) ((ask ganesha_ready) m).1).1 c,
)

-- The readiness loop ends by its own deadline: on a clock that moves at least as far as each sleep, a
-- deadline 20 seconds ahead is met within the 60 rounds given, so that any larger number of rounds
-- gives the same answer and the same final state.
pub ready_before_ends :
    {os : Os} (more : ℕ) (m : Machine os)
    → HasClock os
    → 60 ≤ more
    → ready_before (os.now m.world + 20000) more m ≡ ready_before (os.now m.world + 20000) 60 m
ready_before_ends {os} more m c k =
    ready_before-more (os.now m.world + 20000) 60 more m c k (omega arith)
