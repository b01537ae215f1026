-- ===== src/AclWatch/Flips.antt =====
-- When the re-probe loop of nfs-klldap-ui/src/web/acl_watch.rs sees a change.
use nfs_klldap_host.AclWatch.{FlipState, same_bool, track_auto_flip}
use nfs_klldap_host.Prelude.{ℕ, ◌≡◌, Bool, true, false, not, ◌&&◌, arith}

-- Two readings in a row, from any state, make a change that is acted on exactly when they are equal
-- and differ from the baseline: one deviating reading never does, and two always do.
pub track_auto_flip_twice :
    (st : FlipState) (x y : Bool)
    → (track_auto_flip (track_auto_flip st x).0 y).1
      ≡ (same_bool x y && not (same_bool y st.baseline))
unfolding track_auto_flip
track_auto_flip_twice st x y = twice st.baseline st.last x y st.streak
  where
    twice :
        (b l x y : Bool) (n : ℕ)
        → (track_auto_flip
            (track_auto_flip (record { baseline = b; last = l; streak = n }) x).0
            y).1
          ≡ (same_bool x y && not (same_bool y b))
    twice b true true true n = ground arith
    twice b true true false n = ground arith
    twice b true false true n = ground arith
    twice b true false false n = ground arith
    twice b false true true n = ground arith
    twice b false true false n = ground arith
    twice b false false true n = ground arith
    twice b false false false n = ground arith
