-- ===== src/AclTests.antt =====
-- The re-probe loop, the verdict cache and the ACL lines of nfs-klldap-ui/src at concrete readings.
use nfs_klldap_host.AclCache.{verdict_cached}
use nfs_klldap_host.AclCache.Rules.{Asked}
use nfs_klldap_host.AclCache.Fresh.{IsAnswer, run, verdict_cached-IsAnswer}
use nfs_klldap_host.AclTable.{
  AclPerms, AclLine, AclTable, mask, other, named_user, mask_of, effective_perms, to_str,
  parse_getfacl_table,
}
use nfs_klldap_host.AclTable.Printed.{Comments, print_table}
use nfs_klldap_host.AclTable.ReadBack.{parse_getfacl_table-print_table}
use nfs_klldap_host.AclWatch.{FlipState, FlipTracker, Tick, same_bool, track_auto_flip}
use nfs_klldap_host.AclWatch.Spacing.{IsSpaced, scheduled, acl_reprobe_tick-IsSpaced}
use nfs_klldap_host.Mounts.Flags.{capable, incapable}
use nfs_klldap_host.Prelude.{
  ℕ, ◌≡◌, true, false, arith, none, some, List, [], ◌∷◌, refl, if◌then◌else◌, same_text,
}

abbrev off : FlipState
off = record { baseline = false; last = false; streak = 0 }

abbrev fresh : FlipTracker
fresh = record { auto = (97 ∷ [], off) ∷ []; incap = []; last_auto_hup = none }

-- The share `a`, capable from now on.
abbrev tick_at : ℕ → Tick
tick_at n = record {
  in_flight = false;
  readings = record { name = 97 ∷ []; enable_acl = none; verdict = capable } ∷ [];
  now = n;
  after = n;
  accepts = true;
}

abbrev two_ticks : List Tick
two_ticks = tick_at 180 ∷ tick_at 360 ∷ []

acl_reprobe_tick-IsSpaced_example : IsSpaced none (scheduled two_ticks fresh none)
acl_reprobe_tick-IsSpaced_example = acl_reprobe_tick-IsSpaced two_ticks fresh none

-- The second reading schedules.
second_schedules : scheduled two_ticks fresh none ≡ (360, 360) ∷ []
unfolding nfs_klldap_host.AclWatch.acl_reprobe_tick nfs_klldap_host.AclWatch.schedule
    nfs_klldap_host.AclWatch.read_shares nfs_klldap_host.AclWatch.read_share
    nfs_klldap_host.AclWatch.track_entry track_auto_flip
second_schedules = refl

-- A lookup of `/a` at a time, for which the probe would say incapable.
abbrev asked_at : ℕ → Asked
asked_at n = record {
  query = record {
    caps = record { fstype = 120 ∷ []; mount_options = []; acl_capable = true };
    mount_root = some (47 ∷ 97 ∷ []);
    probe_dir = 47 ∷ 97 ∷ [];
    skip_write_probe = false;
    force_refresh = false;
  };
  now = n;
  probe = incapable;
}

verdict_cached-IsAnswer_example :
    let (entries, log) = run 300 (asked_at 1 ∷ []) [] [] in
    IsAnswer 300
      (asked_at 2)
      log
      (verdict_cached 300 2 (asked_at 2).query (asked_at 2).probe entries)
verdict_cached-IsAnswer_example = verdict_cached-IsAnswer 300 (asked_at 1 ∷ []) (asked_at 2)

-- A user entry of the id 7 under a mask that takes writing away, and a default entry for others.
abbrev all_perms : AclPerms
all_perms = record { r = true; w = true; x = true }

abbrev read_only : AclPerms
read_only = record { r = true; w = false; x = false }

abbrev seven : AclLine
seven = record { tag = named_user 7; perms = all_perms }

abbrev table : AclTable
table = record {
  access = seven ∷ record { tag = mask; perms = read_only } ∷ [];
  default = record { tag = other; perms = read_only } ∷ [];
}

-- The capped entry is followed by two tabs and `#effective:r--`.
abbrev comments : Comments
comments = record {
  effective = λ default l.
      let left = effective_perms table l default in
      if same_text (to_str left) (to_str l.perms) then none else some left;
  indent = λ default l. 1;
}

parse_getfacl_table-print_table_example : parse_getfacl_table (print_table comments table) ≡ table
parse_getfacl_table-print_table_example =
    parse_getfacl_table-print_table comments table (omega arith, (tt, tt)) (tt, tt)

masked_read : effective_perms table seven false ≡ read_only
unfolding effective_perms mask_of
masked_read = refl
