-- ===== src/PermissionTests.antt =====
-- The permission editor at concrete values.

use nfs_klldap_host.AclTable.{dir_r_implies_x}
use nfs_klldap_host.Permissions.Apply.{
  Files, chowned, chmodded, Job, run_of, ok, apply_tree_with_progress, apply_walk, visit,
  entry_mode,
}
use nfs_klldap_host.Permissions.Apply.Accounts.{handled, apply_tree_with_progress-count_tree}
use nfs_klldap_host.Permissions.Modes.{
  Class, class_perms, dir_mode_r_implies_x, dir_mode_r_implies_x-dir_r_implies_x,
}
use nfs_klldap_host.Permissions.Request.{ApplySpec, Walks, acts_of, apply_permissions_with_progress}
use nfs_klldap_host.Permissions.Request.Contained.{
  IsContained, apply_permissions_with_progress-IsContained,
}
use nfs_klldap_host.Permissions.Walk.{
  Visit, found, failed, dir, file, symlink, all, new_progress, count_tree, count_from,
  should_apply_entry,
}
use nfs_klldap_host.Prelude.{
  ◌+◌, ◌/◌, ◌≡◌, refl, arith, true, false, none, some, List, [], ◌∷◌, All, ◌==◌, if◌then◌else◌,
}
use nfs_klldap_host.SharePaths.{Share}

-- A directory, a file on which chown fails, a link and an entry that cannot be read.
abbrev visits : List Visit
visits =
    record { cancelled = false; result = found (record { path = 97 ∷ []; depth = 0; kind = dir }) }
    ∷ record {
      cancelled = false;
      result = found (record { path = 98 ∷ []; depth = 1; kind = file });
    }
    ∷ record {
      cancelled = false;
      result = found (record { path = 99 ∷ []; depth = 1; kind = symlink });
    }
    ∷ record { cancelled = false; result = failed none (120 ∷ []) }
    ∷ []

abbrev files : Files
files = record {
  chown = λ p u g. elim p [ [] ↦ none | c ∷ rest ↦ if c == 98 then some (110 ∷ []) else none ];
  chmod = λ p m. none;
}

abbrev job : Job
job = record {
  uid = 5;
  gid = 6;
  mode = 0o2744;
  opts = record { scope = all; file_mode = some 0o640; continue_on_error = true };
}

apply_tree_with_progress-count_tree_example :
    let end = run_of (apply_tree_with_progress files job visits new_progress) in
    (apply_tree_with_progress files job visits new_progress ≡ ok end)
    × (end.progress.processed ≡ 0 + (count_tree job.opts visits new_progress).0)
    × (handled end.progress ≡ 0 + 4)
apply_tree_with_progress-count_tree_example =
    apply_tree_with_progress-count_tree files job visits new_progress new_progress refl
      (refl, (refl, (refl, (refl, tt))))

acts_done :
    (run_of (apply_tree_with_progress files job visits new_progress)).acts
    ≡ chowned (97 ∷ []) 5 6 ∷ chmodded (97 ∷ []) 0o2755 ∷ []
unfolding apply_tree_with_progress apply_walk visit should_apply_entry entry_mode
    dir_mode_r_implies_x
acts_done = refl

counted : (count_tree job.opts visits new_progress).0 ≡ 2
unfolding count_tree count_from should_apply_entry
counted = refl

dir_mode_r_implies_x-dir_r_implies_x_example :
    let result = dir_mode_r_implies_x 0o4640 in
    ((c : Class) → class_perms result c ≡ dir_r_implies_x (class_perms 0o4640 c))
    × (result / 512 ≡ 4)
    × (dir_mode_r_implies_x result ≡ result)
dir_mode_r_implies_x-dir_r_implies_x_example =
    dir_mode_r_implies_x-dir_r_implies_x 0o4640 (omega arith)

-- `/d` is served at `/a`.
abbrev shares : List Share
shares = record { host_path = 47 ∷ 100 ∷ []; container_path = 47 ∷ 97 ∷ [] } ∷ []

abbrev walk : Walks
walk target depth = visits

abbrev spec : ApplySpec
spec = record { mode = 0o2744; scope = all; file_mode = some 0o640 }

apply_permissions_with_progress-IsContained_example :
    All (IsContained shares walk (47 ∷ 100 ∷ 47 ∷ 101 ∷ []) 5 6 spec) (
      acts_of (
        apply_permissions_with_progress shares walk files
          (47 ∷ 100 ∷ 47 ∷ 101 ∷ [])
          5
          6
          spec
          new_progress))
apply_permissions_with_progress-IsContained_example =
    apply_permissions_with_progress-IsContained shares walk files (47 ∷ 100 ∷ 47 ∷ 101 ∷ []) 5 6
      spec new_progress (omega arith)
