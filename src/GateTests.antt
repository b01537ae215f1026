-- ===== src/GateTests.antt =====
-- The ACL editor at concrete values.
use nfs_klldap_host.AclTable.{AclModification, set_mask}
use nfs_klldap_host.Mounts.Flags.{capable, ShareFlags}
use nfs_klldap_host.Mounts.Table.{FsCapabilities}
use nfs_klldap_host.Permissions.Acls.{
  Call, on_dirs, on_files, is_default, acl_options, apply_acl_with_progress,
  count_acl_applicable_with_live, acl_walk, visit_acl, take_dir, take_file, flush,
  acl_entry_applies,
}
use nfs_klldap_host.Permissions.Acls.Chunks.{dir_paths, file_paths, wanted, Fits}
use nfs_klldap_host.Permissions.Acls.Complete.{apply_acl_with_progress-wanted}
use nfs_klldap_host.Permissions.Edits.{set_edit, AclOpInput, set_op}
use nfs_klldap_host.Permissions.Gate.{
  GateShare, Probe, share_level_decision, acl_capability_decision, acl_apply_gate, best_share_for,
}
use nfs_klldap_host.Permissions.Gate.Writable.{Best, IsServed, acl_apply_gate-IsServed}
use nfs_klldap_host.Permissions.Handler.{AclApplyForm, Directory, Submission, all_word, input_of}
use nfs_klldap_host.Permissions.Slot.{
  Applies, has_number, begin, finish, Reachable, idle, steps, claims, try_claim_apply_slot,
}
use nfs_klldap_host.Permissions.Slot.Exclusive.{try_claim_apply_slot-IsExclusive}
use nfs_klldap_host.Permissions.Walk.{
  Visit, found, dir, file, symlink, is_dir, all, new_progress, should_apply_entry,
}
use nfs_klldap_host.Prelude.{
  ℕ, ◌+◌, ◌≡◌, refl, true, false, not, Option, none, some, List, [], ◌∷◌, Text, All,
}
use nfs_klldap_host.SharePaths.{components}

-- A directory, a file, a link, a file after the cancellation.
abbrev visits : List Visit
visits =
    record { cancelled = false; result = found (record { path = 97 ∷ []; depth = 0; kind = dir }) }
    ∷ record {
      cancelled = false;
      result = found (record { path = 98 ∷ []; depth = 1; kind = file });
    }
    ∷ record {
      cancelled = false;
      result = found (record { path = 99 ∷ []; depth = 1; kind = symlink });
    }
    ∷ record {
      cancelled = true;
      result = found (record { path = 100 ∷ []; depth = 1; kind = file });
    }
    ∷ []

abbrev read_mask : AclModification
read_mask = set_mask (record { r = true; w = false; x = false }) false

abbrev setfacl : Call → Option Text
setfacl (on_dirs ps m) = none
setfacl (on_files ps m) = some (120 ∷ [])

apply_acl_with_progress-wanted_example :
    let r = apply_acl_with_progress setfacl read_mask read_mask all visits new_progress in
    let default = is_default read_mask in
    (dir_paths r.calls ≡ wanted (acl_options all) default is_dir visits)
    × (file_paths r.calls ≡ wanted (acl_options all) default (λ k. not (is_dir k)) visits)
    × All (Fits read_mask read_mask) r.calls
    × (r.progress.processed
        ≡ 0 + (count_acl_applicable_with_live read_mask all visits new_progress).0)
apply_acl_with_progress-wanted_example =
    apply_acl_with_progress-wanted setfacl read_mask read_mask all visits new_progress new_progress

acl_calls :
    (apply_acl_with_progress setfacl read_mask read_mask all visits new_progress).calls
    ≡ on_dirs ((97 ∷ []) ∷ []) read_mask ∷ on_files ((98 ∷ []) ∷ []) read_mask ∷ []
unfolding apply_acl_with_progress acl_walk visit_acl take_dir take_file flush acl_entry_applies
    should_apply_entry is_default
acl_calls = refl

abbrev flags : ShareFlags
flags = record { enable_acl = some true; manage_gids = none; read_access_policy = none }

abbrev caps : FsCapabilities
caps = record { fstype = []; mount_options = []; acl_capable = true }

-- `/d` is served at `/a`, and `/d/e` at `/b`.
abbrev shares : List GateShare
shares =
    record {
      share = record { host_path = 47 ∷ 100 ∷ []; container_path = 47 ∷ 97 ∷ [] };
      enable_acl = some false;
    }
    ∷ record {
      share = record { host_path = 47 ∷ 100 ∷ 47 ∷ 101 ∷ []; container_path = 47 ∷ 98 ∷ [] };
      enable_acl = none;
    }
    ∷ []

abbrev probe : Probe
probe = record {
  verdict_for = λ p d skip. record { verdict = capable; mount_root = 47 ∷ [] };
  is_dir = λ p. true;
  parent = λ p. none;
  warning = λ s. [];
}

abbrev serve_path : GateShare → List Text
serve_path s = components s.share.container_path

-- `/d/e/f`
abbrev path : Text
path = 47 ∷ 100 ∷ 47 ∷ 101 ∷ 47 ∷ 102 ∷ []

path_editable : (acl_apply_gate shares probe serve_path path).editable ≡ true
unfolding acl_apply_gate best_share_for acl_capability_decision share_level_decision
path_editable = refl

acl_apply_gate-IsServed_example :
    (s : GateShare) × Best shares (components path) s × IsServed shares probe serve_path path s
acl_apply_gate-IsServed_example = acl_apply_gate-IsServed shares probe serve_path path path_editable

abbrev input : AclOpInput
input = record {
  op = set_op;
  is_user = true;
  id = 7;
  delete_kinds = [];
  perms = [];
  default_layer = true;
}

-- Two claims of which one is granted.
abbrev idle_slot : Applies
idle_slot = record { slot = none; finished = []; started = [] }

abbrev claimed : Applies
claimed = begin 2 (begin 1 idle_slot)

claimed-Reachable : Reachable claimed
unfolding begin try_claim_apply_slot
claimed-Reachable =
    steps (begin 1 idle_slot) claimed
      (steps idle_slot (begin 1 idle_slot) (idle idle_slot refl)
        (claims idle_slot (begin 1 idle_slot) 1 refl refl refl))
      (claims (begin 1 idle_slot) claimed 2 refl refl refl)

one_started : has_number 1 claimed.started ≡ true
unfolding begin try_claim_apply_slot
one_started = refl

one_unfinished : has_number 1 claimed.finished ≡ false
unfolding begin try_claim_apply_slot
one_unfinished = refl

try_claim_apply_slot-IsExclusive_example :
    (◌≡◌ {A = ℕ} 1 1) × ((k : ℕ) → (try_claim_apply_slot k (finish 1 claimed)).1 ≡ true)
try_claim_apply_slot-IsExclusive_example =
    try_claim_apply_slot-IsExclusive claimed 1 1 claimed-Reachable one_started one_started
      one_unfinished one_unfinished

-- A form that sets `rw` for the user `7` below a directory.
abbrev form : AclApplyForm
form = record {
  path = 47 ∷ 100 ∷ [];
  op = 83 ∷ 101 ∷ 116 ∷ [];
  typ = 117 ∷ [];
  id = 55 ∷ [];
  name = [];
  perms = 114 ∷ 119 ∷ [];
  selected = [];
  layer = [];
  scope = all_word;
}

abbrev directory : Directory
directory = record {
  normalize_query = λ q. some q;
  resolve_user = λ q. none;
  resolve_group = λ q. none;
}

abbrev submission : Submission
submission = record {
  scope = all;
  input = input_of directory form;
  edit = set_edit (input_of directory form) true (47 ∷ 100 ∷ []);
}
