-- ===== src/Permissions/Request.antt =====
-- The entry points of nfs-klldap-ui/src/fs.rs for owners and modes: the checks of a request, and the
-- walk at the path in the container. The walk is an argument, by its root and its depth.
pub mod Contained
use nfs_klldap_host.Permissions.Apply.{
  Files, Act, Job, Run, Outcome, ok, err, apply_tree_with_progress,
}
use nfs_klldap_host.Permissions.Walk.{
  Visit, ApplyScope, ApplyOptions, ApplyProgress, max_depth, count_tree,
}
use nfs_klldap_host.Prelude.{
  ℕ, ◌/◌, ◌%◌, Bool, true, false, not, Option, none, some, List, [], ◌==◌, if◌then◌else◌, Text,
}
use nfs_klldap_host.SharePaths.{Share, normalize_path, is_allowed, host_path_to_container_path}

pub record ApplySpec : Type 0 where
  pub mode : ℕ
  pub scope : ApplyScope
  pub file_mode : Option ℕ

pub data Refusal : Type 0 where
  outside_roots setuid_bit file_mode_bits unmapped : Refusal

-- The answer with the acts that were done.
pub data Answer : Type 0 where
  applied : Run → Answer
  refused : Refusal → Answer
  stopped : Text → Run → Answer

abbrev pub acts_of : Answer → List Act
acts_of (applied r) = r.acts
acts_of (refused why) = []
acts_of (stopped msg r) = r.acts

abbrev pub answer_of : Outcome → Answer
answer_of (ok r) = applied r
answer_of (err msg r) = stopped msg r

abbrev pub Walks : Type 0
Walks = List Text → Option ℕ → List Visit

-- `mode & 0o4000 != 0`
abbrev pub has_setuid : ℕ → Bool
has_setuid mode = not (mode / 2048 % 2 == 0)

-- `fm & !0o777 != 0`
abbrev pub has_special : Option ℕ → Bool
has_special none = false
has_special (some fm) = not (fm / 512 == 0)

abbrev pub job_of : (uid gid : ℕ) → ApplySpec → Job
job_of uid gid spec = record {
  uid = uid;
  gid = gid;
  mode = spec.mode;
  opts = record { scope = spec.scope; file_mode = spec.file_mode; continue_on_error = true };
}

module _ (shares : List Share) (walk : Walks) where
  abbrev pub apply_at :
      Files → (uid gid : ℕ) → ApplySpec → ApplyProgress → Option (List Text) → Answer
  apply_at fs uid gid spec p none = refused unmapped
  apply_at fs uid gid spec p (some target) =
      answer_of
        (apply_tree_with_progress fs (job_of uid gid spec) (walk target (max_depth spec.scope)) p)

  unfoldable pub apply_permissions_with_progress :
      Files → Text → (uid gid : ℕ) → ApplySpec → ApplyProgress → Answer
  apply_permissions_with_progress fs path uid gid spec p =
      let normalized = normalize_path path in
      if not (is_allowed shares normalized)
      then refused outside_roots
      else if has_setuid spec.mode
      then refused setuid_bit
      else if has_special spec.file_mode
      then refused file_mode_bits
      else apply_at fs uid gid spec p (host_path_to_container_path shares normalized)

  abbrev count_at : ApplyScope → ApplyProgress → Option (List Text) → Option (ℕ × ApplyProgress)
  count_at scope p none = none
  count_at scope p (some target) = some (
      count_tree (record { scope = scope; file_mode = none; continue_on_error = true })
        (walk target (max_depth scope)) p)

  -- `none` for `Err`.
  unfoldable pub count_applicable_with_live :
      Text → ApplyScope → ApplyProgress → Option (ℕ × ApplyProgress)
  count_applicable_with_live path scope p =
      let normalized = normalize_path path in
      if not (is_allowed shares normalized)
      then none
      else count_at scope p (host_path_to_container_path shares normalized)
