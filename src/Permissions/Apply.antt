-- ===== src/Permissions/Apply.antt =====
-- The walk of nfs-klldap-ui/src/fs.rs that writes owners and modes. What chown and chmod answer is an
-- argument, and those that succeed are acts in a list.
pub mod Accounts
pub mod Confined
use nfs_klldap_host.Permissions.Modes.{dir_mode_r_implies_x}
use nfs_klldap_host.Permissions.Walk.{
  FileKind, dir, DirEntry, WalkResult, found, failed, Visit, ApplyScope, ApplyOptions, ApplyResult,
  ApplyProgress, empty_result, is_dir, is_symlink, should_apply_entry, push_recent,
}
use nfs_klldap_host.Prelude.{
  ℕ, ◌+◌, Bool, true, false, not, ◌&&◌, Option, none, some, List, [], ◌∷◌, ◌++◌, ltb, ◌==◌,
  if◌then◌else◌, Text, length,
}

-- The error of a system call, or none.
pub record Files : Type 0 where
  pub chown : Text → ℕ → ℕ → Option Text
  pub chmod : Text → ℕ → Option Text

pub data Act : Type 0 where
  chowned : Text → (uid gid : ℕ) → Act
  chmodded : Text → (mode : ℕ) → Act

pub record Job : Type 0 where
  pub uid : ℕ
  pub gid : ℕ
  pub mode : ℕ
  pub opts : ApplyOptions

pub record Run : Type 0 where
  pub result : ApplyResult
  pub progress : ApplyProgress
  pub acts : List Act

-- The walk goes on, or returns an error.
pub data Outcome : Type 0 where
  ok : Run → Outcome
  err : Text → Run → Outcome

abbrev pub run_of : Outcome → Run
run_of (ok r) = r
run_of (err m r) = r

-- `<unknown>`
abbrev pub unknown : Text
unknown = 60 ∷ 117 ∷ 110 ∷ 107 ∷ 110 ∷ 111 ∷ 119 ∷ 110 ∷ 62 ∷ []

-- `chown: ` and `chmod: `
abbrev pub chown_word : Text
chown_word = 99 ∷ 104 ∷ 111 ∷ 119 ∷ 110 ∷ 58 ∷ 32 ∷ []

abbrev pub chmod_word : Text
chmod_word = 99 ∷ 104 ∷ 109 ∷ 111 ∷ 100 ∷ 58 ∷ 32 ∷ []

-- `aborted on walk error (continue_on_error=false)`
abbrev pub aborted : Text
aborted =
    97 ∷ 98 ∷ 111 ∷ 114 ∷ 116 ∷ 101 ∷ 100 ∷ 32 ∷ 111 ∷ 110 ∷ 32 ∷ 119 ∷ 97 ∷ 108 ∷ 107 ∷ 32 ∷ 101
    ∷ 114 ∷ 114 ∷ 111 ∷ 114 ∷ 32 ∷ 40 ∷ 99 ∷ 111 ∷ 110 ∷ 116 ∷ 105 ∷ 110 ∷ 117 ∷ 101 ∷ 95 ∷ 111
    ∷ 110 ∷ 95 ∷ 101 ∷ 114 ∷ 114 ∷ 111 ∷ 114 ∷ 61 ∷ 102 ∷ 97 ∷ 108 ∷ 115 ∷ 101 ∷ 41 ∷ []

abbrev pub path_or_unknown : Option Text → Text
path_or_unknown none = unknown
path_or_unknown (some p) = p

abbrev pub note_error : Text → Text → Run → Run
note_error path msg run = record run {
  result = record run.result { errors = run.result.errors ++ (path, msg) ∷ [] };
  progress = record run.progress {
    error_count = run.progress.error_count + 1;
    recent_errors = push_recent run.progress.recent_errors (path, msg);
  };
}

abbrev pub skip : Run → Run
skip run = record run {
  result = record run.result { skipped = run.result.skipped + 1 };
  progress = record run.progress { skipped = run.progress.skipped + 1 };
}

abbrev pub reach : Text → Run → Run
reach path run = record run { progress = record run.progress { last_path = some path } }

abbrev pub processed_one : Run → Run
processed_one run = record run {
  progress = record run.progress { processed = run.progress.processed + 1 };
}

abbrev pub acted : Act → Run → Run
acted a run = record run { acts = run.acts ++ a ∷ [] }

abbrev pub fused : Text → ApplyResult → ApplyResult
fused path r = record r {
  fused_dir_count = r.fused_dir_count + 1;
  fused_dirs = if ltb (length r.fused_dirs) 10 then r.fused_dirs ++ path ∷ [] else r.fused_dirs;
}

abbrev pub changed_one : Bool → Text → Run → Run
changed_one is_fused path run =
    let r = record run.result { changed = run.result.changed + 1 } in
    record run {
      result = if is_fused then fused path r else r;
      progress = record run.progress { changed = run.progress.changed + 1 };
    }

unfoldable pub entry_mode : Job → FileKind → ℕ
entry_mode job dir = dir_mode_r_implies_x job.mode
entry_mode job _ = elim job.opts.file_mode [ none ↦ job.mode | some m ↦ m ]

module _ (fs : Files) (job : Job) where
  abbrev fusion_active : Bool
  fusion_active = not (dir_mode_r_implies_x job.mode == job.mode)

  -- An entry is done when its error is noted, unless errors end the walk.
  abbrev pub failed_entry : Text → Text → Text → Run → Outcome
  failed_entry word path msg run =
      if job.opts.continue_on_error
      then ok (processed_one (note_error path (word ++ msg) run))
      else err msg (note_error path (word ++ msg) run)

  abbrev pub after_chmod : DirEntry → Option Text → Run → Outcome
  after_chmod e (some msg) run = failed_entry chmod_word e.path msg run
  after_chmod e none run = ok (
      processed_one (
        changed_one (fusion_active && is_dir e.kind) e.path
          (acted (chmodded e.path (entry_mode job e.kind)) run)))

  abbrev pub after_chown : DirEntry → Option Text → Run → Outcome
  after_chown e (some msg) run = failed_entry chown_word e.path (chown_word ++ msg) run
  after_chown e none run =
      after_chmod e (fs.chmod e.path (entry_mode job e.kind))
        (acted (chowned e.path job.uid job.gid) run)

  unfoldable pub visit : WalkResult → Run → Outcome
  visit (failed p msg) run =
      if job.opts.continue_on_error
      then ok (note_error (path_or_unknown p) msg run)
      else err aborted (note_error (path_or_unknown p) msg run)
  visit (found e) run =
      if is_symlink e.kind
      then ok (skip run)
      else if not (should_apply_entry e job.opts)
      then ok (skip run)
      else after_chown e (fs.chown e.path job.uid job.gid) (reach e.path run)

  unfoldable pub apply_walk : List Visit → Run → Outcome
  apply_walk [] run = ok run
  apply_walk (v ∷ vs) run =
      if v.cancelled
      then ok run
      else elim (visit v.result run) [ ok r ↦ apply_walk vs r | err m r ↦ err m r ]

  unfoldable pub apply_tree_with_progress : List Visit → ApplyProgress → Outcome
  apply_tree_with_progress vs p =
      apply_walk vs (record { result = empty_result; progress = p; acts = [] })
