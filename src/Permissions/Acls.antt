-- ===== src/Permissions/Acls.antt =====
-- The walk of nfs-klldap-ui/src/fs.rs that writes ACL entries: setfacl is called on chunks of at most
-- 64 paths, directories and files apart. What setfacl answers is an argument; every call is recorded.
pub mod Chunks
pub mod Complete
use nfs_klldap_host.AclTable.{AclModification, set_entry, remove_entries, set_mask}
use nfs_klldap_host.Identity.Rows.{to_decimal}
use nfs_klldap_host.Permissions.Apply.{path_or_unknown}
use nfs_klldap_host.Permissions.Walk.{
  DirEntry, WalkResult, found, failed, Visit, ApplyScope, ApplyOptions, ApplyResult, ApplyProgress,
  empty_result, is_dir, is_symlink, should_apply_entry, push_recent,
}
use nfs_klldap_host.Prelude.{
  ℕ, ◌+◌, Bool, true, false, not, ◌&&◌, Option, none, some, List, [], ◌∷◌, ◌++◌, leb, if◌then◌else◌,
  Text, length,
}

unfoldable pub is_default : AclModification → Bool
is_default (set_entry kind perms default) = default
is_default (remove_entries kinds default) = default
is_default (set_mask perms default) = default

unfoldable pub acl_entry_applies : DirEntry → ApplyOptions → Bool → Bool
acl_entry_applies e opts default =
    if default && not (is_dir e.kind) then false else should_apply_entry e opts

abbrev pub acl_options : ApplyScope → ApplyOptions
acl_options scope = record { scope = scope; file_mode = none; continue_on_error = true }

abbrev pub scan_acl : ApplyOptions → Bool → WalkResult → ℕ × ApplyProgress → ℕ × ApplyProgress
scan_acl opts default (failed p msg) s = s
scan_acl opts default (found e) (count, p) =
    if acl_entry_applies e opts default
    then (count + 1, record p { processed = p.processed + 1 })
    else (count, p)

unfoldable pub count_acl_from :
    ApplyOptions → Bool → List Visit → ℕ × ApplyProgress → ℕ × ApplyProgress
count_acl_from opts default [] s = s
count_acl_from opts default (v ∷ vs) s =
    let rest = count_acl_from opts default vs (scan_acl opts default v.result s) in
    if v.cancelled then s else rest

unfoldable pub count_acl_applicable_with_live :
    AclModification → ApplyScope → List Visit → ApplyProgress → ℕ × ApplyProgress
count_acl_applicable_with_live m scope vs p =
    count_acl_from (acl_options scope) (is_default m) vs (0, p)

abbrev pub chunk_size : ℕ
chunk_size = 64

-- One run of setfacl: the paths, and what it is to do.
pub data Call : Type 0 where
  on_dirs on_files : List Text → AclModification → Call

pub record AclRun : Type 0 where
  pub result : ApplyResult
  pub progress : ApplyProgress
  pub calls : List Call

pub record AclWalk : Type 0 where
  pub run : AclRun
  pub dir_chunk : List Text
  pub file_chunk : List Text

-- `setfacl on ` and ` paths: `
abbrev setfacl_on : Text
setfacl_on = 115 ∷ 101 ∷ 116 ∷ 102 ∷ 97 ∷ 99 ∷ 108 ∷ 32 ∷ 111 ∷ 110 ∷ 32 ∷ []

abbrev paths_word : Text
paths_word = 32 ∷ 112 ∷ 97 ∷ 116 ∷ 104 ∷ 115 ∷ 58 ∷ 32 ∷ []

abbrev chunk_done : ℕ → AclRun → AclRun
chunk_done n r = record r {
  result = record r.result { changed = r.result.changed + n };
  progress = record r.progress { changed = r.progress.changed + n };
}

abbrev chunk_failed : Text → Text → AclRun → AclRun
chunk_failed path msg r = record r {
  result = record r.result { errors = r.result.errors ++ (path, msg) ∷ [] };
  progress = record r.progress {
    error_count = r.progress.error_count + 1;
    recent_errors = push_recent r.progress.recent_errors (path, msg);
  };
}

abbrev chunk_processed : ℕ → Call → AclRun → AclRun
chunk_processed n call r = record r {
  progress = record r.progress { processed = r.progress.processed + n };
  calls = r.calls ++ call ∷ [];
}

abbrev chunk_answered : List Text → Text → Option Text → AclRun → AclRun
chunk_answered chunk first none r = chunk_done (length chunk) r
chunk_answered chunk first (some e) r =
    chunk_failed first (setfacl_on ++ (to_decimal (length chunk) ++ (paths_word ++ e))) r

abbrev pub acl_error : Text → Text → AclWalk → AclWalk
acl_error path msg w = record w {
  run = record w.run {
    result = record w.run.result { errors = w.run.result.errors ++ (path, msg) ∷ [] };
    progress = record w.run.progress { error_count = w.run.progress.error_count + 1 };
  };
}

abbrev pub acl_skip : AclWalk → AclWalk
acl_skip w = record w {
  run = record w.run {
    result = record w.run.result { skipped = w.run.result.skipped + 1 };
    progress = record w.run.progress { skipped = w.run.progress.skipped + 1 };
  };
}

abbrev pub acl_reach : Text → AclWalk → AclWalk
acl_reach path w = record w {
  run = record w.run { progress = record w.run.progress { last_path = some path } };
}

abbrev pub acl_start : ApplyProgress → AclWalk
acl_start p = record {
  run = record { result = empty_result; progress = p; calls = [] };
  dir_chunk = [];
  file_chunk = [];
}

module _ (setfacl : Call → Option Text) where
  unfoldable pub flush : (List Text → Call) → List Text → AclRun → AclRun
  flush call [] r = r
  flush call (p ∷ ps) r =
      chunk_processed (length (p ∷ ps)) (call (p ∷ ps))
        (chunk_answered (p ∷ ps) p (setfacl (call (p ∷ ps))) r)

  module _ (dirs files : AclModification) (opts : ApplyOptions) where
    -- The new path joins its chunk, and a full chunk is sent.
    unfoldable pub take_dir : Text → AclWalk → AclWalk
    take_dir path w =
        let chunk = w.dir_chunk ++ path ∷ [] in
        if leb chunk_size (length chunk)
        then record w { run = flush (λ ps. on_dirs ps dirs) chunk w.run; dir_chunk = [] }
        else record w { dir_chunk = chunk }

    unfoldable pub take_file : Text → AclWalk → AclWalk
    take_file path w =
        let chunk = w.file_chunk ++ path ∷ [] in
        if leb chunk_size (length chunk)
        then record w { run = flush (λ ps. on_files ps files) chunk w.run; file_chunk = [] }
        else record w { file_chunk = chunk }

    unfoldable pub visit_acl : WalkResult → AclWalk → AclWalk
    visit_acl (failed p msg) w = acl_error (path_or_unknown p) msg w
    visit_acl (found e) w =
        if is_symlink e.kind
        then acl_skip w
        else if not (acl_entry_applies e opts (is_default dirs))
        then acl_skip w
        else if is_dir e.kind
        then take_dir e.path (acl_reach e.path w)
        else take_file e.path (acl_reach e.path w)

    unfoldable pub acl_walk : List Visit → AclWalk → AclWalk
    acl_walk [] w = w
    acl_walk (v ∷ vs) w =
        let rest = acl_walk vs (visit_acl v.result w) in if v.cancelled then w else rest

    -- What is left in the chunks is sent at the end, cancelled or not.
    abbrev pub flush_both : AclWalk → AclRun
    flush_both w =
        flush (λ ps. on_files ps files) w.file_chunk
          (flush (λ ps. on_dirs ps dirs) w.dir_chunk w.run)

  unfoldable pub apply_acl_with_progress :
      AclModification → AclModification → ApplyScope → List Visit → ApplyProgress → AclRun
  apply_acl_with_progress dirs files scope vs p =
      flush_both dirs files (acl_options scope)
        (acl_walk dirs files (acl_options scope) vs (acl_start p))
