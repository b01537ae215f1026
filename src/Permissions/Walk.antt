-- ===== src/Permissions/Walk.antt =====
-- What a walk of nfs-klldap-ui/src/fs.rs visits, and the scan that counts before an apply. The walk
-- itself is the walkdir crate: a list of visits, each with the value of the cancel flag at that time.
use nfs_klldap_host.Prelude.{
  ℕ, ◌+◌, Bool, true, false, ◌&&◌, ◌||◌, Option, none, some, List, [], ◌∷◌, ◌++◌, leb, ltb, ◌==◌,
  if◌then◌else◌, Text, length,
}

pub data FileKind : Type 0 where
  dir file symlink special : FileKind

pub record DirEntry : Type 0 where
  pub path : Text
  pub depth : ℕ
  pub kind : FileKind

pub data WalkResult : Type 0 where
  found : DirEntry → WalkResult
  failed : Option Text → Text → WalkResult

pub record Visit : Type 0 where
  pub cancelled : Bool
  pub result : WalkResult

pub data ApplyScope : Type 0 where
  dir_only immediate_files all : ApplyScope

-- `none` for `usize::MAX`.
unfoldable pub max_depth : ApplyScope → Option ℕ
max_depth dir_only = some 0
max_depth immediate_files = some 1
max_depth all = none

pub record ApplyOptions : Type 0 where
  pub scope : ApplyScope
  pub file_mode : Option ℕ
  pub continue_on_error : Bool

pub record ApplyResult : Type 0 where
  pub changed : ℕ
  pub errors : List (Text × Text)
  pub skipped : ℕ
  pub fused_dirs : List Text
  pub fused_dir_count : ℕ

-- The counters that the poller reads; its texts are not modelled.
pub record ApplyProgress : Type 0 where
  pub total : ℕ
  pub processed : ℕ
  pub changed : ℕ
  pub skipped : ℕ
  pub error_count : ℕ
  pub finished : Bool
  pub recent_errors : List (Text × Text)
  pub last_path : Option Text

abbrev pub empty_result : ApplyResult
empty_result = record {
  changed = 0;
  errors = [];
  skipped = 0;
  fused_dirs = [];
  fused_dir_count = 0;
}

abbrev pub new_progress : ApplyProgress
new_progress = record {
  total = 0;
  processed = 0;
  changed = 0;
  skipped = 0;
  error_count = 0;
  finished = false;
  recent_errors = [];
  last_path = none;
}

abbrev pub is_dir : FileKind → Bool
is_dir dir = true
is_dir _ = false

abbrev pub is_file : FileKind → Bool
is_file file = true
is_file _ = false

abbrev pub is_symlink : FileKind → Bool
is_symlink symlink = true
is_symlink _ = false

abbrev pub in_scope : ApplyScope → FileKind → ℕ → Bool
in_scope dir_only k depth = (is_dir k || is_file k) && depth == 0
in_scope immediate_files k depth = is_dir k && depth == 0 || is_file k && leb depth 1
in_scope all k depth = is_dir k || is_file k

unfoldable pub should_apply_entry : DirEntry → ApplyOptions → Bool
should_apply_entry e opts = if is_symlink e.kind then false else in_scope opts.scope e.kind e.depth

abbrev pub drop_first {ℓ} : {A : Type ℓ} → List A → List A
drop_first [] = []
drop_first (x ∷ xs) = xs

-- The last ten errors.
unfoldable pub push_recent : List (Text × Text) → Text × Text → List (Text × Text)
push_recent errors e =
    let pushed = errors ++ e ∷ [] in if ltb 10 (length pushed) then drop_first pushed else pushed

abbrev pub counted : DirEntry → ApplyProgress → ApplyProgress
counted e p = record p { last_path = some e.path; processed = p.processed + 1 }

abbrev pub scan : ApplyOptions → WalkResult → ℕ × ApplyProgress → ℕ × ApplyProgress
scan opts (failed p msg) s = s
scan opts (found e) (count, p) =
    if is_symlink e.kind
    then (count, p)
    else if should_apply_entry e opts
    then (count + 1, counted e p)
    else (count, p)

unfoldable pub count_from : ApplyOptions → List Visit → ℕ × ApplyProgress → ℕ × ApplyProgress
count_from opts [] s = s
count_from opts (v ∷ vs) s =
    let rest = count_from opts vs (scan opts v.result s) in if v.cancelled then s else rest

-- The number of entries, and the progress that the poller sees.
unfoldable pub count_tree : ApplyOptions → List Visit → ApplyProgress → ℕ × ApplyProgress
count_tree opts vs p = count_from opts vs (0, p)
