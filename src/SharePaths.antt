-- ===== src/SharePaths.antt =====
-- The allow-list of nfs-klldap-ui/src/fs.rs: which paths lie under a share, and where they are in the
-- container. A path is a text; std::path's view of it is its list of components, a root as `/`. A
-- path in the container is given by its components.
pub mod Normal
pub mod Search
pub mod Containment
use nfs_klldap_host.Prelude.{
  ℕ, ◌≡◌, Bool, true, false, not, ◌&&◌, ◌||◌, Option, none, some, List, [], ◌∷◌, ◌++◌,
  if◌then◌else◌, ltb, ◌==◌, Text, same_text, as_bytes, trim, is_empty, length, retain,
}

-- What the two functions read of a share.
pub record Share : Type 0 where
  pub host_path : Text
  pub container_path : Text

abbrev pub cons_head : ℕ → Text × List Text → Text × List Text
cons_head c (first, rest) = (c ∷ first, rest)

abbrev pub next_segment : Text × List Text → Text × List Text
next_segment (first, rest) = ([], first ∷ rest)

-- The text before the first slash, and the texts between the others.
abbrev pub segments : Text → Text × List Text
segments [] = ([], [])
segments (c ∷ s) =
    let later = segments s in if c == 47 then next_segment later else cons_head c later

abbrev pub current_dir : Text
current_dir = 46 ∷ []

abbrev pub parent_dir : Text
parent_dir = 46 ∷ 46 ∷ []

abbrev pub root_dir : Text
root_dir = 47 ∷ []

-- Segments that are components wherever they stand.
abbrev pub is_named : Text → Bool
is_named s = not (is_empty s) && not (same_text s current_dir)

abbrev pub of_segments : Text × List Text → List Text
of_segments (first, rest) =
    let named = retain is_named rest in if is_empty first then named else first ∷ named

abbrev pub has_root : Text → Bool
has_root [] = false
has_root (c ∷ s) = c == 47

-- `Path::components`: repeated and trailing slashes and inner `.` are skipped; a leading `.` of a
-- relative path stays.
abbrev pub components : Text → List Text
components p =
    let named = of_segments (segments p) in if has_root p then root_dir ∷ named else named

-- `Path::strip_prefix` on components; `none` when it is no prefix.
abbrev pub strip_prefix : List Text → List Text → Option (List Text)
strip_prefix [] path = some path
strip_prefix (c ∷ cs) [] = none
strip_prefix (c ∷ cs) (d ∷ ds) =
    let rest = strip_prefix cs ds in if same_text c d then rest else none

abbrev pub is_found : {A : Type 0} → Option A → Bool
is_found none = false
is_found (some a) = true

abbrev pub any_parent : List Text → Bool
any_parent [] = false
any_parent (c ∷ cs) = same_text c parent_dir || any_parent cs

unfoldable pub has_parent_traversal : Text → Bool
has_parent_traversal p = any_parent (components p)

abbrev pub trim_slashes : Text → Text
trim_slashes [] = []
trim_slashes (c ∷ s) =
    let rest = trim_slashes s in if c == 47 && is_empty rest then [] else c ∷ rest

-- `normalize_path` of nfs-klldap-config/src/fs_probe.rs.
unfoldable pub normalize_path : Text → Text
normalize_path p = let trimmed = trim_slashes p in if is_empty trimmed then root_dir else trimmed

unfoldable pub relative_to : List Text → Share → Option (List Text)
relative_to path share = strip_prefix (components (normalize_path share.host_path)) path

abbrev pub specificity : Share → ℕ
specificity share = length (as_bytes (normalize_path share.host_path))

-- One step of the search for the longest matching host path.
abbrev pub better : Share → Option (List Text) → Option (ℕ × List Text) → Option (ℕ × List Text)
better share none best = best
better share (some rel) none =
    some (specificity share, components (trim share.container_path) ++ rel)
better share (some rel) (some (spec, path)) =
    if ltb spec (specificity share)
    then some (specificity share, components (trim share.container_path) ++ rel)
    else some (spec, path)

unfoldable pub best_of : List Text → List Share → Option (ℕ × List Text) → Option (ℕ × List Text)
unfolding relative_to
best_of path [] best = best
best_of path (share ∷ shares) best =
    best_of path shares (better share (relative_to path share) best)

abbrev pub path_of : Option (ℕ × List Text) → Option (List Text)
path_of none = none
path_of (some (spec, path)) = some path

-- `none` for `Err`.
unfoldable pub host_path_to_container_path : List Share → Text → Option (List Text)
unfolding has_parent_traversal best_of
host_path_to_container_path shares p =
    if has_parent_traversal p
    then none
    else path_of (best_of (components (normalize_path p)) shares none)

abbrev pub any_root : List Text → List Share → Bool
any_root path [] = false
any_root path (share ∷ shares) = is_found (relative_to path share) || any_root path shares

unfoldable pub is_allowed : List Share → Text → Bool
unfolding has_parent_traversal
is_allowed shares p =
    if has_parent_traversal p then false else any_root (components (normalize_path p)) shares
