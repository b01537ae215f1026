-- ===== src/Mounts/Table.antt =====
-- /proc/self/mountinfo in nfs-klldap-config/src/fs_probe.rs: its lines, the mount of a path, and
-- whether that mount can store POSIX ACLs.
pub mod Search
pub mod Longest
use nfs_klldap_host.SharePaths.{normalize_path}
use nfs_klldap_host.Identity.Rows.{lines}
use nfs_klldap_host.Identity.Cache.{text_ltb}
use nfs_klldap_host.Prelude.{
  ℕ, zero, suc, ◌+◌, Bool, true, false, not, ◌&&◌, ◌||◌, Option, none, some, List, [], ◌∷◌, ◌++◌,
  if◌then◌else◌, ltb, leb, Text, same_text, as_bytes, trim, is_empty, length, retain, map, split,
  split_whitespace, contains_text, starts_with, to_ascii_lowercase,
}

pub record MountEntry : Type 0 where
  pub mount_point : Text
  pub fstype : Text
  pub mount_source : Text
  pub super_options : List Text

pub record FsCapabilities : Type 0 where
  pub fstype : Text
  pub mount_options : List Text
  pub acl_capable : Bool

-- What stands behind the first separator `-`.
abbrev after_dash : List Text → List Text
after_dash [] = []
after_dash (p ∷ parts) =
    let rest = after_dash parts in if same_text p (45 ∷ []) then parts else rest

abbrev split_all : List Text → List Text
split_all [] = []
split_all (p ∷ parts) = split 44 p ++ split_all parts

abbrev super_options_of : List Text → List Text
super_options_of parts = retain (λ s. not (is_empty s)) (map trim (split_all parts))

abbrev fifth : List Text → Text
fifth (a ∷ b ∷ c ∷ d ∷ e ∷ rest) = e
fifth _ = []

abbrev entry_of : Text → List Text → Option MountEntry
entry_of point (fs ∷ source ∷ option ∷ rest) = some (record {
  mount_point = point;
  fstype = fs;
  mount_source = source;
  super_options = super_options_of (option ∷ rest);
})
entry_of point _ = none

unfoldable pub parse_mountinfo_line : Text → Option MountEntry
parse_mountinfo_line line =
    let parts = split_whitespace line in
    if ltb (length parts) 10 then none else entry_of (fifth parts) (after_dash parts)

abbrev add_entry : Option MountEntry → List MountEntry → List MountEntry
add_entry none entries = entries
add_entry (some e) entries = e ∷ entries

abbrev parse_entries : List Text → List MountEntry
parse_entries [] = []
parse_entries (line ∷ rest) = add_entry (parse_mountinfo_line line) (parse_entries rest)

unfoldable pub parse_mountinfo : Text → List MountEntry
parse_mountinfo content = parse_entries (lines content)

unfoldable pub path_under_mount : Text → Text → Bool
path_under_mount path point =
    same_text path point
    || (if same_text point (47 ∷ [])
        then starts_with (47 ∷ []) path
        else starts_with (point ++ 47 ∷ []) path)

abbrev pub point_length : MountEntry → ℕ
point_length e = length (as_bytes (normalize_path e.mount_point))

-- `max_by_key`: of equal keys the last one.
abbrev pub later_max : Option MountEntry → MountEntry → Option MountEntry
later_max none e = some e
later_max (some b) e = if leb (point_length b) (point_length e) then some e else some b

abbrev pub is_over : Text → MountEntry → Bool
is_over norm e = path_under_mount norm (normalize_path e.mount_point)

unfoldable pub max_over : Text → Option MountEntry → List MountEntry → Option MountEntry
max_over norm best [] = best
max_over norm best (e ∷ entries) =
    max_over norm (if is_over norm e then later_max best e else best) entries

unfoldable pub resolve_mount_for_path : List MountEntry → Text → Option MountEntry
resolve_mount_for_path entries path = max_over (normalize_path path) none entries

abbrev any_noacl : List Text → Bool
any_noacl [] = false
any_noacl (o ∷ options) =
    same_text (to_ascii_lowercase o) (110 ∷ 111 ∷ 97 ∷ 99 ∷ 108 ∷ []) || any_noacl options

abbrev ntfs : Text
ntfs = 110 ∷ 116 ∷ 102 ∷ 115 ∷ []

-- vfat, fat, msdos, exfat, ntfs, ntfs3 and fuseblk.
abbrev is_denied : Text → Bool
is_denied fs =
    same_text fs (118 ∷ 102 ∷ 97 ∷ 116 ∷ [])
    || same_text fs (102 ∷ 97 ∷ 116 ∷ [])
    || same_text fs (109 ∷ 115 ∷ 100 ∷ 111 ∷ 115 ∷ [])
    || same_text fs (101 ∷ 120 ∷ 102 ∷ 97 ∷ 116 ∷ [])
    || same_text fs ntfs
    || same_text fs (110 ∷ 116 ∷ 102 ∷ 115 ∷ 51 ∷ [])
    || same_text fs (102 ∷ 117 ∷ 115 ∷ 101 ∷ 98 ∷ 108 ∷ 107 ∷ [])

unfoldable pub acl_capable_from_mount : Text → List Text → Text → Bool
acl_capable_from_mount fstype options mount_source =
    if any_noacl options
    then false
    else if is_denied (to_ascii_lowercase fstype)
    then false
    else not (contains_text ntfs (to_ascii_lowercase mount_source))

abbrev pub is_capable : MountEntry → Bool
is_capable e = acl_capable_from_mount e.fstype e.super_options e.mount_source

abbrev capabilities_of : Option MountEntry → FsCapabilities × Option Text
capabilities_of none = (
  record {
    fstype = 117 ∷ 110 ∷ 107 ∷ 110 ∷ 111 ∷ 119 ∷ 110 ∷ [];
    mount_options = [];
    acl_capable = false;
  },
  none,
)
capabilities_of (some e) = (
  record { fstype = e.fstype; mount_options = e.super_options; acl_capable = is_capable e },
  some e.mount_point,
)

-- Without a mount: the type `unknown`, and no ACLs.
unfoldable pub probe_from_mountinfo_with_root : Text → Text → FsCapabilities × Option Text
probe_from_mountinfo_with_root content path =
    capabilities_of (resolve_mount_for_path (parse_mountinfo content) path)

-- A `BTreeMap` from normalized mount points, in order: the last entry for a point stays.
abbrev pub put : Text → MountEntry → List (Text × MountEntry) → List (Text × MountEntry)
put k e [] = (k, e) ∷ []
put k e ((j, f) ∷ m) =
    let rest = put k e m in
    if same_text k j
    then (k, e) ∷ m
    else if text_ltb k j
    then (k, e) ∷ (j, f) ∷ m
    else (j, f) ∷ rest

abbrev pub visible : List (Text × MountEntry) → List MountEntry → List (Text × MountEntry)
visible m [] = m
visible m (e ∷ entries) = visible (put (normalize_path e.mount_point) e m) entries

-- Strictly below the root, and unable to store ACLs.
abbrev pub is_gap : Text → Text × MountEntry → Bool
is_gap root (point, e) =
    not (same_text point root) && path_under_mount point root && not (is_capable e)

-- The mount points and types; no content is an unreadable table.
unfoldable pub acl_incapable_mounts_under : Option Text → Text → List (Text × Text)
acl_incapable_mounts_under none root = []
acl_incapable_mounts_under (some content) root =
    map (λ e. (e.0, e.1.fstype))
      (retain (is_gap (normalize_path root)) (visible [] (parse_mountinfo content)))
