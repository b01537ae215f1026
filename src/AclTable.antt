-- ===== src/AclTable.antt =====
-- POSIX ACLs in nfs-klldap-ui/src/privileged.rs: the entries, the reader of getfacl's output, and the
-- specifications for setfacl.
pub mod Printed
pub mod Lines
pub mod ReadBack
pub mod Effective
use nfs_klldap_host.Identity.Rows.{lines, parse_u32, to_decimal}
use nfs_klldap_host.Prelude.{
  ℕ, Bool, true, false, not, ◌&&◌, ◌||◌, Option, none, some, List, [], ◌∷◌, ◌++◌, if◌then◌else◌,
  ◌==◌, Text, same_text, trim, is_empty, split_once, starts_with, contains, to_ascii_lowercase,
}

pub record AclPerms : Type 0 where
  pub r : Bool
  pub w : Bool
  pub x : Bool

-- The text is in lower case when its letters are looked for, `X` included.
unfoldable pub from_str : Text → AclPerms
from_str s =
    let t = to_ascii_lowercase (trim s) in
    record { r = contains 114 t; w = contains 119 t; x = contains 120 t || contains 88 t }

unfoldable pub to_str : AclPerms → Text
to_str p = (if p.r then 114 else 45) ∷ (if p.w then 119 else 45) ∷ (if p.x then 120 else 45) ∷ []

unfoldable pub dir_r_implies_x : AclPerms → AclPerms
dir_r_implies_x p = record p { x = p.x || p.r }

pub data AclTag : Type 0 where
  owner owning_group mask other : AclTag
  named_user named_group : ℕ → AclTag

pub record AclLine : Type 0 where
  pub tag : AclTag
  pub perms : AclPerms

pub record AclTable : Type 0 where
  pub access : List AclLine
  pub default : List AclLine

abbrev pub layer : AclTable → Bool → List AclLine
layer t true = t.default
layer t false = t.access

abbrev pub is_mask : AclTag → Bool
is_mask mask = true
is_mask _ = false

abbrev pub first_mask : List AclLine → Option AclPerms
first_mask [] = none
first_mask (l ∷ ls) = let rest = first_mask ls in if is_mask l.tag then some l.perms else rest

unfoldable pub mask_of : AclTable → Bool → Option AclPerms
mask_of t default = first_mask (layer t default)

-- The group class, which the mask caps.
abbrev pub is_masked : AclTag → Bool
is_masked (named_user u) = true
is_masked (named_group g) = true
is_masked owning_group = true
is_masked _ = false

abbrev pub capped : AclPerms → Option AclPerms → AclPerms
capped p none = p
capped p (some m) = record { r = p.r && m.r; w = p.w && m.w; x = p.x && m.x }

unfoldable pub effective_perms : AclTable → AclLine → Bool → AclPerms
effective_perms t l default =
    if is_masked l.tag then capped l.perms (mask_of t default) else l.perms

abbrev pub is_extra : AclTag → Bool
is_extra (named_user u) = true
is_extra (named_group g) = true
is_extra mask = true
is_extra _ = false

abbrev pub any_extra : List AclLine → Bool
any_extra [] = false
any_extra (l ∷ ls) = is_extra l.tag || any_extra ls

abbrev has_lines : List AclLine → Bool
has_lines [] = false
has_lines (l ∷ ls) = true

unfoldable pub is_extended : AclTable → Bool
is_extended t = has_lines t.default || any_extra t.access

abbrev pub colon : ℕ
colon = 58

abbrev pub user_word : Text
user_word = 117 ∷ 115 ∷ 101 ∷ 114 ∷ []

abbrev pub group_word : Text
group_word = 103 ∷ 114 ∷ 111 ∷ 117 ∷ 112 ∷ []

abbrev pub mask_word : Text
mask_word = 109 ∷ 97 ∷ 115 ∷ 107 ∷ []

abbrev pub other_word : Text
other_word = 111 ∷ 116 ∷ 104 ∷ 101 ∷ 114 ∷ []

abbrev pub named : (ℕ → AclTag) → Option ℕ → Option AclTag
named f none = none
named f (some id) = some (f id)

unfoldable pub tag_of : Text → Text → Option AclTag
tag_of word id =
    if same_text word user_word
    then (if is_empty id then some owner else named named_user (parse_u32 id))
    else if same_text word group_word
    then (if is_empty id then some owning_group else named named_group (parse_u32 id))
    else if same_text word mask_word && is_empty id
    then some mask
    else if same_text word other_word && is_empty id
    then some other
    else none

abbrev pub line_of : AclPerms → Option AclTag → Option AclLine
line_of p none = none
line_of p (some t) = some (record { tag = t; perms = p })

abbrev pub line_of_rest : Text → Option (Text × Text) → Option AclLine
line_of_rest word none = none
line_of_rest word (some (id, perms)) = line_of (from_str perms) (tag_of word id)

abbrev pub line_of_parts : Option (Text × Text) → Option AclLine
line_of_parts none = none
line_of_parts (some (word, rest)) = line_of_rest word (split_once colon rest)

unfoldable pub parse_acl_line : Text → Option AclLine
parse_acl_line s = line_of_parts (split_once colon s)

-- `default:`
abbrev pub default_prefix : Text
default_prefix = 100 ∷ 101 ∷ 102 ∷ 97 ∷ 117 ∷ 108 ∷ 116 ∷ 58 ∷ []

abbrev pub strip_text : Text → Text → Option Text
strip_text [] s = some s
strip_text (c ∷ p) [] = none
strip_text (c ∷ p) (d ∷ s) = let rest = strip_text p s in if c == d then rest else none

abbrev pub without_comment : Text → Option (Text × Text) → Text
without_comment line none = line
without_comment line (some (entry, comment)) = trim entry

abbrev pub add_access : Option AclLine → AclTable → AclTable
add_access none t = t
add_access (some l) t = record t { access = l ∷ t.access }

abbrev pub add_default : Option AclLine → AclTable → AclTable
add_default none t = t
add_default (some l) t = record t { default = l ∷ t.default }

abbrev pub add_line : Text → Option Text → AclTable → AclTable
add_line line none t = add_access (parse_acl_line line) t
add_line line (some rest) t = add_default (parse_acl_line rest) t

abbrev pub is_comment : Text → Bool
is_comment line = is_empty line || starts_with (35 ∷ []) line

unfoldable pub parse_lines : List Text → AclTable
parse_lines [] = record { access = []; default = [] }
parse_lines (raw ∷ rest) =
    let line = without_comment (trim raw) (split_once 35 (trim raw)) in
    let later = parse_lines rest in
    if is_comment (trim raw) then later else add_line line (strip_text default_prefix line) later

unfoldable pub parse_getfacl_table : Text → AclTable
parse_getfacl_table s = parse_lines (lines s)

pub data AclEntryKind : Type 0 where
  user_entry group_entry : ℕ → AclEntryKind

pub data AclModification : Type 0 where
  set_entry : AclEntryKind → AclPerms → Bool → AclModification
  remove_entries : List AclEntryKind → Bool → AclModification
  set_mask : AclPerms → Bool → AclModification

abbrev pub entry_spec : AclEntryKind → Text
entry_spec (user_entry u) = 117 ∷ colon ∷ to_decimal u
entry_spec (group_entry g) = 103 ∷ colon ∷ to_decimal g

abbrev pub join_specs : List AclEntryKind → Text
join_specs [] = []
join_specs (k ∷ []) = entry_spec k
join_specs (k ∷ j ∷ ks) = entry_spec k ++ (44 ∷ join_specs (j ∷ ks))

-- The default layer or not, the option of setfacl, and the specification.
unfoldable pub modification_spec : AclModification → Bool × Text × Text
modification_spec (set_entry kind perms default) =
    (default, 45 ∷ 109 ∷ [], entry_spec kind ++ (colon ∷ to_str perms))
modification_spec (remove_entries kinds default) = (default, 45 ∷ 120 ∷ [], join_specs kinds)
modification_spec (set_mask perms default) =
    (default, 45 ∷ 109 ∷ [], 109 ∷ colon ∷ colon ∷ to_str perms)
