-- ===== src/Permissions/Edits.antt =====
-- One ACL operation of the editor in nfs-klldap-ui/src/web/permission_tree.rs: the modification of
-- directories, that of files, and the line for the log.
pub mod Log
use nfs_klldap_host.AclTable.{
  AclPerms, from_str, to_str, dir_r_implies_x, AclEntryKind, user_entry, group_entry,
  AclModification, set_entry, remove_entries, set_mask, colon, join_specs,
}
use nfs_klldap_host.Identity.Rows.{to_decimal}
use nfs_klldap_host.Prelude.{
  ℕ, Bool, true, false, not, ◌&&◌, ◌||◌, Option, none, some, List, [], ◌∷◌, ◌++◌, if◌then◌else◌,
  ltb, Text, same_text, trim, is_empty,
}

pub record AclOpInput : Type 0 where
  pub op : Text
  pub is_user : Bool
  pub id : ℕ
  pub delete_kinds : List AclEntryKind
  pub perms : Text
  pub default_layer : Bool

abbrev pub mask_op : Text
mask_op = 109 ∷ 97 ∷ 115 ∷ 107 ∷ []

abbrev pub add_op : Text
add_op = 97 ∷ 100 ∷ 100 ∷ []

abbrev pub edit_op : Text
edit_op = 101 ∷ 100 ∷ 105 ∷ 116 ∷ []

abbrev pub set_op : Text
set_op = 115 ∷ 101 ∷ 116 ∷ []

abbrev pub delete_op : Text
delete_op = 100 ∷ 101 ∷ 108 ∷ 101 ∷ 116 ∷ 101 ∷ []

abbrev pub del_op : Text
del_op = 100 ∷ 101 ∷ 108 ∷ []

-- `setfacl `
abbrev pub setfacl_word : Text
setfacl_word = 115 ∷ 101 ∷ 116 ∷ 102 ∷ 97 ∷ 99 ∷ 108 ∷ 32 ∷ []

-- `-d `, `-m ` and `-x `
abbrev pub default_flag : Bool → Text
default_flag default = if default then 45 ∷ 100 ∷ 32 ∷ [] else []

abbrev pub modify_flag : Text
modify_flag = 45 ∷ 109 ∷ 32 ∷ []

abbrev pub remove_flag : Text
remove_flag = 45 ∷ 120 ∷ 32 ∷ []

-- `r--`
abbrev pub read_only : Text
read_only = 114 ∷ 45 ∷ 45 ∷ []

-- `(no-op)`
abbrev pub no_op : Text
no_op = 40 ∷ 110 ∷ 111 ∷ 45 ∷ 111 ∷ 112 ∷ 41 ∷ []

abbrev pub perms_text : Text → Text
perms_text perms = if is_empty (trim perms) then read_only else trim perms

abbrev pub entry_kind : Bool → ℕ → AclEntryKind
entry_kind is_user id = if is_user then user_entry id else group_entry id

abbrev pub fuse_dir : Bool → AclPerms → AclPerms
fuse_dir node_is_dir p = if node_is_dir then dir_r_implies_x p else p

abbrev pub or_lone : Bool → AclEntryKind → List AclEntryKind → List AclEntryKind
or_lone given kind [] = if given then kind ∷ [] else []
or_lone given kind (k ∷ ks) = k ∷ ks

-- The principals of the request, or its one id.
abbrev pub principals : AclOpInput → List AclEntryKind
principals input = or_lone (ltb 0 input.id) (entry_kind input.is_user input.id) input.delete_kinds

abbrev pub Edit : Type 0
Edit = AclModification × AclModification × Text

-- ` ` and the path
abbrev pub on_path : Text → Text
on_path path = 32 ∷ path

unfoldable pub mask_edit : AclOpInput → Bool → Text → Edit
mask_edit input node_is_dir path =
    let lit = from_str (perms_text input.perms) in
    let fused = fuse_dir node_is_dir lit in
    (
      set_mask fused input.default_layer,
      set_mask lit input.default_layer,
      setfacl_word
          ++ (default_flag input.default_layer
              ++ (modify_flag ++ (109 ∷ colon ∷ colon ∷ (to_str fused ++ on_path path)))),
    )

unfoldable pub set_edit : AclOpInput → Bool → Text → Edit
set_edit input node_is_dir path =
    let lit = from_str (perms_text input.perms) in
    let fused = fuse_dir node_is_dir lit in
    let kind = entry_kind input.is_user input.id in
    (
      set_entry kind fused input.default_layer,
      set_entry kind lit input.default_layer,
      setfacl_word
          ++ (default_flag input.default_layer
              ++ (modify_flag
                  ++ ((if input.is_user then 117 else 103)
                      ∷ colon
                      ∷ (to_decimal input.id ++ (colon ∷ (to_str fused ++ on_path path)))))),
    )

abbrev pub specs_text : List AclEntryKind → Text
specs_text [] = no_op
specs_text (k ∷ ks) = join_specs (k ∷ ks)

unfoldable pub delete_edit : AclOpInput → Text → Edit
delete_edit input path =
    let rm = remove_entries (principals input) input.default_layer in
    (
      rm,
      rm,
      setfacl_word
          ++ (default_flag input.default_layer
              ++ (remove_flag ++ (specs_text (principals input) ++ on_path path))),
    )

unfoldable pub build_acl_modification : AclOpInput → Bool → Text → Option Edit
build_acl_modification input node_is_dir path =
    if same_text input.op mask_op
    then some (mask_edit input node_is_dir path)
    else if same_text input.op add_op || (same_text input.op edit_op || same_text input.op set_op)
    then some (set_edit input node_is_dir path)
    else if same_text input.op delete_op || same_text input.op del_op
    then some (delete_edit input path)
    else none
