-- ===== src/Permissions/Edits/Log.antt =====
-- What an ACL operation of nfs-klldap-ui/src/web/permission_tree.rs does, against what its log line says.
use nfs_klldap_host.AclTable.{
  from_str, to_str, AclEntryKind, AclModification, set_entry, remove_entries, set_mask,
  modification_spec, entry_spec, colon, join_specs,
}
use nfs_klldap_host.Identity.Rows.{to_decimal}
use nfs_klldap_host.Permissions.Edits.{
  AclOpInput, setfacl_word, default_flag, modify_flag, remove_flag, specs_text, perms_text,
  fuse_dir, principals, entry_kind, on_path, Edit, mask_edit, set_edit, delete_edit,
  build_acl_modification, mask_op, add_op, edit_op, set_op, delete_op, del_op,
}
use nfs_klldap_host.Prelude.{
  ℕ, ◌≡◌, refl, sym, ap, Bool, true, false, ◌||◌, Option, none, some, List, [], ◌∷◌, ◌++◌,
  if◌then◌else◌, Text, same_text,
}
use mathlib.Core.List.{append_assoc}

-- The command line of a modification, from the arguments that setfacl is given.
abbrev pub command_line : AclModification → Text → Text
command_line m path =
    let (default, flag, spec) = modification_spec m in
    setfacl_word ++ (default_flag default ++ (flag ++ (32 ∷ (spec ++ on_path path))))

abbrev Removes : List AclEntryKind → Type 0
Removes [] = ⊥
Removes (k ∷ ks) = Unit

-- The modifications differ only in the permissions: files take those asked for, directories the fused
-- ones. The log line is the command that is run on a directory, unless there is nothing to remove.
abbrev pub IsEdit : AclOpInput → Bool → Text → Edit → Type 0
IsEdit input node_is_dir path (dirs, set_entry kind lit default, line) =
    (dirs ≡ set_entry kind (fuse_dir node_is_dir lit) default)
    × (kind ≡ entry_kind input.is_user input.id)
    × (lit ≡ from_str (perms_text input.perms))
    × (default ≡ input.default_layer)
    × (line ≡ command_line dirs path)
IsEdit input node_is_dir path (dirs, set_mask lit default, line) =
    (dirs ≡ set_mask (fuse_dir node_is_dir lit) default)
    × (lit ≡ from_str (perms_text input.perms))
    × (default ≡ input.default_layer)
    × (line ≡ command_line dirs path)
IsEdit input node_is_dir path (dirs, remove_entries kinds default, line) =
    (dirs ≡ remove_entries kinds default)
    × (kinds ≡ principals input)
    × (default ≡ input.default_layer)
    × (Removes kinds → line ≡ command_line dirs path)

mask_edit-IsEdit :
    (input : AclOpInput) (node_is_dir : Bool) (path : Text)
    → IsEdit input node_is_dir path (mask_edit input node_is_dir path)
unfolding mask_edit modification_spec
mask_edit-IsEdit input node_is_dir path = (refl, refl, refl, refl)

spec_line :
    (is_user : Bool) (id : ℕ) (p rest : Text)
    → (if is_user then 117 else 103) ∷ colon ∷ (to_decimal id ++ (colon ∷ (p ++ rest)))
      ≡ (entry_spec (entry_kind is_user id) ++ (colon ∷ p)) ++ rest
spec_line true id p rest =
    ap (λ z. 117 ∷ colon ∷ z) (sym (append_assoc (to_decimal id) (colon ∷ p) rest))
spec_line false id p rest =
    ap (λ z. 103 ∷ colon ∷ z) (sym (append_assoc (to_decimal id) (colon ∷ p) rest))

specs_text-join_specs : (ks : List AclEntryKind) → Removes ks → specs_text ks ≡ join_specs ks
specs_text-join_specs [] h = absurd h
specs_text-join_specs (k ∷ ks) h = refl

set_edit-IsEdit :
    (input : AclOpInput) (node_is_dir : Bool) (path : Text)
    → IsEdit input node_is_dir path (set_edit input node_is_dir path)
unfolding set_edit modification_spec
set_edit-IsEdit input node_is_dir path = (
  refl,
  refl,
  refl,
  refl,
  ap (λ z. setfacl_word ++ (default_flag input.default_layer ++ (modify_flag ++ z)))
      (spec_line input.is_user input.id
        (to_str (fuse_dir node_is_dir (from_str (perms_text input.perms)))) (on_path path)),
)

delete_edit-IsEdit :
    (input : AclOpInput) (node_is_dir : Bool) (path : Text)
    → IsEdit input node_is_dir path (delete_edit input path)
unfolding delete_edit modification_spec
delete_edit-IsEdit input node_is_dir path = (
  refl,
  refl,
  refl,
  λ h.
      ap
        (λ z.
          setfacl_word
          ++ (default_flag input.default_layer ++ (remove_flag ++ (z ++ on_path path))))
        (specs_text-join_specs (principals input) h),
)

abbrev pub is_known : Text → Bool
is_known op =
    same_text op mask_op
    || (same_text op add_op
        || (same_text op edit_op
            || (same_text op set_op || (same_text op delete_op || same_text op del_op))))

abbrev pub Edited : AclOpInput → Bool → Text → Bool → Option Edit → Type 0
Edited input node_is_dir path known none = known ≡ false
Edited input node_is_dir path known (some e) = (known ≡ true) × IsEdit input node_is_dir path e

module _ (input : AclOpInput) (node_is_dir : Bool) (path : Text) where
  chosen :
      (m a e s d x : Bool)
      → Edited input node_is_dir path (m || (a || (e || (s || (d || x))))) (
          if m
          then some (mask_edit input node_is_dir path)
          else if a || (e || s)
          then some (set_edit input node_is_dir path)
          else if d || x
          then some (delete_edit input path)
          else none)
  chosen true a e s d x = (refl, mask_edit-IsEdit input node_is_dir path)
  chosen false true e s d x = (refl, set_edit-IsEdit input node_is_dir path)
  chosen false false true s d x = (refl, set_edit-IsEdit input node_is_dir path)
  chosen false false false true d x = (refl, set_edit-IsEdit input node_is_dir path)
  chosen false false false false true x = (refl, delete_edit-IsEdit input node_is_dir path)
  chosen false false false false false true = (refl, delete_edit-IsEdit input node_is_dir path)
  chosen false false false false false false = refl

-- Exactly the six known operations give an edit. Its two modifications have the layer and the
-- principals of the request; the one for files has the permissions as they were asked for, the one
-- for directories grants execute with read when the target is a directory; and the line for the log
-- is the command that is run on directories, unless nothing is to be removed.
pub build_acl_modification-Edited :
    (input : AclOpInput) (node_is_dir : Bool) (path : Text)
    → Edited input node_is_dir path
        (is_known input.op)
        (build_acl_modification input node_is_dir path)
unfolding build_acl_modification
build_acl_modification-Edited input node_is_dir path =
    chosen input node_is_dir path (same_text input.op mask_op) (same_text input.op add_op)
      (same_text input.op edit_op) (same_text input.op set_op) (same_text input.op delete_op)
      (same_text input.op del_op)
