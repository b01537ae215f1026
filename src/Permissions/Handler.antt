-- ===== src/Permissions/Handler.antt =====
-- What the ACL endpoint of nfs-klldap-ui/src/web/permission_tree.rs makes of a form, up to the claim of
-- the slot: a refusal, or the scope and the edit that the task applies. LDAP is an argument.
pub mod Allowed
use nfs_klldap_host.AclTable.{AclEntryKind, user_entry, group_entry}
use nfs_klldap_host.Identity.Rows.{parse_u32}
use nfs_klldap_host.Permissions.Edits.{
  AclOpInput, Edit, build_acl_modification, mask_op, delete_op, del_op,
}
use nfs_klldap_host.Permissions.Gate.{AclGateView}
use nfs_klldap_host.Permissions.Walk.{ApplyScope, dir_only, immediate_files, all}
use nfs_klldap_host.Prelude.{
  ℕ, Bool, true, false, not, ◌&&◌, ◌||◌, ◌==◌, Option, none, some, List, [], ◌∷◌, if◌then◌else◌,
  ltb, Text, same_text, trim, is_empty, split, last?, starts_with, to_ascii_lowercase, or_else, map,
}

pub record AclApplyForm : Type 0 where
  pub path : Text
  pub op : Text
  pub typ : Text
  pub id : Text
  pub name : Text
  pub perms : Text
  pub selected : Text
  pub layer : Text
  pub scope : Text

-- `normalize_editor_search_query`, and the numbers of the names that LDAP knows.
pub record Directory : Type 0 where
  pub normalize_query : Text → Option Text
  pub resolve_user : Text → Option ℕ
  pub resolve_group : Text → Option ℕ

pub data Rejection : Type 0 where
  busy not_editable default_on_file unresolved unknown_op : Rejection

pub record Submission : Type 0 where
  pub scope : ApplyScope
  pub input : AclOpInput
  pub edit : Edit

pub data Reply : Type 0 where
  rejected : Rejection → Reply
  submitted : Submission → Reply

abbrev pub user_word : Text
user_word = 117 ∷ 115 ∷ 101 ∷ 114 ∷ []

abbrev pub default_word : Text
default_word = 100 ∷ 101 ∷ 102 ∷ 97 ∷ 117 ∷ 108 ∷ 116 ∷ []

abbrev pub all_word : Text
all_word = 97 ∷ 108 ∷ 108 ∷ []

abbrev pub single_word : Text
single_word = 115 ∷ 105 ∷ 110 ∷ 103 ∷ 108 ∷ 101 ∷ []

-- `trim().to_lowercase()`, as far as a comparison with an ASCII word sees it: beside A to Z only the
-- Kelvin sign has a lower case that is one ASCII letter, `k`; the dotted I gives two characters.
abbrev pub lower_char : ℕ → ℕ
lower_char c = if c == 8490 then 107 else c

abbrev pub lower : Text → Text
lower s = map lower_char (to_ascii_lowercase (trim s))

abbrev pub is_user_form : Text → Bool
is_user_form typ = same_text (lower typ) user_word || same_text (lower typ) (117 ∷ [])

abbrev pub is_default_form : Text → Bool
is_default_form layer = same_text (to_ascii_lowercase (trim layer)) default_word

abbrev pub scope_of : Text → ApplyScope
scope_of s =
    if same_text (trim s) all_word
    then all
    else if same_text (trim s) single_word
    then immediate_files
    else dir_only

-- `Some(true)`
abbrev pub is_true : Option Bool → Bool
is_true (some true) = true
is_true _ = false

abbrev first_of : List Text → Text
first_of [] = []
first_of (t ∷ ts) = t

abbrev last_of : List Text → Text
last_of ts = elim (last? ts) [ none ↦ [] | some t ↦ t ]

-- `split(':').next_back()`, trimmed and parsed.
abbrev pub number_of : Text → Option ℕ
number_of t = parse_u32 (trim (last_of (split 58 t)))

abbrev pub or_zero : Option ℕ → ℕ
or_zero none = 0
or_zero (some n) = n

unfoldable pub parsed_id : AclApplyForm → ℕ
parsed_id form =
    or_zero (or_else (parse_u32 (trim form.id)) (number_of (first_of (split 44 form.selected))))

abbrev pub needs_id : Text → Bool
needs_id op = not (same_text op delete_op) && not (same_text op mask_op)

abbrev looked_up : Directory → Bool → Option Text → ℕ
looked_up d is_user none = 0
looked_up d is_user (some q) =
    or_zero (or_else (parse_u32 q) (if is_user then d.resolve_user q else d.resolve_group q))

unfoldable pub resolved_id : Directory → AclApplyForm → ℕ
unfolding parsed_id
resolved_id d form =
    let id = parsed_id form in
    if id == 0 && needs_id (lower form.op) && not (is_empty (trim form.name))
    then looked_up d (is_user_form form.typ) (d.normalize_query form.name)
    else id

-- A token of the list of principals to delete.
abbrev pub kind_of : Text → ℕ → AclEntryKind
kind_of t n = if starts_with (103 ∷ []) t then group_entry n else user_entry n

abbrev pub kinds_of : List Text → List AclEntryKind
kinds_of [] = []
kinds_of (tok ∷ toks) =
    let rest = kinds_of toks in
    let n = or_zero (number_of (trim tok)) in
    if not (is_empty (trim tok)) && ltb 0 n then kind_of (trim tok) n ∷ rest else rest

unfoldable pub delete_kinds_of : AclApplyForm → List AclEntryKind
delete_kinds_of form =
    if (same_text (lower form.op) delete_op || same_text (lower form.op) del_op)
      && not (is_empty (trim form.selected))
    then kinds_of (split 44 form.selected)
    else []

unfoldable pub input_of : Directory → AclApplyForm → AclOpInput
input_of d form = record {
  op = lower form.op;
  is_user = is_user_form form.typ;
  id = resolved_id d form;
  delete_kinds = delete_kinds_of form;
  perms = form.perms;
  default_layer = is_default_form form.layer;
}

abbrev submit : ApplyScope → AclOpInput → Option Edit → Reply
submit scope input none = rejected unknown_op
submit scope input (some e) = submitted (record { scope = scope; input = input; edit = e })

-- The courtesy check, the gate of the path, what the node is if it exists, and the form.
unfoldable pub acl_apply : Bool → AclGateView → Option Bool → Directory → AclApplyForm → Reply
acl_apply running gate node_is_dir d form =
    let input = input_of d form in
    if running
    then rejected busy
    else if not gate.editable
    then rejected not_editable
    else if is_default_form form.layer && not (is_true node_is_dir)
    then rejected default_on_file
    else if input.id == 0 && needs_id (lower form.op)
    then rejected unresolved
    else submit (if is_true node_is_dir then scope_of form.scope else dir_only) input
        (build_acl_modification input (is_true node_is_dir) form.path)
