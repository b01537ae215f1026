-- ===== src/Permissions/Handler/Allowed.antt =====
-- What a form that the ACL endpoint of nfs-klldap-ui/src/web/permission_tree.rs accepts may do.
use nfs_klldap_host.AclTable.{
  AclEntryKind, user_entry, group_entry, AclModification, set_entry, remove_entries, set_mask,
}
use nfs_klldap_host.Permissions.Edits.{AclOpInput, Edit}
use nfs_klldap_host.Permissions.Edits.Log.{IsEdit}
use nfs_klldap_host.Permissions.Gate.{AclGateView}
use nfs_klldap_host.Permissions.Handler.{
  AclApplyForm, Submission, Reply, rejected, submitted, is_true, lower, is_default_form,
  is_user_form,
}
use nfs_klldap_host.Permissions.Walk.{dir_only}
use nfs_klldap_host.Prelude.{◌<◌, ◌≡◌, ◌≢◌, Bool, true, false, Option, none, some, All}

-- The user or the group 0 is not named.
abbrev pub IsPositive : AclEntryKind → Type 0
IsPositive (user_entry n) = 0 < n
IsPositive (group_entry n) = 0 < n

-- The modification is of the given layer, default or access, and spares the user and the group 0.
abbrev pub IsSafe : Bool → AclModification → Type 0
IsSafe layer (set_entry kind perms default) = (default ≡ layer) × IsPositive kind
IsSafe layer (remove_entries kinds default) = (default ≡ layer) × All IsPositive kinds
IsSafe layer (set_mask perms default) = default ≡ layer

abbrev Spares : Bool → Option Edit → Type 0
Spares layer none = Unit
Spares layer (some (dirs, files, line)) = IsSafe layer dirs × IsSafe layer files

-- The input is what the form says: its operation, its kind of principal, its permissions, its layer.
abbrev pub IsRead : AclApplyForm → AclOpInput → Type 0
IsRead form input =
    (input.op ≡ lower form.op)
    × (input.is_user ≡ is_user_form form.typ)
    × (input.perms ≡ form.perms)
    × (input.default_layer ≡ is_default_form form.layer)

module _ (gate : AclGateView) (node_is_dir : Option Bool) (form : AclApplyForm) where
  -- What holds of a submission.
  abbrev pub IsAllowed : Bool → Submission → Type 0
  IsAllowed running s =
      (running ≡ false)
      × (gate.editable ≡ true)
      × (is_default_form form.layer ≡ true → node_is_dir ≡ some true)
      × IsRead form s.input
      × (node_is_dir ≢ some true → s.scope ≡ dir_only)
      × IsSafe (is_default_form form.layer) s.edit.0
      × IsSafe (is_default_form form.layer) s.edit.1
      × IsEdit s.input (is_true node_is_dir) form.path s.edit

  abbrev Replied : Bool → Reply → Type 0
  Replied running (rejected why) = Unit
  Replied running (submitted s) = IsAllowed running s
