-- ===== src/Permissions/Gate/Decided.antt =====
-- When the ACL editor of nfs-klldap-ui/src/web/permission_tree.rs is live, and how that agrees with the
-- flags of the export in nfs-klldap-config/src/fs_probe.rs.
use nfs_klldap_host.Mounts.Flags.{AclProbeVerdict, capable, incapable, inconclusive}
use nfs_klldap_host.Permissions.Gate.{
  PillClass, StateLabel, share_level_decision, acl_capability_decision,
}
use nfs_klldap_host.Prelude.{◌≡◌, ◌≢◌, ◌↔◌, ◌⊎◌, arith, Bool, true, false, Option, none, some, Text}

abbrev pub is_incapable : AclProbeVerdict → Bool
is_incapable incapable = true
is_incapable _ = false

-- The chip says that ACLs work.
abbrev pub says_on : StateLabel → Bool
says_on StateLabel.on = true
says_on StateLabel.on_unverified = true
says_on StateLabel.auto_on = true
says_on _ = false

abbrev pub is_warned : PillClass → Bool
is_warned PillClass.warn = true
is_warned _ = false

abbrev pub Serves : Option Bool → AclProbeVerdict → Type 0
Serves enable_acl root =
    ((enable_acl ≡ some true) × (root ≢ incapable)) ⊎ ((enable_acl ≡ none) × (root ≡ capable))

abbrev pub Stores : Option AclProbeVerdict → Type 0
Stores node = (node ≡ none) ⊎ (node ≡ some capable)

-- On a node the editor is live exactly when the share serves ACLs, by an explicit setting that the
-- mount does not refute or without one by a proof, and the node's mount is the share's or is proven.
pub acl_capability_decision_iff :
    (enable_acl : Option Bool) (root : AclProbeVerdict) (mount : Option AclProbeVerdict) (w : Text)
    → ((acl_capability_decision enable_acl root mount w).editable ≡ true)
      ↔ (Serves enable_acl root × Stores mount)
unfolding acl_capability_decision share_level_decision
acl_capability_decision_iff none capable none w = ground arith
acl_capability_decision_iff none capable (some capable) w = ground arith
acl_capability_decision_iff none capable (some incapable) w = ground arith
acl_capability_decision_iff none capable (some inconclusive) w = ground arith
acl_capability_decision_iff none incapable mount w = ground arith
acl_capability_decision_iff none inconclusive mount w = ground arith
acl_capability_decision_iff (some false) root mount w = ground arith
acl_capability_decision_iff (some true) incapable mount w = ground arith
acl_capability_decision_iff (some true) capable none w = ground arith
acl_capability_decision_iff (some true) capable (some capable) w = ground arith
acl_capability_decision_iff (some true) capable (some incapable) w = ground arith
acl_capability_decision_iff (some true) capable (some inconclusive) w = ground arith
acl_capability_decision_iff (some true) inconclusive none w = ground arith
acl_capability_decision_iff (some true) inconclusive (some capable) w = ground arith
acl_capability_decision_iff (some true) inconclusive (some incapable) w = ground arith
acl_capability_decision_iff (some true) inconclusive (some inconclusive) w = ground arith
