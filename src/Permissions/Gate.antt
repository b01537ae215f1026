-- ===== src/Permissions/Gate.antt =====
-- The gate of the ACL editor in nfs-klldap-ui/src/web/permission_tree.rs: which share a path belongs to,
-- and whether its ACLs may be edited. The texts that are shown are a data type; the verdicts on mounts,
-- and what the node is on disk, are arguments.
pub mod Decided
pub mod Writable
use nfs_klldap_host.Mounts.Flags.{AclProbeVerdict, capable, incapable, inconclusive}
use nfs_klldap_host.Prelude.{
  ℕ, Bool, true, false, not, ◌&&◌, ◌||◌, Option, none, some, List, [], ◌∷◌, if◌then◌else◌, ltb,
  Text, same_text, as_bytes, length,
}
use nfs_klldap_host.SharePaths.{
  Share, components, strip_prefix, is_found, host_path_to_container_path,
}

pub data Pill : Type 0 where
  off on auto on_unverified : Pill

pub data PillClass : Type 0 where
  off on warn : PillClass

-- Why the editor is shown as it is.
pub data GateReason : Type 0 where
  outside_shares acl_off unverified no_acl_storage auto_off : GateReason
  submount_incapable submount_unverified : GateReason

-- A reason stands for the short and the long text; the warning follows the long one.
pub record AclGateView : Type 0 where
  pub editable : Bool
  pub pill : Pill
  pub pill_class : PillClass
  pub reason : Option GateReason
  pub warning : Text

abbrev pub gate_outside_shares : AclGateView
gate_outside_shares = record {
  editable = false;
  pill = Pill.off;
  pill_class = PillClass.off;
  reason = some outside_shares;
  warning = [];
}

abbrev pub off_view : GateReason → Text → AclGateView
off_view why warning = record {
  editable = false;
  pill = Pill.off;
  pill_class = PillClass.off;
  reason = some why;
  warning = warning;
}

abbrev pub on_view : Pill → AclGateView
on_view pill = record {
  editable = true;
  pill = pill;
  pill_class = PillClass.on;
  reason = none;
  warning = [];
}

unfoldable pub share_level_decision : Option Bool → AclProbeVerdict → Text → AclGateView
share_level_decision (some false) v warning = off_view acl_off warning
share_level_decision (some true) capable warning = on_view Pill.on
share_level_decision none capable warning = on_view Pill.auto
share_level_decision (some true) inconclusive warning = record {
  editable = true;
  pill = Pill.on_unverified;
  pill_class = PillClass.warn;
  reason = some unverified;
  warning = warning;
}
share_level_decision (some true) incapable warning = off_view no_acl_storage warning
share_level_decision none incapable warning = off_view auto_off warning
share_level_decision none inconclusive warning = off_view auto_off warning

-- The chip of nfs-klldap-ui/src/web/acl_status.rs.
pub data StateLabel : Type 0 where
  off on on_unverified on_unsupported auto_on auto_off : StateLabel

unfoldable pub share_acl_state_label : Option Bool → AclProbeVerdict → StateLabel
share_acl_state_label (some false) v = StateLabel.off
share_acl_state_label (some true) capable = StateLabel.on
share_acl_state_label (some true) inconclusive = StateLabel.on_unverified
share_acl_state_label (some true) incapable = on_unsupported
share_acl_state_label none capable = auto_on
share_acl_state_label none incapable = auto_off
share_acl_state_label none inconclusive = auto_off

abbrev narrowed : Option AclProbeVerdict → Text → AclGateView → AclGateView
narrowed none warning base = base
narrowed (some capable) warning base = base
narrowed (some incapable) warning base = off_view submount_incapable warning
narrowed (some inconclusive) warning base = off_view submount_unverified warning

unfoldable pub acl_capability_decision :
    Option Bool → AclProbeVerdict → Option AclProbeVerdict → Text → AclGateView
acl_capability_decision enable_acl root node warning =
    let base = share_level_decision enable_acl root warning in
    if base.editable then narrowed node warning base else base

pub record GateShare : Type 0 where
  pub share : Share
  pub enable_acl : Option Bool

abbrev pub same_path : List Text → List Text → Bool
same_path [] [] = true
same_path [] (d ∷ ds) = false
same_path (c ∷ cs) [] = false
same_path (c ∷ cs) (d ∷ ds) = same_text c d && same_path cs ds

abbrev pub is_under : List Text → GateShare → Bool
is_under path s =
    is_found (strip_prefix (components s.share.host_path) path)
    || same_path path (components s.share.host_path)

-- The length of a host path in bytes.
abbrev pub key_of : GateShare → ℕ
key_of s = length (as_bytes s.share.host_path)

-- `max_by_key`: the last of the largest.
abbrev pub later_best : GateShare → Option GateShare → Option GateShare
later_best s none = some s
later_best s (some t) = if ltb (key_of t) (key_of s) then some s else some t

unfoldable pub best_share_for : List GateShare → Text → Option GateShare
best_share_for [] path = none
best_share_for (s ∷ ss) path =
    let rest = best_share_for ss path in
    if is_under (components path) s then later_best s rest else rest

pub record MountVerdict : Type 0 where
  pub verdict : AclProbeVerdict
  pub mount_root : Text

-- The verdict on a path, probed in a directory, and whether the probe is to be skipped.
pub record Probe : Type 0 where
  pub verdict_for : List Text → List Text → Bool → MountVerdict
  pub is_dir : List Text → Bool
  pub parent : List Text → Option (List Text)
  pub warning : GateShare → Text

abbrev pub is_disabled : Option Bool → Bool
is_disabled (some false) = true
is_disabled _ = false

abbrev unwrap_path : List Text → Option (List Text) → List Text
unwrap_path p none = p
unwrap_path p (some q) = q

abbrev pub share_verdict : Probe → List Text → GateShare → MountVerdict
share_verdict probe serve s = probe.verdict_for serve serve (is_disabled s.enable_acl)

abbrev pub node_verdict : MountVerdict → MountVerdict → Option AclProbeVerdict
node_verdict root node =
    if not (same_text node.mount_root root.mount_root) then some node.verdict else none

abbrev pub share_list : List GateShare → List Share
share_list [] = []
share_list (s ∷ ss) = s.share ∷ share_list ss

module _ (shares : List GateShare) (probe : Probe) (serve_path : GateShare → List Text) where
  -- The path in the container, or the root of the share.
  abbrev pub node_path : Text → GateShare → List Text
  node_path path s =
      unwrap_path (serve_path s) (host_path_to_container_path (share_list shares) path)

  -- The verdict on the node's own mount; a file is probed at its parent.
  abbrev pub node_at : Text → GateShare → MountVerdict
  node_at path s =
      let node = node_path path s in
      let dir =
        if probe.is_dir node then node else unwrap_path (serve_path s) (probe.parent node) in
      probe.verdict_for node dir (is_disabled s.enable_acl)

  abbrev pub gate_at : Text → Option GateShare → AclGateView
  gate_at path none = gate_outside_shares
  gate_at path (some s) =
      let root = share_verdict probe (serve_path s) s in
      acl_capability_decision s.enable_acl root.verdict (node_verdict root (node_at path s))
        (probe.warning s)

  unfoldable pub acl_apply_gate : Text → AclGateView
  acl_apply_gate path = gate_at path (best_share_for shares path)

  abbrev share_gate_at : Option GateShare → AclGateView
  share_gate_at none = gate_outside_shares
  share_gate_at (some s) =
      share_level_decision s.enable_acl (share_verdict probe (serve_path s) s).verdict
        (probe.warning s)

  unfoldable pub share_acl_gate : Text → AclGateView
  share_acl_gate path = share_gate_at (best_share_for shares path)
