-- ===== src/Permissions.antt =====
-- The permission editor of the WebUI: the walks of nfs-klldap-ui/src/fs.rs that write owners, modes and
-- ACLs, and the decisions of nfs-klldap-ui/src/web/permission_tree.rs.
pub mod Walk
pub mod Modes
pub mod Apply
pub mod Request
pub mod Acls
pub mod Gate
pub mod Edits
pub mod Slot
pub mod Handler
