-- ===== src/Mounts.antt =====
-- The mount table and the ACL flags of nfs-klldap-config/src/fs_probe.rs.
pub mod Table
pub mod Flags
