-- ===== src/Identity.antt =====
-- The identity helper, nfs-klldap-config/src/bin/idhelper, and the parsers and name rules that it
-- takes from nfs-klldap-identity/src.
pub mod Principal
pub mod Rows
pub mod Cache
pub mod Logins
pub mod Lookup
pub mod Groups
pub mod Resolve
pub mod Grouplist
pub mod Sync
pub mod Members
pub mod Snapshot
pub mod Flight
