-- ===== src/Supervisor.antt =====
-- nfs-klldap-config/src/supervisor: pid 1. `State` has the supervisor's state and the operating
-- system's interface, `Ganesha` and `Services` the operations on one service (services.rs and
-- mod.rs), `Apply` the configuration reloads, and `Loop` the main loop.
pub mod State
pub mod Keeps
pub mod Emits
pub mod EmitsServices
pub mod Graceful
pub mod Reloads
pub mod ReloadResults
pub mod HostNfs
pub mod Waits
pub mod GaneshaLaws
pub mod Respawns
pub mod HostStart
pub mod Readiness
pub mod Ganesha
pub mod Services
pub mod Apply
pub mod Loop
