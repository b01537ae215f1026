-- ===== src/Lib.antt =====
-- A model of nfs-klldap-host: a container whose pid 1 supervises an NFS server (Ganesha), SSSD, an
-- identity helper, a WebUI, D-Bus, avahi and a configuration watcher, and regenerates their
-- configuration from one TOML file. Modelled here are the supervisor with the decisions it takes,
-- the identity helper that answers Ganesha's questions on Kerberos principals, the mount table with
-- the ACL decisions, the WebUI's sessions, localhost password, path allow-list and ACL watch, and the
-- escaping of LDAP filters.
--
-- Recycle is nfs-klldap-config/src/recycle_plan.rs. A plan says what to do with each service after a
-- regeneration. `plan_from_changes` is the scoped plan of a SIGHUP, `plan_full_recycle` the forced
-- one of a SIGUSR1, `ganesha_sighup_failed` the escalation.
-- Startup is nfs-klldap-config/src/startup.rs. The step of the first run, the test for a
-- preconfigured deployment and the action of one tick of the main loop (`supervisor_loop_tick`).
-- Disk, LDAP and marker probes are fields of `Probes`; a parsed configuration is `LoadedConfig`.
-- Respawn is nfs-klldap-config/src/supervisor/respawn.rs. The sliding-window budget of respawns,
-- times in milliseconds.
-- Supervisor is nfs-klldap-config/src/supervisor/mod.rs and services.rs, on top of the other three.
-- State is the supervisor's record, the operating system as a record of functions (`Os`) and the
-- state monad `M` whose state also keeps the trace of acts; Ganesha and Services are the starts,
-- stops and reloads of each service; Apply is `regenerate_and_diff`, `execute_recycle_plan`,
-- `handle_sighup` and `handle_full_recycle`; Loop is `bring_up_services`,
-- `check_and_respawn_services`, `cleanup`, `run_supervisor` on a preconfigured deployment and
-- `supervisor_loop`. Keeps and Emits are the program logic: invariants of a do block, and the acts
-- that an operation may emit. The other children hold the proofs.
--
-- Auth is nfs-klldap-ui/src/auth.rs: the sessions of the WebUI with their sidecar file, and in
-- Auth/Password the localhost password. A manager's state is the session map and the sidecar's
-- content; SHA-256 and serde_json are arguments, times are nanoseconds since the epoch, and the
-- outcome of each write is an argument. It shares no state with the supervisor: its sidecar is how
-- sessions outlive the restarts that the supervisor gives the WebUI.
--
-- LdapFilter is nfs-klldap-identity/src/ldap/filter.rs: a text is a list of characters, its bytes are
-- UTF-8, and the server's unescaping is written down beside the code's escaping.
--
-- SharePaths is `is_allowed` and `host_path_to_container_path` of nfs-klldap-ui/src/fs.rs, with
-- `normalize_path` of nfs-klldap-config/src/fs_probe.rs. Paths are texts, seen through std::path's
-- components.
--
-- Identity is nfs-klldap-config/src/bin/idhelper with nfs-klldap-identity/src/krb5/principal.rs and
-- nss/getent.rs. Principal is the classification and the normal forms of principals, Rows the passwd
-- lines and their parser, Cache the `IdCache`, Lookup where a uid is looked for, Groups and Grouplist
-- the GROUPS answer, Resolve is `resolve_principal`, Logins the names written to the NSS stores, Sync
-- the bulk reload of the cache, Members and Snapshot the passwd and group lines that are built from
-- it, Flight the single flight of equal requests (daemon.rs) as a step relation. The answers of
-- getent, of the files and of the LDAP resolver are a
-- record `Lookups` with arbitrary values; an operation returns its answer, the cache it leaves and
-- the list of calls with an effect outside the cache (`Act`). A hash map is a list, in any order.
--
-- Mounts is nfs-klldap-config/src/fs_probe.rs: Table reads /proc/self/mountinfo and finds the mount of
-- a path, Flags decides the export flags of a share. Its verdicts go to AclCache
-- (nfs-klldap-ui/src/web/acl_capability.rs), which remembers them by mount, and from there to AclWatch
-- (nfs-klldap-ui/src/web/acl_watch.rs), the loop that asks for a recycle when a mount has changed.
-- Permissions is the permission editor: the rest of nfs-klldap-ui/src/fs.rs and the core of
-- nfs-klldap-ui/src/web/permission_tree.rs. Walk and Apply are the scan and the apply of owners and
-- modes, Request the checks before them, Acls the chunked ACL walk, Modes the rule that read implies
-- execute on directories, Gate the decision whether ACLs may be edited, Edits the modification of one
-- ACL operation, Handler what the ACL endpoint makes of a form, Slot the single apply slot as a step
-- relation. A walk of the walkdir crate is a list
-- of visits, each with the cancel flag at its time; chown, chmod and setfacl are arguments, and what
-- they are asked is a list. It stands on SharePaths for its paths, on Mounts for the verdicts and on
-- AclTable for the modifications.
--
-- Validation is the shares' part of `validate_and_derive` in nfs-klldap-config/src/validate.rs, with
-- `derive_share_pseudo` of config.rs: four loops over the shares in an error monad. Checks and Lists
-- hold what a passed share and a passed list satisfy, Valid and Accepted what the rest of the program
-- relies on, Again that validation settles. Its container paths are those that SharePaths maps to; like
-- the code, it compares them with the container root as texts.
--
-- Fingerprints is nfs-klldap-config/src/exports_fingerprint.rs: FNV-1a on numbers below 2 ^ 64, over
-- files that are lists of bytes, sorted by name. Words holds what the exclusive or and the product
-- keep apart, Edits how an edited file goes through the filter and the sort.
-- Recycle takes what has changed from such fingerprints, which are answers of the system there.
--
-- AclTable is the ACL half of nfs-klldap-ui/src/privileged.rs: the reader of what `getfacl -c -n` prints,
-- the effective permissions and the arguments of setfacl. Printed is getfacl's output by its
-- documentation, with any choice of the entries that get an `#effective:` comment.
--
-- Every `Command`, file test, probe, clock reading and signal goes through `Os`, whose answers are
-- arbitrary; where a theorem needs the clock to move, it takes `HasClock`. A signal is an act that
-- names the service whose tracked pid it goes to.
--
-- Fuel. `wait_exit` polls every 100 ms for a deadline `ms` ahead and is given `ms / 100 + 2` rounds,
-- enough for a clock that moves by at least each sleep. `ready_before` polls every 350 ms for 20 s and
-- is given 60 rounds, enough on such a clock too.
-- A u32 is printed with fuel for ten digits, which is enough below 2 ^ 32.
-- `supervisor_loop_from` runs a number of passes and says `again` when they are used up, since the
-- loop of pid 1 has no end of its own.
--
-- Left out: log lines, the process's environment variables but for the flags in `Env`, the command
-- lines of the spawned programs, and the three probe drivers `run_supervise_*_probe`. Also the
-- generators, parsing and the rest of validation, the readiness checks behind `ganesha_ready`, the
-- rest of the filesystem code, the LDAP resolver and network code, the identity helper's socket loop,
-- cache file and group files, and the WebUI's pages. The branch of `resolve_principal` that refreshes
-- all cached users is the act `refresh_all` without its effect on the cache.
pub mod Prelude
pub mod Recycle
pub mod Startup
pub mod Respawn
pub mod Supervisor
pub mod Auth
pub mod LdapFilter
pub mod Identity
pub mod SharePaths
pub mod Mounts
pub mod AclTable
pub mod AclWatch
pub mod AclCache
pub mod AuthTests
pub mod LdapTests
pub mod IdentityTests
pub mod MountTests
pub mod Permissions
pub mod Validation
pub mod PermissionTests
pub mod Fingerprints
pub mod FingerprintTests
pub mod GateTests
pub mod ValidationTests
pub mod AclTests
pub mod ShareTests
pub mod Tests
