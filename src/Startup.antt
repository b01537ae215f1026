-- ===== src/Startup.antt =====
-- nfs-klldap-config/src/startup.rs: the first-run steps and the decision of one supervisor tick.
-- Disk and LDAP probes are the fields of `Probes`: what `check_persistent_writable`, the config
-- loads, `check_ldap_reachability`, `check_ldap_bind` and the marker file answer.
pub mod Laws
use nfs_klldap_host.Prelude.{
  ℕ, ◌≡◌, Bool, true, false, not, ◌&&◌, ◌||◌, Option, none, some, if◌then◌else◌,
}

pub data StartupStep : Type 0 where
  wait_for_persistent_volume set_ldap_uri add_bind_credentials ready : StartupStep

abbrev pub wizard_index : StartupStep → Option ℕ
wizard_index wait_for_persistent_volume = some 1
wizard_index set_ldap_uri = some 2
wizard_index add_bind_credentials = some 3
wizard_index ready = none

abbrev pub same_step : StartupStep → StartupStep → Bool
same_step wait_for_persistent_volume wait_for_persistent_volume = true
same_step set_ldap_uri set_ldap_uri = true
same_step add_bind_credentials add_bind_credentials = true
same_step ready ready = true
same_step _ _ = false

-- The `matches!` of `is_step_complete`.
abbrev before : StartupStep → StartupStep → Bool
before wait_for_persistent_volume set_ldap_uri = true
before wait_for_persistent_volume add_bind_credentials = true
before set_ldap_uri add_bind_credentials = true
before _ _ = false

pub is_step_complete : StartupStep → StartupStep → Bool
is_step_complete step current =
    if same_step step current
    then false
    else if same_step current ready
    then true
    else before step current

-- What the step functions read of a loaded configuration.
pub record LoadedConfig : Type 0 where
  pub uri_blank : Bool
  pub uri_structurally_valid : Bool
  pub bind_dn_blank : Bool
  pub authtok_blank : Bool

pub record Probes : Type 0 where
  pub persistent_writable : Bool
  pub lenient : Option LoadedConfig
  pub strict : Option LoadedConfig
  pub reachable : Bool
  pub bind_ok : Bool
  pub wizard_marker : Bool

wizard_step_of : Bool → Option LoadedConfig → StartupStep
wizard_step_of marker none = set_ldap_uri
wizard_step_of marker (some cfg) =
    if not cfg.uri_structurally_valid
    then set_ldap_uri
    else if cfg.bind_dn_blank || cfg.authtok_blank
    then add_bind_credentials
    else if marker
    then ready
    else add_bind_credentials

pub compute_wizard_step : Probes → StartupStep
unfolding wizard_step_of
compute_wizard_step p =
    if not p.persistent_writable
    then wait_for_persistent_volume
    else wizard_step_of p.wizard_marker p.lenient

startup_step_of : Bool → Bool → Option LoadedConfig → StartupStep
startup_step_of reachable bind_ok none = set_ldap_uri
startup_step_of reachable bind_ok (some cfg) =
    if cfg.uri_blank
    then set_ldap_uri
    else if not reachable
    then set_ldap_uri
    else if cfg.bind_dn_blank || cfg.authtok_blank
    then add_bind_credentials
    else if not bind_ok
    then add_bind_credentials
    else ready

pub compute_startup_step : Probes → StartupStep
unfolding startup_step_of
compute_startup_step p =
    if not p.persistent_writable
    then wait_for_persistent_volume
    else startup_step_of p.reachable p.bind_ok p.strict

pub config_has_required_startup_fields : LoadedConfig → Bool
config_has_required_startup_fields cfg =
    if not cfg.uri_structurally_valid
    then false
    else if cfg.bind_dn_blank || cfg.authtok_blank
    then false
    else true

deployment_of : Option LoadedConfig → Bool
unfolding config_has_required_startup_fields
deployment_of none = false
deployment_of (some cfg) = config_has_required_startup_fields cfg

-- The first argument is whether the keytab is a file.
pub is_preconfigured_deployment : Bool → Probes → Bool
unfolding deployment_of
is_preconfigured_deployment keytab p =
    if not keytab
    then false
    else if not p.persistent_writable
    then false
    else deployment_of p.strict

pub effective_startup_step : Bool → Probes → StartupStep
unfolding is_preconfigured_deployment compute_startup_step
effective_startup_step keytab p =
    if is_preconfigured_deployment keytab p then ready else compute_startup_step p

unfoldable pub should_bring_up_services : Bool → Bool → StartupStep → Bool
should_bring_up_services services_started wizard_complete step =
    not services_started && wizard_complete && same_step step ready

pub data SupervisorLoopAction : Type 0 where
  process_sighup process_full_recycle bring_up_services idle : SupervisorLoopAction

-- The arguments are `services_started`, `sighup_pending`, `full_recycle_pending`,
-- `wizard_complete` and `startup_step`.
unfoldable pub supervisor_loop_tick :
    Bool → Bool → Bool → Bool → StartupStep → SupervisorLoopAction × Bool
unfolding should_bring_up_services
supervisor_loop_tick started sighup full wizard step =
    if full
    then if should_bring_up_services started wizard step
      then (bring_up_services, true)
      else (process_full_recycle, true)
    else if sighup
    then (process_sighup, true)
    else if should_bring_up_services started wizard step
    then (bring_up_services, true)
    else (idle, started)
