-- ===== src/Recycle.antt =====
-- nfs-klldap-config/src/recycle_plan.rs: which services to bounce after a configuration change.
-- `Skip`, `Reload` and `Restart` of the WebUI are `leave`, `reload` and `restart` here.
pub mod Laws
use nfs_klldap_host.Prelude.{Bool, true, false, not, ◌&&◌, ◌||◌, if◌then◌else◌}

pub data GaneshaAction : Type 0 where
  skip sighup stop_start : GaneshaAction

pub data WebuiAction : Type 0 where
  leave reload restart : WebuiAction

pub record ServiceRecyclePlan : Type 0 where
  pub ganesha : GaneshaAction
  pub restart_sssd : Bool
  pub restart_idhelper : Bool
  pub webui : WebuiAction
  pub identity_staged : Bool
  pub restart_avahi : Bool

abbrev pub is_skip : GaneshaAction → Bool
is_skip skip = true
is_skip _ = false

abbrev pub is_leave : WebuiAction → Bool
is_leave leave = true
is_leave _ = false

unfoldable pub is_noop : ServiceRecyclePlan → Bool
is_noop p =
    is_skip p.ganesha
    && not p.restart_sssd
    && not p.restart_idhelper
    && is_leave p.webui
    && not p.restart_avahi

unfoldable pub plan_from_changes : Bool → Bool → Bool → Bool → Bool → ServiceRecyclePlan
plan_from_changes exports_changed identity_changed shares_changed host_nfs_mode ganesha_running =
    record {
      ganesha =
          if host_nfs_mode || not exports_changed
          then skip
          else if ganesha_running
          then sighup
          else stop_start;
      restart_sssd = false;
      restart_idhelper = false;
      webui = if exports_changed || shares_changed then reload else leave;
      identity_staged = identity_changed;
      restart_avahi = false;
    }

unfoldable pub plan_full_recycle : Bool → ServiceRecyclePlan
plan_full_recycle host_nfs_mode = record {
  ganesha = if host_nfs_mode then skip else stop_start;
  restart_sssd = true;
  restart_idhelper = true;
  webui = restart;
  identity_staged = false;
  restart_avahi = true;
}

abbrev pub escalate : GaneshaAction → ServiceRecyclePlan → ServiceRecyclePlan
escalate sighup p = record p { ganesha = stop_start }
escalate _ p = p

unfoldable pub ganesha_sighup_failed : ServiceRecyclePlan → ServiceRecyclePlan
ganesha_sighup_failed p = escalate p.ganesha p
