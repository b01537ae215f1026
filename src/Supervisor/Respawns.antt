-- ===== src/Supervisor/Respawns.antt =====
-- The respawns and the start of nfs-klldap-config/src/supervisor/mod.rs in HOST_NFS mode.
use nfs_klldap_host.Prelude.{
  ℕ, ◌≡◌, ◌≢◌, Bool, true, false, List, [], ◌∷◌, refl, ap, ◌∙◌, arith, if◌then◌else◌,
}
use nfs_klldap_host.Respawn.{Service, RespawnDecision, decide}
use nfs_klldap_host.Supervisor.Emits.{
  all_acts, Emits, Permits, Launches, do_rules, Emits-get, Emits-modify,
}
use nfs_klldap_host.Supervisor.EmitsServices.{
  start_webui-Emits, restart_sssd-Emits, restart_idhelper-Emits, start_watcher-Emits, prereqs-Emits,
}
use nfs_klldap_host.Supervisor.HostNfs.{
  spares_server, spares_server-Neutral, spares_server-webui, spares_server-sssd,
  spares_server-idhelper, start_avahi-Emits_host,
}
use nfs_klldap_host.Supervisor.Keeps.{Keeps, Ensures, Keeps-bind_ensures, Keeps-then, Keeps-done}
use nfs_klldap_host.Supervisor.Loop.{
  respawn_needed, needed_when, respawn_service, respawn_on, consider, consider_all,
  check_and_respawn_services,
}
use nfs_klldap_host.Supervisor.State.{Os, Env, Supervisor, Machine, M, done, steps}

host_needed :
    (service : Service) (s : Supervisor) (alive : Bool)
    → s.env.host_nfs_mode ≡ true
    → needed_when service s alive ≡ true
    → service ≢ Service.ganesha
unfolding needed_when
host_needed service s alive h k same = ground arith

spares_server-watcher : Permits spares_server Service.watcher
spares_server-watcher = record {
  signals = λ signal pid. refl;
  pkills = refl;
  spawns = λ pid. refl;
  failures = refl;
}

spares_server-dbus : Launches spares_server Service.dbus
spares_server-dbus = record { spawns = λ pid. refl; failures = refl }

module _ {os : Os} {e : Env} {b : Bool} (host : e.host_nfs_mode ≡ true) where
  respawn_service-Emits_host :
      (service : Service)
      → service ≢ Service.ganesha
      → Keeps {os = os} (Emits spares_server e b) (respawn_service service)
  unfolding respawn_service
  respawn_service-Emits_host Service.webui h =
      search (do_rules, start_webui-Emits spares_server-Neutral spares_server-webui)
  respawn_service-Emits_host Service.watcher h =
      search (do_rules, start_watcher-Emits spares_server-Neutral spares_server-watcher)
  respawn_service-Emits_host Service.sssd h =
      restart_sssd-Emits spares_server-Neutral spares_server-sssd
  respawn_service-Emits_host Service.idhelper h =
      restart_idhelper-Emits spares_server-Neutral spares_server-idhelper
  respawn_service-Emits_host Service.dbus h = prereqs-Emits spares_server-Neutral spares_server-dbus
  respawn_service-Emits_host Service.ganesha h = absurd (h refl)
  respawn_service-Emits_host Service.avahi h = start_avahi-Emits_host host

  respawn_on-Emits_host :
      (d : RespawnDecision) (service : Service)
      → service ≢ Service.ganesha
      → Keeps {os = os} (Emits spares_server e b) (respawn_on d service)
  unfolding respawn_on
  respawn_on-Emits_host RespawnDecision.go service h = respawn_service-Emits_host service h
  respawn_on-Emits_host RespawnDecision.cooldown service h = Keeps-done _
  respawn_on-Emits_host (RespawnDecision.exhausted notify) service h = Keeps-done _

  respawn_needed-Emits :
      (service : Service) → Keeps {os = os} (Emits spares_server e b) (respawn_needed service)
  unfolding respawn_needed
  respawn_needed-Emits service = search do_rules

  respawn_needed-Ensures :
      (service : Service)
      → Ensures {os = os}
          (Emits spares_server e b)
          (respawn_needed service)
          (λ needed. needed ≡ true → service ≢ Service.ganesha)
  unfolding respawn_needed steps
  respawn_needed-Ensures service = record {
    keeps = respawn_needed-Emits service;
    result = λ m q. host_needed service m.sup _ (ap (λ x. x.host_nfs_mode) q.env_is ∙ host);
  }

  respawn_if-Emits_host :
      (needed : Bool) (f : M os (Unit {0}))
      → (needed ≡ true → Keeps (Emits spares_server e b) f)
      → Keeps (Emits spares_server e b) (if needed then f else done)
  respawn_if-Emits_host true f h = h refl
  respawn_if-Emits_host false f h = Keeps-done _

  consider-Emits_host :
      (service : Service) (now : ℕ)
      → Keeps {os = os} (Emits spares_server e b) (consider service now)
  unfolding consider
  consider-Emits_host service now =
      Keeps-bind_ensures _ _ _ (respawn_needed-Ensures service) (λ needed ours.
        respawn_if-Emits_host needed _ (λ yes. Emits-get _ (λ sup same started.
          Keeps-then _ _ _ (Emits-modify _ (λ s. refl) (λ s. refl))
            (respawn_on-Emits_host (decide sup.respawn service now).1 service (ours yes)))))

  consider_all-Emits_host :
      (now : ℕ) (services : List Service)
      → Keeps {os = os} (Emits spares_server e b) (consider_all now services)
  unfolding consider_all
  consider_all-Emits_host now [] = Keeps-done _
  consider_all-Emits_host now (service ∷ rest) =
      Keeps-then _ _ _ (consider-Emits_host service now) (consider_all-Emits_host now rest)

  check_and_respawn-Emits_host :
      Keeps {os = os} (Emits spares_server e b) check_and_respawn_services
  unfolding check_and_respawn_services
  check_and_respawn-Emits_host = search (do_rules, consider_all-Emits_host)

-- In HOST_NFS mode the respawns spare the NFS server, whatever processes have died and even if a
-- Ganesha or avahi is still marked as managed: acts that signal or start no Ganesha and start no
-- avahi are only followed by such acts, and the mode stays on.
pub check_and_respawn_services_host :
    {os : Os} (m : Machine os)
    → m.sup.env.host_nfs_mode ≡ true
    → all_acts spares_server m.trace ≡ true
    → (all_acts spares_server (check_and_respawn_services m).1.trace ≡ true)
      × ((check_and_respawn_services m).1.sup.env.host_nfs_mode ≡ true)
check_and_respawn_services_host m host h =
    let q =
      (check_and_respawn-Emits_host host).holds m
        (record { allowed = h; env_is = refl; started_is = refl }) in
    (q.allowed, ap (λ x. x.host_nfs_mode) q.env_is ∙ host)
