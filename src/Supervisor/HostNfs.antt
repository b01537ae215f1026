-- ===== src/Supervisor/HostNfs.antt =====
-- HOST_NFS mode in nfs-klldap-config/src/supervisor: the host owns the NFS server.
use nfs_klldap_host.Prelude.{◌≡◌, Bool, true, false, not, ◌&&◌, refl, ap, ◌∙◌, arith}
use nfs_klldap_host.Recycle.{ServiceRecyclePlan}
use nfs_klldap_host.Respawn.{Service}
use nfs_klldap_host.Supervisor.Apply.{
  is_stop_start, restart_ganesha, run_plan, execute_recycle_plan,
}
use nfs_klldap_host.Supervisor.Emits.{
  all_acts, Emits, Permits, Neutral, do_rules, Emits-get, Emits-act, Emits-ask,
}
use nfs_klldap_host.Supervisor.EmitsServices.{
  restart_sssd-Emits, restart_idhelper-Emits, stop_avahi-Emits,
}
use nfs_klldap_host.Supervisor.Graceful.{recycle_webui-Emits}
use nfs_klldap_host.Supervisor.Keeps.{
  Keeps, Keeps-bind, Keeps-then, Keeps-get, Keeps-pure, Keeps-done, Keeps-if, Keeps-if_true,
  Keeps-when_false,
}
use nfs_klldap_host.Supervisor.Services.{start_avahi}
use nfs_klldap_host.Supervisor.State.{
  Act, prepared_dirs, seeded_probe, signalled, pkilled, spawned, spawn_failed, Os, Env, Supervisor,
  Machine,
}

-- Acts that touch no Ganesha process and start no avahi.
abbrev pub spares_server : Act → Bool
spares_server (signalled Service.ganesha signal pid) = false
spares_server (pkilled Service.ganesha) = false
spares_server (spawned Service.ganesha pid) = false
spares_server (spawn_failed Service.ganesha) = false
spares_server (spawned Service.avahi pid) = false
spares_server (spawn_failed Service.avahi) = false
spares_server _ = true

pub spares_server-Neutral : Neutral spares_server
spares_server-Neutral = record {
  sleeps = λ ms. refl;
  reaps = refl;
  rpcbind = refl;
  dirs = refl;
  permissions = refl;
  seeds = refl;
  preresolves = refl;
  winbind = refl;
}

pub spares_server-webui : Permits spares_server Service.webui
spares_server-webui = record {
  signals = λ signal pid. refl;
  pkills = refl;
  spawns = λ pid. refl;
  failures = refl;
}

pub spares_server-sssd : Permits spares_server Service.sssd
spares_server-sssd = record {
  signals = λ signal pid. refl;
  pkills = refl;
  spawns = λ pid. refl;
  failures = refl;
}

pub spares_server-idhelper : Permits spares_server Service.idhelper
spares_server-idhelper = record {
  signals = λ signal pid. refl;
  pkills = refl;
  spawns = λ pid. refl;
  failures = refl;
}

host_of :
    {e : Env} (sup : Supervisor)
    → e.host_nfs_mode ≡ true
    → sup.env ≡ e
    → sup.env.host_nfs_mode ≡ true
host_of sup host same = ap (λ x. x.host_nfs_mode) same ∙ host

module _ {os : Os} {e : Env} {b : Bool} (host : e.host_nfs_mode ≡ true) where
  pub start_avahi-Emits_host : Keeps {os = os} (Emits spares_server e b) start_avahi
  unfolding start_avahi
  start_avahi-Emits_host = Keeps-bind _ _ _ (Emits-ask _) (λ enabled.
      Emits-get _ (λ sup same started.
        Keeps-if _ _ _ _ (Keeps-done _)
          (Keeps-if_true _ _ _ _ (host_of sup host same) (Keeps-done _))))

  restart_ganesha-Emits_host :
      (plan : ServiceRecyclePlan) → Keeps {os = os} (Emits spares_server e b) (restart_ganesha plan)
  unfolding restart_ganesha
  restart_ganesha-Emits_host plan = Emits-get _ (λ sup same started.
      Keeps-when_false _ (not sup.env.host_nfs_mode && is_stop_start plan.ganesha) _
        (ground (arith, host_of {e = e} sup host same)))

  run_plan-Emits_host :
      (plan : ServiceRecyclePlan) → Keeps {os = os} (Emits spares_server e b) (run_plan plan)
  unfolding run_plan
  run_plan-Emits_host plan = Emits-get _ (λ sup same started.
      Keeps-bind _ _ _ (Keeps-if_true _ _ _ _ (host_of sup host same) (Keeps-pure _ plan)) (λ plan'.
        search
          (
            do_rules,
            restart_sssd-Emits spares_server-Neutral spares_server-sssd,
            restart_idhelper-Emits spares_server-Neutral spares_server-idhelper,
            restart_ganesha-Emits_host,
            recycle_webui-Emits plan'.webui spares_server-Neutral spares_server-webui,
            stop_avahi-Emits spares_server-Neutral (λ signal pid. refl),
            start_avahi-Emits_host,
          )
          depth 20))

  execute_recycle_plan-Emits_host :
      (plan : ServiceRecyclePlan)
      → Keeps {os = os} (Emits spares_server e b) (execute_recycle_plan plan)
  unfolding execute_recycle_plan
  execute_recycle_plan-Emits_host plan = Keeps-then _ _ _ (Emits-act prepared_dirs refl) (
      Keeps-bind _ _ _ (Keeps-get _) (λ sup.
        Keeps-if _ _ _ _ (Emits-act seeded_probe refl)
          (Keeps-if _ _ _ _ (Keeps-done _) (run_plan-Emits_host plan))))

-- In HOST_NFS mode no recycle plan, whatever it asks for, signals or starts Ganesha or starts avahi:
-- acts that spare the server are only followed by such acts, and the mode stays on.
pub execute_recycle_plan_host :
    {os : Os} (plan : ServiceRecyclePlan) (m : Machine os)
    → m.sup.env.host_nfs_mode ≡ true
    → all_acts spares_server m.trace ≡ true
    → (all_acts spares_server (execute_recycle_plan plan m).1.trace ≡ true)
      × ((execute_recycle_plan plan m).1.sup.env.host_nfs_mode ≡ true)
execute_recycle_plan_host plan m host h =
    let q =
      (execute_recycle_plan-Emits_host host plan).holds m
        (record { allowed = h; env_is = refl; started_is = refl }) in
    (q.allowed, ap (λ x. x.host_nfs_mode) q.env_is ∙ host)
