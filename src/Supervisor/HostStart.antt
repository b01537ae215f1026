-- ===== src/Supervisor/HostStart.antt =====
-- The start of a preconfigured deployment in HOST_NFS mode: `run_supervisor` and `bring_up_services`
-- of nfs-klldap-config/src/supervisor/mod.rs.
use nfs_klldap_host.Prelude.{
  ℕ, ◌≡◌, Bool-cases, inl, inr, Bool, true, false, not, [], refl, ap, ◌∙◌,
}
use nfs_klldap_host.Respawn.{Service}
use nfs_klldap_host.Supervisor.Apply.{generate, run_post_generate_hooks}
use nfs_klldap_host.Supervisor.Emits.{
  all_acts, Emits, Permits, do_rules, Emits-get, Emits-act, Emits-modify,
}
use nfs_klldap_host.Supervisor.EmitsServices.{
  restart_sssd-Emits, restart_idhelper-Emits, start_watcher-Emits,
}
use nfs_klldap_host.Supervisor.HostNfs.{
  spares_server, spares_server-Neutral, spares_server-sssd, spares_server-idhelper,
}
use nfs_klldap_host.Supervisor.Keeps.{Keeps, Keeps-bind, Keeps-then, Keeps-pure, Keeps-when_false}
use nfs_klldap_host.Supervisor.Loop.{start_daemons, after_hooks, bring_up, start_preconfigured}
use nfs_klldap_host.Supervisor.Ganesha.{wait_for_ganesha_readiness}
use nfs_klldap_host.Supervisor.Services.{start_watcher, start_webui}
use nfs_klldap_host.Supervisor.State.{
  marked_wizard, cleared_recycle_marker, Os, Env, Supervisor, Machine, get, modify, ◌>>=◌, ◌>>◌,
  act, pure, done, when,
}

spares_server-watcher : Permits spares_server Service.watcher
spares_server-watcher = record {
  signals = λ signal pid. refl;
  pkills = refl;
  spawns = λ pid. refl;
  failures = refl;
}

abbrev Spares : {os : Os} → Env → Bool → Machine os → Type 0
Spares e b = Emits spares_server e b

not_host :
    {e : Env} (sup : Supervisor)
    → e.host_nfs_mode ≡ true
    → sup.env ≡ e
    → not sup.env.host_nfs_mode ≡ false
not_host sup host same = ap (λ x. not x.host_nfs_mode) same ∙ ap not host

module _ {os : Os} {e : Env} {b : Bool} where
  generate-Spares : Keeps {os = os} (Spares e b) generate
  unfolding generate
  generate-Spares = record {
    holds = λ m q. record { allowed = q.allowed; env_is = q.env_is; started_is = q.started_is };
  }

  hooks-Spares : Keeps {os = os} (Spares e b) run_post_generate_hooks
  unfolding run_post_generate_hooks
  hooks-Spares = record {
    holds = λ m q. record { allowed = q.allowed; env_is = q.env_is; started_is = q.started_is };
  }

  set_shares-Spares :
      (n : ℕ)
      → Keeps {os = os} (Spares e b) (modify (λ s. record s { last_shares_fingerprint = n }))
  set_shares-Spares n = Emits-modify _ (λ s. refl) (λ s. refl)

  start_watcher-Spares : Keeps {os = os} (Spares e b) start_watcher
  start_watcher-Spares = start_watcher-Emits spares_server-Neutral spares_server-watcher

module _ {os : Os} {e : Env} {b : Bool} (host : e.host_nfs_mode ≡ true) where
  start_daemons-Spares : Keeps {os = os} (Spares e b) start_daemons
  unfolding start_daemons
  start_daemons-Spares =
      Keeps-then _ _ _ (restart_sssd-Emits spares_server-Neutral spares_server-sssd) (
        Keeps-then _ _ _ (restart_idhelper-Emits spares_server-Neutral spares_server-idhelper) (
          Emits-get _ (λ sup same started.
            Keeps-then _ _ _ (Keeps-when_false _ _ _ (not_host sup host same)) (Keeps-pure _ _))))

  after_hooks-Spares : Keeps {os = os} (Spares e b) after_hooks
  unfolding after_hooks
  after_hooks-Spares = search (do_rules, set_shares-Spares, start_daemons-Spares) depth 20

  bring_up-Spares : Keeps {os = os} (Spares e b) bring_up
  unfolding bring_up
  bring_up-Spares = search (do_rules, generate-Spares, hooks-Spares, after_hooks-Spares) depth 16

  -- From the end of a bring-up that succeeds to the loop.
  settle-Spares : Keeps {os = os} (Spares e b) (do
    act cleared_recycle_marker
    sup ← get
    when (not sup.env.host_nfs_mode) (do ready ← wait_for_ganesha_readiness; done)
    watching ← start_watcher
    when (not sup.env.host_nfs_mode) (do started ← start_webui; done)
    pure true)
  settle-Spares = Keeps-then _ _ _ (Emits-act cleared_recycle_marker refl) (
      Emits-get _ (λ sup same started.
        Keeps-then _ _ _ (Keeps-when_false _ _ _ (not_host sup host same)) (
          Keeps-bind _ _ _ start_watcher-Spares (λ watching.
            Keeps-then _ _ _ (Keeps-when_false _ _ _ (not_host sup host same)) (Keeps-pure _ _)))))

-- On a preconfigured deployment in HOST_NFS mode the start up to the loop neither signals nor starts
-- Ganesha and starts no avahi: an empty trace becomes one of acts of none of these kinds, whatever the
-- system answers and whether or not the bring-up succeeds.
pub start_preconfigured_host :
    {os : Os} (m : Machine os)
    → m.sup.env.host_nfs_mode ≡ true
    → m.trace ≡ []
    → all_acts spares_server (start_preconfigured m).1.trace ≡ true
unfolding start_preconfigured act modify ◌>>=◌ ◌>>◌ pure
start_preconfigured_host m host empty =
    let m1 = ((act marked_wizard) m).1 in
    let up =
      (bring_up-Spares host).holds m1
        (record { allowed = rw empty refl; env_is = refl; started_is = refl }) in
    elim (Bool-cases (bring_up m1).0) [
      | inl fine ↦
          rw fine
            ((settle-Spares host).holds _
              (record { allowed = up.allowed; env_is = up.env_is; started_is = refl })).allowed
      | inr failed ↦ rw failed up.allowed
    ]
