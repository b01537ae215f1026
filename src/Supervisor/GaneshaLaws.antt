-- ===== src/Supervisor/GaneshaLaws.antt =====
-- Stopping and starting Ganesha: services.rs of nfs-klldap-config/src/supervisor.

use nfs_klldap_host.Prelude.{
  ℕ, ◌+◌, ◌*◌, ◌≤◌, ◌≡◌, Bool, true, false, not, none, arith, List, ◌∷◌, ◌++◌,
}
use nfs_klldap_host.Respawn.{Service}
use nfs_klldap_host.Supervisor.State.{Act, signalled, term, kill, Os, Machine}

-- Nothing is tracked and nothing is managed.
abbrev pub IsForgotten : {os : Os} → Machine os → Type 0
IsForgotten m = (m.sup.pids.ganesha ≡ none) × (m.sup.ganesha_managed ≡ false)

live_of_not : (b c : Bool) → b ≡ not c → b ≡ false → c ≡ true
live_of_not b c h k = ground arith

-- SIGKILL was sent to a process that is still live 2 s later.
abbrev SurvivesKill : {os : Os} → ℕ → Machine os → Machine os → Type 0
SurvivesKill {os} pid m m' =
    (m'.sup ≡ m.sup)
    × (os.is_live pid m'.world ≡ true)
    × ((later : List Act) × (m'.trace ≡ later ++ (signalled Service.ganesha kill pid ∷ m.trace)))
    × (os.now m.world + 2000 ≤ os.now m'.world)

-- SIGTERM and then SIGKILL were sent, and the process is still live after both waits; nothing else has
-- changed of the supervisor.
abbrev pub Survives : {os : Os} → ℕ → Machine os → Machine os → Type 0
Survives {os} pid m m' =
    (m'.sup ≡ m.sup)
    × (os.is_live pid m'.world ≡ true)
    × ((later : List Act) × (between : List Act) × (m'.trace
          ≡ later
            ++ (signalled Service.ganesha kill pid
                ∷ (between ++ (signalled Service.ganesha term pid ∷ m.trace)))))
    × (os.now m.world + (m.sup.env.stop_term_secs * 1000 + 2000) ≤ os.now m'.world)
