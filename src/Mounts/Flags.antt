-- ===== src/Mounts/Flags.antt =====
-- The export flags of a share in nfs-klldap-config/src/fs_probe.rs, from the configuration, the mount
-- and the probes.
use nfs_klldap_host.Mounts.Table.{FsCapabilities}
use nfs_klldap_host.Prelude.{
  ◌≡◌, Bool, true, false, not, ◌&&◌, ◌||◌, Option, none, some, [], ◌∷◌, refl, ap, ◌∙◌, arith,
  if◌then◌else◌, Text, same_text, trim, to_ascii_lowercase,
}

pub record EffectiveShareFlags : Type 0 where
  pub enable_acl : Bool
  pub manage_gids : Bool
  pub auto_applied : Bool
  pub auto_enabled : Bool

pub data AclProbeVerdict : Type 0 where
  capable incapable inconclusive : AclProbeVerdict

pub data ReadAccessPolicyEmit : Type 0 where
  omit pre post : ReadAccessPolicyEmit

-- What the three functions read of a share.
pub record ShareFlags : Type 0 where
  pub enable_acl : Option Bool
  pub manage_gids : Option Bool
  pub read_access_policy : Option Text

abbrev pub unwrap_or : Bool → Option Bool → Bool
unwrap_or b none = b
unwrap_or b (some c) = c

abbrev pub is_unset : Option Bool → Bool
is_unset none = true
is_unset (some b) = false

abbrev pub is_proven : AclProbeVerdict → Bool
is_proven capable = true
is_proven _ = false

unfoldable pub verdict_from_caps : FsCapabilities → AclProbeVerdict
verdict_from_caps caps = if caps.acl_capable then inconclusive else incapable

abbrev sniffed : Option Bool → AclProbeVerdict
sniffed (some false) = incapable
sniffed _ = inconclusive

abbrev probed : Option Bool → Option Bool → AclProbeVerdict
probed (some true) read = capable
probed (some false) read = incapable
probed none read = sniffed read

-- The arguments are the answers of the write and of the read probe.
unfoldable pub acl_probe_verdict : FsCapabilities → Option Bool → Option Bool → AclProbeVerdict
acl_probe_verdict caps write read = if not caps.acl_capable then incapable else probed write read

unfoldable pub compute_effective_flags_probed :
    ShareFlags → FsCapabilities → AclProbeVerdict → EffectiveShareFlags
compute_effective_flags_probed share caps verdict =
    let enable_acl = unwrap_or (is_proven verdict) share.enable_acl in
    record {
      enable_acl = enable_acl;
      manage_gids = unwrap_or true share.manage_gids;
      auto_applied = not caps.acl_capable && is_unset share.enable_acl;
      auto_enabled = enable_acl && is_unset share.enable_acl;
    }

unfoldable pub compute_effective_flags : ShareFlags → FsCapabilities → EffectiveShareFlags
compute_effective_flags share caps =
    compute_effective_flags_probed share caps (verdict_from_caps caps)

abbrev policy_of : Bool → Option Text → ReadAccessPolicyEmit
policy_of acl none = if acl then omit else pre
policy_of acl (some raw) =
    if same_text (to_ascii_lowercase (trim raw)) (112 ∷ 111 ∷ 115 ∷ 116 ∷ [])
    then (if acl then post else pre)
    else pre

unfoldable pub compute_read_access_policy_emit :
    ShareFlags → EffectiveShareFlags → ReadAccessPolicyEmit
compute_read_access_policy_emit share eff = policy_of eff.enable_acl share.read_access_policy

abbrev pub is_pre : ReadAccessPolicyEmit → Bool
is_pre pre = true
is_pre _ = false

is_pre-policy_of : (acl : Bool) (raw : Option Text) → (is_pre (policy_of acl raw) || acl) ≡ true
is_pre-policy_of true none = refl
is_pre-policy_of false none = refl
is_pre-policy_of acl (some raw) = ground arith

is_proven-verdict :
    (b : Bool) (write read : Option Bool)
    → is_proven (if not b then incapable else probed write read) ≡ (b && unwrap_or false write)
is_proven-verdict false write read = refl
is_proven-verdict true (some true) read = refl
is_proven-verdict true (some false) read = refl
is_proven-verdict true none (some true) = refl
is_proven-verdict true none (some false) = refl
is_proven-verdict true none none = refl

static_unproven : (b : Bool) → is_proven (if b then inconclusive else incapable) ≡ false
static_unproven true = refl
static_unproven false = refl

unwrap_or-implies :
    (p : Bool) (setting : Option Bool)
    → (not (unwrap_or false setting) || unwrap_or p setting) ≡ true
unwrap_or-implies p none = refl
unwrap_or-implies p (some true) = refl
unwrap_or-implies p (some false) = refl

-- With the live verdict: an explicit setting is obeyed, and without one ACLs are on exactly when the
-- mount is not known to lack them and the write probe proved them; the static view never promises
-- more than the live one; and an export without ACLs always reads by the policy `pre`.
pub compute_effective_flags_probed_lem :
    (share : ShareFlags) (caps : FsCapabilities) (write read : Option Bool)
    → let eff = compute_effective_flags_probed share caps (acl_probe_verdict caps write read) in
      let static = compute_effective_flags share caps in
      (eff.enable_acl ≡ unwrap_or (caps.acl_capable && unwrap_or false write) share.enable_acl)
      × (eff.auto_enabled ≡ (eff.enable_acl && is_unset share.enable_acl))
      × ((not static.enable_acl || eff.enable_acl) ≡ true)
      × ((is_pre (compute_read_access_policy_emit share eff) || eff.enable_acl) ≡ true)
unfolding compute_effective_flags compute_effective_flags_probed acl_probe_verdict verdict_from_caps
    compute_read_access_policy_emit
compute_effective_flags_probed_lem share caps write read = (
  ap (λ z. unwrap_or z share.enable_acl) (is_proven-verdict caps.acl_capable write read),
  refl,
  ap
        (λ z.
          not (unwrap_or z share.enable_acl)
          || unwrap_or (is_proven (acl_probe_verdict caps write read)) share.enable_acl)
        (static_unproven caps.acl_capable)
      ∙ unwrap_or-implies (is_proven (acl_probe_verdict caps write read)) share.enable_acl,
  is_pre-policy_of _ share.read_access_policy,
)
