-- ===== src/AclCache.antt =====
-- The cache of probe verdicts in nfs-klldap-ui/src/web/acl_capability.rs. Times are in seconds; the
-- probe's verdict is an argument, and each operation says whether the probe ran.
pub mod Rules
pub mod Fresh
use nfs_klldap_host.Mounts.Flags.{
  AclProbeVerdict, capable, incapable, inconclusive, verdict_from_caps,
}
use nfs_klldap_host.Mounts.Table.{FsCapabilities}
use nfs_klldap_host.Prelude.{
  ℕ, ◌*◌, ◌-◌, Bool, true, false, not, ◌&&◌, ◌||◌, Option, none, some, List, [], ◌∷◌, if◌then◌else◌,
  ltb, Text, same_text, retain,
}

pub record CacheEntry : Type 0 where
  pub verdict : AclProbeVerdict
  pub fstype : Text
  pub options : List Text
  pub probe_dir : Text
  pub probed_at : ℕ

abbrev pub inconclusive_ttl : ℕ
inconclusive_ttl = 30

abbrev pub Entries : Type 0
Entries = List (Text × CacheEntry)

abbrev pub entry_at : Text → Entries → Option CacheEntry
entry_at root [] = none
entry_at root ((k, e) ∷ entries) =
    let rest = entry_at root entries in if same_text k root then some e else rest

abbrev pub is_inconclusive : AclProbeVerdict → Bool
is_inconclusive inconclusive = true
is_inconclusive _ = false

unfoldable pub ttl_for : ℕ → AclProbeVerdict → ℕ
ttl_for ttl inconclusive = inconclusive_ttl
ttl_for ttl _ = ttl

abbrev pub same_texts : List Text → List Text → Bool
same_texts [] [] = true
same_texts [] (d ∷ t) = false
same_texts (c ∷ s) [] = false
same_texts (c ∷ s) (d ∷ t) = same_text c d && same_texts s t

-- A remount, and another directory after an inconclusive probe, are not answered.
abbrev pub is_fit : FsCapabilities → Text → CacheEntry → Bool
is_fit caps dir e =
    (same_text e.fstype caps.fstype && same_texts e.options caps.mount_options)
    && not (is_inconclusive e.verdict && not (same_text e.probe_dir dir))

abbrev pub hit : ℕ → ℕ → FsCapabilities → Text → Option CacheEntry → Option AclProbeVerdict
hit ttl now caps dir none = none
hit ttl now caps dir (some e) =
    if is_fit caps dir e && ltb (now - e.probed_at) (ttl_for ttl e.verdict)
    then some e.verdict
    else none

unfoldable pub cached_hit : ℕ → ℕ → Text → FsCapabilities → Text → Entries → Option AclProbeVerdict
cached_hit ttl now root caps dir entries = hit ttl now caps dir (entry_at root entries)

abbrev pub swept : ℕ → ℕ → Entries → Entries
swept ttl now entries = retain (λ e. ltb (now - e.1.probed_at) (ttl * 8)) entries

unfoldable pub store : ℕ → ℕ → Text → FsCapabilities → Text → AclProbeVerdict → Entries → Entries
store ttl now root caps dir verdict entries =
    (
      root,
      record {
        verdict = verdict;
        fstype = caps.fstype;
        options = caps.mount_options;
        probe_dir = dir;
        probed_at = now;
      },
    )
    ∷ retain (λ e. not (same_text e.0 root)) (swept ttl now entries)

-- The verdict, the entries, and whether the probe ran.
pub record Verdict : Type 0 where
  pub verdict : AclProbeVerdict
  pub entries : Entries
  pub ran : Bool

-- What one lookup is asked.
pub record Query : Type 0 where
  pub caps : FsCapabilities
  pub mount_root : Option Text
  pub probe_dir : Text
  pub skip_write_probe : Bool
  pub force_refresh : Bool

abbrev pub probe_and_store : ℕ → ℕ → Text → Query → AclProbeVerdict → Entries → Verdict
probe_and_store ttl now root q probe entries = record {
  verdict = probe;
  entries = store ttl now root q.caps q.probe_dir probe entries;
  ran = true;
}

abbrev pub or_probe : Option AclProbeVerdict → Entries → Verdict → Verdict
or_probe none entries fresh = fresh
or_probe (some v) entries fresh = record { verdict = v; entries = entries; ran = false }

abbrev pub verdict_at : ℕ → ℕ → Query → AclProbeVerdict → Entries → Option Text → Verdict
verdict_at ttl now q probe entries none = record { verdict = probe; entries = entries; ran = true }
verdict_at ttl now q probe entries (some root) =
    let fresh = probe_and_store ttl now root q probe entries in
    if q.force_refresh
    then fresh
    else or_probe (cached_hit ttl now root q.caps q.probe_dir entries) entries fresh

-- `unknown`
abbrev pub unknown_fstype : Text
unknown_fstype = 117 ∷ 110 ∷ 107 ∷ 110 ∷ 111 ∷ 119 ∷ 110 ∷ []

unfoldable pub verdict_cached : ℕ → ℕ → Query → AclProbeVerdict → Entries → Verdict
verdict_cached ttl now q probe entries =
    if same_text q.caps.fstype unknown_fstype
    then record { verdict = inconclusive; entries = entries; ran = false }
    else if not q.caps.acl_capable
    then record { verdict = incapable; entries = entries; ran = false }
    else if q.skip_write_probe
    then record { verdict = verdict_from_caps q.caps; entries = entries; ran = false }
    else verdict_at ttl now q probe entries q.mount_root
