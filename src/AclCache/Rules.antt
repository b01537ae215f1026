-- ===== src/AclCache/Rules.antt =====
-- When a verdict of nfs-klldap-ui/src/web/acl_capability.rs needs no probe, and when an old one still holds.
use nfs_klldap_host.AclCache.{
  CacheEntry, is_inconclusive, same_texts, ttl_for, is_fit, Query, unknown_fstype,
}
use nfs_klldap_host.Mounts.Flags.{
  AclProbeVerdict, capable, incapable, inconclusive, verdict_from_caps,
}
use nfs_klldap_host.Prelude.{
  ℕ, ◌-◌, ◌<◌, ◌≡◌, ◌≢◌, ap, ◌∙◌, ◌⊎◌, Bool, true, false, not, ◌&&◌, List, [], ◌∷◌, refl, subst,
  arith, ltb, Text, same_text, same_text_sound, inl, inr,
}

-- A lookup at its time, with what the probe says if it runs.
pub record Asked : Type 0 where
  pub query : Query
  pub now : ℕ
  pub probe : AclProbeVerdict

-- Nothing is probed for it: the type of the mount is not known; or the mount cannot store ACLs; or it
-- can, and the caller skips the probe.
abbrev pub IsStatic : Query → AclProbeVerdict → Type 0
IsStatic q v =
    ((q.caps.fstype ≡ unknown_fstype) × (v ≡ inconclusive))
    ⊎ (((q.caps.fstype ≢ unknown_fstype) × (q.caps.acl_capable ≡ false) × (v ≡ incapable))
        ⊎ ((q.caps.fstype ≢ unknown_fstype)
            × (q.caps.acl_capable ≡ true)
            × (q.skip_write_probe ≡ true)
            × (v ≡ inconclusive)))

abbrev pub NeedsProbe : Query → Type 0
NeedsProbe q =
    (q.caps.fstype ≢ unknown_fstype) × (q.caps.acl_capable ≡ true) × (q.skip_write_probe ≡ false)

-- Young enough: 30 seconds and in the same directory for an inconclusive probe, the lifetime of the
-- cache for another.
abbrev pub IsYoung : ℕ → Asked → CacheEntry → Type 0
IsYoung ttl a e =
    ((e.verdict ≡ inconclusive) × (e.probe_dir ≡ a.query.probe_dir) × (a.now - e.probed_at < 30))
    ⊎ ((e.verdict ≢ inconclusive) × (a.now - e.probed_at < ttl))

both_true : (a b : Bool) → (a && b) ≡ true → (a ≡ true) × (b ≡ true)
both_true true true h = (refl, refl)
both_true true false h = absurd (cc h)
both_true false b h = absurd (cc h)

same_texts_sound : (s t : List Text) → same_texts s t ≡ true → s ≡ t
same_texts_sound [] [] h = refl
same_texts_sound [] (d ∷ t) h = absurd (cc h)
same_texts_sound (c ∷ s) [] h = absurd (cc h)
same_texts_sound (c ∷ s) (d ∷ t) h =
    let (first, rest) = both_true (same_text c d) (same_texts s t) h in
    ap (λ z. z ∷ s) (same_text_sound c d first) ∙ ap (λ z. d ∷ z) (same_texts_sound s t rest)

in_place : (b : Bool) → not (true && not b) ≡ true → b ≡ true
in_place true h = refl
in_place false h = absurd (cc h)

less : (m n : ℕ) → ltb m n ≡ true → m < n
less m n h = ground (arith, h)

is_recent :
    (ttl : ℕ) (a : Asked) (e : CacheEntry) (v : AclProbeVerdict)
    → e.verdict ≡ v
    → not (is_inconclusive v && not (same_text e.probe_dir a.query.probe_dir)) ≡ true
    → ltb (a.now - e.probed_at) (ttl_for ttl v) ≡ true
    → IsYoung ttl a e
unfolding ttl_for
is_recent ttl a e inconclusive same near young = inl (
  same,
  same_text_sound _ _ (in_place (same_text e.probe_dir a.query.probe_dir) near),
  less _ 30 young,
)
is_recent ttl a e capable same near young = inr (λ f. cc (same, f), less _ ttl young)
is_recent ttl a e incapable same near young = inr (λ f. cc (same, f), less _ ttl young)

pub is_fit-IsYoung :
    (ttl : ℕ) (a : Asked) (e : CacheEntry)
    → (is_fit a.query.caps a.query.probe_dir e && ltb (a.now - e.probed_at) (ttl_for ttl e.verdict))
      ≡ true
    → (e.fstype ≡ a.query.caps.fstype) × (e.options ≡ a.query.caps.mount_options) × IsYoung ttl a e
is_fit-IsYoung ttl a e h =
    let (fit, young) = both_true (is_fit a.query.caps a.query.probe_dir e) _ h in
    let (mount, near) =
      both_true
        (same_text e.fstype a.query.caps.fstype && same_texts e.options a.query.caps.mount_options)
        _ fit in
    let (type, options) =
      both_true (same_text e.fstype a.query.caps.fstype)
        (same_texts e.options a.query.caps.mount_options) mount in
    (
      same_text_sound _ _ type,
      same_texts_sound _ _ options,
      is_recent ttl a e e.verdict refl near young,
    )

pub known_type : (s : Text) → same_text s unknown_fstype ≡ false → s ≢ unknown_fstype
known_type s n e = absurd (cc (subst (λ z. same_text z unknown_fstype ≡ false) e n))

pub negated_true : (b : Bool) → not b ≡ true → b ≡ false
negated_true b h = ground arith

pub negated_false : (b : Bool) → not b ≡ false → b ≡ true
negated_false b h = ground arith

pub caps_alone : (q : Query) → q.caps.acl_capable ≡ true → verdict_from_caps q.caps ≡ inconclusive
unfolding verdict_from_caps
caps_alone q h = rw h refl
