-- ===== src/AclCache/Fresh.antt =====
-- Where the cached verdicts of nfs-klldap-ui/src/web/acl_capability.rs come from.
use nfs_klldap_host.AclCache.{
  CacheEntry, Entries, entry_at, ttl_for, is_fit, hit, cached_hit, store, Verdict, verdict_at,
  unknown_fstype, verdict_cached, probe_and_store, or_probe,
}
use nfs_klldap_host.AclCache.Rules.{
  Asked, IsStatic, NeedsProbe, IsYoung, is_fit-IsYoung, known_type, negated_true, negated_false,
  caps_alone,
}
use nfs_klldap_host.Identity.Resolve.Sound.{All-retain}
use nfs_klldap_host.Prelude.{
  ℕ, ◌-◌, ◌≡◌, ◌⊎◌, Bool, true, false, not, ◌&&◌, Option, none, some, List, [], ◌∷◌, refl, sym,
  subst, arith, if◌then◌else◌, ltb, Text, same_text, same_text_sound, All, Among, Bool-cases, inl,
  inr,
}

abbrev pub probe_of : Asked → CacheEntry
probe_of a = record {
  verdict = a.probe;
  fstype = a.query.caps.fstype;
  options = a.query.caps.mount_options;
  probe_dir = a.query.probe_dir;
  probed_at = a.now;
}

abbrev at_root : Option Text → CacheEntry → Entries → Entries
at_root none e log = log
at_root (some root) e log = (root, e) ∷ log

-- The probes that have run, by mount point.
abbrev pub noted : Asked → Bool → Entries → Entries
noted a ran log = if ran then at_root a.query.mount_root (probe_of a) log else log

-- The entries and the probes after a sequence of lookups.
abbrev pub run : ℕ → List Asked → Entries → Entries → Entries × Entries
run ttl [] entries log = (entries, log)
run ttl (a ∷ asked) entries log =
    let v = verdict_cached ttl a.now a.query a.probe entries in
    run ttl asked v.entries (noted a v.ran log)

abbrev IsLogged : Entries → Entries → Type 0
IsLogged entries log = All (λ x. Among x log) entries

IsLogged-longer :
    (x : Text × CacheEntry) (entries log : Entries)
    → IsLogged entries log
    → IsLogged entries (x ∷ log)
IsLogged-longer x [] log h = tt
IsLogged-longer x (y ∷ entries) log (this, h) = (inr this, IsLogged-longer x entries log h)

store-IsLogged :
    (ttl : ℕ) (root : Text) (a : Asked) (entries log : Entries)
    → IsLogged entries log
    → IsLogged
        (store ttl a.now root a.query.caps a.query.probe_dir a.probe entries)
        ((root, probe_of a) ∷ log)
unfolding store
store-IsLogged ttl root a entries log h = (
  inl refl,
  All-retain _ _ _ (All-retain _ _ entries (IsLogged-longer (root, probe_of a) entries log h)),
)

-- A verdict leaves logged entries logged.
abbrev Keeps : Asked → Entries → Verdict → Type 0
Keeps a log v = IsLogged v.entries (noted a v.ran log)

-- The answer of the probe that ran, a static one, or that of a logged probe on the same mount.
abbrev pub IsAnswer : ℕ → Asked → Entries → Verdict → Type 0
IsAnswer ttl a log v =
    ((v.ran ≡ true) × (v.verdict ≡ a.probe) × NeedsProbe a.query)
    ⊎ (((v.ran ≡ false) × IsStatic a.query v.verdict)
        ⊎ ((root : Text) × (e : CacheEntry) × (a.query.mount_root ≡ some root)
            × Among (root, e) log
            × (a.query.force_refresh ≡ false)
            × (e.fstype ≡ a.query.caps.fstype)
            × (e.options ≡ a.query.caps.mount_options)
            × IsYoung ttl a e
            × (v.ran ≡ false)
            × (v.verdict ≡ e.verdict)
            × NeedsProbe a.query))

entry_at-Among :
    (root : Text) (entries log : Entries) (e : CacheEntry)
    → IsLogged entries log
    → entry_at root entries ≡ some e
    → Among (root, e) log
entry_at-Among root [] log e h k = absurd (cc k)
entry_at-Among root ((r, f) ∷ entries) log e (this, h) k = elim (Bool-cases (same_text r root)) [
  | inl y ↦ subst (λ z. Among z log) (found y (same_text_sound r root y)) this
  | inr n ↦ entry_at-Among root entries log e h (rest n)
]
  where
    rest : same_text r root ≡ false → entry_at root entries ≡ some e
    rest n = ground arith

    same_entry : same_text r root ≡ true → f ≡ e
    same_entry y = ground arith

    found : same_text r root ≡ true → r ≡ root → ◌≡◌ {A = Text × CacheEntry} (r, f) (root, e)
    found y same = λ i. (same i, same_entry y i)

-- What holds of a lookup: its answer, and that it leaves logged entries logged.
abbrev IsGood : ℕ → Asked → Entries → Verdict → Type 0
IsGood ttl a log v = IsAnswer ttl a log v × Keeps a log v

if_IsGood :
    (ttl : ℕ) (a : Asked) (log : Entries) (c : Bool) (v w : Verdict)
    → (c ≡ true → IsGood ttl a log v)
    → (c ≡ false → IsGood ttl a log w)
    → IsGood ttl a log (if c then v else w)
if_IsGood ttl a log true v w f g = f refl
if_IsGood ttl a log false v w f g = g refl

or_probe-IsGood :
    (ttl : ℕ) (a : Asked) (root : Text) (entries log : Entries) (o : Option CacheEntry)
    → a.query.mount_root ≡ some root
    → a.query.force_refresh ≡ false
    → IsLogged entries log
    → entry_at root entries ≡ o
    → NeedsProbe a.query
    → IsGood ttl a log (probe_and_store ttl a.now root a.query a.probe entries)
    → IsGood ttl a log (
        or_probe
          (hit ttl a.now a.query.caps a.query.probe_dir o)
          entries
          (probe_and_store ttl a.now root a.query a.probe entries))
or_probe-IsGood ttl a root entries log none mount kept h k needs good = good
or_probe-IsGood ttl a root entries log (some e) mount kept h k needs good =
    let young =
      is_fit a.query.caps a.query.probe_dir e
      && ltb (a.now - e.probed_at) (ttl_for ttl e.verdict) in
    elim (Bool-cases young) [
      | inl y ↦
          let (type, options, fresh) = is_fit-IsYoung ttl a e y in
          let there = entry_at-Among root entries log e h k in
          rw y (inr (inr (root, e, mount, there, kept, type, options, fresh, refl, refl, needs)), h)
      | inr n ↦ rw n good
    ]

verdict_at-IsGood :
    (ttl : ℕ) (a : Asked) (entries log : Entries) (o : Option Text)
    → a.query.mount_root ≡ o
    → IsLogged entries log
    → NeedsProbe a.query
    → IsGood ttl a log (verdict_at ttl a.now a.query a.probe entries o)
unfolding cached_hit
verdict_at-IsGood ttl a entries log none mount h needs = (
  inl (refl, refl, needs),
  subst (λ z. IsLogged entries (at_root z (probe_of a) log)) (sym mount) h,
)
verdict_at-IsGood ttl a entries log (some root) mount h needs =
    let stored : IsGood ttl a log (probe_and_store ttl a.now root a.query a.probe entries) = (
      inl (refl, refl, needs),
      subst
          (λ z.
            IsLogged (store ttl a.now root a.query.caps a.query.probe_dir a.probe entries)
              (at_root z (probe_of a) log))
          (sym mount) (store-IsLogged ttl root a entries log h),
    ) in
    if_IsGood ttl a log a.query.force_refresh _ _ (λ y. stored)
      (λ n.
        or_probe-IsGood ttl a root entries log (entry_at root entries) mount n h refl needs stored)

verdict_cached-IsGood :
    (ttl : ℕ) (a : Asked) (entries log : Entries)
    → IsLogged entries log
    → IsGood ttl a log (verdict_cached ttl a.now a.query a.probe entries)
unfolding verdict_cached
verdict_cached-IsGood ttl a entries log h =
    let fs = a.query.caps.fstype in
    let able = a.query.caps.acl_capable in
    if_IsGood ttl a log (same_text fs unknown_fstype) _ _
      (λ y. (inr (inl (refl, inl (same_text_sound fs unknown_fstype y, refl))), h))
      (λ n.
        let type = known_type fs n in
        if_IsGood ttl a log (not able) _ _
          (λ y. (inr (inl (refl, inr (inl (type, negated_true able y, refl)))), h))
          (λ m.
            let able_is = negated_false able m in
            if_IsGood ttl a log a.query.skip_write_probe _ _
              (λ y. (inr (inl (refl, inr (inr (type, able_is, y, caps_alone a.query able_is)))), h))
              (λ k.
                verdict_at-IsGood ttl a entries log a.query.mount_root refl h (type, able_is, k))))

run-IsLogged :
    (ttl : ℕ) (asked : List Asked) (entries log : Entries)
    → IsLogged entries log
    → IsLogged (run ttl asked entries log).0 (run ttl asked entries log).1
run-IsLogged ttl [] entries log h = h
run-IsLogged ttl (a ∷ asked) entries log h =
    run-IsLogged ttl asked _ _ (verdict_cached-IsGood ttl a entries log h).1

-- After any sequence of lookups from an empty cache, the next verdict is: without a probe,
-- inconclusive for a mount whose type is not known, incapable for one that cannot store ACLs, and
-- inconclusive for a capable one whose probe is skipped; and else that of the probe, which runs for it,
-- or, if the lookup is not a forced one, that of a probe that ran earlier in the sequence on the same
-- mount point, with the same type and the same options, less than the cache's lifetime ago, or, if
-- inconclusive, less than 30 seconds ago and in the same directory.
pub verdict_cached-IsAnswer :
    (ttl : ℕ) (asked : List Asked) (a : Asked)
    → let (entries, log) = run ttl asked [] [] in
      IsAnswer ttl a log (verdict_cached ttl a.now a.query a.probe entries)
verdict_cached-IsAnswer ttl asked a =
    let (entries, log) = run ttl asked [] [] in
    (verdict_cached-IsGood ttl a entries log (run-IsLogged ttl asked [] [] tt)).0
