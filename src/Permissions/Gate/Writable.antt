-- ===== src/Permissions/Gate/Writable.antt =====
-- Which share decides for a path in nfs-klldap-ui/src/web/permission_tree.rs, and what an open gate
-- guarantees.
use nfs_klldap_host.Mounts.Flags.{capable}
use nfs_klldap_host.Permissions.Gate.{
  GateShare, is_under, key_of, later_best, best_share_for, MountVerdict, Probe, share_verdict,
  node_verdict, node_at, gate_at, acl_apply_gate,
}
use nfs_klldap_host.Permissions.Gate.Decided.{Serves, Stores, acl_capability_decision_iff}
use nfs_klldap_host.Prelude.{
  ℕ, ◌≤◌, ◌≡◌, ◌⊎◌, refl, sym, subst, arith, true, false, not, Option, none, some, List, [], ◌∷◌,
  if◌then◌else◌, ltb, Text, same_text, same_text_sound, Among, Bool-cases, inl, inr,
}
use nfs_klldap_host.SharePaths.{components}

-- The path lies in the share, and in no share with a longer host path.
abbrev pub Best : List GateShare → List Text → GateShare → Type 0
Best shares path s =
    Among s shares
    × (is_under path s ≡ true)
    × ((t : GateShare) → Among t shares → is_under path t ≡ true → key_of t ≤ key_of s)

abbrev pub BestOf : List GateShare → List Text → Option GateShare → Type 0
BestOf shares path none = (t : GateShare) → Among t shares → is_under path t ≡ true → ⊥
BestOf shares path (some s) = Best shares path s

module _ (path : List Text) (s : GateShare) (ss : List GateShare) where
  skip_one :
      (o : Option GateShare) → is_under path s ≡ false → BestOf ss path o → BestOf (s ∷ ss) path o
  skip_one none out h = λ t k u. elim k [
    | inl e ↦ cc (out, subst (λ z. is_under path z ≡ true) e u)
    | inr j ↦ h t j u
  ]
  skip_one (some b) out (k, u, most) = (
    inr k,
    u,
    λ t j v. elim j [
      | inl e ↦ absurd (cc (out, subst (λ z. is_under path z ≡ true) e v))
      | inr i ↦ most t i v
    ],
  )

  take_one :
      (o : Option GateShare)
      → is_under path s ≡ true
      → BestOf ss path o
      → BestOf (s ∷ ss) path (later_best s o)
  take_one none under h = (
    inl refl,
    under,
    λ t j v. elim j [
      | inl e ↦ subst (λ z. key_of t ≤ key_of z) e (omega arith)
      | inr i ↦ absurd (h t i v)
    ],
  )
  take_one (some b) under (k, u, most) = elim (Bool-cases (ltb (key_of b) (key_of s))) [
    | inl longer ↦ rw longer (
      inl refl,
      under,
      λ t j v. elim j [
        | inl e ↦ subst (λ z. key_of t ≤ key_of z) e (omega arith)
        | inr i ↦ above (key_of t) (key_of b) (key_of s) (most t i v) longer
      ],
    )
    | inr shorter ↦ rw shorter (
      inr k,
      u,
      λ t j v. elim j [
        | inl e ↦ subst (λ z. key_of z ≤ key_of b) (sym e) (below (key_of b) (key_of s) shorter)
        | inr i ↦ most t i v
      ],
    )
  ]
    where
      above : (a b c : ℕ) → a ≤ b → ltb b c ≡ true → a ≤ c
      above a b c h k = ground arith

      below : (b c : ℕ) → ltb b c ≡ false → c ≤ b
      below b c k = ground arith

best_share_for-BestOf :
    (shares : List GateShare) (path : Text)
    → BestOf shares (components path) (best_share_for shares path)
unfolding best_share_for
best_share_for-BestOf [] path = λ t k u. k
best_share_for-BestOf (s ∷ ss) path = elim (Bool-cases (is_under (components path) s)) [
  | inr out ↦ rw out (skip_one (components path) s ss _ out (best_share_for-BestOf ss path))
  | inl under ↦ rw under (take_one (components path) s ss _ under (best_share_for-BestOf ss path))
]

module _ (shares : List GateShare) (probe : Probe) (serve_path : GateShare → List Text) where
  -- What an open gate says of a share and a node.
  abbrev pub IsServed : Text → GateShare → Type 0
  IsServed path s =
      let root = share_verdict probe (serve_path s) s in
      let own = node_at shares probe serve_path path s in
      Serves s.enable_acl root.verdict
      × ((own.mount_root ≡ root.mount_root) ⊎ (own.verdict ≡ capable))

same_mount :
    (root own : MountVerdict)
    → Stores (node_verdict root own)
    → (own.mount_root ≡ root.mount_root) ⊎ (own.verdict ≡ capable)
same_mount root own h = elim (Bool-cases (same_text own.mount_root root.mount_root)) [
  | inl y ↦ inl (same_text_sound _ _ y)
  | inr n ↦ inr (proven (subst (λ z. Stores (if not z then some own.verdict else none)) n h))
]
  where
    proven : Stores (some own.verdict) → own.verdict ≡ capable
    proven (inl e) = cc
    proven (inr e) = cc

-- Where the endpoint lets an ACL be written, the path lies in a share, the one with the longest host
-- path decides, that share serves ACLs, and the node is on the mount of the share's root or on a
-- mount that is proven to store ACLs.
pub acl_apply_gate-IsServed :
    (shares : List GateShare) (probe : Probe) (serve_path : GateShare → List Text) (path : Text)
    → (acl_apply_gate shares probe serve_path path).editable ≡ true
    → (s : GateShare) × Best shares (components path) s × IsServed shares probe serve_path path s
unfolding acl_apply_gate
acl_apply_gate-IsServed shares probe serve_path path h =
    found (best_share_for shares path) (best_share_for-BestOf shares path) h
  where
    found :
        (o : Option GateShare)
        → BestOf shares (components path) o
        → (gate_at shares probe serve_path path o).editable ≡ true
        → (s : GateShare) × Best shares (components path) s
          × IsServed shares probe serve_path path s
    found none best e = absurd (cc e)
    found (some s) best e =
        let root = share_verdict probe (serve_path s) s in
        let own = node_at shares probe serve_path path s in
        let (serves, stores) =
          (acl_capability_decision_iff s.enable_acl root.verdict (node_verdict root own)
              (probe.warning s)).0
            e in
        (s, best, (serves, same_mount root own stores))
