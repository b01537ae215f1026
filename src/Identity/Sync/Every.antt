-- ===== src/Identity/Sync/Every.antt =====
-- Predicates on every group of a list that nfs-klldap-config/src/bin/idhelper/materialize.rs sorts,
-- dedups or extends.

use nfs_klldap_host.Identity.Groups.{is_member, insert_gid, sort_gids}
use nfs_klldap_host.Identity.Sync.{dedup, add_edges}
use nfs_klldap_host.Prelude.{
  ℕ, not, ◌&&◌, List, [], ◌∷◌, ◌++◌, ◌==◌, leb, All, Bool-cases, inl, inr,
}

module _ (P : ℕ → Type 0) where
  All-insert_gid : (g : ℕ) (gids : List ℕ) → P g → All P gids → All P (insert_gid g gids)
  All-insert_gid g [] this h = (this, tt)
  All-insert_gid g (x ∷ gids) this (first, h) = elim (Bool-cases (leb g x)) [
    | inl y ↦ rw y (this, (first, h))
    | inr n ↦ rw n (first, All-insert_gid g gids this h)
  ]

  pub All-sort_gids : (gids : List ℕ) → All P gids → All P (sort_gids gids)
  All-sort_gids [] h = tt
  All-sort_gids (g ∷ gids) (this, h) = All-insert_gid g (sort_gids gids) this (All-sort_gids gids h)

  pub All-dedup : (gids : List ℕ) → All P gids → All P (dedup gids)
  All-dedup [] h = tt
  All-dedup (g ∷ []) h = h
  All-dedup (g ∷ x ∷ gids) (this, h) = elim (Bool-cases (g == x)) [
    | inl y ↦ rw y (All-dedup (x ∷ gids) h)
    | inr n ↦ rw n (this, All-dedup (x ∷ gids) h)
  ]

  All-snoc : (gids : List ℕ) (g : ℕ) → All P gids → P g → All P (gids ++ g ∷ [])
  All-snoc [] g h this = (this, tt)
  All-snoc (x ∷ gids) g (first, h) this = (first, All-snoc gids g h this)

  pub All-add_edges :
      (own : ℕ) (supps gids : List ℕ) → All P supps → All P gids → All P (add_edges own supps gids)
  All-add_edges own supps [] h k = h
  All-add_edges own supps (g ∷ gids) h (this, k) =
      elim (Bool-cases (not (g == 0) && not (g == own) && not (is_member g supps))) [
        | inl y ↦ rw y (All-add_edges own (supps ++ g ∷ []) gids (All-snoc supps g h this) k)
        | inr n ↦ rw n (All-add_edges own supps gids h k)
      ]
