-- ===== src/SharePaths/Search.antt =====
-- The search for the most specific share in nfs-klldap-ui/src/fs.rs.
use nfs_klldap_host.SharePaths.{
  Share, components, strip_prefix, relative_to, specificity, better, best_of,
}
use nfs_klldap_host.Prelude.{
  ℕ, ◌≤◌, ◌≡◌, inl, inr, Option, none, some, List, [], ◌∷◌, ◌++◌, refl, sym, subst, arith, ltb,
  Text, same_text_sound, All, Among, trim, Bool-cases,
}

pub strip_prefix_sound : (a path rel : List Text) → strip_prefix a path ≡ some rel → path ≡ a ++ rel
strip_prefix_sound [] path rel h = ground arith
strip_prefix_sound (c ∷ a) [] rel h = absurd (cc h)
strip_prefix_sound (c ∷ a) (d ∷ path) rel h =
    ground (arith, same_text_sound c d, strip_prefix_sound a path rel)

-- Where the best mapping so far comes from.
abbrev pub Origin : List Share → List Text → Option (ℕ × List Text) → Type 0
Origin all path none = Unit
Origin all path (some (n, found)) =
    (share : Share) × (rel : List Text) × Among share all
    × (relative_to path share ≡ some rel)
    × (n ≡ specificity share)
    × (found ≡ components (trim share.container_path) ++ rel)

better-Origin :
    (all : List Share) (path : List Text) (share : Share) (r : Option (List Text))
    (best : Option (ℕ × List Text))
    → relative_to path share ≡ r
    → Among share all
    → Origin all path best
    → Origin all path (better share r best)
better-Origin all path share none best e k o = o
better-Origin all path share (some rel) none e k o = (share, rel, k, e, refl, refl)
better-Origin all path share (some rel) (some (n, found)) e k o =
    elim (Bool-cases (ltb n (specificity share))) [
      | inl larger ↦ rw larger (share, rel, k, e, refl, refl)
      | inr smaller ↦ rw smaller o
    ]

pub best_of-Origin :
    (all : List Share) (path : List Text) (shares : List Share) (best : Option (ℕ × List Text))
    → All (λ s. Among s all) shares
    → Origin all path best
    → Origin all path (best_of path shares best)
unfolding best_of
best_of-Origin all path [] best k o = o
best_of-Origin all path (share ∷ shares) best (k, ks) o =
    best_of-Origin all path shares (better share (relative_to path share) best) ks
      (better-Origin all path share (relative_to path share) best refl k o)

-- The search ends no less specific than `n`.
abbrev pub AtLeast : ℕ → Option (ℕ × List Text) → Type 0
AtLeast n none = ⊥
AtLeast n (some (m, found)) = n ≤ m

better-AtLeast :
    (n : ℕ) (share : Share) (r : Option (List Text)) (best : Option (ℕ × List Text))
    → AtLeast n best
    → AtLeast n (better share r best)
better-AtLeast n share none best h = h
better-AtLeast n share (some rel) none h = absurd h
better-AtLeast n share (some rel) (some (m, found)) h = ground arith

better-AtLeast_own :
    (share : Share) (rel : List Text) (r : Option (List Text)) (best : Option (ℕ × List Text))
    → r ≡ some rel
    → AtLeast (specificity share) (better share r best)
better-AtLeast_own share rel none best h = absurd (cc h)
better-AtLeast_own share rel (some rel') none h = omega arith
better-AtLeast_own share rel (some rel') (some (m, found)) h = ground arith

best_of-AtLeast :
    (n : ℕ) (path : List Text) (shares : List Share) (best : Option (ℕ × List Text))
    → AtLeast n best
    → AtLeast n (best_of path shares best)
unfolding best_of
best_of-AtLeast n path [] best h = h
best_of-AtLeast n path (share ∷ shares) best h =
    best_of-AtLeast n path shares _ (better-AtLeast n share (relative_to path share) best h)

pub best_of-AtLeast_all :
    (path : List Text) (shares : List Share) (best : Option (ℕ × List Text)) (share : Share)
    (rel : List Text)
    → Among share shares
    → relative_to path share ≡ some rel
    → AtLeast (specificity share) (best_of path shares best)
unfolding best_of
best_of-AtLeast_all path [] best share rel k h = absurd k
best_of-AtLeast_all path (s ∷ shares) best share rel (inl same) h =
    best_of-AtLeast (specificity share) path shares _ (
      subst (λ z. AtLeast (specificity z) (better s (relative_to path s) best)) (sym same)
        (better-AtLeast_own s rel (relative_to path s) best
          (subst (λ z. relative_to path z ≡ some rel) same h)))
best_of-AtLeast_all path (s ∷ shares) best share rel (inr later) h =
    best_of-AtLeast_all path shares (better s (relative_to path s) best) share rel later h
