-- ===== src/SharePaths/Containment.antt =====
-- A path that is let through by nfs-klldap-ui/src/fs.rs stays inside a share's container path.
use nfs_klldap_host.SharePaths.{
  Share, components, is_found, any_parent, has_parent_traversal, normalize_path, relative_to,
  specificity, better, best_of, path_of, host_path_to_container_path, any_root, is_allowed,
}
use nfs_klldap_host.Prelude.{
  ℕ, ◌≤◌, ◌≡◌, Bool, true, false, ◌||◌, Option, none, some, List, [], ◌∷◌, ◌++◌, refl, sym, ap, ◌∙◌,
  subst, arith, if◌then◌else◌, Text, trim, Among, Among-All,
}
use nfs_klldap_host.SharePaths.Normal.{any_parent-append, any_parent-normalize_path}
use nfs_klldap_host.SharePaths.Search.{
  Origin, AtLeast, best_of-Origin, best_of-AtLeast_all, strip_prefix_sound,
}

is_found-better :
    (share : Share) (r : Option (List Text)) (best : Option (ℕ × List Text))
    → is_found (better share r best) ≡ (is_found r || is_found best)
is_found-better share none best = refl
is_found-better share (some rel) none = refl
is_found-better share (some rel) (some (spec, path)) = ground arith

is_found-best_of :
    (path : List Text) (shares : List Share) (best : Option (ℕ × List Text))
    → is_found (best_of path shares best) ≡ (is_found best || any_root path shares)
unfolding best_of
is_found-best_of path [] best = ground arith
is_found-best_of path (share ∷ shares) best = ground (
  arith,
  is_found-best_of path shares (better share (relative_to path share) best),
  is_found-better share (relative_to path share) best,
)

is_found-path_of : (best : Option (ℕ × List Text)) → is_found (path_of best) ≡ is_found best
is_found-path_of none = refl
is_found-path_of (some (spec, path)) = refl

-- The allow-list and the mapping agree: a path is allowed exactly when it has a container path.
pub is_allowed-host_path_to_container_path :
    (shares : List Share) (p : Text)
    → is_allowed shares p ≡ is_found (host_path_to_container_path shares p)
unfolding is_allowed host_path_to_container_path
is_allowed-host_path_to_container_path shares p = ground (
  arith,
  is_found-best_of (components (normalize_path p)) shares none,
  is_found-path_of (best_of (components (normalize_path p)) shares none),
)

-- A path under a share, at the place that the share gives it: without any `..` below the share.
abbrev pub IsInside : List Share → List Text → List Text → Type 0
IsInside shares path found =
    (share : Share) × (rel : List Text) × Among share shares
    × (path ≡ components (normalize_path share.host_path) ++ rel)
    × (found ≡ components (trim share.container_path) ++ rel)
    × (any_parent rel ≡ false)
    × ((other : Share) (rel' : List Text)
        → Among other shares
        → relative_to path other ≡ some rel'
        → specificity other ≤ specificity share)

some_inj : (a b : List Text) → some a ≡ some b → a ≡ b
some_inj a b h = ground arith

any_parent_rest : (a b : List Text) → any_parent (a ++ b) ≡ false → any_parent b ≡ false
any_parent_rest a b h = ground (arith, any_parent-append a b)

unless_none :
    (c : Bool) (x : Option (List Text)) (found : List Text)
    → (if c then none else x) ≡ some found
    → (c ≡ false) × (x ≡ some found)
unless_none true x found h = absurd (cc h)
unless_none false x found h = (refl, h)

from_search :
    (shares : List Share) (path found : List Text) (best : Option (ℕ × List Text))
    → path_of best ≡ some found
    → Origin shares path best
    → any_parent path ≡ false
    → ((other : Share) (rel : List Text)
        → Among other shares
        → relative_to path other ≡ some rel
        → AtLeast (specificity other) best)
    → IsInside shares path found
unfolding relative_to
from_search shares path found none h o clean most = absurd (cc h)
from_search shares path found (some (n, found')) h (share, rel, k, e, size, place) clean most =
    let split = strip_prefix_sound (components (normalize_path share.host_path)) path rel e in
    (
      share,
      rel,
      k,
      split,
      sym (some_inj found' found h) ∙ place,
      any_parent_rest (components (normalize_path share.host_path)) rel
          (ap any_parent (sym split) ∙ clean),
      λ other rel' k' e'. subst (λ z. specificity other ≤ z) size (most other rel' k' e'),
    )

-- Containment: where a path is mapped, it lies under the host path of a declared share, the result is
-- that share's container path followed by the rest, the rest has no `..` in it, and no other share
-- that the path lies under is more specific.
pub host_path_to_container_path-IsInside :
    (shares : List Share) (p : Text) (found : List Text)
    → host_path_to_container_path shares p ≡ some found
    → IsInside shares (components (normalize_path p)) found
unfolding host_path_to_container_path has_parent_traversal
host_path_to_container_path-IsInside shares p found h =
    let path = components (normalize_path p) in
    let (clean, mapped) =
      unless_none (any_parent (components p)) (path_of (best_of path shares none)) found h in
    from_search shares path found (best_of path shares none) mapped
      (best_of-Origin shares path shares none (Among-All _ shares (λ s k. k)) tt)
      (any_parent-normalize_path p clean)
      (λ other rel k e. best_of-AtLeast_all path shares none other rel k e)
