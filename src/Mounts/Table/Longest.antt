-- ===== src/Mounts/Table/Longest.antt =====
-- The mount that is found for a path, in nfs-klldap-config/src/fs_probe.rs.
use nfs_klldap_host.Mounts.Table.{MountEntry, path_under_mount, is_over, resolve_mount_for_path}
use nfs_klldap_host.Mounts.Table.Search.{IsAtMost, IsBelow, Search, resolve_mount_for_path-Search}
use nfs_klldap_host.SharePaths.{normalize_path}
use nfs_klldap_host.Validation.Lists.{starts_with_lem}
use mathlib.Core.List.{append_assoc}
use nfs_klldap_host.Prelude.{
  ℕ, ◌≤◌, ◌<◌, ◌≡◌, ◌⊎◌, Bool, true, false, ◌&&◌, ◌||◌, Option, none, some, List, [], ◌∷◌, ◌++◌,
  refl, sym, subst, ◌∙◌, arith, ltb, leb, Text, same_text, same_text_sound, same_text_refl,
  starts_with, as_bytes, length, All, Bool-cases, inl, inr,
}

-- A path is at a mount point, or below it by whole components; below the root is every absolute path.
abbrev pub Covers : Text → Text → Type 0
Covers point path =
    (path ≡ point)
    ⊎ (((point ≡ 47 ∷ []) × (rest : Text) × (path ≡ 47 ∷ rest))
        ⊎ ((rest : Text) × (path ≡ point ++ 47 ∷ rest)))

abbrev pub point_of : MountEntry → Text
point_of e = normalize_path e.mount_point

-- The length in bytes, as Rust counts it.
abbrev pub size_of : MountEntry → ℕ
size_of e = length (as_bytes (point_of e))

abbrev pub NoLonger : Text → ℕ → MountEntry → Type 0
NoLonger path n e = (Covers (point_of e) path → ⊥) ⊎ (size_of e ≤ n)

abbrev pub Shorter : Text → ℕ → MountEntry → Type 0
Shorter path n e = (Covers (point_of e) path → ⊥) ⊎ (size_of e < n)

-- No entry covers the path; or the entry is one of the table that does, no entry that covers the path
-- has a longer mount point, and those behind it that do have shorter ones.
abbrev pub Best : Text → List MountEntry → Option MountEntry → Type 0
Best path entries none = All (λ e. Covers (point_of e) path → ⊥) entries
Best path entries (some e) =
    (front : List MountEntry) × (back : List MountEntry) × (entries ≡ front ++ e ∷ back)
    × Covers (point_of e) path
    × All (NoLonger path (size_of e)) front
    × All (Shorter path (size_of e)) back

starts_with-append : (p rest : Text) → starts_with p (p ++ rest) ≡ true
starts_with-append [] rest = refl
starts_with-append (c ∷ p) rest = ground (arith, starts_with-append p rest)

path_under_mount-Covers :
    (path point : Text) → path_under_mount path point ≡ true → Covers point path
unfolding path_under_mount
path_under_mount-Covers path point h = elim (Bool-cases (same_text path point)) [
  | inl y ↦ inl (same_text_sound path point y)
  | inr n ↦ elim (Bool-cases (same_text point (47 ∷ []))) [
    | inl y ↦
        let (rest, e) = starts_with_lem (47 ∷ []) path (rw (n, y) at h) in
        inr (inl (same_text_sound point (47 ∷ []) y, rest, e))
    | inr m ↦
        let (rest, e) = starts_with_lem (point ++ 47 ∷ []) path (rw (n, m) at h) in
        inr (inr (rest, e ∙ append_assoc point (47 ∷ []) rest))
  ]
]

or_true : (b : Bool) → (b || true) ≡ true
or_true b = ground arith

below_point : (point rest : Text) → path_under_mount (point ++ 47 ∷ rest) point ≡ true
unfolding path_under_mount
below_point point rest = elim (Bool-cases (same_text point (47 ∷ []))) [
  | inl y ↦
      subst (λ z. path_under_mount (z ++ 47 ∷ rest) z ≡ true)
        (sym (same_text_sound point (47 ∷ []) y)) refl
  | inr n ↦
      rw (n, sym (append_assoc point (47 ∷ []) rest), starts_with-append (point ++ 47 ∷ []) rest)
        (or_true _)
]

Covers-path_under_mount :
    (path point : Text) → Covers point path → path_under_mount path point ≡ true
unfolding path_under_mount
Covers-path_under_mount path point (inl e) = rw (e, same_text_refl point) refl
Covers-path_under_mount path point (inr (inl (top, rest, e))) = rw (top, e) (or_true _)
Covers-path_under_mount path point (inr (inr (rest, e))) = rw e (below_point point rest)

not_over : (path : Text) (e : MountEntry) → is_over path e ≡ false → Covers (point_of e) path → ⊥
not_over path e h c = cc (h, Covers-path_under_mount path (point_of e) c)

no_longer : (path : Text) (n : ℕ) (e : MountEntry) → IsAtMost path n e → NoLonger path n e
no_longer path n e h = elim (Bool-cases (is_over path e)) [
  | inl y ↦ inr (short (is_over path e) n (size_of e) y h)
  | inr f ↦ inl (not_over path e f)
]
  where
    short : (o : Bool) (n m : ℕ) → o ≡ true → (o && ltb n m) ≡ false → m ≤ n
    short o n m y h = ground arith

shorter : (path : Text) (n : ℕ) (e : MountEntry) → IsBelow path n e → Shorter path n e
shorter path n e h = elim (Bool-cases (is_over path e)) [
  | inl y ↦ inr (short (is_over path e) n (size_of e) y h)
  | inr f ↦ inl (not_over path e f)
]
  where
    short : (o : Bool) (n m : ℕ) → o ≡ true → (o && leb n m) ≡ false → m < n
    short o n m y h = ground arith

each :
    {P Q : MountEntry → Type 0} (es : List MountEntry)
    → ((e : MountEntry) → P e → Q e)
    → All P es
    → All Q es
each [] f h = tt
each (e ∷ es) f (first, h) = (f e first, each es f h)

Search-Best :
    (path : Text) (entries : List MountEntry) (found : Option MountEntry)
    → Search path entries found
    → Best path entries found
Search-Best path entries none h = each entries (not_over path) h
Search-Best path entries (some b) (front, back, split, over, longest, last) = (
  front,
  back,
  split,
  path_under_mount-Covers path (point_of b) over,
  each front (no_longer path (size_of b)) longest,
  each back (shorter path (size_of b)) last,
)

-- The mount of a path: none exactly when no entry of the table covers it, by whole path components, and
-- else an entry of the table that covers it, such that no entry covering it has a mount point of more
-- bytes and those behind it have one of fewer; so of two mounts on one point the later, visible one is
-- taken. Paths and mount points are compared without their trailing slashes.
pub resolve_mount_for_path-Best :
    (entries : List MountEntry) (path : Text)
    → Best (normalize_path path) entries (resolve_mount_for_path entries path)
resolve_mount_for_path-Best entries path =
    Search-Best (normalize_path path) entries (resolve_mount_for_path entries path)
      (resolve_mount_for_path-Search entries path)
