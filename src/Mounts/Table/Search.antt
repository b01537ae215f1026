-- ===== src/Mounts/Table/Search.antt =====
-- The search of nfs-klldap-config/src/fs_probe.rs for the mount of a path, by its own tests.
use mathlib.Core.List.{append_assoc, append-nil}
use nfs_klldap_host.Mounts.Table.{
  MountEntry, point_length, later_max, is_over, max_over, resolve_mount_for_path,
}
use nfs_klldap_host.SharePaths.{normalize_path}
use nfs_klldap_host.Prelude.{
  ℕ, ◌≤◌, ◌≡◌, Bool, true, false, ◌&&◌, Option, none, some, List, [], ◌∷◌, ◌++◌, refl, sym, ap, ◌∙◌,
  subst, arith, if◌then◌else◌, ltb, leb, Text, All, Bool-cases, inl, inr,
}

-- Not over the path, or no longer than `n`; or strictly shorter.
abbrev pub IsAtMost : Text → ℕ → MountEntry → Type 0
IsAtMost norm n e = (is_over norm e && ltb n (point_length e)) ≡ false

abbrev pub IsBelow : Text → ℕ → MountEntry → Type 0
IsBelow norm n e = (is_over norm e && leb n (point_length e)) ≡ false

-- The entry is over the path, no entry over the path has a longer mount point, and those behind it
-- have shorter ones.
abbrev pub IsLast : Text → List MountEntry → MountEntry → Type 0
IsLast norm entries e =
    (front : List MountEntry) × (back : List MountEntry) × (entries ≡ front ++ e ∷ back)
    × (is_over norm e ≡ true)
    × All (IsAtMost norm (point_length e)) front
    × All (IsBelow norm (point_length e)) back

-- What the search has found in the entries that it went through.
abbrev pub Search : Text → List MountEntry → Option MountEntry → Type 0
Search norm seen none = All (λ e. is_over norm e ≡ false) seen
Search norm seen (some b) = IsLast norm seen b

module _ {A : Type 0} (P : A → Type 0) where
  All-join : (xs ys : List A) → All P xs → All P ys → All P (xs ++ ys)
  All-join [] ys h k = k
  All-join (x ∷ xs) ys (first, h) k = (first, All-join xs ys h k)

All-weaken :
    {A : Type 0} {P Q : A → Type 0} (xs : List A) → ((x : A) → P x → Q x) → All P xs → All Q xs
All-weaken [] f h = tt
All-weaken (x ∷ xs) f (first, h) = (f x first, All-weaken xs f h)

at_most_of_not_over : (o : Bool) (c : Bool) → o ≡ false → (o && c) ≡ false
at_most_of_not_over o c h = ground arith

at_most_longer : (o : Bool) (n m l : ℕ) → n ≤ m → (o && ltb n l) ≡ false → (o && ltb m l) ≡ false
at_most_longer o n m l h k = ground arith

at_most_of_below : (o : Bool) (n m l : ℕ) → n ≤ m → (o && leb n l) ≡ false → (o && ltb m l) ≡ false
at_most_of_below o n m l h k = ground arith

ltb_of_le : (n l : ℕ) → l ≤ n → (true && ltb n l) ≡ false
ltb_of_le n l h = ground arith

le_of_leb : (a b : ℕ) → leb a b ≡ true → a ≤ b
le_of_leb a b h = ground arith

-- Everything seen is at most as long as an entry that is at least as long as the last best one.
seen-IsAtMost :
    (norm : Text) (seen : List MountEntry) (b : MountEntry) (m : ℕ)
    → point_length b ≤ m
    → IsLast norm seen b
    → All (IsAtMost norm m) seen
seen-IsAtMost norm seen b m h (front, back, split, over, longest, last) =
    subst (All (IsAtMost norm m)) (sym split) (
      All-join (IsAtMost norm m) front (b ∷ back)
        (All-weaken front
          (λ e k. at_most_longer (is_over norm e) (point_length b) m (point_length e) h k) longest)
        (
          rw over (ltb_of_le m (point_length b) h),
          All-weaken back
              (λ e k. at_most_of_below (is_over norm e) (point_length b) m (point_length e) h k)
              last,
        ))

grown :
    (norm : Text) (seen : List MountEntry) (b e : MountEntry)
    → IsBelow norm (point_length b) e
    → IsLast norm seen b
    → IsLast norm (seen ++ e ∷ []) b
grown norm seen b e h (front, back, split, over, longest, last) = (
  front,
  back ++ e ∷ [],
  ap (λ z. z ++ e ∷ []) split ∙ append_assoc front (b ∷ back) (e ∷ []),
  over,
  longest,
  All-join (IsBelow norm (point_length b)) back (e ∷ []) last (h, tt),
)

step-Search :
    (norm : Text) (seen : List MountEntry) (best : Option MountEntry) (e : MountEntry)
    → Search norm seen best
    → Search norm (seen ++ e ∷ []) (if is_over norm e then later_max best e else best)
step-Search norm seen none e h = elim (Bool-cases (is_over norm e)) [
  | inl y ↦
      rw y
        (seen, [], refl, y, All-weaken seen (λ x k. at_most_of_not_over (is_over norm x) _ k) h, tt)
  | inr n ↦ rw n (All-join (λ x. is_over norm x ≡ false) seen (e ∷ []) h (n, tt))
]
step-Search norm seen (some b) e h = elim (Bool-cases (is_over norm e)) [
  | inr n ↦ rw n (grown norm seen b e (rw n refl) h)
  | inl y ↦ elim (Bool-cases (leb (point_length b) (point_length e))) [
    | inl longer ↦
        rw (y, longer)
          (
            seen,
            [],
            refl,
            y,
            seen-IsAtMost norm seen b (point_length e)
                (le_of_leb (point_length b) (point_length e) longer) h,
            tt,
          )
    | inr shorter ↦ rw (y, shorter) (grown norm seen b e (rw (y, shorter) refl) h)
  ]
]

max_over-Search :
    (norm : Text) (seen : List MountEntry) (best : Option MountEntry) (entries : List MountEntry)
    → Search norm seen best
    → Search norm (seen ++ entries) (max_over norm best entries)
unfolding max_over
max_over-Search norm seen best [] h = subst (λ z. Search norm z best) (sym (append-nil seen)) h
max_over-Search norm seen best (e ∷ entries) h =
    subst
      (λ z.
        Search norm z (max_over norm (if is_over norm e then later_max best e else best) entries))
      (append_assoc seen (e ∷ []) entries)
      (max_over-Search norm (seen ++ e ∷ []) _ entries (step-Search norm seen best e h))

pub resolve_mount_for_path-Search :
    (entries : List MountEntry) (path : Text)
    → Search (normalize_path path) entries (resolve_mount_for_path entries path)
unfolding resolve_mount_for_path
resolve_mount_for_path-Search entries path =
    max_over-Search (normalize_path path) [] none entries tt
