-- ===== src/SharePaths/Normal.antt =====
-- Parent components of a path in nfs-klldap-ui/src/fs.rs, and that `normalize_path` brings none.
use nfs_klldap_host.SharePaths.{
  segments, is_named, of_segments, has_root, components, any_parent, root_dir, trim_slashes,
  normalize_path,
}
use nfs_klldap_host.Prelude.{
  ℕ, ◌≡◌, inl, inr, false, ◌&&◌, ◌||◌, List, [], ◌∷◌, ◌++◌, refl, sym, ap, ◌∙◌, subst, arith,
  if◌then◌else◌, ◌==◌, Text, is_empty, retain, Bool-cases,
}

-- Trailing slashes are not seen in the components but for a root that they stand for.
abbrev SameNames : Text → Text → Type 0
SameNames t s =
    ((segments t).0 ≡ (segments s).0)
    × (retain is_named (segments t).1 ≡ retain is_named (segments s).1)

same_segments_cons :
    (c : ℕ) (t s : Text)
    → SameNames t s
    → SameNames (if c == 47 && is_empty t then [] else c ∷ t) (c ∷ s)
same_segments_cons c [] s (first, rest) = elim (Bool-cases (c == 47)) [
  | inl slash ↦ rw slash (refl, subst (λ z. [] ≡ retain is_named (z ∷ (segments s).1)) first rest)
  | inr other ↦ rw other (rw other (ap (λ z. c ∷ z) first, rest))
]
same_segments_cons c (d ∷ t) s (first, rest) = elim (Bool-cases (c == 47)) [
  | inl slash ↦
      let b = (segments s).0 in
      rw slash (
        rw slash (
          refl,
          ap (λ z. retain is_named (z ∷ (segments (d ∷ t)).1)) first
              ∙ ap (λ z. if is_named b then b ∷ z else z) rest,
        ))
  | inr other ↦ rw other (rw other (ap (λ z. c ∷ z) first, rest))
]

segments-trim_slashes : (s : Text) → SameNames (trim_slashes s) s
segments-trim_slashes [] = (refl, refl)
segments-trim_slashes (c ∷ s) = same_segments_cons c (trim_slashes s) s (segments-trim_slashes s)

any_parent-components :
    (p : Text) → any_parent (components p) ≡ any_parent (of_segments (segments p))
any_parent-components p = elim (Bool-cases (has_root p)) [
  | inl rooted ↦ rw rooted refl
  | inr loose ↦ rw loose refl
]

pub any_parent-append : (a b : List Text) → any_parent (a ++ b) ≡ (any_parent a || any_parent b)
any_parent-append [] b = refl
any_parent-append (c ∷ a) b = ground (arith, any_parent-append a b)

of_segments-trim_slashes :
    (p : Text) → of_segments (segments (trim_slashes p)) ≡ of_segments (segments p)
of_segments-trim_slashes p =
    let (first, rest) = segments-trim_slashes p in
    ap
      (λ z.
        let named = retain is_named (segments (trim_slashes p)).1 in
        if is_empty z then named else z ∷ named)
      first
    ∙ ap (λ z. if is_empty (segments p).0 then z else (segments p).0 ∷ z) rest

any_parent-normal :
    (p t : Text)
    → of_segments (segments t) ≡ of_segments (segments p)
    → any_parent (components p) ≡ false
    → any_parent (components (if is_empty t then root_dir else t)) ≡ false
any_parent-normal p [] same h = refl
any_parent-normal p (c ∷ t) same h =
    any_parent-components (c ∷ t) ∙ ap any_parent same ∙ sym (any_parent-components p) ∙ h

pub any_parent-normalize_path :
    (p : Text)
    → any_parent (components p) ≡ false
    → any_parent (components (normalize_path p)) ≡ false
unfolding normalize_path
any_parent-normalize_path p h = any_parent-normal p (trim_slashes p) (of_segments-trim_slashes p) h
