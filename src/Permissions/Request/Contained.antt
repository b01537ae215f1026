-- ===== src/Permissions/Request/Contained.antt =====
-- Where a request of nfs-klldap-ui/src/fs.rs may write.
use nfs_klldap_host.Permissions.Apply.{
  Files, Act, chowned, chmodded, Outcome, ok, err, run_of, entry_mode, apply_tree_with_progress,
}
use nfs_klldap_host.Permissions.Apply.Confined.{IsMeant, apply_tree_with_progress-IsMeant}
use nfs_klldap_host.Permissions.Modes.{dir_mode_r_implies_x-dir_r_implies_x}
use nfs_klldap_host.Permissions.Request.{
  ApplySpec, Walks, acts_of, answer_of, has_setuid, has_special, job_of, apply_at,
  apply_permissions_with_progress,
}
use nfs_klldap_host.Permissions.Walk.{
  FileKind, dir, file, symlink, special, Visit, ApplyProgress, max_depth,
}
use nfs_klldap_host.Prelude.{
  ℕ, ◌/◌, ◌%◌, ◌<◌, ◌≡◌, refl, subst, sym, arith, true, false, Option, none, some, List, [], ◌∷◌,
  Text, All, Bool-cases, inl, inr,
}
use nfs_klldap_host.SharePaths.{
  Share, components, normalize_path, is_allowed, host_path_to_container_path,
}
use nfs_klldap_host.SharePaths.Containment.{IsInside, host_path_to_container_path-IsInside}

-- A mode is written without the setuid bit.
abbrev pub IsPlain : Act → Type 0
IsPlain (chowned path uid gid) = Unit
IsPlain (chmodded path mode) = mode / 2048 % 2 ≡ 0

module _ (shares : List Share) (walk : Walks) (path : Text) (uid gid : ℕ) (spec : ApplySpec) where
  -- The act is meant for an entry of the walk of a target inside the share of the path.
  abbrev pub IsContained : Act → Type 0
  IsContained a =
      (is_allowed shares (normalize_path path) ≡ true)
      × IsPlain a
      × ((target : List Text) × IsInside shares (components (normalize_path (normalize_path path)))
            target
          × IsMeant (job_of uid gid spec) (walk target (max_depth spec.scope)) a)

file_mode-IsPlain :
    (o : Option ℕ) (mode : ℕ)
    → has_setuid mode ≡ false
    → has_special o ≡ false
    → let m : ℕ = elim o [ none ↦ mode | some m ↦ m ] in m / 2048 % 2 ≡ 0
file_mode-IsPlain none mode p h = ground arith
file_mode-IsPlain (some m) mode p h = ground arith

module _ (spec : ApplySpec) (small : spec.mode < 4096) (plain : has_setuid spec.mode ≡ false) where
  entry_mode-IsPlain :
      (k : FileKind) (uid gid : ℕ)
      → has_special spec.file_mode ≡ false
      → entry_mode (job_of uid gid spec) k / 2048 % 2 ≡ 0
  unfolding entry_mode
  entry_mode-IsPlain dir uid gid h =
      let (classes, bits, again) = dir_mode_r_implies_x-dir_r_implies_x spec.mode small in
      ground (arith, bits, plain)
  entry_mode-IsPlain file uid gid h = file_mode-IsPlain spec.file_mode spec.mode plain h
  entry_mode-IsPlain symlink uid gid h = file_mode-IsPlain spec.file_mode spec.mode plain h
  entry_mode-IsPlain special uid gid h = file_mode-IsPlain spec.file_mode spec.mode plain h

  IsMeant-IsPlain :
      (vs : List Visit) (uid gid : ℕ)
      → has_special spec.file_mode ≡ false
      → (a : Act) → IsMeant (job_of uid gid spec) vs a
      → IsPlain a
  IsMeant-IsPlain vs uid gid h (chowned path u g) m = tt
  IsMeant-IsPlain vs uid gid h (chmodded path mode) (e, seen, inside, (same_path, same_mode)) =
      rw same_mode (entry_mode-IsPlain e.kind uid gid h)

All-map :
    {A : Type 0} (P Q : A → Type 0) (xs : List A) → ((x : A) → P x → Q x) → All P xs → All Q xs
All-map P Q [] f h = tt
All-map P Q (x ∷ xs) f h = (f x h.0, All-map P Q xs f h.1)

acts_of-answer_of : (o : Outcome) → acts_of (answer_of o) ≡ (run_of o).acts
acts_of-answer_of (ok r) = refl
acts_of-answer_of (err m r) = refl

-- A request for a mode of twelve bits writes nothing unless its path is on the allow-list, and then
-- only on directories and files of the scope, in the walk of a target that lies inside the most
-- specific share of the path; it never writes a mode with the setuid bit.
pub apply_permissions_with_progress-IsContained :
    (shares : List Share) (walk : Walks) (fs : Files) (path : Text) (uid gid : ℕ) (spec : ApplySpec)
    (p : ApplyProgress)
    → spec.mode < 4096
    → All
        (IsContained shares walk path uid gid spec)
        (acts_of (apply_permissions_with_progress shares walk fs path uid gid spec p))
unfolding apply_permissions_with_progress
apply_permissions_with_progress-IsContained shares walk fs path uid gid spec p small =
    elim (Bool-cases (is_allowed shares (normalize_path path))) [
      | inr n ↦ rw n tt
      | inl allowed ↦ elim (Bool-cases (has_setuid spec.mode)) [
        | inl y ↦ rw allowed (rw y tt)
        | inr plain ↦ elim (Bool-cases (has_special spec.file_mode)) [
          | inl y ↦ rw allowed (rw plain (rw y tt))
          | inr bits ↦ rw allowed (
              rw plain (
                rw bits (
                  at allowed plain bits (host_path_to_container_path shares (normalize_path path))
                    (λ t e. e))))
        ]
      ]
    ]
  where
    at :
        is_allowed shares (normalize_path path) ≡ true
        → has_setuid spec.mode ≡ false
        → has_special spec.file_mode ≡ false
        → (o : Option (List Text))
        → ((t : List Text)
            → o ≡ some t
            → host_path_to_container_path shares (normalize_path path) ≡ some t)
        → All
            (IsContained shares walk path uid gid spec)
            (acts_of (apply_at shares walk fs uid gid spec p o))
    at allowed plain bits none f = tt
    at allowed plain bits (some t) f =
        let vs = walk t (max_depth spec.scope) in
        subst (All (IsContained shares walk path uid gid spec))
          (sym (acts_of-answer_of (apply_tree_with_progress fs (job_of uid gid spec) vs p)))
          (All-map (IsMeant (job_of uid gid spec) vs) _ _
            (λ a m. (
              allowed,
              IsMeant-IsPlain spec small plain vs uid gid bits a m,
              (
                t,
                host_path_to_container_path-IsInside shares (normalize_path path) t (f t refl),
                m,
              ),
            ))
            (apply_tree_with_progress-IsMeant fs (job_of uid gid spec) vs p))
