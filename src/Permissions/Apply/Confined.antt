-- ===== src/Permissions/Apply/Confined.antt =====
-- What the walk of nfs-klldap-ui/src/fs.rs may write, and to which entries.
use nfs_klldap_host.Permissions.Apply.{
  Files, Act, chowned, chmodded, Job, Run, Outcome, ok, err, run_of, entry_mode, visit, apply_walk,
  apply_tree_with_progress, after_chown, after_chmod,
}
use nfs_klldap_host.Permissions.Walk.{
  FileKind, dir, file, symlink, special, DirEntry, WalkResult, found, failed, Visit, ApplyScope,
  dir_only, immediate_files, all, in_scope, ApplyProgress, should_apply_entry, is_symlink,
}
use nfs_klldap_host.Prelude.{
  ℕ, ◌≤◌, ◌≡◌, ◌⊎◌, inl, inr, refl, arith, true, false, Option, none, some, List, [], ◌∷◌, ◌++◌,
  All, Bool-cases,
}

abbrev IsNode : FileKind → Type 0
IsNode k = (k ≡ dir) ⊎ (k ≡ file)

-- The entries that a scope is documented to reach.
abbrev pub Reaches : ApplyScope → FileKind → ℕ → Type 0
Reaches dir_only k depth = IsNode k × (depth ≡ 0)
Reaches immediate_files k depth = ((k ≡ dir) × (depth ≡ 0)) ⊎ ((k ≡ file) × (depth ≤ 1))
Reaches all k depth = IsNode k

-- The act that a job means for an entry.
abbrev pub Means : Job → DirEntry → Act → Type 0
Means job e (chowned path uid gid) = (path ≡ e.path) × (uid ≡ job.uid) × (gid ≡ job.gid)
Means job e (chmodded path mode) = (path ≡ e.path) × (mode ≡ entry_mode job e.kind)

abbrev pub Visited : DirEntry → List Visit → Type 0
Visited e [] = ⊥
Visited e (v ∷ vs) = (v.result ≡ found e) ⊎ Visited e vs

abbrev pub IsMeant : Job → List Visit → Act → Type 0
IsMeant job vs a =
    (e : DirEntry) × Visited e vs × Reaches job.opts.scope e.kind e.depth × Means job e a

reaches :
    (s : ApplyScope) (k : FileKind) (depth : ℕ)
    → is_symlink k ≡ false
    → in_scope s k depth ≡ true
    → Reaches s k depth
reaches dir_only dir depth n h = (inl refl, ground arith)
reaches dir_only file depth n h = (inr refl, ground arith)
reaches immediate_files dir depth n h = inl (refl, ground arith)
reaches immediate_files file depth n h = inr (refl, ground arith)
reaches all dir depth n h = inl refl
reaches all file depth n h = inr refl
reaches _ symlink depth n h = absurd (cc n)
reaches dir_only special depth n h = absurd (cc h)
reaches immediate_files special depth n h = absurd (cc h)
reaches all special depth n h = absurd (cc h)

All-append_one :
    {A : Type 0} (P : A → Type 0) (xs : List A) (x : A) → All P xs → P x → All P (xs ++ x ∷ [])
All-append_one P [] x h p = (p, tt)
All-append_one P (y ∷ ys) x h p = (h.0, All-append_one P ys x h.1 p)

module _ (fs : Files) (job : Job) (P : Act → Type 0) where
  after_chmod-acts :
      (e : DirEntry) (o : Option (List ℕ)) (run : Run)
      → P (chmodded e.path (entry_mode job e.kind))
      → All P run.acts
      → All P (run_of (after_chmod fs job e o run)).acts
  after_chmod-acts e none run p h = All-append_one P run.acts _ h p
  after_chmod-acts e (some msg) run p h = elim (Bool-cases job.opts.continue_on_error) [
    | inl y ↦ rw y h
    | inr n ↦ rw n h
  ]

  after_chown-acts :
      (e : DirEntry) (o : Option (List ℕ)) (run : Run)
      → P (chowned e.path job.uid job.gid)
      → P (chmodded e.path (entry_mode job e.kind))
      → All P run.acts
      → All P (run_of (after_chown fs job e o run)).acts
  after_chown-acts e none run q p h =
      after_chmod-acts e (fs.chmod e.path (entry_mode job e.kind)) _ p
        (All-append_one P run.acts _ h q)
  after_chown-acts e (some msg) run q p h = elim (Bool-cases job.opts.continue_on_error) [
    | inl y ↦ rw y h
    | inr n ↦ rw n h
  ]

  abbrev Allows : WalkResult → Type 0
  Allows (failed p msg) = Unit
  Allows (found e) =
      Reaches job.opts.scope e.kind e.depth
      → P (chowned e.path job.uid job.gid) × P (chmodded e.path (entry_mode job e.kind))

  visit-acts :
      (w : WalkResult) (run : Run)
      → Allows w
      → All P run.acts
      → All P (run_of (visit fs job w run)).acts
  unfolding visit should_apply_entry
  visit-acts (failed p msg) run f h = elim (Bool-cases job.opts.continue_on_error) [
    | inl y ↦ rw y h
    | inr n ↦ rw n h
  ]
  visit-acts (found e) run f h = elim (Bool-cases (is_symlink e.kind)) [
    | inl y ↦ rw y h
    | inr n ↦ elim (Bool-cases (in_scope job.opts.scope e.kind e.depth)) [
      | inl inside ↦
          let (q, p) = f (reaches _ _ _ n inside) in
          rw n (rw inside (after_chown-acts e (fs.chown e.path job.uid job.gid) _ q p h))
      | inr outside ↦ rw n (rw outside h)
    ]
  ]

  walk-acts :
      (vs : List Visit) (run : Run)
      → All (λ v. Allows v.result) vs
      → All P run.acts
      → All P (run_of (apply_walk fs job vs run)).acts
  unfolding apply_walk
  walk-acts [] run f h = h
  walk-acts (v ∷ vs) run f h = elim (Bool-cases v.cancelled) [
    | inl y ↦ rw y h
    | inr n ↦ rw n (
        rest (λ r k. walk-acts vs r f.1 k) (visit fs job v.result run)
          (visit-acts v.result run f.0 h))
  ]
    where
      rest :
          ((r : Run) → All P r.acts → All P (run_of (apply_walk fs job vs r)).acts)
          → (o : Outcome) → All P (run_of o).acts
          → All P (run_of (elim o [ ok r ↦ apply_walk fs job vs r | err m r ↦ err m r ])).acts
      rest ih (ok r) k = ih r k
      rest ih (err m r) k = k

-- Every entry that a list holds is visited in it.
IsMeant-Allows :
    (fs : Files) (job : Job) (all_of vs : List Visit)
    → ((e : DirEntry) → Visited e vs → Visited e all_of)
    → All (λ v. Allows fs job (IsMeant job all_of) v.result) vs
IsMeant-Allows fs job all_of [] f = tt
IsMeant-Allows fs job all_of (v ∷ vs) f =
    (one v.result (λ e k. f e (inl k)), IsMeant-Allows fs job all_of vs (λ e k. f e (inr k)))
  where
    one :
        (w : WalkResult)
        → ((e : DirEntry) → w ≡ found e → Visited e all_of)
        → Allows fs job (IsMeant job all_of) w
    one (failed p msg) g = tt
    one (found e) g =
        λ inside. ((e, g e refl, inside, (refl, refl, refl)), (e, g e refl, inside, (refl, refl)))

-- Whatever fails and whenever it is cancelled, an apply writes an owner or a mode only on an entry of
-- the walk that is a directory or a regular file within the reach of the scope; the owner is the one
-- asked for, and the mode is the one of the entry's kind.
pub apply_tree_with_progress-IsMeant :
    (fs : Files) (job : Job) (vs : List Visit) (p : ApplyProgress)
    → All (IsMeant job vs) (run_of (apply_tree_with_progress fs job vs p)).acts
unfolding apply_tree_with_progress
apply_tree_with_progress-IsMeant fs job vs p =
    walk-acts fs job (IsMeant job vs) vs _ (IsMeant-Allows fs job vs vs (λ e k. k)) tt
