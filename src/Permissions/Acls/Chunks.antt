-- ===== src/Permissions/Acls/Chunks.antt =====
-- The chunks of the ACL walk in nfs-klldap-ui/src/fs.rs: what is sent, and how much at a time.
use nfs_klldap_host.AclTable.{AclModification}
use nfs_klldap_host.Permissions.Acls.{
  Call, on_dirs, on_files, AclRun, AclWalk, flush, take_dir, take_file, acl_entry_applies,
  chunk_size,
}
use nfs_klldap_host.Permissions.Walk.{
  FileKind, DirEntry, WalkResult, found, failed, Visit, ApplyOptions, is_symlink,
  should_apply_entry,
}
use nfs_klldap_host.Prelude.{
  ℕ, suc, ◌+◌, ◌≤◌, ◌<◌, ◌≡◌, refl, sym, ap, ◌∙◌, subst, arith, Bool, true, false, Option, List, [],
  ◌∷◌, ◌++◌, leb, if◌then◌else◌, Text, length, length-append, All, Bool-cases, inl, inr,
}
use mathlib.Core.List.{append_assoc, append-nil}

abbrev pub dir_paths : List Call → List Text
dir_paths [] = []
dir_paths (on_dirs ps m ∷ cs) = ps ++ dir_paths cs
dir_paths (on_files ps m ∷ cs) = dir_paths cs

abbrev pub file_paths : List Call → List Text
file_paths [] = []
file_paths (on_dirs ps m ∷ cs) = file_paths cs
file_paths (on_files ps m ∷ cs) = ps ++ file_paths cs

abbrev pub wanted_of : Bool → Text → Bool → List Text
wanted_of true path true = path ∷ []
wanted_of _ path _ = []

abbrev pub wanted_in : ApplyOptions → Bool → (FileKind → Bool) → WalkResult → List Text
wanted_in opts default pick (failed p msg) = []
wanted_in opts default pick (found e) =
    wanted_of (acl_entry_applies e opts default) e.path (pick e.kind)

-- The paths that apply, up to the cancellation.
abbrev pub wanted : ApplyOptions → Bool → (FileKind → Bool) → List Visit → List Text
wanted opts default pick [] = []
wanted opts default pick (v ∷ vs) =
    if v.cancelled then [] else wanted_in opts default pick v.result ++ wanted opts default pick vs

-- Each call carries one of the two modifications, and at least one and at most 64 paths.
abbrev pub Fits : AclModification → AclModification → Call → Type 0
Fits dirs files (on_dirs ps m) = (m ≡ dirs) × (0 < length ps) × (length ps ≤ 64)
Fits dirs files (on_files ps m) = (m ≡ files) × (0 < length ps) × (length ps ≤ 64)

abbrev pub sent : (List Text → Call) → List Text → List Call → List Call
sent call [] cs = cs
sent call (p ∷ ps) cs = cs ++ call (p ∷ ps) ∷ []

dir_paths-append :
    (cs : List Call) (c : Call) → dir_paths (cs ++ c ∷ []) ≡ dir_paths cs ++ dir_paths (c ∷ [])
dir_paths-append [] c = refl
dir_paths-append (on_dirs ps m ∷ cs) c =
    ap (λ z. ps ++ z) (dir_paths-append cs c) ∙ sym (append_assoc ps (dir_paths cs) _)
dir_paths-append (on_files ps m ∷ cs) c = dir_paths-append cs c

file_paths-append :
    (cs : List Call) (c : Call) → file_paths (cs ++ c ∷ []) ≡ file_paths cs ++ file_paths (c ∷ [])
file_paths-append [] c = refl
file_paths-append (on_dirs ps m ∷ cs) c = file_paths-append cs c
file_paths-append (on_files ps m ∷ cs) c =
    ap (λ z. ps ++ z) (file_paths-append cs c) ∙ sym (append_assoc ps (file_paths cs) _)

pub sent_dirs :
    (m : AclModification) (chunk : List Text) (cs : List Call)
    → (dir_paths (sent (λ ps. on_dirs ps m) chunk cs) ≡ dir_paths cs ++ chunk)
      × (file_paths (sent (λ ps. on_dirs ps m) chunk cs) ≡ file_paths cs)
sent_dirs m [] cs = (sym (append-nil _), refl)
sent_dirs m (p ∷ ps) cs = (
  dir_paths-append cs _ ∙ ap (λ z. dir_paths cs ++ (p ∷ z)) (append-nil ps),
  file_paths-append cs _ ∙ append-nil _,
)

pub sent_files :
    (m : AclModification) (chunk : List Text) (cs : List Call)
    → (file_paths (sent (λ ps. on_files ps m) chunk cs) ≡ file_paths cs ++ chunk)
      × (dir_paths (sent (λ ps. on_files ps m) chunk cs) ≡ dir_paths cs)
sent_files m [] cs = (sym (append-nil _), refl)
sent_files m (p ∷ ps) cs = (
  file_paths-append cs _ ∙ ap (λ z. file_paths cs ++ (p ∷ z)) (append-nil ps),
  dir_paths-append cs _ ∙ append-nil _,
)

pub acl_entry_applies-symlink :
    (e : DirEntry) (opts : ApplyOptions) (default : Bool)
    → is_symlink e.kind ≡ true
    → acl_entry_applies e opts default ≡ false
unfolding acl_entry_applies should_apply_entry
acl_entry_applies-symlink e opts default h = ground (arith, h)

abbrev pub held_dirs : AclWalk → List Text
held_dirs w = dir_paths w.run.calls ++ w.dir_chunk

abbrev pub held_files : AclWalk → List Text
held_files w = file_paths w.run.calls ++ w.file_chunk

abbrev pub held : AclWalk → ℕ
held w = w.run.progress.processed + length w.dir_chunk + length w.file_chunk

abbrev pub IsSmall : AclModification → AclModification → AclWalk → Type 0
IsSmall dirs files w =
    (length w.dir_chunk < 64) × (length w.file_chunk < 64) × All (Fits dirs files) w.run.calls

module _ (setfacl : Call → Option Text) where
  pub flush_lem :
      (call : List Text → Call) (chunk : List Text) (r : AclRun)
      → ((flush setfacl call chunk r).calls ≡ sent call chunk r.calls)
        × ((flush setfacl call chunk r).progress.processed ≡ r.progress.processed + length chunk)
  unfolding flush
  flush_lem call [] r = (refl, omega arith)
  flush_lem call (p ∷ ps) r = ground arith

  pub All-sent :
      (P : Call → Type 0) (call : List Text → Call) (chunk : List Text) (cs : List Call)
      → All P cs
      → (0 < length chunk → P (call chunk))
      → All P (sent call chunk cs)
  All-sent P call [] cs h f = h
  All-sent P call (p ∷ ps) cs h f = onto cs h
    where
      onto : (cs : List Call) → All P cs → All P (cs ++ call (p ∷ ps) ∷ [])
      onto [] k = (f (omega arith), tt)
      onto (c ∷ cs) (k, ks) = (k, onto cs ks)

  module _ (dirs files : AclModification) (opts : ApplyOptions) where
    pub take_dir_lem :
        (path : Text) (w : AclWalk)
        → IsSmall dirs files w
        → let w' = take_dir setfacl dirs files opts path w in
          (held_dirs w' ≡ held_dirs w ++ path ∷ [])
          × (held_files w' ≡ held_files w)
          × (held w' ≡ suc (held w))
          × IsSmall dirs files w'
    unfolding take_dir
    take_dir_lem path w (d, f, fits) =
        let chunk = w.dir_chunk ++ path ∷ [] in
        let call = λ (ps : List Text). on_dirs ps dirs in
        let (calls, done) = flush_lem call chunk w.run in
        let (same_dirs, same_files) = sent_dirs dirs chunk w.run.calls in
        elim (Bool-cases (leb chunk_size (length chunk))) [
          | inl full ↦ rw full (
            append-nil _
                ∙ ap dir_paths calls
                ∙ same_dirs
                ∙ sym (append_assoc (dir_paths w.run.calls) w.dir_chunk (path ∷ [])),
            ap (λ z. z ++ w.file_chunk) (ap file_paths calls ∙ same_files),
            omega (arith, done, length-append {0} w.dir_chunk (path ∷ [])),
            (
              omega arith,
              f,
              subst (All (Fits dirs files)) (sym calls) (
                  All-sent (Fits dirs files) call chunk w.run.calls fits (λ some_path. (
                    refl,
                    some_path,
                    omega (arith, d, length-append {0} w.dir_chunk (path ∷ [])),
                  ))),
            ),
          )
          | inr room ↦ rw room (
            sym (append_assoc (dir_paths w.run.calls) w.dir_chunk (path ∷ [])),
            refl,
            omega (arith, length-append {0} w.dir_chunk (path ∷ [])),
            (ground (arith, room), f, fits),
          )
        ]

    pub take_file_lem :
        (path : Text) (w : AclWalk)
        → IsSmall dirs files w
        → let w' = take_file setfacl dirs files opts path w in
          (held_files w' ≡ held_files w ++ path ∷ [])
          × (held_dirs w' ≡ held_dirs w)
          × (held w' ≡ suc (held w))
          × IsSmall dirs files w'
    unfolding take_file
    take_file_lem path w (d, f, fits) =
        let chunk = w.file_chunk ++ path ∷ [] in
        let call = λ (ps : List Text). on_files ps files in
        let (calls, done) = flush_lem call chunk w.run in
        let (same_files, same_dirs) = sent_files files chunk w.run.calls in
        elim (Bool-cases (leb chunk_size (length chunk))) [
          | inl full ↦ rw full (
            append-nil _
                ∙ ap file_paths calls
                ∙ same_files
                ∙ sym (append_assoc (file_paths w.run.calls) w.file_chunk (path ∷ [])),
            ap (λ z. z ++ w.dir_chunk) (ap dir_paths calls ∙ same_dirs),
            omega (arith, done, length-append {0} w.file_chunk (path ∷ [])),
            (
              d,
              omega arith,
              subst (All (Fits dirs files)) (sym calls) (
                  All-sent (Fits dirs files) call chunk w.run.calls fits (λ some_path. (
                    refl,
                    some_path,
                    omega (arith, f, length-append {0} w.file_chunk (path ∷ [])),
                  ))),
            ),
          )
          | inr room ↦ rw room (
            sym (append_assoc (file_paths w.run.calls) w.file_chunk (path ∷ [])),
            refl,
            omega (arith, length-append {0} w.file_chunk (path ∷ [])),
            (d, ground (arith, room), fits),
          )
        ]
