-- ===== src/Permissions/Acls/Complete.antt =====
-- The chunks of the ACL walk in nfs-klldap-ui/src/fs.rs lose no entry.
use nfs_klldap_host.AclTable.{AclModification}
use nfs_klldap_host.Permissions.Acls.{
  Call, on_dirs, on_files, AclWalk, flush, flush_both, take_dir, take_file, acl_reach, acl_skip,
  visit_acl, acl_walk, apply_acl_with_progress, acl_start, acl_entry_applies, is_default,
  acl_options, scan_acl, count_acl_from, count_acl_applicable_with_live,
}
use nfs_klldap_host.Permissions.Walk.{
  DirEntry, WalkResult, found, failed, Visit, ApplyScope, ApplyOptions, ApplyProgress, is_dir,
  is_symlink,
}
use nfs_klldap_host.Prelude.{
  ℕ, ◌+◌, ◌≡◌, refl, sym, ap, ◌∙◌, subst, arith, true, false, not, Option, List, [], ◌∷◌, ◌++◌,
  if◌then◌else◌, Text, All, Bool-cases, inl, inr,
}
use mathlib.Core.List.{append_assoc, append-nil}
use nfs_klldap_host.Permissions.Acls.Chunks.{
  dir_paths, file_paths, wanted_in, wanted, Fits, held_dirs, held_files, held, IsSmall, flush_lem,
  All-sent, take_dir_lem, take_file_lem, sent_dirs, sent_files, acl_entry_applies-symlink,
}

module _ (setfacl : Call → Option Text) (dirs files : AclModification) (opts : ApplyOptions) where
  visit_acl-out :
      (e : DirEntry) (w : AclWalk)
      → acl_entry_applies e opts (is_default dirs) ≡ false
      → visit_acl setfacl dirs files opts (found e) w ≡ acl_skip w
  unfolding visit_acl
  visit_acl-out e w h = ground (arith, h)

  visit_acl-in :
      (e : DirEntry) (w : AclWalk)
      → acl_entry_applies e opts (is_default dirs) ≡ true
      → visit_acl setfacl dirs files opts (found e) w ≡ (
          if is_dir e.kind
          then take_dir setfacl dirs files opts e.path (acl_reach e.path w)
          else take_file setfacl dirs files opts e.path (acl_reach e.path w))
  unfolding visit_acl
  visit_acl-in e w h = elim (Bool-cases (is_symlink e.kind)) [
    | inl y ↦ absurd (cc (h, acl_entry_applies-symlink e opts (is_default dirs) y))
    | inr n ↦ rw n (rw h refl)
  ]

  visit_acl_lem :
      (v : WalkResult) (w : AclWalk)
      → IsSmall dirs files w
      → let w' = visit_acl setfacl dirs files opts v w in
        let found_dirs = wanted_in opts (is_default dirs) is_dir v in
        let found_files = wanted_in opts (is_default dirs) (λ k. not (is_dir k)) v in
        (held_dirs w' ≡ held_dirs w ++ found_dirs)
        × (held_files w' ≡ held_files w ++ found_files)
        × ((n : ℕ) (p : ApplyProgress)
            → held w' + n ≡ held w + (scan_acl opts (is_default dirs) v (n, p)).0)
        × IsSmall dirs files w'
  unfolding visit_acl
  visit_acl_lem (failed p msg) w h = (sym (append-nil _), sym (append-nil _), λ n q. omega arith, h)
  visit_acl_lem (found e) w h = elim (Bool-cases (acl_entry_applies e opts (is_default dirs))) [
    | inr out ↦
        rw (visit_acl-out e w out)
          (rw out (sym (append-nil _), sym (append-nil _), λ n q. omega arith, h))
    | inl inside ↦ rw (visit_acl-in e w inside) (
        rw inside (elim (Bool-cases (is_dir e.kind)) [
          | inl d ↦
              let (to_dirs, to_files, more, small) =
                take_dir_lem setfacl dirs files opts e.path (acl_reach e.path w) h in
              rw d (to_dirs, to_files ∙ sym (append-nil _), λ n q. omega (arith, more), small)
          | inr f ↦
              let (to_files, to_dirs, more, small) =
                take_file_lem setfacl dirs files opts e.path (acl_reach e.path w) h in
              rw f (to_dirs ∙ sym (append-nil _), to_files, λ n q. omega (arith, more), small)
        ]))
  ]

  acl_walk_lem :
      (vs : List Visit) (w : AclWalk)
      → IsSmall dirs files w
      → let end = acl_walk setfacl dirs files opts vs w in
        let default = is_default dirs in
        (held_dirs end ≡ held_dirs w ++ wanted opts default is_dir vs)
        × (held_files end ≡ held_files w ++ wanted opts default (λ k. not (is_dir k)) vs)
        × ((n : ℕ) (p : ApplyProgress)
            → held end + n ≡ held w + (count_acl_from opts default vs (n, p)).0)
        × IsSmall dirs files end
  unfolding acl_walk count_acl_from
  acl_walk_lem [] w h = (sym (append-nil _), sym (append-nil _), λ n p. refl, h)
  acl_walk_lem (v ∷ vs) w h = elim (Bool-cases v.cancelled) [
    | inl y ↦ rw y (sym (append-nil _), sym (append-nil _), λ n p. refl, h)
    | inr go ↦
        let default = is_default dirs in
        let (d, f, c, small) = visit_acl_lem v.result w h in
        let (ds, fs, cs, small') =
          acl_walk_lem vs (visit_acl setfacl dirs files opts v.result w) small in
        rw go (
          ds ∙ ap (λ z. z ++ wanted opts default is_dir vs) d ∙ append_assoc (held_dirs w) _ _,
          fs
              ∙ ap (λ z. z ++ wanted opts default (λ k. not (is_dir k)) vs) f
              ∙ append_assoc (held_files w) _ _,
          λ n p. omega (
            arith,
            c n p,
            cs (scan_acl opts default v.result (n, p)).0 (scan_acl opts default v.result (n, p)).1,
          ),
          small',
        )
  ]

  -- The last chunks are sent.
  flush_both_lem :
      (w : AclWalk)
      → IsSmall dirs files w
      → let r = flush_both setfacl dirs files opts w in
        (dir_paths r.calls ≡ held_dirs w)
        × (file_paths r.calls ≡ held_files w)
        × (r.progress.processed ≡ held w)
        × All (Fits dirs files) r.calls
  flush_both_lem w (d, f, fits) =
      let on_d = λ (ps : List Text). on_dirs ps dirs in
      let on_f = λ (ps : List Text). on_files ps files in
      let r = flush setfacl on_d w.dir_chunk w.run in
      let (calls, done) = flush_lem setfacl on_d w.dir_chunk w.run in
      let (calls', done') = flush_lem setfacl on_f w.file_chunk r in
      let (ds, fs) = sent_dirs dirs w.dir_chunk w.run.calls in
      let (fs', ds') = sent_files files w.file_chunk r.calls in
      (
        ap dir_paths calls' ∙ ds' ∙ ap dir_paths calls ∙ ds,
        ap file_paths calls' ∙ fs' ∙ ap (λ z. z ++ w.file_chunk) (ap file_paths calls ∙ fs),
        omega (arith, done, done'),
        subst (All (Fits dirs files)) (sym calls') (
            All-sent setfacl (Fits dirs files) on_f w.file_chunk r.calls
              (subst (All (Fits dirs files)) (sym calls) (
                All-sent setfacl (Fits dirs files) on_d w.dir_chunk w.run.calls fits
                  (λ h. (refl, h, omega (arith, d)))))
              (λ h. (refl, h, omega (arith, f)))),
      )

-- Up to the cancellation, whatever setfacl answers: the directories that the modification applies to
-- are handed to setfacl in the order of the walk, each once, and so are the files; each call carries
-- the modification of its kind and one to 64 paths; and the progress counts what the scan counted.
pub apply_acl_with_progress-wanted :
    (setfacl : Call → Option Text) (dirs files : AclModification) (scope : ApplyScope)
    (vs : List Visit) (p q : ApplyProgress)
    → let r = apply_acl_with_progress setfacl dirs files scope vs p in
      let default = is_default dirs in
      (dir_paths r.calls ≡ wanted (acl_options scope) default is_dir vs)
      × (file_paths r.calls ≡ wanted (acl_options scope) default (λ k. not (is_dir k)) vs)
      × All (Fits dirs files) r.calls
      × (r.progress.processed ≡ p.processed + (count_acl_applicable_with_live dirs scope vs q).0)
unfolding apply_acl_with_progress count_acl_applicable_with_live
apply_acl_with_progress-wanted setfacl dirs files scope vs p q =
    let opts = acl_options scope in
    let (ds, fs, count, small) =
      acl_walk_lem setfacl dirs files opts vs (acl_start p) (omega arith, omega arith, tt) in
    let end = acl_walk setfacl dirs files opts vs (acl_start p) in
    let (ds', fs', done, fits) = flush_both_lem setfacl dirs files opts end small in
    (ds' ∙ ds, fs' ∙ fs, fits, omega (arith, done, count 0 q))
