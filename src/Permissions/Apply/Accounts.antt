-- ===== src/Permissions/Apply/Accounts.antt =====
-- Every visit of nfs-klldap-ui/src/fs.rs's walk is accounted for, and the scan agrees with the apply.
use nfs_klldap_host.Permissions.Apply.{
  Files, Job, Run, ok, run_of, visit, apply_walk, apply_tree_with_progress,
}
use nfs_klldap_host.Permissions.Walk.{
  WalkResult, found, failed, Visit, ApplyProgress, scan, count_from, count_tree,
}
use nfs_klldap_host.Prelude.{ℕ, suc, ◌+◌, ◌≡◌, refl, arith, true, false, List, [], ◌∷◌, length, All}

abbrev pub Uncancelled : List Visit → Type 0
Uncancelled vs = All (λ v. v.cancelled ≡ false) vs

abbrev pub handled : ApplyProgress → ℕ
handled p = p.changed + p.skipped + p.error_count

module _ (fs : Files) (job : Job) (going : job.opts.continue_on_error ≡ true) where
  abbrev after : WalkResult → Run → Run
  after w run = run_of (visit fs job w run)

  visit-ok : (w : WalkResult) (run : Run) → visit fs job w run ≡ ok (after w run)
  unfolding visit
  visit-ok (failed p msg) run = ground (arith, going)
  visit-ok (found e) run = ground (arith, going)

  visit-handled :
      (w : WalkResult) (run : Run) → handled (after w run).progress ≡ suc (handled run.progress)
  unfolding visit
  visit-handled (failed p msg) run = ground (arith, going)
  visit-handled (found e) run = ground (arith, going)

  visit-scan :
      (w : WalkResult) (run : Run) (n : ℕ) (p : ApplyProgress)
      → (after w run).progress.processed + n ≡ run.progress.processed + (scan job.opts w (n, p)).0
  unfolding visit
  visit-scan (failed p msg) run n q = ground (arith, going)
  visit-scan (found e) run n q = ground (arith, going)

  walk_lem :
      (vs : List Visit) (run : Run) (n : ℕ) (p : ApplyProgress)
      → Uncancelled vs
      → let end = run_of (apply_walk fs job vs run) in
        (apply_walk fs job vs run ≡ ok end)
        × (end.progress.processed + n ≡ run.progress.processed + (count_from job.opts vs (n, p)).0)
        × (handled end.progress ≡ handled run.progress + length vs)
  unfolding apply_walk count_from
  walk_lem [] run n p h = (refl, refl, omega arith)
  walk_lem (v ∷ vs) run n p h =
      let s = scan job.opts v.result (n, p) in
      let (done, counted, accounted) = walk_lem vs (after v.result run) s.0 s.1 h.1 in
      rw h.0 (
        rw (visit-ok v.result run) (
          done,
          omega (arith, visit-scan v.result run n p, counted),
          omega (arith, visit-handled v.result run, accounted),
        ))

-- When no error ends the walk and nothing cancels it, the apply returns a result, processes as many
-- entries as the scan of the same walk counted, and leaves each visited entry changed, skipped or
-- counted as an error, in the progress that the poller reads.
pub apply_tree_with_progress-count_tree :
    (fs : Files) (job : Job) (vs : List Visit) (p q : ApplyProgress)
    → job.opts.continue_on_error ≡ true
    → Uncancelled vs
    → let end = run_of (apply_tree_with_progress fs job vs p) in
      (apply_tree_with_progress fs job vs p ≡ ok end)
      × (end.progress.processed ≡ p.processed + (count_tree job.opts vs q).0)
      × (handled end.progress ≡ handled p + length vs)
unfolding apply_tree_with_progress count_tree
apply_tree_with_progress-count_tree fs job vs p q going calm =
    let (done, counted, accounted) = walk_lem fs job going vs _ 0 q calm in
    (done, omega (arith, counted), accounted)
