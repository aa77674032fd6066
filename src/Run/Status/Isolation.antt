-- ===== src/Run/Status/Isolation.antt =====
-- internal/run/service/pipeline_run.go: a status update reaches the run that it names on its target.
use software_distribution_pl.Run.Status.Aside.{announce_end-IsAside, after_task, after_task-IsAside}
use software_distribution_pl.Run.Status.Untouched.{save_status-P, IsUntouched, P-aside}
use software_distribution_pl.Run.Rows.{update_run}
use software_distribution_pl.Run.Status.{
  save_status, announce_end, TaskSummary, Sinks, apply_task, apply_tasks, apply_to, StatusUpdate,
  apply_status, is_named, reported, apply_found,
}
use software_distribution_pl.Run.Tables.{run_id, PipelineRun, TaskRun, Tables}
use software_distribution_pl.Common.{
  ℕ, ◌≡◌, ◌≢◌, false, some, List, [], ◌∷◌, arith, Keeps-pure, Keeps-statement, Keeps-bind,
  Keeps-attempt_read, Keeps, find_row, find_where, find_where-passes, find_where-row, IsKeyed-save,
  required, ok, String, find_row-key, find_row-save, World, true, eq_iff, Keeps-moved,
}

module _ (s : Sinks) (now k : ℕ) (r : PipelineRun) (ts : List TaskRun) where
  module _ (run : PipelineRun) (apart : run.id ≢ k) where
    apply_tasks-P : (us : List TaskSummary) → Keeps (IsUntouched k r ts) (apply_tasks s now run us)
    unfolding apply_tasks apply_task
    apply_tasks-P [] = Keeps-pure tt
    apply_tasks-P (u ∷ us) =
        Keeps-bind (apply_task s now run u) _
          (Keeps-bind (save_status run.id u) _ (save_status-P s now k r ts run apart u) λ _.
            Keeps-moved (after_task s now run u) (P-aside s now k r ts)
              (after_task-IsAside s now run u))
          λ _. apply_tasks-P us

    update_run-P : Keeps (IsUntouched k r ts) (update_run run)
    update_run-P = Keeps-statement _ λ t h. record {
      keys = record {
        run_keys = IsKeyed-save run_id run t.runs h.keys.run_keys;
        task_keys = h.keys.task_keys;
        task_ids = h.keys.task_ids;
      };
      same_run = ground (
        arith,
        find_row-save run_id run k t.runs,
        h.same_run,
        find_row-key run_id k {r = r} t.runs h.same_run,
        apart,
      );
      same_tasks = h.same_tasks;
    }

    apply_to-P : (u : StatusUpdate) → Keeps (IsUntouched k r ts) (apply_to s now u run)
    unfolding apply_to
    apply_to-P u = Keeps-bind (update_run run) _ update_run-P λ _.
        Keeps-bind (announce_end s run) _
          (Keeps-moved (announce_end s run) (P-aside s now k r ts) (announce_end-IsAside s now run))
          λ _. apply_tasks-P u.tasks

is_named_other :
    (name : String) (target : ℕ) (r : PipelineRun)
    → (r.cr_name ≡ name → r.target_id ≢ target)
    → is_named name target r ≡ false
is_named_other name target r differs = ground (arith, eq_iff r.cr_name name, differs)

-- Whatever statements the store refuses, when the ids of the runs and of the task rows are unique
-- and the latter below the next id, a status update from a target keeps them so, and leaves the
-- row of a run that it does not name (its name or its target differs) and the task rows of that
-- run as they are.
pub apply_status-IsUntouched :
    (s : Sinks) (now target k : ℕ) (u : StatusUpdate) (r : PipelineRun) (ts : List TaskRun)
    (w : World Tables)
    → (r.cr_name ≡ u.pipeline_run_name → r.target_id ≢ target)
    → IsUntouched k r ts w.tables
    → IsUntouched k r ts (apply_status s now target u w).1.tables
unfolding apply_status
apply_status-IsUntouched s now target k u r ts w differs h =
    (Keeps-attempt_read (λ t. required (find_where (is_named u.pipeline_run_name target) t.runs))
        (apply_found s now u)
        (λ run v e g. (apply_to-P s now k r ts (reported u run) (apart run v.tables e g) u).at v g)
        (λ _. Keeps-pure tt)).at
      w h
  where
    apart :
        (run : PipelineRun) (t : Tables)
        → required (find_where (is_named u.pipeline_run_name target) t.runs) ≡ ok run
        → IsUntouched k r ts t
        → run.id ≢ k
    apart run t e g same =
        let other : is_named u.pipeline_run_name target r ≡ false =
          is_named_other u.pipeline_run_name target r differs in
        let named : is_named u.pipeline_run_name target run ≡ true =
          find_where-passes (is_named u.pipeline_run_name target) {r = run} t.runs
            (ground (arith, e)) in
        let mine : find_row run_id run.id t.runs ≡ some run =
          find_where-row run_id (is_named u.pipeline_run_name target) run t.runs g.keys.run_keys
            (ground (arith, e)) in
        let one : run ≡ r = ground (arith, mine, g.same_run, same) in cc (named, other, one)
