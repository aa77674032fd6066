-- ===== src/Run/Status/Untouched.antt =====
-- internal/run/repository/task_run.go: saving the status of a task touches no other run.
use software_distribution_pl.Run.Status.Aside.{IsAside}
use software_distribution_pl.Run.Approval.Gate.{run_of}
use software_distribution_pl.Run.Creation.Seeds.{create_task_run, is_task_of}
use software_distribution_pl.Run.Status.{
  first_seen, save_status, TaskSummary, Sinks, updated, save_found,
}
use software_distribution_pl.Run.Tables.{run_id, task_run_key, PipelineRun, TaskRun, Tables}
use software_distribution_pl.Common.{
  ℕ, suc, ◌<◌, ◌≡◌, refl, ◌∙◌, ◌≢◌, false, none, some, List, [], ◌∷◌, ◌++◌, arith, ◌==◌, Keeps-pure,
  Keeps-statement, Keeps-bind, Keeps-attempt_read, statement-either, Keeps, where_, All, All-append,
  find_row, find_where, update_where, find_where-passes, find_row_fresh, find_row-All,
  where_-append, find_where-row, where_-save, All-lt_le, All-save, IsKeyed, IsKeyed-save,
  IsKeyed-insert, required, ok, sym, ap, subst,
}

-- The task rows of a run.
abbrev pub tasks_of : ℕ → Tables → List TaskRun
tasks_of k t = where_ (λ x. x.pipeline_run_id == k) t.task_runs

-- The ids are primary keys, and those of the task rows come from the sequence.
pub record HasKeys (t : Tables) : Type 0 where
  pub run_keys : IsKeyed run_id t.runs
  pub task_keys : IsKeyed task_run_key t.task_runs
  pub task_ids : All (λ x. task_run_key x < t.next_id) t.task_runs

-- The row and the task rows of one run.
pub record IsUntouched (k : ℕ) (r : PipelineRun) (ts : List TaskRun) (t : Tables) : Type 0 where
  pub keys : HasKeys t
  pub same_run : run_of k t ≡ some r
  pub same_tasks : tasks_of k t ≡ ts

module _ (s : Sinks) (now k : ℕ) (r : PipelineRun) (ts : List TaskRun) where
  abbrev pub P : Tables → Type 0
  P = IsUntouched k r ts

  pub P-aside : (t u : Tables) → IsAside t u → P t → P u
  P-aside t u a h = record {
    keys = record {
      run_keys = subst (IsKeyed run_id) (sym a.same_runs) h.keys.run_keys;
      task_keys = subst (IsKeyed task_run_key) (sym a.same_tasks) h.keys.task_keys;
      task_ids =
          All-lt_le task_run_key t.next_id u.next_id u.task_runs a.grows
            (subst (All (λ x. task_run_key x < t.next_id)) (sym a.same_tasks) h.keys.task_ids);
    };
    same_run = ap (find_row run_id k) a.same_runs ∙ h.same_run;
    same_tasks = ap (where_ (λ x. x.pipeline_run_id == k)) a.same_tasks ∙ h.same_tasks;
  }

  module _ (run : PipelineRun) (apart : run.id ≢ k) where
    other_task : (x : TaskRun) → x.pipeline_run_id ≡ run.id → (x.pipeline_run_id == k) ≡ false
    other_task x e = ground (arith, e, apart)

    create-P : (x : TaskRun) → x.pipeline_run_id ≡ run.id → Keeps P (create_task_run x)
    create-P x e = Keeps-statement _ λ t h.
        let y : TaskRun = record x { id = t.next_id } in
        let fresh : find_row task_run_key t.next_id t.task_runs ≡ none =
          find_row_fresh task_run_key t.next_id t.task_runs h.keys.task_ids in
        let others : where_ (λ z. z.pipeline_run_id == k) (t.task_runs ++ y ∷ []) ≡ tasks_of k t =
          where_-append (λ z. z.pipeline_run_id == k) t.task_runs y (other_task y e) in
        record {
          keys = record {
            run_keys = h.keys.run_keys;
            task_keys = IsKeyed-insert task_run_key y t.task_runs h.keys.task_keys fresh;
            task_ids =
                All-append (λ z. task_run_key z < suc t.next_id) t.task_runs (y ∷ [])
                  (All-lt_le task_run_key t.next_id (suc t.next_id) t.task_runs (omega arith)
                    h.keys.task_ids)
                  (omega arith, tt);
          };
          same_run = h.same_run;
          same_tasks = others ∙ h.same_tasks;
        }

    updated-P :
        (summary : TaskSummary) (x : TaskRun) (t : Tables)
        → find_where (is_task_of run.id summary.name) t.task_runs ≡ some x
        → P t
        → P (record t {
          task_runs = update_where (λ z. z.id == x.id) (λ _. updated summary x) t.task_runs;
        })
    updated-P summary x t e h =
        let mine : x.pipeline_run_id ≡ run.id =
          ground
            (arith, find_where-passes (is_task_of run.id summary.name) {r = x} t.task_runs e) in
        let here : find_row task_run_key x.id t.task_runs ≡ some x =
          find_where-row task_run_key (is_task_of run.id summary.name) x t.task_runs
            h.keys.task_keys e in
        let below : (x.id < t.next_id) × (task_run_key x ≡ x.id) =
          find_row-All task_run_key (λ z. task_run_key z < t.next_id) x.id {r = x} t.task_runs
            h.keys.task_ids here in
        let others : where_ (λ z. z.pipeline_run_id == k)
              (update_where (λ z. z.id == x.id) (λ _. updated summary x) t.task_runs)
            ≡ tasks_of k t =
          where_-save task_run_key (λ z. z.pipeline_run_id == k) x.id x (updated summary x)
            t.task_runs h.keys.task_keys here (other_task x mine) (other_task x mine) in
        record {
          keys = record {
            run_keys = h.keys.run_keys;
            task_keys = IsKeyed-save task_run_key (updated summary x) t.task_runs h.keys.task_keys;
            task_ids =
                All-save task_run_key (λ z. task_run_key z < t.next_id) (λ z. z.id == x.id)
                  (updated summary x) t.task_runs (below.0) h.keys.task_ids;
          };
          same_run = h.same_run;
          same_tasks = others ∙ h.same_tasks;
        }

    pub save_status-P : (summary : TaskSummary) → Keeps P (save_status run.id summary)
    unfolding save_status
    save_status-P summary =
        Keeps-attempt_read (λ t. required (find_where (is_task_of run.id summary.name) t.task_runs))
          (save_found run.id summary)
          (λ x w e h.
            statement-either P
              (λ t. (
                ok tt,
                record t {
                  task_runs = update_where (λ z. z.id == x.id) (λ _. updated summary x) t.task_runs;
                },
              ))
              w h (updated-P summary x w.tables (ground (arith, e)) h))
          (λ _.
            Keeps-bind (create_task_run (first_seen run.id summary)) _
              (create-P (first_seen run.id summary) refl) λ _. Keeps-pure tt)
