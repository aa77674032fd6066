-- ===== src/Run/Status/Reported.antt =====
-- internal/run/service/pipeline_run.go: what a status update writes to the row of its run.
use software_distribution_pl.Run.Status.Aside.{
  announce_end-IsAside, after_task, after_task-IsAside, IsAside,
}
use software_distribution_pl.Run.Approval.Gate.{run_of}
use software_distribution_pl.Run.Creation.Seeds.{create_task_run, get_task_run}
use software_distribution_pl.Run.Status.{
  first_seen, save_found, save_status, announce_end, apply_task, apply_tasks, apply_to, TaskSummary,
  StatusUpdate, Sinks, apply_status, is_named, reported,
}
use software_distribution_pl.Run.Tables.{run_id, PipelineRun, TaskRun, Tables}
use software_distribution_pl.Common.{
  ℕ, ◌≡◌, refl, ap, ◌∙◌, some, List, [], ◌∷◌, if◌then◌else◌, ◌==◌, Keeps-pure, Keeps-statement,
  Keeps-bind, Keeps-attempt, Keeps, find_row, find_where, update_where, find_where-row, IsKeyed,
  find_row-save, up, Result, ok, err, sym, subst, inl, inr, false, arith, ==_iff, ==_self,
  Bool-cases, Option-cases, find_row-key, Keeps-moved,
}

-- The calls after the update of the run write no run.
module _ (s : Sinks) (now : ℕ) (rs : List PipelineRun) (run : PipelineRun) where
  abbrev HasRuns : Tables → Type 0
  HasRuns t = t.runs ≡ rs

  HasRuns-aside : (t u : Tables) → IsAside t u → HasRuns t → HasRuns u
  HasRuns-aside t u a h = a.same_runs ∙ h

  save_status-HasRuns : (ts : TaskSummary) → Keeps HasRuns (save_status run.id ts)
  unfolding save_status
  save_status-HasRuns ts =
      Keeps-attempt (get_task_run run.id ts.name) _ (Keeps-statement _ λ t h. h) saved
    where
      saved : (f : Result TaskRun) → Keeps HasRuns (save_found run.id ts f)
      saved (ok x) = Keeps-statement _ λ t h. h
      saved (err e) =
          Keeps-bind (create_task_run (first_seen run.id ts)) _ (Keeps-statement _ λ t h. h)
            λ _. Keeps-pure tt

  apply_tasks-HasRuns : (us : List TaskSummary) → Keeps HasRuns (apply_tasks s now run us)
  unfolding apply_tasks apply_task
  apply_tasks-HasRuns [] = Keeps-pure tt
  apply_tasks-HasRuns (u ∷ us) =
      Keeps-bind (apply_task s now run u) _
        (Keeps-bind (save_status run.id u) _ (save_status-HasRuns u)
          λ _. Keeps-moved (after_task s now run u) HasRuns-aside (after_task-IsAside s now run u))
        λ _. apply_tasks-HasRuns us

apply_to-runs :
    (s : Sinks) (now : ℕ) (u : StatusUpdate) (run : PipelineRun) (t : Tables)
    → (apply_to s now u run (up t)).1.tables.runs
      ≡ update_where (λ x. x.id == run.id) (λ _. run) t.runs
unfolding apply_to
apply_to-runs s now u run t =
    (Keeps-bind (announce_end s run) (λ _. apply_tasks s now run u.tasks)
        (Keeps-moved (announce_end s run) (HasRuns-aside s now rs run)
          (announce_end-IsAside s now run))
        (λ _. apply_tasks-HasRuns s now rs run u.tasks)).at
      (up (record t { runs = rs })) refl
  where
    rs : List PipelineRun
    rs = update_where (λ x. x.id == run.id) (λ _. run) t.runs

-- When the statements succeed, the ids of the runs are unique and the update names a run on its
-- target, ApplyStatus writes into the row of that run the phase, the message and the times of the
-- update, a time that is left out excepted, whatever phase the run had, and leaves the row of
-- every other run as it is.
pub run_of-apply_status :
    (s : Sinks) (now target i : ℕ) (u : StatusUpdate) (r : PipelineRun) (t : Tables)
    → IsKeyed run_id t.runs
    → find_where (is_named u.pipeline_run_name target) t.runs ≡ some r
    → run_of i (apply_status s now target u (up t)).1.tables
      ≡ (if i == r.id then some (reported u r) else run_of i t)
unfolding apply_status
run_of-apply_status s now target i u r t k e =
    let own = find_where-row run_id (is_named u.pipeline_run_name target) r t.runs k e in
    rw e (
      ap (find_row run_id i) (apply_to-runs s now u (reported u r) t)
      ∙ find_row-save run_id (reported u r) i t.runs
      ∙ elim (Bool-cases (i == r.id)) [
        | inl same ↦
            let to : i ≡ r.id = (==_iff i r.id).0 same in
            let here : run_of i t ≡ some r = subst (λ j. run_of j t ≡ some r) (sym to) own in
            rw (here, same, ==_self r.id) refl
        | inr apart ↦ elim (Option-cases (run_of i t)) [
          | inl e ↦ rw (e, apart) refl
          | inr (x, e) ↦
              let other : (x.id == r.id) ≡ false =
                ground (arith, find_row-key run_id i {r = x} t.runs e, apart) in
              rw (e, apart) (rw other refl)
        ]
      ])
