-- ===== src/Run/Status/Phases.antt =====
-- internal/run/service/pipeline_run.go: the phases of the tasks of a run are the last that were
-- reported.
use software_distribution_pl.Run.Status.Saved.{
  phase_of, last_phase, AreTasks, save_found_lem, phase_of-saved, saved, saved-AreTasks,
}
use software_distribution_pl.Run.Approval.Gate.{run_of}
use software_distribution_pl.Run.Status.Reported.{run_of-apply_status}
use software_distribution_pl.Run.Status.Aside.{
  after_task, after_task-IsAside, announce_end-IsAside, IsAside,
}
use software_distribution_pl.Run.Produced.{register_produced}
use software_distribution_pl.Run.Rollouts.{RolloutSummary}
use software_distribution_pl.Run.Creation.Seeds.{is_task_of, get_task_run}
use software_distribution_pl.Run.Status.{
  TaskSummary, upsert_for, save_rollout_of, Sinks, save_status, apply_task, announce_end,
  apply_tasks, apply_to, StatusUpdate, tell, apply_status, is_named, reported, is_terminal, or_old,
}
use software_distribution_pl.Run.Tables.{
  task_run_key, TaskRun, Tables, PipelineRun, run_id, Message,
}
use software_distribution_pl.Common.{
  ℕ, ◌<◌, String, ◌≡◌, refl, subst, true, false, Option, none, some, List, [], ◌∷◌, if◌then◌else◌,
  ◌==◌, All, map_option, find_where, update_where, All-lt_le, IsKeyed, up, ok, Bool, Result, World,
  err, moved, sym, ap, ◌∙◌, ◌&&◌, ◌>>=◌,
}

upsert_for-ok :
    (now : ℕ) (x : RolloutSummary) (f : Result TaskRun) (w : World Tables)
    → (upsert_for now x f w).0 ≡ ok tt
upsert_for-ok now x (ok z) w = refl
upsert_for-ok now x (err e) w = refl

save_rollout_of-ok :
    (b : Bool) (now run : ℕ) (name : String) (o : Option RolloutSummary) (w : World Tables)
    → (save_rollout_of b now run name o w).0 ≡ ok tt
unfolding save_rollout_of
save_rollout_of-ok b now run name none w = refl
save_rollout_of-ok true now run name (some x) w =
    upsert_for-ok now x (get_task_run run name w).0 (get_task_run run name w).1
save_rollout_of-ok false now run name (some x) w = refl

told-ok :
    (b c : Bool) (m n : Message) (w : World Tables) → ((tell b m >>= λ _. tell c n) w).0 ≡ ok tt
told-ok true true m n w = refl
told-ok true false m n w = refl
told-ok false true m n w = refl
told-ok false false m n w = refl

announce_end-ok :
    (s : Sinks) (run : PipelineRun) (w : World Tables) → (announce_end s run w).0 ≡ ok tt
unfolding announce_end
announce_end-ok s run w = told-ok (s.has_finished_hook && is_terminal run.phase) _ _ _ w

both : {A B : Type 0} {a a' : A} {b b' : B} → a ≡ a' → b ≡ b' → ◌≡◌ {A = A × B} (a, b) (a', b')
both e f = rw (e, f) refl

AreTasks-aside : (t u : Tables) → IsAside t u → AreTasks t → AreTasks u
AreTasks-aside t u a k = (
  subst (IsKeyed task_run_key) (sym a.same_tasks) k.0,
  All-lt_le task_run_key t.next_id u.next_id u.task_runs a.grows
      (subst (All (λ x. task_run_key x < t.next_id)) (sym a.same_tasks) k.1),
)

phase_of-aside :
    (run : ℕ) (name : String) (t u : Tables)
    → IsAside t u
    → phase_of run name u ≡ phase_of run name t
phase_of-aside run name t u a =
    ap (λ rs. map_option (λ x. x.phase) (find_where (is_task_of run name) rs)) a.same_tasks

-- One task of an update, in a store that answers.
module _ (s : Sinks) (now : ℕ) (run : PipelineRun) (u : TaskSummary) (t : Tables) where
  abbrev status_saved : Tables
  status_saved = saved run.id u t (find_where (is_task_of run.id u.name) t.task_runs)

  abbrev task_applied : Tables
  task_applied = (after_task s now run u (up status_saved)).1.tables

  apply_task-up : apply_task s now run u (up t) ≡ (ok tt, up task_applied)
  unfolding apply_task save_status
  apply_task-up =
      let o = find_where (is_task_of run.id u.name) t.task_runs in
      let after = moved (after_task s now run u) status_saved (after_task-IsAside s now run u) in
      let w =
        (register_produced s.has_registry s.short_id run u.name u.phase (up status_saved)).1 in
      let fine = save_rollout_of-ok s.has_rollouts now run.id u.name u.rollout w in
      rw (save_found_lem run.id u t o) (both fine after.0)

  task_applied-IsAside : IsAside status_saved task_applied
  task_applied-IsAside =
      (moved (after_task s now run u) status_saved (after_task-IsAside s now run u)).1

module _ (s : Sinks) (now : ℕ) (run : PipelineRun) (name : String) where
  phase_of-apply_tasks :
      (us : List TaskSummary) (t : Tables)
      → AreTasks t
      → phase_of run.id name (apply_tasks s now run us (up t)).1.tables
        ≡ last_phase name us (phase_of run.id name t)
  unfolding apply_tasks
  phase_of-apply_tasks [] t k = refl
  phase_of-apply_tasks (u ∷ us) t k =
      let o = find_where (is_task_of run.id u.name) t.task_runs in
      let t' = task_applied s now run u t in
      let aside = task_applied-IsAside s now run u t in
      let k' : AreTasks t' =
        AreTasks-aside (saved run.id u t o) t' aside (saved-AreTasks run.id u t k o refl) in
      rw (apply_task-up s now run u t) (
        phase_of-apply_tasks us t' k'
        ∙ ap (last_phase name us) (
            phase_of-aside run.id name (saved run.id u t o) t' aside
            ∙ phase_of-saved run.id u t k name o refl))

  phase_of-apply_to :
      (u : StatusUpdate) (t : Tables)
      → AreTasks t
      → phase_of run.id name (apply_to s now u run (up t)).1.tables
        ≡ last_phase name u.tasks (phase_of run.id name t)
  unfolding apply_to
  phase_of-apply_to u t k =
      let t1 : Tables = record t { runs = update_where (λ x. x.id == run.id) (λ _. run) t.runs } in
      let (e, aside) = moved (announce_end s run) t1 (announce_end-IsAside s now run) in
      let t2 = (announce_end s run (up t1)).1.tables in
      let ended : announce_end s run (up t1) ≡ (ok tt, up t2) =
        both (announce_end-ok s run (up t1)) e in
      rw ended (
        phase_of-apply_tasks u.tasks t2 (AreTasks-aside t1 t2 aside k)
        ∙ ap (last_phase name u.tasks) (phase_of-aside run.id name t1 t2 aside))

-- A time of a run after an update that gives it, or leaves it out.
abbrev pub given_or : Option ℕ → Option ℕ → Option ℕ
given_or (some at) old = some at
given_or none old = old

given_or_lem : (o p : Option ℕ) → or_old o p ≡ given_or o p
given_or_lem none p = refl
given_or_lem (some at) p = refl

-- When the statements succeed, the ids of the runs and of the task rows are unique, the latter
-- below the next id, and the update names a run on its target, ApplyStatus writes into the row of
-- that run the phase, the message and the times of the update, a time that is left out excepted,
-- whatever phase the run had, leaves the row of every other run as it is, and leaves each task of
-- the run in the last phase that the update gives it, or in its old one; an empty phase that is
-- the first of a task counts as Pending.
pub apply_status_stores :
    (s : Sinks) (now target i : ℕ) (name : String) (u : StatusUpdate) (r : PipelineRun) (t : Tables)
    → IsKeyed run_id t.runs
    → AreTasks t
    → find_where (is_named u.pipeline_run_name target) t.runs ≡ some r
    → (run_of i (apply_status s now target u (up t)).1.tables ≡ (
        if i == r.id
        then some (record r {
          phase = u.phase;
          message = u.message;
          start_time = given_or u.start_time r.start_time;
          completion_time = given_or u.completion_time r.completion_time;
        })
        else run_of i t))
      × (phase_of r.id name (apply_status s now target u (up t)).1.tables
          ≡ last_phase name u.tasks (phase_of r.id name t))
unfolding apply_status
apply_status_stores s now target i name u r t keyed k e = (
  run_of-apply_status s now target i u r t keyed e
      ∙ rw (given_or_lem u.start_time r.start_time)
          (rw (given_or_lem u.completion_time r.completion_time) refl),
  rw e (phase_of-apply_to s now (reported u r) name u t k),
)
