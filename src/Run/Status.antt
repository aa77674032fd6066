-- ===== src/Run/Status.antt =====
-- What a runner reports of a run: ApplyStatus of internal/run/service/pipeline_run.go and SaveStatus
-- of internal/run/repository/task_run.go.
use software_distribution_pl.Run.Build.{task_name}
pub mod Aside
pub mod Untouched
pub mod Isolation
pub mod Reported
pub mod Saved
pub mod Phases
mod Tests
use software_distribution_pl.Run.Creation.Seeds.{create_task_run, get_task_run, send}
use software_distribution_pl.Run.Rows.{update_run, is_terminal}
use software_distribution_pl.Run.Tables.{
  Phase, TaskPhase, PipelineRun, TaskRun, Tables, run_finished, Message, notice,
}
use software_distribution_pl.Run.Spec.{TaskType}
use software_distribution_pl.Run.Produced.{register_produced}
use software_distribution_pl.Run.Rollouts.{upsert_snapshot, RolloutSummary}
use software_distribution_pl.Common.{
  ℕ, String, Bool, ◌&&◌, not, Option, none, some, List, [], ◌∷◌, if◌then◌else◌, ◌>>=◌, ◌==◌, ◌=ˢ◌,
  find_where, update_where, required, Action, regardless, attempt, pure, query, execute, ok, err,
  Result, zero,
}

pub record TaskSummary : Type 0 where
  pub name : String
  pub task_run_ref : String
  pub phase : TaskPhase
  pub retry_count : ℕ
  pub start_time : Option ℕ
  pub completion_time : Option ℕ
  pub message : String
  pub rollout : Option RolloutSummary

pub record StatusUpdate : Type 0 where
  pub pipeline_run_name : String
  pub phase : Phase
  pub message : String
  pub start_time : Option ℕ
  pub completion_time : Option ℕ
  pub tasks : List TaskSummary

-- What the service is wired with: the sinks of finished runs, the registry of artifacts, the store
-- of rollouts, and the first eight characters of an id.
pub record Sinks : Type 0 where
  pub has_finished_hook : Bool
  pub has_notify_sink : Bool
  pub has_registry : Bool
  pub has_rollouts : Bool
  pub short_id : ℕ → String

abbrev pub or_old {ℓ} : {A : Type ℓ} → Option A → Option A → Option A
or_old none old = old
or_old (some a) old = some a

abbrev pub is_named : String → ℕ → PipelineRun → Bool
is_named name target r = (r.cr_name =ˢ name) && (r.target_id == target)

abbrev pub get_by_cr_name_target : String → ℕ → Action Tables PipelineRun
get_by_cr_name_target name target = query λ t. required (find_where (is_named name target) t.runs)

abbrev pub reported : StatusUpdate → PipelineRun → PipelineRun
reported u r = record r {
  phase = u.phase;
  message = u.message;
  start_time = or_old u.start_time r.start_time;
  completion_time = or_old u.completion_time r.completion_time;
}

-- The column has the default Pending, which takes the place of an empty phase on INSERT.
abbrev pub or_pending : TaskPhase → TaskPhase
or_pending (TaskPhase.other zero) = TaskPhase.pending
or_pending p = p

-- A row for a task that has none; its type and its stage are empty.
abbrev pub first_seen : ℕ → TaskSummary → TaskRun
first_seen run ts = record {
  id = 0;
  pipeline_run_id = run;
  task_name = ts.name;
  cr_name = ts.task_run_ref;
  stage_name = "";
  task_type = TaskType.other 0;
  phase = or_pending ts.phase;
  retry_count = ts.retry_count;
  start_time = ts.start_time;
  completion_time = ts.completion_time;
  message = ts.message;
}

abbrev pub updated : TaskSummary → TaskRun → TaskRun
updated ts r = record r {
  cr_name = ts.task_run_ref;
  phase = ts.phase;
  retry_count = ts.retry_count;
  message = ts.message;
  start_time = or_old ts.start_time r.start_time;
  completion_time = or_old ts.completion_time r.completion_time;
}

abbrev pub update_task_run : TaskRun → Action Tables (Unit {0})
update_task_run r =
    execute λ t. record t { task_runs = update_where (λ x. x.id == r.id) (λ _. r) t.task_runs }

-- Any error of the lookup counts as a missing row.
abbrev pub save_found : ℕ → TaskSummary → Result TaskRun → Action Tables (Unit {0})
save_found run ts (err e) = create_task_run (first_seen run ts) >>= λ _. pure tt
save_found run ts (ok r) = update_task_run (updated ts r)

unfoldable pub save_status : ℕ → TaskSummary → Action Tables (Unit {0})
save_status run ts = attempt (get_task_run run ts.name) (save_found run ts)

abbrev pub finished_event : Phase → String
finished_event Phase.failed = "run_failed"
finished_event Phase.cancelled = "run_failed"
finished_event _ = "run_finished"

abbrev pub tell : Bool → Message → Action Tables (Unit {0})
tell b m = if b then send m else pure tt

abbrev pub is_named_by : PipelineRun → Bool
is_named_by run = not (run.triggered_by =ˢ "")

-- The sinks hear of a run that the update leaves in a terminal phase.
unfoldable pub announce_end : Sinks → PipelineRun → Action Tables (Unit {0})
announce_end s run = do
  _ ← tell (s.has_finished_hook && is_terminal run.phase) (run_finished run.pipeline_id run.phase)
  tell (s.has_notify_sink && (is_terminal run.phase && is_named_by run))
      (notice (finished_event run.phase) run.triggered_by run.cr_name)

abbrev pub upsert_for : ℕ → RolloutSummary → Result TaskRun → Action Tables (Unit {0})
upsert_for now snapshot (err e) = pure tt
upsert_for now snapshot (ok r) = regardless (upsert_snapshot r.id snapshot now) (pure tt)

-- The snapshot of a rollout; every error is dropped.
unfoldable pub save_rollout_of :
    Bool → ℕ → ℕ → String → Option RolloutSummary → Action Tables (Unit {0})
save_rollout_of has_rollouts now run name none = pure tt
save_rollout_of has_rollouts now run name (some snapshot) =
    if has_rollouts then attempt (get_task_run run name) (upsert_for now snapshot) else pure tt

unfoldable pub apply_task : Sinks → ℕ → PipelineRun → TaskSummary → Action Tables (Unit {0})
apply_task s now run ts = do
  _ ← save_status run.id ts
  regardless (register_produced s.has_registry s.short_id run ts.name ts.phase)
      (save_rollout_of s.has_rollouts now run.id ts.name ts.rollout)

unfoldable pub apply_tasks : Sinks → ℕ → PipelineRun → List TaskSummary → Action Tables (Unit {0})
apply_tasks s now run [] = pure tt
apply_tasks s now run (ts ∷ rest) = do _ ← apply_task s now run ts; apply_tasks s now run rest

unfoldable pub apply_to : Sinks → ℕ → StatusUpdate → PipelineRun → Action Tables (Unit {0})
apply_to s now u run = do _ ← update_run run; _ ← announce_end s run; apply_tasks s now run u.tasks

-- A run that is not found, for any reason, is ignored.
abbrev pub apply_found : Sinks → ℕ → StatusUpdate → Result PipelineRun → Action Tables (Unit {0})
apply_found s now u (err e) = pure tt
apply_found s now u (ok run) = apply_to s now u (reported u run)

unfoldable pub apply_status : Sinks → ℕ → ℕ → StatusUpdate → Action Tables (Unit {0})
apply_status s now target u =
    attempt (get_by_cr_name_target u.pipeline_run_name target) (apply_found s now u)
