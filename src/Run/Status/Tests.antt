-- ===== src/Run/Status/Tests.antt =====
-- Two runs whose runner reports, and the theorems on status updates, logs, rollouts and timeouts.
use software_distribution_pl.Run.Status.Saved.{phase_of}
use software_distribution_pl.Run.Status.Phases.{apply_status_stores}
use software_distribution_pl.Run.Approval.Gate.{run_of}
use software_distribution_pl.Run.Logs.Order.{run_chunks, get_logs-run_chunks, Streamed}
use software_distribution_pl.Run.Timeouts.Late.{sweep_run_timeouts-IsSwept, IsSwept}
use software_distribution_pl.Run.Rollouts.History.{
  run_reports, history_of, history_of-run_reports, RolloutReport,
}
use software_distribution_pl.Run.Status.Isolation.{apply_status-IsUntouched}
use software_distribution_pl.Run.Status.Untouched.{IsUntouched}
use software_distribution_pl.Run.Logs.{logs_of}
use software_distribution_pl.Run.Timeouts.{sweep_run_timeouts}
use software_distribution_pl.Run.Status.{
  save_status, announce_end, save_rollout_of, apply_task, apply_tasks, apply_to, TaskSummary,
  StatusUpdate, Sinks, apply_status,
}
use software_distribution_pl.Run.Tables.{
  Phase, JobState, TaskPhase, DispatchJob, PipelineRun, TaskRun, RolloutPhase, Tables, Payload,
}
use software_distribution_pl.Run.Produced.{register_produced}
use software_distribution_pl.Run.Rollouts.{upsert_snapshot, RolloutSummary}
use software_distribution_pl.Common.{
  ℕ, String, true, false, none, some, [], ◌∷◌, ◌≡◌, refl, up, map, find_row, find_where,
  update_where, List, arith, ◌≢◌, eq_iff, insert_by, sort_by,
}
use software_distribution_pl.Run.Spec.{TaskType}

abbrev reporting : ℕ → String → Phase → PipelineRun
reporting k name p = record {
  id = k;
  pipeline_id = 5;
  target_id = 7;
  org_id = none;
  environment_id = none;
  cr_name = name;
  cr_namespace = "sdp-run";
  commit_sha = "";
  params = [];
  pipeline_version = 1;
  phase = p;
  message = "";
  timeout_seconds = 60;
  triggered_by = "ann";
  trigger_source = "manual";
  start_time = some 1000;
  completion_time = none;
  created_at = 0;
}

abbrev build_row : TaskRun
build_row = record {
  id = 11;
  pipeline_run_id = 10;
  task_name = "build";
  cr_name = "";
  stage_name = "ship";
  task_type = TaskType.build;
  phase = TaskPhase.running;
  retry_count = 0;
  start_time = none;
  completion_time = none;
  message = "";
}

abbrev waiting_job : DispatchJob
waiting_job = record {
  id = 12;
  pipeline_run_id = 10;
  target_id = 7;
  payload = Payload.corrupt;
  state = JobState.pending;
  attempts = 0;
  last_error = none;
  next_retry_at = none;
}

abbrev sample : Tables
sample = record {
  runs = reporting 10 "pr-1" Phase.cancelled ∷ reporting 20 "pr-2" Phase.running ∷ [];
  jobs = waiting_job ∷ [];
  task_runs = build_row ∷ [];
  approvals = [];
  definitions = record { pipelines = []; stages = []; templates = []; targets = []; policies = [] };
  next_id = 30;
  sent = [];
  rollouts = [];
  logs = [];
  produced = [];
}

abbrev sinks : Sinks
sinks = record {
  has_finished_hook = true;
  has_notify_sink = true;
  has_registry = false;
  has_rollouts = true;
  short_id = λ k. "00000000";
}

abbrev going : RolloutSummary
going = record {
  phase = RolloutPhase.progressing;
  current_step_index = 1;
  current_weight = 20;
  workload_ref = "web";
}

abbrev gone_bad : RolloutSummary
gone_bad = record going { phase = RolloutPhase.degraded }

abbrev build_summary : TaskSummary
build_summary = record {
  name = "build";
  task_run_ref = "tr-1";
  phase = TaskPhase.succeeded;
  retry_count = 1;
  start_time = none;
  completion_time = some 2000;
  message = "";
  rollout = some going;
}

abbrev running : StatusUpdate
running = record {
  pipeline_run_name = "pr-1";
  phase = Phase.running;
  message = "";
  start_time = none;
  completion_time = none;
  tasks = build_summary ∷ [];
}

-- A late update gives a run that was cancelled the phase running again.
revived :
    map (λ r. r.phase) (apply_status sinks 3000 7 running (up sample)).1.tables.runs
    ≡ Phase.running ∷ Phase.running ∷ []
unfolding apply_status apply_to announce_end apply_tasks apply_task save_status save_rollout_of
    upsert_snapshot find_where update_where register_produced
revived = refl

-- With a lookup that fails for another reason than a missing row, the task has two rows.
doubled :
    map
      (λ r. r.id)
      (save_status 10 build_summary
        (record { tables = sample; faults = true ∷ [] })).1.tables.task_runs
    ≡ 11 ∷ 30 ∷ []
unfolding save_status
doubled = refl

-- A rollout that is settled when it is first reported has no completion time.
unsettled :
    map (λ r. r.completion_time) (upsert_snapshot 11 gone_bad 3000 (up sample)).1.tables.rollouts
    ≡ none ∷ []
unfolding upsert_snapshot find_where
unsettled = refl

sample-IsUntouched : IsUntouched 20 (reporting 20 "pr-2" Phase.running) [] sample
unfolding find_row
sample-IsUntouched = record {
  keys = record {
    run_keys = (refl, (refl, tt));
    task_keys = (refl, tt);
    task_ids = (omega arith, tt);
  };
  same_run = refl;
  same_tasks = refl;
}

other_name :
    (reporting 20 "pr-2" Phase.running).cr_name ≡ running.pipeline_run_name
    → (reporting 20 "pr-2" Phase.running).target_id ≢ 7
other_name e = absurd (ground (arith, eq_iff "pr-2" "pr-1", e))

apply_status-IsUntouched_example :
    IsUntouched 20
      (reporting 20 "pr-2" Phase.running)
      []
      (apply_status sinks 3000 7 running (up sample)).1.tables
apply_status-IsUntouched_example =
    apply_status-IsUntouched sinks 3000 7 20 running (reporting 20 "pr-2" Phase.running) []
      (up sample) other_name sample-IsUntouched

sweep_run_timeouts-IsSwept_example :
    IsSwept 60000001001
      (some (reporting 20 "pr-2" Phase.running))
      (run_of 20 (sweep_run_timeouts sinks 60000001001 (up sample)).1.tables)
    × ((sweep_run_timeouts sinks 60000001001 (up sample)).1.tables.jobs ≡ waiting_job ∷ [])
unfolding find_row
sweep_run_timeouts-IsSwept_example =
    sweep_run_timeouts-IsSwept sinks 60000001001 20 sample (refl, (refl, tt))

abbrev two_reports : List RolloutReport
two_reports =
    record { task = 11; at = 3000000007; summary = going }
    ∷ record { task = 11; at = 4000000000; summary = gone_bad }
    ∷ []

history_of-run_reports_example :
    history_of 11 (run_reports two_reports sample)
    ≡ record { at = 3; phase = RolloutPhase.progressing; weight = 20 }
      ∷ record { at = 4; phase = RolloutPhase.degraded; weight = 20 }
      ∷ []
unfolding find_where
history_of-run_reports_example = history_of-run_reports 11 two_reports sample (tt, tt)

abbrev some_chunks : List Streamed
some_chunks =
    record {
      target = 7;
      at = 1;
      drawn = 9;
      chunk = record { pipeline_run_name = "pr-1"; task_name = ""; stream = "stdout"; chunk = "a" };
    }
    ∷ record {
      target = 8;
      at = 2;
      drawn = 5;
      chunk = record { pipeline_run_name = "pr-1"; task_name = ""; stream = "stdout"; chunk = "b" };
    }
    ∷ record {
      target = 7;
      at = 3;
      drawn = 4;
      chunk = record { pipeline_run_name = "pr-1"; task_name = ""; stream = "stdout"; chunk = "c" };
    }
    ∷ []

get_logs-run_chunks_example :
    map (λ l. l.chunk) (logs_of 10 "__run__" (run_chunks some_chunks sample).logs) ≡ "a" ∷ "c" ∷ []
unfolding find_where sort_by insert_by
get_logs-run_chunks_example =
    get_logs-run_chunks 10 "__run__" 0 some_chunks sample tt
      (omega arith, (omega arith, (omega arith, tt)))

apply_status_stores_example :
    (run_of 10 (apply_status sinks 3000 7 running (up sample)).1.tables
      ≡ some (record (reporting 10 "pr-1" Phase.cancelled) { phase = Phase.running }))
    × (phase_of 10 "build" (apply_status sinks 3000 7 running (up sample)).1.tables
        ≡ some TaskPhase.succeeded)
unfolding find_where find_row
apply_status_stores_example =
    apply_status_stores sinks 3000 7 10 "build" running (reporting 10 "pr-1" Phase.cancelled) sample
      (refl, (refl, tt)) ((refl, tt), (omega arith, tt)) refl
