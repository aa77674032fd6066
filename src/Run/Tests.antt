-- ===== src/Run/Tests.antt =====
-- A small queue of jobs and runs, and the theorems on it.
use software_distribution_pl.Run.Definitions.{Definitions}
use software_distribution_pl.Common.{
  ℕ, ◌≡◌, refl, none, some, [], ◌∷◌, sort_by, find_row, update_where, IsKeyed, up, no_runner,
}
use software_distribution_pl.Run.Spec.{Apply, RunSpec}
use software_distribution_pl.Run.Tables.{
  encoded, JobState, held, DispatchJob, PipelineRun, Tables, Phase, job_id, run_id,
}
use software_distribution_pl.Run.Delivery.Attempt.{Dispatcher, try_deliver, sweep_once}
use software_distribution_pl.Run.Delivery.Rows.{job_of, attempted, job_of-try_deliver}
use software_distribution_pl.Run.Delivery.Outcomes.{sweep_once_skips_pending}
use software_distribution_pl.Run.Concurrency.{promote_pipeline, concurrency_limit}
use software_distribution_pl.Run.Concurrency.Capacity.{active, active-promote_pipeline}
use software_distribution_pl.Run.Control.{cancel_run, new_job, Canceller}
use software_distribution_pl.Run.Control.Cancel.{job_of-cancel_run}

abbrev spec : RunSpec
spec = record {
  pipeline_ref = "release";
  project_id = 3;
  tasks = [];
  repo = none;
  params = [];
  target_namespace = "sdp-run";
  service_account_name = "";
  timeout_seconds = 0;
  triggered_by = "ann";
}

abbrev envelope : Apply
envelope = record { name = "pr-1"; namespace = "sdp-run"; spec = spec }

abbrev failed_job : DispatchJob
failed_job = record {
  id = 1;
  pipeline_run_id = 10;
  target_id = 7;
  payload = encoded envelope;
  state = JobState.failed;
  attempts = 3;
  last_error = some no_runner;
  next_retry_at = some 100;
}

abbrev pending_job : DispatchJob
pending_job = record (new_job 11 7 (encoded envelope) JobState.pending) { id = 2 }

abbrev held_job : DispatchJob
held_job = record (new_job 12 7 (encoded envelope) held) { id = 3 }

abbrev a_run : ℕ → Phase → PipelineRun
a_run k p = record {
  id = k;
  pipeline_id = 5;
  target_id = 7;
  org_id = none;
  environment_id = none;
  cr_name = "pr-1";
  cr_namespace = "sdp-run";
  commit_sha = "";
  params = [];
  pipeline_version = 1;
  phase = p;
  message = "";
  timeout_seconds = 0;
  triggered_by = "ann";
  trigger_source = "manual";
  start_time = none;
  completion_time = none;
  created_at = 0;
}

abbrev no_definitions : Definitions
no_definitions = record { pipelines = []; stages = []; templates = []; targets = []; policies = [] }

abbrev sample : Tables
sample = record {
  runs = a_run 10 Phase.pending ∷ a_run 11 Phase.succeeded ∷ a_run 12 Phase.pending_queue ∷ [];
  jobs = failed_job ∷ pending_job ∷ held_job ∷ [];
  task_runs = [];
  approvals = [];
  definitions = no_definitions;
  next_id = 20;
  sent = [];
  rollouts = [];
  logs = [];
  produced = [];
}

abbrev online : Dispatcher
online target a = none

abbrev offline : Dispatcher
offline target a = some no_runner

abbrev relay : Canceller
relay target name namespace operator = none

sample_jobs-IsKeyed : IsKeyed job_id sample.jobs
unfolding find_row
sample_jobs-IsKeyed = (refl, (refl, (refl, tt)))

sample_runs-IsKeyed : IsKeyed run_id sample.runs
unfolding find_row
sample_runs-IsKeyed = (refl, (refl, (refl, tt)))

sweep_retries :
    job_of 1 (sweep_once offline 100 (up sample)).1.tables ≡ some (attempted offline 100 failed_job)
unfolding sweep_once find_row update_where sort_by
sweep_retries = refl

job_of-try_deliver_example :
    job_of 1 (try_deliver offline 500 1 (up sample)).1.tables
    ≡ some (attempted offline 500 failed_job)
unfolding find_row
job_of-try_deliver_example = job_of-try_deliver offline 500 1 1 sample sample_jobs-IsKeyed

sweep_once_skips_pending_example :
    job_of 2 (sweep_once online 1000000 (up sample)).1.tables ≡ some pending_job
unfolding find_row
sweep_once_skips_pending_example =
    sweep_once_skips_pending online 1000000 2 sample pending_job sample_jobs-IsKeyed refl refl

active-promote_pipeline_example :
    active 5 (promote_pipeline 2 (a_run 12 Phase.pending_queue ∷ []) 5 (up sample)).1.tables ≡ 2
unfolding concurrency_limit find_row
active-promote_pipeline_example =
    active-promote_pipeline 2 5 sample (a_run 12 Phase.pending_queue ∷ []) sample_runs-IsKeyed
      (refl, tt) ((refl, refl, refl), tt)

job_of-cancel_run_example :
    job_of 3 (cancel_run relay 9 12 "bob" (up sample)).1.tables ≡ some held_job
unfolding find_row
job_of-cancel_run_example = job_of-cancel_run relay 9 12 3 "bob" sample refl
