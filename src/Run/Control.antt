-- ===== src/Run/Control.antt =====
-- enqueueDispatch and Redispatch of internal/run/service/pipeline_run.go, and CancelRun of
-- internal/run/service/run_control.go.
use software_distribution_pl.Common.{
  ℕ, String, Bool, true, false, Option, none, some, Action, ◌>>=◌, regardless, attempt, pure, fail,
  Error, Result, not_found, run_terminal, cancelled_while_queued, no_dispatch_record, ok, err,
}
pub mod Cancel
pub mod Enqueue
use software_distribution_pl.Run.Spec.{Apply}
use software_distribution_pl.Run.Tables.{
  Phase, failed, pending, cancelled, encoded, Payload, DispatchJob, PipelineRun, Tables, JobState,
  dispatching, dispatched,
}
use software_distribution_pl.Run.Jobs.{create_job, get_job, latest_by_run, mark_dead}
use software_distribution_pl.Run.Rows.{get_run, update_run, is_queued, is_active}
use software_distribution_pl.Run.Delivery.Attempt.{Dispatcher, try_deliver}
use software_distribution_pl.Run.Concurrency.{dispatch_state_for_run}

-- A job before the database gives it an id.
abbrev pub new_job : ℕ → ℕ → Payload → JobState → DispatchJob
new_job run target payload state = record {
  id = 0;
  pipeline_run_id = run;
  target_id = target;
  payload = payload;
  state = state;
  attempts = 0;
  last_error = none;
  next_retry_at = none;
}

unfoldable pub enqueue_dispatch : Dispatcher → ℕ → ℕ → ℕ → Apply → Action Tables (Unit {0})
unfolding dispatch_state_for_run
enqueue_dispatch d now run target apply = do
  state ← dispatch_state_for_run run
  id ← create_job (new_job run target (encoded apply) state)
  regardless (try_deliver d now id) (pure tt)

abbrev pub in_flight : JobState → Bool
in_flight dispatching = true
in_flight dispatched = true
in_flight _ = false

abbrev is_failed_phase : Phase → Bool
is_failed_phase failed = true
is_failed_phase _ = false

-- The reset of a failed run; a store failure is only logged.
unfoldable pub reset_failed : PipelineRun → Action Tables (Unit {0})
reset_failed run = elim (is_failed_phase run.phase) [
  | false ↦ pure tt
  | true ↦
      regardless (update_run (record run { phase = pending; message = "redispatch requested" }))
        (pure tt)
]

unfoldable pub resend : Dispatcher → ℕ → PipelineRun → DispatchJob → Action Tables DispatchJob
unfolding reset_failed
resend d now run last = do
  id ← create_job (new_job run.id last.target_id last.payload JobState.pending)
  _ ← reset_failed run
  regardless (try_deliver d now id) (get_job id)

-- The error of a missing dispatch record has a text of its own.
abbrev no_record : Result DispatchJob → Action Tables DispatchJob
no_record (ok j) = pure j
no_record (err not_found) = fail no_dispatch_record
no_record (err e) = fail e

unfoldable pub redispatch : Dispatcher → ℕ → ℕ → Action Tables DispatchJob
unfolding resend
redispatch d now k = do
  run ← get_run k
  last ← attempt (latest_by_run k) no_record
  elim (in_flight last.state) [ true ↦ pure last | false ↦ resend d now run last ]

-- What relaying a cancel command to the runner gives, by target, run name, namespace and operator.
abbrev pub Canceller : Type 0
Canceller = ℕ → String → String → String → Option Error

-- The hub-side cancel of a queued run.
unfoldable pub cancel_queued : ℕ → PipelineRun → Action Tables (Unit {0})
cancel_queued now run = do
  _ ← update_run (record run {
    phase = cancelled;
    completion_time = some now;
    message = "cancelled while queued";
  })
  regardless (mark_dead run.id cancelled_while_queued) (pure tt)

abbrev relayed : Option Error → Action Tables (Unit {0})
relayed none = pure tt
relayed (some e) = fail e

unfoldable pub cancel_run : Canceller → ℕ → ℕ → String → Action Tables (Unit {0})
unfolding cancel_queued
cancel_run c now k operator = do
  run ← get_run k
  elim (is_queued run.phase) [
    | true ↦ cancel_queued now run
    | false ↦ elim (is_active run.phase) [
      | true ↦ relayed (c run.target_id run.cr_name run.cr_namespace operator)
      | false ↦ fail run_terminal
    ]
  ]
