-- ===== src/Run/Commands.antt =====
-- Commands of an operator that the hub relays to the runner of a run: ControlRollout of
-- internal/run/service/pipeline_run.go and RerunTask of internal/run/service/run_control.go.
use software_distribution_pl.Run.Creation.Seeds.{get_task_run}
use software_distribution_pl.Run.Rows.{get_run}
use software_distribution_pl.Run.Tables.{TaskRun, Tables}
use software_distribution_pl.Run.Spec.{release, TaskType}
use software_distribution_pl.Common.{
  ℕ, String, Bool, true, false, Option, none, some, if◌then◌else◌, ◌>>=◌, ◌=ˢ◌, Action, attempt,
  pure, fail, Error, Result, missing_task_name, not_in_run, unknown_action, not_release, ok, err,
}

pub data RolloutAction : Type 0 where
  pause promote rollback : RolloutAction
  unknown : String → RolloutAction

-- What relaying a command gives: the target, the run, the task and the operator.
abbrev pub Command : Type 0
Command = ℕ → String → String → String → Option Error

abbrev pub answer : Option Error → Action Tables (Unit {0})
answer none = pure tt
answer (some e) = fail e

abbrev pub check_action : RolloutAction → Action Tables (Unit {0})
check_action (unknown s) = fail unknown_action
check_action _ = pure tt

abbrev pub is_release_task : TaskType → Bool
is_release_task release = true
is_release_task _ = false

-- An error of the lookup is wrapped as a task that is not in the run.
abbrev pub in_run : Result TaskRun → Action Tables TaskRun
in_run (ok r) = pure r
in_run (err e) = fail not_in_run

unfoldable pub control_rollout :
    (RolloutAction → Command) → ℕ → String → RolloutAction → String → Action Tables (Unit {0})
control_rollout relay k task action operator = do
  _ ← check_action action
  run ← get_run k
  tr ← attempt (get_task_run k task) in_run
  _ ← if is_release_task tr.task_type then pure tt else fail not_release
  answer (relay action run.target_id run.cr_name task operator)

unfoldable pub rerun_task : Command → ℕ → String → String → Action Tables (Unit {0})
rerun_task relay k task operator = if task =ˢ "" then fail missing_task_name else do
  run ← get_run k
  _ ← attempt (get_task_run k task) in_run
  answer (relay run.target_id run.cr_name task operator)
