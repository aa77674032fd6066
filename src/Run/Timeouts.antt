-- ===== src/Run/Timeouts.antt =====
-- SweepRunTimeouts of internal/run/service/run_background.go with FindTimedOut of
-- internal/run/repository/pipeline_run.go.
use software_distribution_pl.Run.Approval.{nanos}
use software_distribution_pl.Run.Rows.{update_run}
use software_distribution_pl.Run.Status.{is_named_by, Sinks, tell}
use software_distribution_pl.Common.{
  ℕ, suc, ◌+◌, ◌*◌, Bool, true, false, ◌&&◌, not, none, some, List, [], ◌∷◌, ◌>>=◌, ltb, where_,
  Action, attempt, pure, query, ok, err,
}
pub mod Swept
pub mod Late
use software_distribution_pl.Run.Tables.{
  run_finished, notice, succeeded, failed, cancelled, Phase, PipelineRun, Tables,
}

-- The phases that the query leaves out: beside the terminal ones, the texts Error and Canceled,
-- which no constant has; they are `other 0` and `other 1`.
abbrev pub is_closed_phase : Phase → Bool
is_closed_phase succeeded = true
is_closed_phase failed = true
is_closed_phase cancelled = true
is_closed_phase (Phase.other n) = ltb n 2
is_closed_phase _ = false

-- COALESCE(start_time, created_at).
abbrev pub since : PipelineRun → ℕ
since r = elim (r.start_time) [ some t ↦ t | none ↦ r.created_at ]

abbrev pub is_timed_out : ℕ → PipelineRun → Bool
is_timed_out now r =
    ltb 0 r.timeout_seconds
    && (not (is_closed_phase r.phase) && ltb (since r + r.timeout_seconds * nanos) now)

abbrev pub find_timed_out : ℕ → Action Tables (List PipelineRun)
find_timed_out now = query λ t. ok (where_ (is_timed_out now) t.runs)

abbrev pub timed_out : ℕ → PipelineRun → PipelineRun
timed_out now r = record r {
  phase = Phase.failed;
  completion_time = some now;
  message = "PipelineRunTimeout";
}

unfoldable pub announce_timeout : Sinks → PipelineRun → Action Tables (Unit {0})
announce_timeout s run = do
  _ ← tell s.has_finished_hook (run_finished run.pipeline_id Phase.failed)
  tell (s.has_notify_sink && is_named_by run) (notice "run_failed" run.triggered_by run.cr_name)

-- A run whose update fails is left to the next sweep.
unfoldable pub fail_each : Sinks → ℕ → List PipelineRun → Action Tables ℕ
fail_each s now [] = pure 0
fail_each s now (r ∷ rs) =
    let rest = fail_each s now rs in
    let marked = announce_timeout s (timed_out now r) >>= λ _. rest >>= λ n. pure (suc n) in
    attempt (update_run (timed_out now r)) λ a. elim a [ err e ↦ rest | ok _ ↦ marked ]

unfoldable pub sweep_run_timeouts : Sinks → ℕ → Action Tables ℕ
sweep_run_timeouts s now = do runs ← find_timed_out now; fail_each s now runs
