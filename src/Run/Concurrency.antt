-- ===== src/Run/Concurrency.antt =====
-- internal/run/service/run_concurrency.go: the bound on the active runs of a pipeline.
use software_distribution_pl.Common.{
  ℕ, zero, suc, ◌-◌, Bool, List, [], ◌∷◌, if◌then◌else◌, leb, ◌==◌, where_, Action, regardless,
  attempt, pure, fail, conflict, ok, err, ◌>>=◌,
}
pub mod Capacity
use software_distribution_pl.Run.Tables.{
  PipelineRun, Tables, run_id, Phase, pending, pending_queue, JobState, held,
}
use software_distribution_pl.Run.Definitions.{Policy, forbid}
use software_distribution_pl.Run.Jobs.{release_held}
use software_distribution_pl.Run.Rows.{
  get_run, update_run, count_active_by_pipeline, find_queued, is_queued,
}

-- SetRunConcurrencyLimit with a number that is not positive leaves the default.
unfoldable pub concurrency_limit : ℕ → ℕ
concurrency_limit zero = 4
concurrency_limit (suc n) = suc n

-- The forbid branch: any active run refuses a new trigger.
unfoldable pub guard_concurrency : ℕ → Policy → Action Tables (Unit {0})
guard_concurrency pid forbid = do
  n ← count_active_by_pipeline pid
  if leb 1 n then fail conflict else pure tt
guard_concurrency pid _ = pure tt

unfoldable pub should_queue : ℕ → ℕ → Action Tables Bool
should_queue limit pid = do n ← count_active_by_pipeline pid; pure (leb (concurrency_limit limit) n)

-- The state of a run's first dispatch job; a failed lookup gives the old behaviour, pending.
unfoldable pub dispatch_state_for_run : ℕ → Action Tables JobState
dispatch_state_for_run k = attempt (get_run k) λ r. elim r [
  | err e ↦ pure JobState.pending
  | ok run ↦ pure (if is_queued run.phase then held else JobState.pending)
]

-- The loop over the queued runs of one pipeline, with the capacity that is left.
unfoldable pub promote_runs : ℕ → List PipelineRun → Action Tables (Unit {0})
promote_runs capacity [] = pure tt
promote_runs zero (r ∷ rs) = pure tt
promote_runs (suc c) (r ∷ rs) = attempt (update_run (record r { phase = pending })) λ a. elim a [
  | err e ↦ promote_runs (suc c) rs
  | ok _ ↦
      attempt (release_held r.id)
        λ b. elim b [ err e ↦ promote_runs (suc c) rs | ok _ ↦ promote_runs c rs ]
]

-- One pipeline of SweepQueued; a failed count leaves the pipeline for the next sweep.
unfoldable pub promote_pipeline : ℕ → List PipelineRun → ℕ → Action Tables (Unit {0})
unfolding promote_runs concurrency_limit
promote_pipeline limit queued pid = attempt (count_active_by_pipeline pid) λ a. elim a [
  | err e ↦ pure tt
  | ok n ↦ promote_runs (concurrency_limit limit - n) (where_ (λ r. r.pipeline_id == pid) queued)
]

unfoldable pub promote_pipelines : ℕ → List PipelineRun → List ℕ → Action Tables (Unit {0})
unfolding promote_pipeline
promote_pipelines limit queued [] = pure tt
promote_pipelines limit queued (pid ∷ pids) =
    regardless (promote_pipeline limit queued pid) (promote_pipelines limit queued pids)

-- SweepQueued. Go iterates over the pipelines of the map in any order: `order` lists them.
unfoldable pub sweep_queued : ℕ → (List PipelineRun → List ℕ) → Action Tables (Unit {0})
unfolding promote_pipelines
sweep_queued limit order = do
  queued ← find_queued 1000
  promote_pipelines limit queued (order queued)
