-- ===== src/Run/Concurrency/Capacity.antt =====
-- The bound that SweepQueued keeps, in a world whose statements succeed.
use software_distribution_pl.Common.{
  ℕ, zero, suc, ◌+◌, min, ◌≡◌, refl, true, false, Option, none, some, List, [], ◌∷◌, arith, ◌==◌,
  length, count_where, All, find_row, update_where, IsKeyed, count_where-save, up, ◌-◌, where_,
  IsKeyed-where_, find_row-save, IsKeyed-save,
}
use software_distribution_pl.Run.Tables.{PipelineRun, Tables, run_id, Phase, pending, pending_queue}
use software_distribution_pl.Run.Jobs.{holds, released}
use software_distribution_pl.Run.Rows.{occupies, is_active, is_queued}
use software_distribution_pl.Run.Concurrency.{promote_runs, promote_pipeline, concurrency_limit}

abbrev pub active : ℕ → Tables → ℕ
active pid t = count_where (occupies pid) t.runs

abbrev pub run_of : ℕ → Tables → Option PipelineRun
run_of k t = find_row run_id k t.runs

-- The rows of the list are queued runs of the pipeline, as they stand in the table.
abbrev pub AreQueued : ℕ → Tables → List PipelineRun → Type 0
AreQueued pid t =
    All λ r. (run_of r.id t ≡ some r) × (r.pipeline_id ≡ pid) × (is_queued r.phase ≡ true)

promoted : PipelineRun → Tables → Tables
promoted r t = record t {
  runs = update_where (λ x. x.id == r.id) (λ _. record r { phase = pending }) t.runs;
  jobs = update_where (holds r.id) released t.jobs;
}

promote_runs_step :
    (c : ℕ) (r : PipelineRun) (rs : List PipelineRun) (t : Tables)
    → promote_runs (suc c) (r ∷ rs) (up t) ≡ promote_runs c rs (up (promoted r t))
unfolding promote_runs promoted
promote_runs_step c r rs t = refl

queued_inactive : (p : Phase) → is_queued p ≡ true → is_active p ≡ false
queued_inactive pending_queue h = refl
queued_inactive _ h = ground arith

active-promoted :
    (pid : ℕ) (r : PipelineRun) (t : Tables)
    → IsKeyed run_id t.runs
    → run_of r.id t ≡ some r
    → r.pipeline_id ≡ pid
    → is_queued r.phase ≡ true
    → active pid (promoted r t) ≡ active pid t + 1
unfolding promoted
active-promoted pid r t u e p q = ground (
  arith,
  count_where-save run_id (occupies pid) r (record r { phase = pending }) t.runs u e,
  queued_inactive r.phase q,
)

-- Promoting one run leaves the others queued.
AreQueued-promoted :
    (pid : ℕ) (r : PipelineRun) (t : Tables) (rs : List PipelineRun)
    → find_row run_id r.id rs ≡ none
    → AreQueued pid t rs
    → AreQueued pid (promoted r t) rs
unfolding promoted find_row
AreQueued-promoted pid r t [] n h = tt
AreQueued-promoted pid r t (x ∷ rs) n h = (
  (
    ground (arith, find_row-save run_id (record r { phase = pending }) x.id t.runs, h.0, n),
    h.0.1,
    h.0.2,
  ),
  AreQueued-promoted pid r t rs (ground (arith, n)) h.1,
)

IsKeyed-promoted :
    (r : PipelineRun) (t : Tables) → IsKeyed run_id t.runs → IsKeyed run_id (promoted r t).runs
unfolding promoted
IsKeyed-promoted r t u = IsKeyed-save run_id (record r { phase = pending }) t.runs u

-- The loop promotes as many runs as there is capacity for, and no more.
pub active-promote_runs :
    (pid c : ℕ) (t : Tables) (rs : List PipelineRun)
    → IsKeyed run_id t.runs
    → IsKeyed run_id rs
    → AreQueued pid t rs
    → active pid (promote_runs c rs (up t)).1.tables ≡ active pid t + min c (length rs)
active-promote_runs pid c t [] u v h = unfold promote_runs in omega arith
active-promote_runs pid zero t (r ∷ rs) u v h = unfold promote_runs in omega arith
active-promote_runs pid (suc c) t (r ∷ rs) u v h = rw (promote_runs_step c r rs t) (
    omega (
      arith,
      active-promoted pid r t u h.0.0 h.0.1 h.0.2,
      active-promote_runs pid c (promoted r t) rs (IsKeyed-promoted r t u) v.1
          (AreQueued-promoted pid r t rs v.0 h.1),
    ))

-- When the statements succeed, the ids are unique and the listed runs are the queued runs of the
-- pipeline as they stand in the table, promoting a pipeline adds to its active runs exactly the
-- smaller of the free capacity and the number of its queued runs.
pub active-promote_pipeline :
    (limit pid : ℕ) (t : Tables) (queued : List PipelineRun)
    → IsKeyed run_id t.runs
    → IsKeyed run_id queued
    → AreQueued pid t (where_ (λ r. r.pipeline_id == pid) queued)
    → active pid (promote_pipeline limit queued pid (up t)).1.tables
      ≡ active pid t
        + min
            (concurrency_limit limit - active pid t)
            (length (where_ (λ r. r.pipeline_id == pid) queued))
unfolding promote_pipeline
active-promote_pipeline limit pid t queued u v h =
    active-promote_runs pid (concurrency_limit limit - active pid t) t
      (where_ (λ r. r.pipeline_id == pid) queued) u
      (IsKeyed-where_ run_id (λ r. r.pipeline_id == pid) queued v) h
