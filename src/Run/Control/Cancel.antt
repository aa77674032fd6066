-- ===== src/Run/Control/Cancel.antt =====
-- What CancelRun does to the tables, in a world whose statements succeed.
use software_distribution_pl.Run.Jobs.{retired}
use software_distribution_pl.Common.{
  ℕ, String, ◌≡◌, true, ◌&&◌, none, some, arith, if◌then◌else◌, ◌==◌, map_option, up, run_terminal,
  err, refl, inl, inr, Option-cases, find_row, update_where, find_row-update_where, find_row-key,
  find_row-save, cancelled_while_queued,
}
use software_distribution_pl.Run.Tables.{PipelineRun, Tables, run_id, job_id, cancelled}
use software_distribution_pl.Run.Rows.{is_queued, is_terminal}
use software_distribution_pl.Run.Concurrency.Capacity.{run_of}
use software_distribution_pl.Run.Delivery.Rows.{job_of}
use software_distribution_pl.Run.Control.{Canceller, cancel_run}

-- When the statements succeed, cancelling a run whose phase is terminal answers run_terminal and
-- changes nothing.
pub cancel_run_terminal :
    (c : Canceller) (now k : ℕ) (operator : String) (t : Tables) (r : PipelineRun)
    → run_of k t ≡ some r
    → is_terminal r.phase ≡ true
    → cancel_run c now k operator (up t) ≡ (err run_terminal, up t)
unfolding cancel_run
cancel_run_terminal c now k operator t r e h = ground arith

abbrev cancelled_row : ℕ → PipelineRun → PipelineRun
cancelled_row now r = record r {
  phase = cancelled;
  completion_time = some now;
  message = "cancelled while queued";
}

retire_row :
    (k i : ℕ) (t : Tables)
    → find_row job_id i (update_where (λ j. j.id == k) (retired cancelled_while_queued) t.jobs)
      ≡ map_option (λ j. if j.id == k then retired cancelled_while_queued j else j) (job_of i t)
retire_row k i t =
    find_row-update_where job_id (λ j. j.id == k) (retired cancelled_while_queued) (λ _. refl) i
      t.jobs

-- When the statements succeed, CancelRun sets the row of its run to cancelled with the completion
-- time if that run is queued, and changes no row of a run otherwise.
pub run_of-cancel_run :
    (c : Canceller) (now k i : ℕ) (operator : String) (t : Tables)
    → run_of i (cancel_run c now k operator (up t)).1.tables
      ≡ map_option
          (λ r.
            if (r.id == k) && is_queued r.phase
            then record r {
              phase = cancelled;
              completion_time = some now;
              message = "cancelled while queued";
            }
            else r)
          (run_of i t)
unfolding cancel_run
run_of-cancel_run c now k i operator t = elim (Option-cases (run_of k t)) [
  | inl e ↦ elim (Option-cases (run_of i t)) [
    | inl q ↦ ground (arith, e, q)
    | inr (x, q) ↦ ground (arith, e, q, find_row-key run_id i {r = x} t.runs q)
  ]
  | inr (r, e) ↦ elim (Option-cases (run_of i t)) [
    | inl q ↦ ground (arith, e, q, find_row-save run_id (cancelled_row now r) i t.runs)
    | inr (x, q) ↦ ground (
      arith,
      e,
      q,
      find_row-save run_id (cancelled_row now r) i t.runs,
      find_row-key run_id i {r = x} t.runs q,
      find_row-key run_id k {r = r} t.runs e,
    )
  ]
]

-- When the statements succeed and no job has the id of the run, CancelRun leaves every dispatch
-- job as it was, the held job of a queued run included.
pub job_of-cancel_run :
    (c : Canceller) (now k i : ℕ) (operator : String) (t : Tables)
    → job_of k t ≡ none
    → job_of i (cancel_run c now k operator (up t)).1.tables ≡ job_of i t
unfolding cancel_run
job_of-cancel_run c now k i operator t h = elim (Option-cases (run_of k t)) [
  | inl e ↦ ground (arith, e)
  | inr (r, e) ↦ elim (Option-cases (job_of i t)) [
    | inl q ↦ ground (arith, e, q, retire_row r.id i t)
    | inr (x, q) ↦ ground (
      arith,
      e,
      q,
      h,
      retire_row r.id i t,
      find_row-key job_id i {r = x} t.jobs q,
      find_row-key run_id k {r = r} t.runs e,
    )
  ]
]
