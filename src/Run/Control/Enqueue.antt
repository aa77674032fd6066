-- ===== src/Run/Control/Enqueue.antt =====
-- The first dispatch job of a run, in a world whose statements succeed.
use software_distribution_pl.Common.{
  ℕ, suc, ◌≡◌, true, false, none, some, [], ◌∷◌, ◌++◌, find_row-insert, IsKeyed, up, ok, arith,
  IsKeyed-insert,
}
use software_distribution_pl.Run.Spec.{Apply}
use software_distribution_pl.Run.Tables.{
  PipelineRun, Tables, job_id, DispatchJob, encoded, JobState, held,
}
use software_distribution_pl.Run.Rows.{is_queued}
use software_distribution_pl.Run.Concurrency.Capacity.{run_of}
use software_distribution_pl.Run.Delivery.Attempt.{Dispatcher}
use software_distribution_pl.Run.Delivery.Rows.{job_of, job_of-try_deliver, attempted}
use software_distribution_pl.Run.Control.{enqueue_dispatch, new_job}

-- The table after the INSERT.
abbrev with_job : DispatchJob → Tables → Tables
with_job j t = record t {
  jobs = t.jobs ++ (record j { id = t.next_id }) ∷ [];
  next_id = suc t.next_id;
}

job_of-with_job :
    (j : DispatchJob) (t : Tables)
    → job_of t.next_id t ≡ none
    → job_of t.next_id (with_job j t) ≡ some (record j { id = t.next_id })
job_of-with_job j t h = find_row-insert job_id (record j { id = t.next_id }) t.jobs h

with_job-IsKeyed :
    (j : DispatchJob) (t : Tables)
    → IsKeyed job_id t.jobs
    → job_of t.next_id t ≡ none
    → IsKeyed job_id (with_job j t).jobs
with_job-IsKeyed j t u h = IsKeyed-insert job_id (record j { id = t.next_id }) t.jobs u h

-- When the statements succeed and the ids are unique, the first dispatch job of a queued run is
-- stored as held with its payload and no attempt, whatever the dispatcher would answer.
pub enqueue_dispatch_holds :
    (d : Dispatcher) (now k target : ℕ) (a : Apply) (t : Tables) (r : PipelineRun)
    → IsKeyed job_id t.jobs
    → job_of t.next_id t ≡ none
    → run_of k t ≡ some r
    → is_queued r.phase ≡ true
    → job_of t.next_id (enqueue_dispatch d now k target a (up t)).1.tables
      ≡ some (record (new_job k target (encoded a) held) { id = t.next_id })
unfolding enqueue_dispatch
enqueue_dispatch_holds d now k target a t r u h e q =
    let j = new_job k target (encoded a) held in
    ground (
      arith,
      e,
      q,
      job_of-with_job j t h,
      job_of-try_deliver d now t.next_id t.next_id (with_job j t) (with_job-IsKeyed j t u h),
    )

-- When the statements succeed and the ids are unique, enqueueing for a run that is not queued
-- succeeds whatever the delivery gives, and its new job is the pending job after one delivery.
pub enqueue_dispatch_attempts :
    (d : Dispatcher) (now k target : ℕ) (a : Apply) (t : Tables) (r : PipelineRun)
    → IsKeyed job_id t.jobs
    → job_of t.next_id t ≡ none
    → run_of k t ≡ some r
    → is_queued r.phase ≡ false
    → ((enqueue_dispatch d now k target a (up t)).0 ≡ ok tt)
      × (job_of t.next_id (enqueue_dispatch d now k target a (up t)).1.tables
          ≡ some (
              attempted d now
                (record (new_job k target (encoded a) JobState.pending) { id = t.next_id })))
unfolding enqueue_dispatch
enqueue_dispatch_attempts d now k target a t r u h e q =
    let j = new_job k target (encoded a) JobState.pending in
    ground (
      arith,
      e,
      q,
      job_of-with_job j t h,
      job_of-try_deliver d now t.next_id t.next_id (with_job j t) (with_job-IsKeyed j t u h),
    )
