-- ===== src/Run/Delivery/Outcomes.antt =====
-- What the queue guarantees: delivery on reconnect, the bound on attempts, and which jobs a sweep
-- leaves alone.
use mathlib.Core.Option.{some-injective}
use software_distribution_pl.Run.Delivery.Rows.{job_of, attempted, settled_push, settled}
use software_distribution_pl.Run.Delivery.Backoff.{max_dispatch_attempts, retry_at}
use software_distribution_pl.Run.Delivery.Attempt.{Dispatcher, drain_target, sweep_once}
use software_distribution_pl.Run.Delivery.Batches.{job_of-drain_target, job_of-sweep_once}
use software_distribution_pl.Common.{
  ℕ, ◌+◌, ◌≤◌, ◌<◌, ◌≡◌, true, none, some, arith, IsKeyed, up, refl, sym, ap, ◌∙◌, subst, inl, inr,
  Bool, false, Option, if◌then◌else◌, leb, Bool-cases, Option-cases, map_option, Error, Result, ok,
  err,
}
use software_distribution_pl.Run.Spec.{Apply}
use software_distribution_pl.Run.Tables.{Tables, DispatchJob, job_id, pending, failed, decode}
use software_distribution_pl.Run.Jobs.{is_claimable, is_pending_for, due_retry}

-- When the statements succeed and the job ids are unique, a sweep leaves a job in state pending as
-- it is, at every time and for every dispatcher.
pub sweep_once_skips_pending :
    (d : Dispatcher) (now i : ℕ) (t : Tables) (j : DispatchJob)
    → IsKeyed job_id t.jobs
    → job_of i t ≡ some j
    → j.state ≡ pending
    → job_of i (sweep_once d now (up t)).1.tables ≡ some j
sweep_once_skips_pending d now i t j u e s = ground (arith, job_of-sweep_once d now i t u, e, s)

-- The invariant of a job: it is claimable only below the maximum of attempts, and a failed job has
-- been attempted and has a time for the next attempt.
pub record JobOk (j : DispatchJob) : Type 0 where
  pub below_max : is_claimable j.state ≡ true → j.attempts < max_dispatch_attempts
  pub at_most_max : j.attempts ≤ max_dispatch_attempts
  pub failed_attempted : j.state ≡ failed → 0 < j.attempts
  pub failed_retries : j.state ≡ failed → (next : ℕ) × (j.next_retry_at ≡ some next)

settled_push-JobOk :
    (now : ℕ) (j : DispatchJob) (o : Option Error)
    → is_claimable j.state ≡ true
    → JobOk j
    → JobOk (settled_push now j o)
settled_push-JobOk now j none c h = ground arith
settled_push-JobOk now j (some e) c h =
    elim (Bool-cases (leb max_dispatch_attempts (j.attempts + 1))) [
      | inl b ↦ rw b (ground arith)
      | inr b ↦ rw b (record {
        below_max = λ _. ground arith;
        at_most_max = ground arith;
        failed_attempted = λ _. omega arith;
        failed_retries = λ _. (retry_at now (j.attempts + 1), refl);
      })
    ]

settled-JobOk :
    (d : Dispatcher) (now : ℕ) (j : DispatchJob) (r : Result Apply)
    → is_claimable j.state ≡ true
    → JobOk j
    → JobOk (settled d now j r)
settled-JobOk d now j (err e) c h = ground arith
settled-JobOk d now j (ok a) c h = settled_push-JobOk now j (d j.target_id a) c h

attempted-JobOk : (d : Dispatcher) (now : ℕ) (j : DispatchJob) → JobOk j → JobOk (attempted d now j)
attempted-JobOk d now j h = elim (Bool-cases (is_claimable j.state)) [
  | inl c ↦ rw c (settled-JobOk d now j (decode j.payload) c h)
  | inr c ↦ rw c h
]

chosen-JobOk :
    (d : Dispatcher) (now : ℕ) (b : Bool) (j : DispatchJob)
    → JobOk j
    → JobOk (if b then attempted d now j else j)
chosen-JobOk d now true j h = attempted-JobOk d now j h
chosen-JobOk d now false j h = h

abbrev pub AllJobsOk : Tables → Type 0
AllJobsOk t = (i : ℕ) (j : DispatchJob) → job_of i t ≡ some j → JobOk j

-- A change of the table that maps the rows by `f` keeps what `f` keeps.
mapped-AllJobsOk :
    (f : DispatchJob → DispatchJob) (t t' : Tables)
    → ((j : DispatchJob) → JobOk j → JobOk (f j))
    → ((i : ℕ) → job_of i t' ≡ map_option f (job_of i t))
    → AllJobsOk t
    → AllJobsOk t'
mapped-AllJobsOk f t t' keeps rows h i j e = elim (Option-cases (job_of i t)) [
  | inl q ↦ absurd (cc (rows i, q, e))
  | inr (x, q) ↦
      let same : f x ≡ j = some-injective (f x) j (sym (rows i ∙ ap (map_option f) q) ∙ e) in
      subst JobOk same (keeps x (h i x q))
]

-- When the statements succeed and the job ids are unique, a sweep keeps the invariant of the jobs:
-- at most ten attempts, fewer than ten while a job can be claimed, and at least one attempt and a
-- retry time on a failed job.
pub sweep_once-AllJobsOk :
    (d : Dispatcher) (now : ℕ) (t : Tables)
    → IsKeyed job_id t.jobs
    → AllJobsOk t
    → AllJobsOk (sweep_once d now (up t)).1.tables
sweep_once-AllJobsOk d now t u h =
    mapped-AllJobsOk (λ j. if due_retry now j then attempted d now j else j) t
      (sweep_once d now (up t)).1.tables (λ j ok_j. chosen-JobOk d now (due_retry now j) j ok_j)
      (λ i. job_of-sweep_once d now i t u) h

-- When the statements succeed and the job ids are unique, a drain keeps the invariant of the jobs.
pub drain_target-AllJobsOk :
    (d : Dispatcher) (now target : ℕ) (t : Tables)
    → IsKeyed job_id t.jobs
    → AllJobsOk t
    → AllJobsOk (drain_target d now target (up t)).1.tables
drain_target-AllJobsOk d now target t u h =
    mapped-AllJobsOk (λ j. if is_pending_for target j then attempted d now j else j) t
      (drain_target d now target (up t)).1.tables
      (λ j ok_j. chosen-JobOk d now (is_pending_for target j) j ok_j)
      (λ i. job_of-drain_target d now target i t u) h
