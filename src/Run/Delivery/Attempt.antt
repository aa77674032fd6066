-- ===== src/Run/Delivery/Attempt.antt =====
-- internal/run/service/pipeline_run.go: tryDeliver, DrainTarget and sweepOnce. The dispatcher is
-- the interface Dispatcher of that file: `none` when the envelope was sent, or the error.
use software_distribution_pl.Common.{
  ℕ, ◌+◌, Bool, true, false, Option, none, some, List, [], ◌∷◌, Error, Result, ok, err, Action,
  ◌>>=◌, pure, fail, attempt, regardless, leb, ◌==◌, if◌then◌else◌,
}
use software_distribution_pl.Run.Spec.{Apply}
use software_distribution_pl.Run.Tables.{JobState, dispatched, dead, decode, DispatchJob, Tables}
use software_distribution_pl.Run.Jobs.{
  get_job, list_pending_by_target, mark_dispatching, mark_dispatched, mark_failed, mark_dead,
  list_due_retry,
}
use software_distribution_pl.Run.Delivery.Backoff.{retry_at, max_dispatch_attempts}

abbrev pub Dispatcher : Type 0
Dispatcher = ℕ → Apply → Option Error

-- Delivered or given up.
abbrev pub is_closed : JobState → Bool
is_closed dispatched = true
is_closed dead = true
is_closed _ = false

-- What follows a failed push, with the attempts of the row as it was read.
unfoldable pub after_failure : ℕ → DispatchJob → Error → Action Tables (Unit {0})
after_failure now job e =
    if leb max_dispatch_attempts (job.attempts + 1)
    then mark_dead job.id e
    else mark_failed job.id e (retry_at now (job.attempts + 1))

-- What follows a push, by its outcome.
unfoldable pub after_push : ℕ → DispatchJob → Option Error → Action Tables (Unit {0})
unfolding after_failure
after_push now job none = mark_dispatched job.id
after_push now job (some e) = regardless (after_failure now job e) (fail e)

-- The part of tryDeliver behind the claim, by what the stored payload decodes to.
unfoldable pub push : Dispatcher → ℕ → DispatchJob → Result Apply → Action Tables (Unit {0})
unfolding after_push
push d now job (err e) = regardless (mark_dead job.id e) (fail e)
push d now job (ok apply) = after_push now job (d job.target_id apply)

-- The claim; a caller that finds the job claimed leaves it to the other.
unfoldable pub claim_and_push : Dispatcher → ℕ → ℕ → DispatchJob → Action Tables (Unit {0})
unfolding push
claim_and_push d now k job = do
  affected ← mark_dispatching k
  elim (affected == 0) [ true ↦ pure tt | false ↦ push d now job (decode job.payload) ]

unfoldable pub try_deliver : Dispatcher → ℕ → ℕ → Action Tables (Unit {0})
unfolding claim_and_push
try_deliver d now k = do
  job ← get_job k
  elim (is_closed job.state) [ true ↦ pure tt | false ↦ claim_and_push d now k job ]

-- The loops of DrainTarget and sweepOnce: an error is logged, and the next job follows.
unfoldable pub deliver_all : Dispatcher → ℕ → List DispatchJob → Action Tables (Unit {0})
unfolding try_deliver
deliver_all d now [] = pure tt
deliver_all d now (j ∷ js) = regardless (try_deliver d now j.id) (deliver_all d now js)

unfoldable pub drain_target : Dispatcher → ℕ → ℕ → Action Tables (Unit {0})
unfolding deliver_all
drain_target d now target = do jobs ← list_pending_by_target target; deliver_all d now jobs

unfoldable pub sweep_once : Dispatcher → ℕ → Action Tables (Unit {0})
unfolding deliver_all
sweep_once d now =
    attempt (list_due_retry now) λ r. elim r [ err e ↦ pure tt | ok jobs ↦ deliver_all d now jobs ]
