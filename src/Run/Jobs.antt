-- ===== src/Run/Jobs.antt =====
-- internal/run/repository/dispatch_job.go: the statements on the dispatch queue. Rows stand in the
-- order of their creation, so `created_at asc` is that order.
use software_distribution_pl.Common.{
  ℕ, suc, ◌+◌, Bool, true, false, ◌&&◌, Option, none, some, List, [], ◌∷◌, ◌++◌, Error, ok, Action,
  statement, query, execute, find_row, update_where, where_, count_where, sort_by, leb, ltb, ◌==◌,
  if◌then◌else◌, required,
}
use software_distribution_pl.Run.Tables.{
  JobState, pending, dispatching, dispatched, failed, dead, held, DispatchJob, Tables, job_id,
}

-- state IN (pending, failed).
abbrev pub is_claimable : JobState → Bool
is_claimable pending = true
is_claimable failed = true
is_claimable _ = false

abbrev pub is_failed : JobState → Bool
is_failed failed = true
is_failed _ = false

abbrev pub is_held : JobState → Bool
is_held held = true
is_held _ = false

abbrev pub create_job : DispatchJob → Action Tables ℕ
create_job j = statement λ t. (
  ok t.next_id,
  record t { jobs = t.jobs ++ (record j { id = t.next_id }) ∷ []; next_id = suc t.next_id },
)

abbrev pub get_job : ℕ → Action Tables DispatchJob
get_job k = query λ t. required (find_row job_id k t.jobs)

abbrev pub is_pending_for : ℕ → DispatchJob → Bool
is_pending_for target j = (j.target_id == target) && is_claimable j.state

abbrev pub list_pending_by_target : ℕ → Action Tables (List DispatchJob)
list_pending_by_target target = query λ t. ok (where_ (is_pending_for target) t.jobs)

abbrev pub claims : ℕ → DispatchJob → Bool
claims k j = (j.id == k) && is_claimable j.state

abbrev pub claimed : DispatchJob → DispatchJob
claimed j = record j { state = dispatching; attempts = j.attempts + 1 }

-- The number of rows that were claimed.
abbrev pub mark_dispatching : ℕ → Action Tables ℕ
mark_dispatching k = statement λ t.
    (ok (count_where (claims k) t.jobs), record t { jobs = update_where (claims k) claimed t.jobs })

abbrev pub sent : DispatchJob → DispatchJob
sent j = record j { state = dispatched; last_error = none; next_retry_at = none }

abbrev pub set_job : ℕ → (DispatchJob → DispatchJob) → Action Tables (Unit {0})
set_job k f = execute λ t. record t { jobs = update_where (λ j. j.id == k) f t.jobs }

abbrev pub mark_dispatched : ℕ → Action Tables (Unit {0})
mark_dispatched k = set_job k sent

abbrev pub postponed : Error → ℕ → DispatchJob → DispatchJob
postponed e next j = record j { state = failed; last_error = some e; next_retry_at = some next }

abbrev pub mark_failed : ℕ → Error → ℕ → Action Tables (Unit {0})
mark_failed k e next = set_job k (postponed e next)

abbrev pub retired : Error → DispatchJob → DispatchJob
retired e j = record j { state = dead; last_error = some e; next_retry_at = none }

abbrev pub mark_dead : ℕ → Error → Action Tables (Unit {0})
mark_dead k e = set_job k (retired e)

-- next_retry_at <= now, which no NULL satisfies.
abbrev pub is_due : ℕ → Option ℕ → Bool
is_due now none = false
is_due now (some next) = leb next now

abbrev pub due_retry : ℕ → DispatchJob → Bool
due_retry now j = is_failed j.state && is_due now j.next_retry_at

abbrev pub retry_time : Option ℕ → ℕ
retry_time none = 0
retry_time (some t) = t

abbrev pub list_due_retry : ℕ → Action Tables (List DispatchJob)
list_due_retry now = query λ t. ok (
    sort_by (λ i j. ltb (retry_time i.next_retry_at) (retry_time j.next_retry_at))
      (where_ (due_retry now) t.jobs))

-- The row that was created last among those that pass a test.
abbrev pub last_where {ℓ} : {A : Type ℓ} → (A → Bool) → List A → Option A
last_where p [] = none
last_where p (x ∷ xs) = elim (last_where p xs) [
  | some y ↦ some y
  | none ↦ if p x then some x else none
]

abbrev pub latest_by_run : ℕ → Action Tables DispatchJob
latest_by_run run = query λ t. required (last_where (λ j. j.pipeline_run_id == run) t.jobs)

abbrev pub holds : ℕ → DispatchJob → Bool
holds run j = (j.pipeline_run_id == run) && is_held j.state

abbrev pub released : DispatchJob → DispatchJob
released j = record j { state = pending }

abbrev pub release_held : ℕ → Action Tables ℕ
release_held run = statement λ t. (
  ok (count_where (holds run) t.jobs),
  record t { jobs = update_where (holds run) released t.jobs },
)
