-- ===== src/Run/Delivery/Batches.antt =====
-- What DrainTarget and sweepOnce do to the rows of the queue, in a world whose statements succeed.
use software_distribution_pl.Common.{
  ℕ, ◌≡◌, refl, Bool, true, false, Option, none, some, List, [], ◌∷◌, arith, if◌then◌else◌,
  map_option, find_row, IsKeyed, up, ◌==◌, Keeps-pure, Keeps-fail, Keeps-statement, Keeps-if,
  Keeps-elim, Keeps-bind, Keeps-regardless, Keeps, update_where, IsKeyed-update_where, regardless_,
  fail, Error, Result, ok, err, ◌∙◌, ltb, where_, sort_by, keep, find_row-where_, IsKeyed-where_,
  find_row-sort_by, IsKeyed-sort_by,
}
use software_distribution_pl.Run.Spec.{Apply}
use software_distribution_pl.Run.Tables.{Tables, DispatchJob, job_id, decode}
use software_distribution_pl.Run.Jobs.{
  sent, get_job, set_job, retired, mark_dead, postponed, mark_dispatching, claims, claimed,
  is_pending_for, due_retry, retry_time,
}
use software_distribution_pl.Run.Delivery.Attempt.{
  Dispatcher, try_deliver, deliver_all, push, after_push, after_failure, is_closed, drain_target,
  sweep_once,
}
use software_distribution_pl.Run.Delivery.Rows.{job_of, attempted, job_of-try_deliver}

abbrev is_some {ℓ} : {A : Type ℓ} → Option A → Bool
is_some none = false
is_some (some a) = true

pub try_deliver-faults :
    (d : Dispatcher) (now k : ℕ) (t : Tables)
    → (try_deliver d now k (up t)).1 ≡ up (try_deliver d now k (up t)).1.tables
unfolding try_deliver
try_deliver-faults d now k t = ground arith

-- Ids stay unique, whatever the store refuses.
abbrev pub Keyed : Tables → Type 0
Keyed t = IsKeyed job_id t.jobs

pub set-Keyed :
    (p : DispatchJob → Bool) (f : DispatchJob → DispatchJob) (t : Tables)
    → ((j : DispatchJob) → (f j).id ≡ j.id)
    → Keyed t
    → Keyed (record t { jobs = update_where p f t.jobs })
set-Keyed p f t same u = IsKeyed-update_where job_id p f same t.jobs u

set_job-Keyed :
    (k : ℕ) (f : DispatchJob → DispatchJob)
    → ((j : DispatchJob) → (f j).id ≡ j.id)
    → Keeps Keyed (set_job k f)
set_job-Keyed k f same = Keeps-statement _ (λ t u. set-Keyed (λ j. j.id == k) f t same u)

after_push-Keyed : (now : ℕ) (j : DispatchJob) (o : Option Error) → Keeps Keyed (after_push now j o)
unfolding after_push
after_push-Keyed now j none = set_job-Keyed j.id sent (λ _. refl)
after_push-Keyed now j (some e) =
    Keeps-regardless (after_failure now j e) (fail e)
      (unfold after_failure in
        Keeps-if _ _ _ (set_job-Keyed j.id (retired e) (λ _. refl))
          (set_job-Keyed j.id (postponed e _) (λ _. refl)))
      (Keeps-fail e)

push-Keyed :
    (d : Dispatcher) (now : ℕ) (j : DispatchJob) (r : Result Apply) → Keeps Keyed (push d now j r)
unfolding push
push-Keyed d now j (err e) =
    Keeps-regardless (mark_dead j.id e) (fail e) (set_job-Keyed j.id (retired e) (λ _. refl))
      (Keeps-fail e)
push-Keyed d now j (ok a) = after_push-Keyed now j (d j.target_id a)

pub try_deliver-Keyed : (d : Dispatcher) (now k : ℕ) → Keeps Keyed (try_deliver d now k)
unfolding try_deliver
try_deliver-Keyed d now k = Keeps-bind (get_job k) _ (Keeps-statement _ (λ t u. u)) λ j.
    Keeps-elim (is_closed j.state) _ _ (Keeps-pure tt) (
      Keeps-bind (mark_dispatching k) _
        (Keeps-statement _ (λ t u. set-Keyed (claims k) claimed t (λ _. refl) u))
        λ n. Keeps-elim (n == 0) _ _ (Keeps-pure tt) (push-Keyed d now j (decode j.payload)))

deliver_all-row :
    (d : Dispatcher) (now i : ℕ) (t : Tables) (js : List DispatchJob)
    → IsKeyed job_id t.jobs
    → IsKeyed job_id js
    → job_of i (deliver_all d now js (up t)).1.tables ≡ (
        if is_some (find_row job_id i js)
        then map_option (attempted d now) (job_of i t)
        else job_of i t)
unfolding deliver_all find_row
deliver_all-row d now i t [] u v = refl
deliver_all-row d now i t (j ∷ js) u v =
    let t' = (try_deliver d now j.id (up t)).1.tables in
    let rest = deliver_all-row d now i t' js ((try_deliver-Keyed d now j.id).at (up t) u) v.1 in
    rw (try_deliver-faults d now j.id t, regardless_)
      (ground (arith, rest, v.0, job_of-try_deliver d now j.id i t u))

list_pending_row :
    (target i : ℕ) (t : Tables)
    → IsKeyed job_id t.jobs
    → find_row job_id i (where_ (is_pending_for target) t.jobs)
      ≡ keep (is_pending_for target) (job_of i t)
list_pending_row target i t u = find_row-where_ job_id (is_pending_for target) i t.jobs u

-- When the statements succeed and the job ids are unique, a drain makes exactly one delivery of
-- each pending or failed job of the target and leaves every other job as it was.
pub job_of-drain_target :
    (d : Dispatcher) (now target i : ℕ) (t : Tables)
    → IsKeyed job_id t.jobs
    → job_of i (drain_target d now target (up t)).1.tables
      ≡ map_option (λ j. if is_pending_for target j then attempted d now j else j) (job_of i t)
unfolding drain_target
job_of-drain_target d now target i t u = ground (
  arith,
  list_pending_row target i t u,
  deliver_all-row d now i t (where_ (is_pending_for target) t.jobs) u
      (IsKeyed-where_ job_id (is_pending_for target) t.jobs u),
)

abbrev sooner : DispatchJob → DispatchJob → Bool
sooner i j = ltb (retry_time i.next_retry_at) (retry_time j.next_retry_at)

list_due_row :
    (now i : ℕ) (t : Tables)
    → IsKeyed job_id t.jobs
    → find_row job_id i (sort_by sooner (where_ (due_retry now) t.jobs))
      ≡ keep (due_retry now) (job_of i t)
list_due_row now i t u =
    find_row-sort_by job_id sooner i (where_ (due_retry now) t.jobs)
      (IsKeyed-where_ job_id (due_retry now) t.jobs u)
    ∙ find_row-where_ job_id (due_retry now) i t.jobs u

-- When the statements succeed and the job ids are unique, a sweep makes exactly one delivery of
-- each failed job whose retry time has come and leaves every other job as it was.
pub job_of-sweep_once :
    (d : Dispatcher) (now i : ℕ) (t : Tables)
    → IsKeyed job_id t.jobs
    → job_of i (sweep_once d now (up t)).1.tables
      ≡ map_option (λ j. if due_retry now j then attempted d now j else j) (job_of i t)
unfolding sweep_once
job_of-sweep_once d now i t u = ground (
  arith,
  list_due_row now i t u,
  deliver_all-row d now i t (sort_by sooner (where_ (due_retry now) t.jobs)) u (
      IsKeyed-sort_by job_id sooner (where_ (due_retry now) t.jobs)
        (IsKeyed-where_ job_id (due_retry now) t.jobs u)),
)
