-- ===== src/Run/Timeouts/Late.antt =====
-- internal/run/service/run_background.go: which runs a sweep of the timeouts fails, and how.
use software_distribution_pl.Run.Approval.Gate.{run_of}
use software_distribution_pl.Run.Status.{Sinks}
use software_distribution_pl.Run.Tables.{Phase, PipelineRun, run_id, Tables}
use software_distribution_pl.Run.Timeouts.{
  is_closed_phase, since, is_timed_out, sweep_run_timeouts, timed_out,
}
use software_distribution_pl.Run.Timeouts.Swept.{run_of-sweep_run_timeouts}
use software_distribution_pl.Common.{
  arith, ℕ, ◌+◌, ◌*◌, ◌<◌, ◌≡◌, refl, ◌≢◌, ◌⊎◌, inl, inr, false, none, some, Option-cases, sym, ap,
  ◌∙◌, subst, true, Option, if◌then◌else◌, Bool-cases, map_option, IsKeyed, up,
}

-- The run has reached none of the phases that the query excludes, among them the texts Error and
-- Canceled.
abbrev pub IsOpen : Phase → Type 0
IsOpen p =
    (p ≢ Phase.succeeded)
    × ((p ≢ Phase.failed) × ((p ≢ Phase.cancelled) × ((p ≢ Phase.other 0) × (p ≢ Phase.other 1))))

-- When the run began: its start, or its creation if it has no start.
abbrev pub IsBegin : PipelineRun → ℕ → Type 0
IsBegin r b = (r.start_time ≡ some b) ⊎ ((r.start_time ≡ none) × (b ≡ r.created_at))

-- A run that has a timeout and began longer ago than so many seconds, and is open.
pub record IsLate (now : ℕ) (r : PipelineRun) : Type 0 where
  pub begin : ℕ
  pub limited : 0 < r.timeout_seconds
  pub is_open : IsOpen r.phase
  pub begun : IsBegin r begin
  pub over : begin + r.timeout_seconds * 1000000000 < now

-- What a sweep leaves of a row.
abbrev pub IsSwept : ℕ → Option PipelineRun → Option PipelineRun → Type 0
IsSwept now none after = after ≡ none
IsSwept now (some r) after =
    (IsLate now r
      × (after
          ≡ some (record r {
            phase = Phase.failed;
            completion_time = some now;
            message = "PipelineRunTimeout";
          })))
    ⊎ ((¬ IsLate now r) × (after ≡ some r))

open_of : (p : Phase) → is_closed_phase p ≡ false → IsOpen p
open_of Phase.succeeded h = ground arith
open_of Phase.failed h = ground arith
open_of Phase.cancelled h = ground arith
open_of (Phase.other n) h = ground arith
open_of Phase.pending h = ground arith
open_of Phase.running h = ground arith
open_of Phase.waiting_approval h = ground arith
open_of Phase.pending_queue h = ground arith

closed_of : (p : Phase) → IsOpen p → is_closed_phase p ≡ false
closed_of Phase.succeeded h = absurd (h.0 refl)
closed_of Phase.failed h = absurd (h.1.0 refl)
closed_of Phase.cancelled h = absurd (h.1.1.0 refl)
closed_of (Phase.other n) h =
    let empty : n ≢ 0 = λ e. h.1.1.1.0 (ap Phase.other e) in
    let one : n ≢ 1 = λ e. h.1.1.1.1 (ap Phase.other e) in ground (arith, empty, one)
closed_of Phase.pending h = refl
closed_of Phase.running h = refl
closed_of Phase.waiting_approval h = refl
closed_of Phase.pending_queue h = refl

since-IsBegin : (r : PipelineRun) → IsBegin r (since r)
since-IsBegin r = elim (Option-cases r.start_time) [
  | inl e ↦ inr (e, ap (λ o. elim o [ some t ↦ t | none ↦ r.created_at ]) e)
  | inr (b, e) ↦ inl (e ∙ ap some (sym (ap (λ o. elim o [ some t ↦ t | none ↦ r.created_at ]) e)))
]

IsBegin-since : (r : PipelineRun) (b : ℕ) → IsBegin r b → b ≡ since r
IsBegin-since r b (inl e) = sym (ap (λ o. elim o [ some t ↦ t | none ↦ r.created_at ]) e)
IsBegin-since r b (inr (e, f)) = f ∙ sym (ap (λ o. elim o [ some t ↦ t | none ↦ r.created_at ]) e)

is_timed_out-IsLate : (now : ℕ) (r : PipelineRun) → is_timed_out now r ≡ true → IsLate now r
is_timed_out-IsLate now r h = record {
  begin = since r;
  limited = ground (arith, h);
  is_open = open_of r.phase (ground (arith, h));
  begun = since-IsBegin r;
  over = ground (arith, h);
}

IsLate-is_timed_out : (now : ℕ) (r : PipelineRun) → IsLate now r → is_timed_out now r ≡ true
IsLate-is_timed_out now r l =
    let same = IsBegin-since r l.begin l.begun in
    ground (arith, same, l.limited, l.over, closed_of r.phase l.is_open)

IsSwept-row :
    (now : ℕ) (o : Option PipelineRun)
    → IsSwept now o (map_option (λ r. if is_timed_out now r then timed_out now r else r) o)
IsSwept-row now none = refl
IsSwept-row now (some r) = elim (Bool-cases (is_timed_out now r)) [
  | inl e ↦ inl (is_timed_out-IsLate now r e, rw e refl)
  | inr e ↦
      inr ((λ l. let over = IsLate-is_timed_out now r l in ground (arith, over, e)), rw e refl)
]

-- When the statements succeed and the ids of the runs are unique, SweepRunTimeouts gives exactly
-- the runs that have a timeout, started, or were created if they have no start, longer than it
-- before now, and are neither Succeeded, Failed, Cancelled, Error nor Canceled, the phase Failed,
-- the completion time now and the message PipelineRunTimeout, leaves the other columns and the row
-- of every other run as they are, and leaves every dispatch job as it is.
pub sweep_run_timeouts-IsSwept :
    (s : Sinks) (now i : ℕ) (t : Tables)
    → IsKeyed run_id t.runs
    → IsSwept now (run_of i t) (run_of i (sweep_run_timeouts s now (up t)).1.tables)
      × ((sweep_run_timeouts s now (up t)).1.tables.jobs ≡ t.jobs)
sweep_run_timeouts-IsSwept s now i t u =
    let (row, jobs) = run_of-sweep_run_timeouts s now i t u in
    (subst (IsSwept now (run_of i t)) (sym row) (IsSwept-row now (run_of i t)), jobs)
