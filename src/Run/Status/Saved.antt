-- ===== src/Run/Status/Saved.antt =====
-- internal/run/repository/task_run.go: the phase of a task after its status is saved.
use software_distribution_pl.Run.Creation.Seeds.{is_task_of}
use software_distribution_pl.Run.Status.{first_seen, save_found, TaskSummary, updated, or_pending}
use software_distribution_pl.Run.Tables.{task_run_key, TaskPhase, TaskRun, Tables}
use software_distribution_pl.Common.{
  ℕ, suc, ◌<◌, String, ◌≡◌, refl, subst, inl, inr, true, false, Option, none, some, List, [], ◌∷◌,
  ◌++◌, arith, eq_iff, if◌then◌else◌, ◌==◌, ◌=ˢ◌, ==_self, Bool-cases, All, All-append, map_option,
  find_row, find_where, update_where, find_where-passes, find_where-save, find_row_fresh,
  find_row-All, or_row, find_where-append, find_where-row, find_where-save_other, All-lt_le,
  All-save, IsKeyed, IsKeyed-save, IsKeyed-insert, required, up, ok, zero, ap,
}

abbrev pub phase_of : ℕ → String → Tables → Option TaskPhase
phase_of run name t = map_option (λ x. x.phase) (find_where (is_task_of run name) t.task_runs)

-- A phase that is reported after another. The first one of a task is Pending if it is empty.
abbrev pub next_phase : Option TaskPhase → TaskPhase → TaskPhase
next_phase none (TaskPhase.other zero) = TaskPhase.pending
next_phase none p = p
next_phase (some q) p = p

-- The last phase that some summaries give a task, or else the old one.
abbrev pub last_phase : String → List TaskSummary → Option TaskPhase → Option TaskPhase
last_phase name [] old = old
last_phase name (u ∷ us) old =
    last_phase name us (if u.name =ˢ name then some (next_phase old u.phase) else old)

or_pending-eq : (p : TaskPhase) → or_pending p ≡ next_phase none p
or_pending-eq (TaskPhase.other zero) = refl
or_pending-eq (TaskPhase.other (suc n)) = refl
or_pending-eq TaskPhase.pending = refl
or_pending-eq TaskPhase.running = refl
or_pending-eq TaskPhase.succeeded = refl
or_pending-eq TaskPhase.failed = refl
or_pending-eq TaskPhase.skipped = refl

-- The ids of the task rows are primary keys that the sequence gave out.
abbrev pub AreTasks : Tables → Type 0
AreTasks t = IsKeyed task_run_key t.task_runs × All (λ x. task_run_key x < t.next_id) t.task_runs

-- The tables after the status of one task.
abbrev pub saved : ℕ → TaskSummary → Tables → Option TaskRun → Tables
saved run u t none = record t {
  task_runs = t.task_runs ++ (record (first_seen run u) { id = t.next_id }) ∷ [];
  next_id = suc t.next_id;
}
saved run u t (some x) = record t {
  task_runs = update_where (λ z. z.id == x.id) (λ _. updated u x) t.task_runs;
}

pub save_found_lem :
    (run : ℕ) (u : TaskSummary) (t : Tables) (o : Option TaskRun)
    → save_found run u (required o) (up t) ≡ (ok tt, up (saved run u t o))
save_found_lem run u t none = refl
save_found_lem run u t (some x) = refl

module _ (run : ℕ) (u : TaskSummary) (t : Tables) (k : AreTasks t) where
  row_of :
      (x : TaskRun)
      → find_where (is_task_of run u.name) t.task_runs ≡ some x
      → find_row task_run_key x.id t.task_runs ≡ some x
  row_of x e = find_where-row task_run_key (is_task_of run u.name) x t.task_runs k.0 e

  pub saved-AreTasks :
      (o : Option TaskRun)
      → find_where (is_task_of run u.name) t.task_runs ≡ o
      → AreTasks (saved run u t o)
  saved-AreTasks none e =
      let y : TaskRun = record (first_seen run u) { id = t.next_id } in
      (
        IsKeyed-insert task_run_key y t.task_runs k.0
            (find_row_fresh task_run_key t.next_id t.task_runs k.1),
        All-append (λ z. task_run_key z < suc t.next_id) t.task_runs (y ∷ [])
            (All-lt_le task_run_key t.next_id (suc t.next_id) t.task_runs (omega arith) k.1)
            (omega arith, tt),
      )
  saved-AreTasks (some x) e =
      let below =
        find_row-All task_run_key (λ z. task_run_key z < t.next_id) x.id {r = x} t.task_runs k.1
          (row_of x e) in
      (
        IsKeyed-save task_run_key (updated u x) t.task_runs k.0,
        All-save task_run_key (λ z. task_run_key z < t.next_id) (λ z. z.id == x.id) (updated u x)
            t.task_runs below.0 k.1,
      )

  pub phase_of-saved :
      (name : String) (o : Option TaskRun)
      → find_where (is_task_of run u.name) t.task_runs ≡ o
      → phase_of run name (saved run u t o) ≡ (
          if u.name =ˢ name
          then some (next_phase (phase_of run name t) u.phase)
          else phase_of run name t)
  phase_of-saved name none e =
      let y : TaskRun = record (first_seen run u) { id = t.next_id } in
      elim (Bool-cases (u.name =ˢ name)) [
        | inl same ↦
            let here : find_where (is_task_of run name) t.task_runs ≡ none =
              subst (λ n. find_where (is_task_of run n) t.task_runs ≡ none)
                ((eq_iff u.name name).0 same) e in
            rw (find_where-append (is_task_of run name) y t.task_runs)
              (rw (here, same, ==_self run) (ap some (or_pending-eq u.phase)))
        | inr apart ↦
            rw (find_where-append (is_task_of run name) y t.task_runs)
              (rw (apart, ==_self run) (unchanged (find_where (is_task_of run name) t.task_runs)))
      ]
    where
      unchanged :
          (o : Option TaskRun)
          → map_option (λ x. x.phase) (or_row o none) ≡ map_option (λ x. x.phase) o
      unchanged none = refl
      unchanged (some x) = refl
  phase_of-saved name (some x) e =
      let y = updated u x in
      let mine : is_task_of run u.name x ≡ true =
        find_where-passes (is_task_of run u.name) {r = x} t.task_runs e in
      elim (Bool-cases (u.name =ˢ name)) [
        | inl same ↦
            let to : u.name ≡ name = (eq_iff u.name name).0 same in
            let here : find_where (is_task_of run name) t.task_runs ≡ some x =
              subst (λ n. find_where (is_task_of run n) t.task_runs ≡ some x) to e in
            let own : is_task_of run name y ≡ true =
              subst (λ n. is_task_of run n x ≡ true) to mine in
            rw (find_where-save task_run_key (is_task_of run name) x y t.task_runs own here)
              (rw (here, same) refl)
        | inr apart ↦
            let out : is_task_of run name x ≡ false = ground (
              arith,
              mine,
              apart,
              eq_iff x.task_name u.name,
              eq_iff x.task_name name,
              eq_iff u.name name,
            ) in
            rw
              (find_where-save_other task_run_key (is_task_of run name) x.id x y t.task_runs k.0
                (row_of x e) out out)
              (rw apart refl)
      ]
