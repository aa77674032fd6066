-- ===== src/Run/Creation/Admission.antt =====
-- One new run and the bound on the active runs of its pipeline.
use software_distribution_pl.Run.Build.{TriggerRequest}
use software_distribution_pl.Run.Control.{enqueue_dispatch}
use software_distribution_pl.Common.{
  ℕ, ◌+◌, ◌≤◌, List, [], ◌∷◌, ◌≡◌, World, Keeps, Keeps-pure, Keeps-fail, Keeps-statement,
  Keeps-bind, Keeps-attempt, Keeps-outcome, Keeps-regardless, Keeps-from, statement-either, arith,
  count_where, count_where-append, update_where, if◌then◌else◌, String, ◌==◌, regardless, pure,
  fail, refl, inl, inr, Bool, true, false, leb, Bool-cases,
}
use software_distribution_pl.Run.Spec.{RunSpec, Param}
use software_distribution_pl.Run.Definitions.{Definitions, Policy, allow, forbid, queue, other}
use software_distribution_pl.Run.Tables.{Tables, PipelineRun, failed, Phase, pending_queue}
use software_distribution_pl.Run.Rows.{occupies, update_run, create_run_row}
use software_distribution_pl.Run.Concurrency.{concurrency_limit, guard_concurrency, should_queue}
use software_distribution_pl.Run.Creation.Seeds.{Hub, seed_tasks, seed_approvals}
use software_distribution_pl.Run.Creation.Quiet.{
  On, enqueue_dispatch-On, seed_tasks-On, seed_approvals-On,
}
use software_distribution_pl.Run.Creation.{
  store_run, enqueue_run, owner_of, envelope_of, new_run, admit_run, pending,
}

-- At most the limit under the policy queue and one run under forbid; other policies have no bound.
abbrev pub IsWithin : ℕ → Policy → ℕ → Type 0
IsWithin limit queue n = n ≤ concurrency_limit limit
IsWithin limit forbid n = n ≤ 1
IsWithin limit allow n = Unit
IsWithin limit (other c) n = Unit

IsWithin-le : (limit : ℕ) (p : Policy) (m n : ℕ) → m ≤ n → IsWithin limit p n → IsWithin limit p m
IsWithin-le limit queue m n le h = omega (arith, le, h)
IsWithin-le limit forbid m n le h = omega (arith, le, h)
IsWithin-le limit allow m n le h = tt
IsWithin-le limit (other c) m n le h = tt

module _ (limit k : ℕ) (defs : Definitions) (policy : Policy) where
  -- The definitions are those at the start, and the active runs of the pipeline are within its bound.
  abbrev pub Bound : List PipelineRun → Definitions → Type 0
  Bound rs d = (d ≡ defs) × IsWithin limit policy (count_where (occupies k) rs)

  -- A run that fails does not raise the number.
  count_where-fail_run :
      (r : PipelineRun) (i : ℕ) (m : String) (rs : List PipelineRun)
      → count_where
          (occupies k)
          (update_where (λ x. x.id == i) (λ _. record r { phase = failed; message = m }) rs)
        ≤ count_where (occupies k) rs
  unfolding update_where
  count_where-fail_run r i m [] = omega arith
  count_where-fail_run r i m (x ∷ rs) = ground (arith, count_where-fail_run r i m rs)

  enqueue_run-Bound :
      (h : Hub) (now : ℕ) (run : PipelineRun) (spec : RunSpec)
      → Keeps (On Bound) (enqueue_run h now run spec)
  unfolding enqueue_run
  enqueue_run-Bound h now run spec =
      Keeps-attempt (enqueue_dispatch h.dispatcher now run.id run.target_id (envelope_of run spec))
        _ (enqueue_dispatch-On Bound h.dispatcher now run.id run.target_id (envelope_of run spec))
        λ r.
          Keeps-outcome r (λ _. pure run)
            (λ e.
              regardless (update_run (record run { phase = failed; message = h.enqueue_failure e }))
                (fail e))
            (λ _. Keeps-pure run)
            λ e.
              Keeps-regardless
                (update_run (record run { phase = failed; message = h.enqueue_failure e })) (fail e)
                (Keeps-statement _ λ t u. (
                  u.0,
                  IsWithin-le limit policy _ (count_where (occupies k) t.runs)
                      (count_where-fail_run run run.id (h.enqueue_failure e) t.runs) u.1,
                ))
                (Keeps-fail e)

  -- Storing a run for which there is room.
  store_run-Bound :
      (h : Hub) (now : ℕ) (row : PipelineRun) (spec : RunSpec) (w : World Tables)
      → On Bound w.tables
      → IsWithin limit policy
          (count_where (occupies k) w.tables.runs + (if occupies k row then 1 else 0))
      → On Bound (store_run h now row spec w).1.tables
  unfolding store_run
  store_run-Bound h now row spec w u room =
      Keeps-from (create_run_row row) _ w
        (statement-either (On Bound) _ w u (
          u.0,
          IsWithin-le limit policy _ _
              (omega (
                arith,
                count_where-append (occupies k) w.tables.runs
                    ((record row { id = w.tables.next_id }) ∷ []),
              ))
              room,
        ))
        λ id. Keeps-bind (seed_tasks id spec.tasks) _ (seed_tasks-On Bound id spec.tasks) λ _.
          Keeps-bind
            (seed_approvals h now (owner_of h.component_meta row.pipeline_id)
              (record row { id = id }) spec.tasks)
            _
            (seed_approvals-On Bound h now (owner_of h.component_meta row.pipeline_id)
              (record row { id = id }) spec.tasks)
            λ _. enqueue_run-Bound h now (record row { id = id }) spec

-- A new run takes a place unless it waits.
room-queue :
    (limit k n : ℕ) (row : PipelineRun)
    → row.pipeline_id ≡ k
    → row.phase ≡ (if leb (concurrency_limit limit) n then pending_queue else pending)
    → n ≤ concurrency_limit limit
    → n + (if occupies k row then 1 else 0) ≤ concurrency_limit limit
room-queue limit k n row e p h = ground (arith, e, p)

room-forbid :
    (k n : ℕ) (row : PipelineRun) → leb 1 n ≡ false → n + (if occupies k row then 1 else 0) ≤ 1
room-forbid k n row e = ground (arith, e)

module _ (h : Hub) (now k target : ℕ) (spec : RunSpec) (ns : String) (params : List Param)
    (version : ℕ) (req : TriggerRequest) (defs : Definitions) where
  abbrev row_of : Phase → Tables → PipelineRun
  row_of phase t = new_run h now k target spec ns params version req phase (h.run_name t.next_id)

  admitted_queue :
      (fs : List Bool) (t : Tables)
      → On (Bound h.limit k defs queue) t
      → On
          (Bound h.limit k defs queue)
          (admit_run h now k target spec ns params version req queue
            (record { faults = fs; tables = t })).1.tables
  unfolding admit_run guard_concurrency should_queue
  admitted_queue (true ∷ fs) t u = u
  admitted_queue [] t u =
      let n = count_where (occupies k) t.runs in
      let phase : Phase = if leb (concurrency_limit h.limit) n then pending_queue else pending in
      store_run-Bound h.limit k defs queue h now (row_of phase t) spec
        (record { faults = []; tables = t }) u
        (room-queue h.limit k n (row_of phase t) refl refl u.1)
  admitted_queue (false ∷ fs) t u =
      let n = count_where (occupies k) t.runs in
      let phase : Phase = if leb (concurrency_limit h.limit) n then pending_queue else pending in
      store_run-Bound h.limit k defs queue h now (row_of phase t) spec
        (record { faults = fs; tables = t }) u
        (room-queue h.limit k n (row_of phase t) refl refl u.1)

  admitted_forbid :
      (fs : List Bool) (t : Tables)
      → On (Bound h.limit k defs forbid) t
      → On
          (Bound h.limit k defs forbid)
          (admit_run h now k target spec ns params version req forbid
            (record { faults = fs; tables = t })).1.tables
  unfolding admit_run guard_concurrency
  admitted_forbid (true ∷ fs) t u = u
  admitted_forbid [] t u = elim (Bool-cases (leb 1 (count_where (occupies k) t.runs))) [
    | inl full ↦ rw full u
    | inr free ↦ rw free (
        store_run-Bound h.limit k defs forbid h now (row_of pending t) spec
          (record { faults = []; tables = t }) u
          (room-forbid k (count_where (occupies k) t.runs) (row_of pending t) free))
  ]
  admitted_forbid (false ∷ fs) t u = elim (Bool-cases (leb 1 (count_where (occupies k) t.runs))) [
    | inl full ↦ rw full u
    | inr free ↦ rw free (
        store_run-Bound h.limit k defs forbid h now (row_of pending t) spec
          (record { faults = fs; tables = t }) u
          (room-forbid k (count_where (occupies k) t.runs) (row_of pending t) free))
  ]

  pub admit_run-Bound :
      (policy : Policy)
      → Keeps
          (On (Bound h.limit k defs policy))
          (admit_run h now k target spec ns params version req policy)
  unfolding admit_run guard_concurrency
  admit_run-Bound queue = record { at = λ w u. admitted_queue w.faults w.tables u }
  admit_run-Bound forbid = record { at = λ w u. admitted_forbid w.faults w.tables u }
  admit_run-Bound allow = record {
    at = λ w u. store_run-Bound h.limit k defs allow h now (row_of pending w.tables) spec w u tt;
  }
  admit_run-Bound (other c) = record {
    at =
        λ w u. store_run-Bound h.limit k defs (other c) h now (row_of pending w.tables) spec w u tt;
  }
