-- ===== src/Run/Approval/Gate.antt =====
-- What Approve asks before it relays a decision, and what it leaves when the relay fails.
use software_distribution_pl.Common.{
  ℕ, String, Bool, true, false, not, Option, none, some, [], ◌∷◌, ◌++◌, ◌≡◌, refl, ap, World,
  Result, ok, err, Error, up, find_where, update_where, find_row, Option-cases, inl, inr,
  Bool-cases, ◌==◌, ◌≢◌, then_, arith, eq_iff, ◌=ˢ◌, ==_iff,
}
use software_distribution_pl.Run.Spec.{approval, TaskType}
use software_distribution_pl.Run.Tables.{
  PipelineRun, TaskRun, PipelineApproval, decided, Tables, run_id,
}
use software_distribution_pl.Run.Creation.Seeds.{is_task_of, is_approval}
use software_distribution_pl.Run.Approval.{
  Relay, decide, record_decision, relay_decision, is_pending, is_decided, is_own, approval_of,
  resolved, relay_outcome, check_task, approve,
}

abbrev pub task_run_of : ℕ → String → Tables → Option TaskRun
task_run_of k name t = find_where (is_task_of k name) t.task_runs

abbrev pub run_of : ℕ → Tables → Option PipelineRun
run_of k t = find_row run_id k t.runs

-- The row of the approval, if there is one, is pending and was not requested by the approver.
abbrev pub MayDecide : String → Option PipelineApproval → Type 0
MayDecide approver none = Unit
MayDecide approver (some a) = (is_pending a.status ≡ true) × (is_own a approver ≡ false)

-- What a decision that reached the runner had to pass.
abbrev pub MayApprove : ℕ → ℕ → String → String → PipelineRun → Tables → Type 0
MayApprove pipeline k task approver run t =
    (run_of k t ≡ some run)
    × (run.pipeline_id ≡ pipeline)
    × (approver ≢ "")
    × ((tr : TaskRun) × (task_run_of k task t ≡ some tr)
        × (tr.task_type ≡ approval)
        × (is_decided tr.phase ≡ false)
        × MayDecide approver (approval_of k tr.id t))

-- The checks before the decision have passed.
abbrev pub IsChecked : ℕ → ℕ → String → String → Tables → PipelineRun → TaskRun → Type 0
IsChecked pipeline k task approver t run tr =
    (run_of k t ≡ some run)
    × (run.pipeline_id ≡ pipeline)
    × (approver ≢ "")
    × (task_run_of k task t ≡ some tr)
    × (tr.task_type ≡ approval)
    × (is_decided tr.phase ≡ false)

-- A call that fails sends nothing; one that succeeds has passed the gate and sends the decision.
abbrev pub IsGated :
    ℕ → ℕ → String → String → Bool → Tables → Result (Unit {0}) × World Tables → Type 0
IsGated pipeline k task approver is_approved t (err e, w) = w.tables.sent ≡ t.sent
IsGated pipeline k task approver is_approved t (ok u, w) =
    (run : PipelineRun) × MayApprove pipeline k task approver run t
    × (w.tables.sent
        ≡ t.sent ++ decided run.target_id run.cr_name task approver (not is_approved) ∷ [])

module _ (relay : Relay) (now pipeline k : ℕ) (task approver : String) (is_approved : Bool)
    (t : Tables) where
  abbrev Gated : Result (Unit {0}) × World Tables → Type 0
  Gated = IsGated pipeline k task approver is_approved t

  relayed :
      (run : PipelineRun) (o : Option Error) (w : World Tables)
      → MayApprove pipeline k task approver run t
      → w.tables.sent ≡ t.sent
      → Gated
          (relay_outcome o (decided run.target_id run.cr_name task approver (not is_approved)) w)
  relayed run (some e) w may same = same
  relayed run none w may same = (
    run,
    may,
    ap (λ s. s ++ decided run.target_id run.cr_name task approver (not is_approved) ∷ []) same,
  )

  abbrev relay_now : PipelineRun → World Tables → Result (Unit {0}) × World Tables
  relay_now run = relay_decision relay run task approver (not is_approved)

  decided_now :
      (run : PipelineRun) (tr : TaskRun)
      → IsChecked pipeline k task approver t run tr
      → Gated (then_ (decide true now k tr.id approver is_approved (up t)) (λ _. relay_now run))
  unfolding decide record_decision
  decided_now run tr (r, p, n, s, y, d) = elim (Option-cases (approval_of k tr.id t)) [
    | inl e ↦ rw e (relayed run _ (up t) (r, p, n, (tr, s, y, d, rw e tt)) refl)
    | inr (a, e) ↦ elim (Bool-cases (is_pending a.status)) [
      | inr q ↦ rw (e, record_decision, q) refl
      | inl q ↦ elim (Bool-cases (is_own a approver)) [
        | inl o ↦ rw (e, record_decision, q, o) refl
        | inr o ↦
            rw (e, record_decision, q, o)
              (relayed run _
                (up (record t {
                  approvals =
                      update_where (λ x. x.id == a.id) (λ _. resolved now approver is_approved a)
                        t.approvals;
                }))
                (r, p, n, (tr, s, y, d, rw e (q, o))) refl)
      ]
    ]
  ]

  checked_now :
      (run : PipelineRun) (tr : TaskRun)
      → run_of k t ≡ some run
      → run.pipeline_id ≡ pipeline
      → task_run_of k task t ≡ some tr
      → Gated (
          then_
            (check_task tr approver (up t))
            λ _ w. then_ (decide true now k tr.id approver is_approved w) (λ _. relay_now run))
  checked_now run tr r p s = elim (Bool-cases (is_approval tr.task_type)) [
    | inr y ↦ rw y refl
    | inl y ↦ elim (Bool-cases (is_decided tr.phase)) [
      | inl d ↦ rw (y, d) refl
      | inr d ↦ elim (Bool-cases (approver =ˢ "")) [
        | inl n ↦ rw (y, d, n) refl
        | inr n ↦ rw (y, d, n) (decided_now run tr (r, p, named n, s, typed tr.task_type y, d))
      ]
    ]
  ]
    where
      named : (approver =ˢ "") ≡ false → approver ≢ ""
      named n = ground (arith, n, eq_iff approver "")

      typed : (y : TaskType) → is_approval y ≡ true → y ≡ approval
      typed y h = ground (arith, h)

  -- When the statements succeed, Approve sends nothing if it fails; if it succeeds it sends the
  -- decision once, and the run is one of the pipeline, the task is an undecided approval task of
  -- it, the approver is named, and its approval row, if there is one, was pending and not
  -- requested by the approver.
  pub approve-IsGated :
      IsGated pipeline k task approver is_approved t
        (approve relay true now pipeline k task is_approved approver (up t))
  unfolding approve
  approve-IsGated = elim (Option-cases (run_of k t)) [
    | inl e ↦ rw e refl
    | inr (run, e) ↦ elim (Bool-cases (run.pipeline_id == pipeline)) [
      | inr p ↦ rw (e, p) refl
      | inl p ↦ elim (Option-cases (task_run_of k task t)) [
        | inl s ↦ rw (e, p, s) refl
        | inr (tr, s) ↦
            rw (e, p, s) (checked_now run tr e ((==_iff run.pipeline_id pipeline).0 p) s)
      ]
    ]
  ]
