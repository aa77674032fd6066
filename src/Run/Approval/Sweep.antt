-- ===== src/Run/Approval/Sweep.antt =====
-- The sweep of expired approvals and the runners that it tells.
use software_distribution_pl.Common.{
  ℕ, String, Bool, true, false, ◌&&◌, ◌||◌, not, Option, none, some, List, [], ◌∷◌, ◌++◌, ◌≡◌, refl,
  World, Result, ok, err, Error, All, any, Keeps, Keeps-pure, Keeps-fail, Keeps-statement,
  Keeps-bind, Keeps-elim, Keeps-attempt, Keeps-attempt_read, Keeps-outcome, arith, ◌==◌, ◌=ˢ◌,
  update_where-All, required, find_row, attempt, pure, ◌+◌, eq_refl, Action,
}
use software_distribution_pl.Run.Tables.{
  PipelineRun, PipelineApproval, Message, decided, run_finished, notice, Tables, run_id,
}
use software_distribution_pl.Run.Definitions.{Stage}
use software_distribution_pl.Run.Approval.{
  Relay, sweep_approval_timeouts, sweep_each, sweep_task, sweep_run, close_expired,
  approval_timeout_for, find_timeout, or_next, template_timeout, relay_outcome, timed_out,
  auto_approver, update_approval, list_pending, name_of_task, list_task_runs, approval_expired,
  close_row,
}
use software_distribution_pl.Run.Build.{list_stages, list_templates}
use software_distribution_pl.Run.Approval.Gate.{run_of}

-- A rejection that the runner of a run took, in the name of the sweep.
abbrev pub is_auto_rejection : PipelineRun → Message → Bool
is_auto_rejection run (decided target name task approver is_rejected) =
    (target == run.target_id) && (name =ˢ run.cr_name) && (approver =ˢ auto_approver) && is_rejected
is_auto_rejection run (run_finished pid phase) = false
is_auto_rejection run (notice event subject name) = false

-- The runner of this run was told.
abbrev pub WasTold : Tables → PipelineRun → Type 0
WasTold t run = any (is_auto_rejection run) t.sent ≡ true

-- An approval in the name of the sweep belongs to a run whose runner was told.
abbrev pub IsClosedLate : Tables → PipelineApproval → Type 0
IsClosedLate t a =
    (a.approver =ˢ auto_approver) ≡ true
    → (run : PipelineRun) × (run_of a.run_id t ≡ some run) × WasTold t run

abbrev pub AllClosedLate : Tables → Type 0
AllClosedLate t = All (IsClosedLate t) t.approvals

any-send :
    (run : PipelineRun) (ms : List Message) (m : Message)
    → any (is_auto_rejection run) ms ≡ true
    → any (is_auto_rejection run) (ms ++ m ∷ []) ≡ true
any-send run [] m h = absurd (cc)
any-send run (x ∷ ms) m h = ground (arith, any-send run ms m)

any-sent :
    (run : PipelineRun) (ms : List Message) (m : Message)
    → is_auto_rejection run m ≡ true
    → any (is_auto_rejection run) (ms ++ m ∷ []) ≡ true
any-sent run [] m h = rw h refl
any-sent run (x ∷ ms) m h = ground (arith, any-sent run ms m)

abbrev with_message : Message → Tables → Tables
with_message m t = record t { sent = t.sent ++ m ∷ [] }

closed-send :
    (t : Tables) (m : Message) (as_ : List PipelineApproval)
    → All (IsClosedLate t) as_
    → All (IsClosedLate (with_message m t)) as_
closed-send t m [] h = tt
closed-send t m (a ∷ rest) h = (
  λ q. let (run, r, told) = h.0 q in (run, r, any-send run t.sent m told),
  closed-send t m rest h.1,
)

module _ (relay : Relay) (now : ℕ) (a : PipelineApproval) (run : PipelineRun) where
  -- The invariant, with the run of the approval.
  abbrev Known : Tables → Type 0
  Known t = AllClosedLate t × (run_of a.run_id t ≡ some run)

  abbrev Told : Tables → Type 0
  Told t = Known t × WasTold t run

  update-Told : Keeps Told (update_approval (timed_out now a))
  update-Told = Keeps-statement _ λ t u. (
    (
      update_where-All (IsClosedLate t) (λ x. x.id == a.id) (λ _. timed_out now a)
          (λ r _ _ _. (run, u.0.1, u.1)) t.approvals u.0.0,
      u.0.1,
    ),
    u.1,
  )

  close_row-Told : (r : Result (Unit {0})) → Keeps Told (close_row now a r)
  close_row-Told (err e) = Keeps-pure 0
  close_row-Told (ok x) =
      Keeps-attempt (update_approval (timed_out now a)) _ update-Told
        λ u. Keeps-outcome u (λ _. pure 1) (λ _. pure 0) (λ _. Keeps-pure 1) (λ _. Keeps-pure 0)

  close_expired-Known : (task : String) → Keeps Known (close_expired relay now a run task)
  unfolding close_expired
  close_expired-Known task = record {
    at = λ w u. answered (relay run.target_id run.cr_name task auto_approver true) w u;
  }
    where
      answered :
          (o : Option Error) (w : World Tables)
          → Known w.tables
          → Known
              (attempt
                (relay_outcome o (decided run.target_id run.cr_name task auto_approver true))
                (close_row now a)
                w).1.tables
      answered (some e) w u = u
      answered none w u =
          let m = decided run.target_id run.cr_name task auto_approver true in
          let told : Told (with_message m w.tables) = (
            (closed-send w.tables m w.tables.approvals u.0, u.1),
            any-sent run w.tables.sent m
                (ground (arith, eq_refl run.cr_name, eq_refl auto_approver)),
          ) in
          ((close_row-Told (ok tt)).at (record w { tables = with_message m w.tables }) told).0

  or_next-Known :
      (o : Option (Result ℕ)) (m : Action Tables ℕ) → Keeps Known m → Keeps Known (or_next o m)
  or_next-Known none m k = k
  or_next-Known (some (ok n)) m k = Keeps-pure n
  or_next-Known (some (err e)) m k = Keeps-fail e

  find_timeout-Known : (name : String) (ss : List Stage) → Keeps Known (find_timeout name ss)
  unfolding find_timeout
  find_timeout-Known name [] = Keeps-pure 0
  find_timeout-Known name (s ∷ ss) =
      Keeps-bind (list_templates s.id) _ (Keeps-statement _ (λ t u. u)) λ tpls.
        or_next-Known (template_timeout name tpls) (find_timeout name ss)
          (find_timeout-Known name ss)

  approval_timeout_for-Known : (task : ℕ) → Keeps Known (approval_timeout_for run task)
  unfolding approval_timeout_for
  approval_timeout_for-Known task =
      Keeps-bind (list_task_runs run.id) _ (Keeps-statement _ (λ t u. u)) λ rows.
        Keeps-elim (name_of_task task rows =ˢ "") _ _ (Keeps-pure ("", 0)) (
          Keeps-bind (list_stages run.pipeline_id) _ (Keeps-statement _ (λ t u. u)) λ stages.
            Keeps-bind (find_timeout (name_of_task task rows) stages) _
              (find_timeout-Known (name_of_task task rows) stages)
              λ n. Keeps-pure (name_of_task task rows, n))

  sweep_run-Known : (task : ℕ) → Keeps Known (sweep_run relay now a task run)
  unfolding sweep_run
  sweep_run-Known task =
      Keeps-attempt (approval_timeout_for run task) _ (approval_timeout_for-Known task) λ r.
        Keeps-outcome r
          (λ n. elim ((n.0 =ˢ "") || not (approval_expired a.created_at n.1 now)) [
            | true ↦ pure 0
            | false ↦ close_expired relay now a run n.0
          ])
          (λ _. pure 0)
          (λ n.
            Keeps-elim ((n.0 =ˢ "") || not (approval_expired a.created_at n.1 now)) (pure 0)
              (close_expired relay now a run n.0) (Keeps-pure 0) (close_expired-Known n.0))
          (λ _. Keeps-pure 0)

module _ (relay : Relay) (now : ℕ) where
  sweep_task-AllClosedLate :
      (a : PipelineApproval) (o : Option ℕ) → Keeps AllClosedLate (sweep_task relay now a o)
  sweep_task-AllClosedLate a none = Keeps-pure 0
  sweep_task-AllClosedLate a (some task) =
      Keeps-attempt_read (λ t. required (find_row run_id a.run_id t.runs))
        (λ r. elim r [ err e ↦ pure 0 | ok run ↦ sweep_run relay now a task run ])
        (λ run w e u. ((sweep_run-Known relay now a run task).at w (u, found run w e)).0)
        (λ _. Keeps-pure 0)
    where
      found :
          (run : PipelineRun) (w : World Tables)
          → required (find_row run_id a.run_id w.tables.runs) ≡ ok run
          → run_of a.run_id w.tables ≡ some run
      found run w e = ground (arith, e)

  sweep_each-AllClosedLate :
      (xs : List PipelineApproval) → Keeps AllClosedLate (sweep_each relay now xs)
  unfolding sweep_each
  sweep_each-AllClosedLate [] = Keeps-pure 0
  sweep_each-AllClosedLate (a ∷ rest) =
      Keeps-bind (sweep_task relay now a a.task_run_id) _ (sweep_task-AllClosedLate a a.task_run_id)
        λ n.
          Keeps-bind (sweep_each relay now rest) _ (sweep_each-AllClosedLate rest)
            λ m. Keeps-pure (n + m)

  -- Whatever statements the store refuses and the relay answers, when the runner of each run with
  -- an approval closed by the sweep was told of the rejection, that is still so after a sweep of
  -- the timeouts.
  pub sweep_approval_timeouts-AllClosedLate :
      (has_approvals : Bool) (w : World Tables)
      → AllClosedLate w.tables
      → AllClosedLate (sweep_approval_timeouts relay has_approvals now w).1.tables
  unfolding sweep_approval_timeouts
  sweep_approval_timeouts-AllClosedLate false w u = u
  sweep_approval_timeouts-AllClosedLate true w u =
      (Keeps-bind (list_pending 500) (sweep_each relay now) (Keeps-statement _ (λ t v. v))
          sweep_each-AllClosedLate).at
        w u
