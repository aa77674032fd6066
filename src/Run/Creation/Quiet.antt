-- ===== src/Run/Creation/Quiet.antt =====
-- Calls that leave the rows of runs and the definitions as they are: a delivery, the first dispatch
-- job of a run, and the seeds of a run.
use software_distribution_pl.Run.Rows.{is_queued, get_run}
use software_distribution_pl.Run.Concurrency.{dispatch_state_for_run}
use software_distribution_pl.Common.{
  ℕ, Bool, true, false, Option, none, some, List, [], ◌∷◌, Result, ok, err, Error, Keeps,
  Keeps-pure, Keeps-fail, Keeps-statement, Keeps-if, Keeps-elim, Keeps-bind, Keeps-regardless,
  Keeps-attempt, ◌==◌, String, if◌then◌else◌, Action, pure, fail, not_found, ◌&&◌, not, ◌=ˢ◌,
  Keeps-outcome, ◌>>=◌, attempt,
}
use software_distribution_pl.Run.Spec.{Apply, TaskSpec}
use software_distribution_pl.Run.Definitions.{Definitions, ApprovalPolicy}
use software_distribution_pl.Run.Tables.{
  Tables, PipelineRun, DispatchJob, decode, JobState, held, encoded, notice,
}
use software_distribution_pl.Run.Jobs.{get_job, mark_dispatching, mark_dead, create_job}
use software_distribution_pl.Run.Delivery.Attempt.{
  Dispatcher, try_deliver, claim_and_push, push, after_push, after_failure, is_closed,
}
use software_distribution_pl.Run.Control.{enqueue_dispatch, new_job}
use software_distribution_pl.Run.Creation.Seeds.{
  Hub, Owner, seed_tasks, seed_approvals, seed_each, seed_approval, assignee_for, policy_for,
  or_default, default_policy, assignees_of, notify_approval, send, create_task_run, get_task_run,
  new_task_run, create_approval, new_approval, is_approval,
}

module _ (R : List PipelineRun → Definitions → Type 0) where
  -- A predicate of the runs and the definitions.
  abbrev pub On : Tables → Type 0
  On t = R t.runs t.definitions

  after_push-On : (now : ℕ) (j : DispatchJob) (o : Option Error) → Keeps On (after_push now j o)
  unfolding after_push after_failure
  after_push-On now j none = Keeps-statement _ (λ t u. u)
  after_push-On now j (some e) =
      Keeps-regardless (after_failure now j e) (fail e)
        (Keeps-if _ _ _ (Keeps-statement _ (λ t u. u)) (Keeps-statement _ (λ t u. u)))
        (Keeps-fail e)

  push-On :
      (d : Dispatcher) (now : ℕ) (j : DispatchJob) (r : Result Apply) → Keeps On (push d now j r)
  unfolding push
  push-On d now j (ok a) = after_push-On now j (d j.target_id a)
  push-On d now j (err e) =
      Keeps-regardless (mark_dead j.id e) (fail e) (Keeps-statement _ (λ t u. u)) (Keeps-fail e)

  pub try_deliver-On : (d : Dispatcher) (now k : ℕ) → Keeps On (try_deliver d now k)
  unfolding try_deliver claim_and_push
  try_deliver-On d now k = Keeps-bind (get_job k) _ (Keeps-statement _ (λ t u. u)) λ j.
      Keeps-elim (is_closed j.state) _ _ (Keeps-pure tt) (
        Keeps-bind (mark_dispatching k) _ (Keeps-statement _ (λ t u. u))
          λ n. Keeps-elim (n == 0) _ _ (Keeps-pure tt) (push-On d now j (decode j.payload)))

  pub enqueue_dispatch-On :
      (d : Dispatcher) (now run target : ℕ) (a : Apply)
      → Keeps On (enqueue_dispatch d now run target a)
  unfolding enqueue_dispatch dispatch_state_for_run
  enqueue_dispatch-On d now run target a =
      Keeps-bind (dispatch_state_for_run run) _
        (Keeps-attempt (get_run run) _ (Keeps-statement _ (λ t u. u)) (λ r. state r))
        λ s.
          Keeps-bind (create_job (new_job run target (encoded a) s)) _
            (Keeps-statement _ (λ t u. u))
            λ id.
              Keeps-regardless (try_deliver d now id) (pure tt) (try_deliver-On d now id)
                (Keeps-pure tt)
    where
      state :
          (r : Result PipelineRun)
          → Keeps On (elim r [
            | err e ↦ pure JobState.pending
            | ok run ↦ pure (if is_queued run.phase then held else JobState.pending)
          ])
      state (ok x) = Keeps-pure _
      state (err e) = Keeps-pure _

  pub seed_tasks-On : (run : ℕ) (ts : List TaskSpec) → Keeps On (seed_tasks run ts)
  unfolding seed_tasks
  seed_tasks-On run [] = Keeps-pure tt
  seed_tasks-On run (t ∷ ts) =
      Keeps-bind (create_task_run (new_task_run run t)) _ (Keeps-statement _ (λ t u. u))
        λ _. seed_tasks-On run ts

  default_policy-On : (c : ℕ) → Keeps On (default_policy c)
  default_policy-On c = Keeps-statement _ (λ t u. u)

  or_default-On : (c : ℕ) (r : Result ApprovalPolicy) → Keeps On (or_default c r)
  or_default-On c (ok p) = Keeps-pure p
  or_default-On c (err not_found) = default_policy-On c
  or_default-On c (err _) = Keeps-fail _

  policy_for-On : (c e : ℕ) → Keeps On (policy_for c e)
  unfolding policy_for
  policy_for-On c e =
      Keeps-attempt _ (or_default c) (Keeps-statement _ (λ t u. u)) (or_default-On c)

  assignees_of-On :
      (m : Action Tables ApprovalPolicy) (n : Action Tables String)
      → Keeps On m
      → Keeps On n
      → Keeps On (assignees_of m n)
  assignees_of-On m n km kn = Keeps-attempt m _ km after
    where
      after :
          (r : Result ApprovalPolicy) → Keeps On (elim r [ ok p ↦ pure p.assignees | err e ↦ n ])
      after (ok p) = Keeps-pure _
      after (err e) = kn

  assignee_for-On : (b : Bool) (c : ℕ) (e : Option ℕ) → Keeps On (assignee_for b c e)
  unfolding assignee_for
  assignee_for-On false c e = Keeps-pure ""
  assignee_for-On true c none =
      assignees_of-On (policy_for c 0) (pure "") (policy_for-On c 0) (Keeps-pure "")
  assignee_for-On true c (some e) =
      assignees_of-On (policy_for c e) _ (policy_for-On c e)
        (assignees_of-On (policy_for c 0) (pure "") (policy_for-On c 0) (Keeps-pure ""))

  notify_approval-On : (h : Hub) (run : PipelineRun) → Keeps On (notify_approval h run)
  notify_approval-On h run =
      Keeps-if (h.has_notices && not (run.triggered_by =ˢ ""))
        (send (notice "approval_required" run.triggered_by run.cr_name)) (pure tt)
        (record { at = λ w u. u }) (Keeps-pure tt)

  seed_approval-On :
      (h : Hub) (now : ℕ) (o : Owner) (run : PipelineRun) (t : TaskSpec)
      → Keeps On (seed_approval h now o run t)
  unfolding seed_approval
  seed_approval-On h now o run t =
      Keeps-attempt (get_task_run run.id t.name) _ (Keeps-statement _ (λ t u. u)) λ r.
        Keeps-outcome r
          (λ tr. assignee_for h.has_policies o.component_id run.environment_id >>= λ a.
            attempt (create_approval (new_approval now o run tr.id a))
              λ c. elim c [ ok _ ↦ notify_approval h run | err e ↦ pure tt ])
          (λ e. pure tt)
          (λ tr.
            Keeps-bind (assignee_for h.has_policies o.component_id run.environment_id) _
              (assignee_for-On h.has_policies o.component_id run.environment_id)
              λ a.
                Keeps-attempt (create_approval (new_approval now o run tr.id a)) _
                  (Keeps-statement _ (λ t u. u))
                  λ c.
                    Keeps-outcome c (λ _. notify_approval h run) (λ _. pure tt)
                      (λ _. notify_approval-On h run) (λ _. Keeps-pure tt))
          (λ e. Keeps-pure tt)

  seed_each-On :
      (h : Hub) (now : ℕ) (o : Owner) (run : PipelineRun) (ts : List TaskSpec)
      → Keeps On (seed_each h now o run ts)
  unfolding seed_each
  seed_each-On h now o run [] = Keeps-pure tt
  seed_each-On h now o run (t ∷ ts) =
      Keeps-elim (is_approval t.task_type) _ (seed_each h now o run ts)
        (Keeps-bind (seed_approval h now o run t) _ (seed_approval-On h now o run t)
          λ _. seed_each-On h now o run ts)
        (seed_each-On h now o run ts)

  pub seed_approvals-On :
      (h : Hub) (now : ℕ) (o : Option Owner) (run : PipelineRun) (ts : List TaskSpec)
      → Keeps On (seed_approvals h now o run ts)
  unfolding seed_approvals
  seed_approvals-On h now none run ts = Keeps-pure tt
  seed_approvals-On h now (some o) run ts =
      Keeps-if h.has_approvals (seed_each h now o run ts) (pure tt) (seed_each-On h now o run ts)
        (Keeps-pure tt)
