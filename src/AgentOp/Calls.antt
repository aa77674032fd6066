-- ===== src/AgentOp/Calls.antt =====
-- The calls of the agent-operation service, at their times and in any order.
use software_distribution_pl.Run.Status.Untouched.{P}
use software_distribution_pl.Common.{
  ℕ, String, ◌≡◌, true, List, [], ◌∷◌, Action, regardless, pure, refl, ◌==◌, ◌=ˢ◌, Keeps-pure,
  Keeps-fail, Keeps-statement, Keeps-if, Keeps-elim, Keeps-guarded, Keeps-bind, Keeps-regardless,
  Keeps, where_, query, Result, bad_request, conflict, All,
}
use software_distribution_pl.AgentOp.Ledger.{
  install, upgrade, OpStatus, queued, pending_approval, running, succeeded, failed, is_valid_type,
  is_valid_transition, is_valid_status, AgentOp, Ledger, insert_op, get_op, update_status,
  list_by_target_status_type, list_queued_by_target, list_by_status,
  list_targets_with_running_upgrades, ◌=ᵒ◌, append_log_row,
}
use software_distribution_pl.AgentOp.Service.{
  OpDispatcher, change, try_dispatch, create, approve_upgrade, reject_upgrade, reject_stale,
  sweep_approval_timeouts, publish, apply_status, apply_all, reconcile_install, reconcile_upgrade,
  fail_stale, sweep_targets, sweep_upgrade_timeouts, dispatch_all, drain_target, append_log,
  first_status, approval_message, rejection_message, is_recent,
}

-- One call of the service, at a time.
pub data Call : Type 0 where
  creates : AgentOp → Call
  approves : ℕ → String → Call
  rejects : ℕ → String → String → Call
  expires_approvals : ℕ → String → Call
  reports : ℕ → OpStatus → String → Call
  connects : ℕ → Call
  enrolls : ℕ → Call
  upgrades_to : ℕ → String → Call
  expires_upgrades : ℕ → String → Call
  logs : ℕ → String → String → Call

-- The value of a call is not looked at.
abbrev ignoring : {A : Type 0} → Action Ledger A → Action Ledger (Unit {0})
ignoring m = regardless m (pure tt)

unfoldable pub step : OpDispatcher → ℕ → Call → Action Ledger (Unit {0})
step d now (creates o) = ignoring (create d now o)
step d now (approves k who) = ignoring (approve_upgrade d now k who)
step d now (rejects k reason who) = ignoring (reject_upgrade now k reason who)
step d now (expires_approvals age message) = ignoring (sweep_approval_timeouts now age message)
step d now (reports k to message) = ignoring (apply_status now k to message)
step d now (connects target) = ignoring (drain_target d target)
step d now (enrolls target) = ignoring (reconcile_install now target)
step d now (upgrades_to target version) = ignoring (reconcile_upgrade now target version)
step d now (expires_upgrades age message) = ignoring (sweep_upgrade_timeouts now age message)
step d now (logs k stream chunk) = ignoring (append_log k stream chunk)

unfoldable pub run_calls : OpDispatcher → List (ℕ × Call) → Action Ledger (Unit {0})
run_calls d [] = pure tt
run_calls d ((now, c) ∷ cs) = regardless (step d now c) (run_calls d cs)

-- The calls that send something to a runner keep a property of the ledger.
abbrev pub SendingKeeps : (P : Ledger → Type 0) → OpDispatcher → ℕ → Call → Type 0
SendingKeeps P d now (creates x) = Keeps P (create d now x)
SendingKeeps P d now (approves k who) = Keeps P (approve_upgrade d now k who)
SendingKeeps P d now (connects target) = Keeps P (drain_target d target)
SendingKeeps P d now _ = Unit

-- The other calls keep what their statements keep.
module _ (P : Ledger → Type 0)
    (updates : (now k : ℕ) (from to : OpStatus) (message : String)
      → is_valid_transition from to ≡ true
      → Keeps P (update_status now k from to message))
    (publishes : (x : AgentOp) → Keeps P (change (publish x)))
    (appends : (k : ℕ) (stream chunk : String) → Keeps P (append_log_row k stream chunk)) where
  reads : {A : Type 0} (f : Ledger → Result A) → Keeps P (query f)
  reads f = Keeps-statement _ (λ t h. h)

  reject_upgrade-Keeps :
      (now k : ℕ) (reason who : String) → Keeps P (reject_upgrade now k reason who)
  unfolding reject_upgrade is_valid_transition
  reject_upgrade-Keeps now k reason who = Keeps-bind (get_op k) _ (reads _) λ x.
      Keeps-elim (x.status =ᵒ pending_approval) _ _
        (updates now x.id pending_approval failed (rejection_message who reason) refl)
        (Keeps-fail conflict)

  reject_stale-Keeps :
      (now age : ℕ) (message : String) (os : List AgentOp)
      → Keeps P (reject_stale now age message os)
  unfolding reject_stale is_valid_transition
  reject_stale-Keeps now age message [] = Keeps-pure tt
  reject_stale-Keeps now age message (x ∷ os) =
      Keeps-elim (is_recent now age x.created_at) _ _ (reject_stale-Keeps now age message os) (
        Keeps-regardless (update_status now x.id pending_approval failed message) _
          (updates now x.id pending_approval failed message refl)
          (reject_stale-Keeps now age message os))

  apply_status-Keeps :
      (now k : ℕ) (to : OpStatus) (message : String) → Keeps P (apply_status now k to message)
  unfolding apply_status
  apply_status-Keeps now k to message =
      Keeps-elim (is_valid_status to) _ _
        (Keeps-bind (get_op k) _ (reads _) λ x.
          Keeps-guarded (is_valid_transition x.status to) _ _
            (λ b.
              Keeps-bind (update_status now x.id x.status to message) _
                (updates now x.id x.status to message b)
                λ _.
                  Keeps-bind (change (publish (record x { status = to; message = message }))) _
                    (publishes (record x { status = to; message = message }))
                    (λ _. Keeps-pure (record x { status = to; message = message })))
            (λ _. Keeps-fail conflict))
        (Keeps-fail bad_request)

  apply_all-Keeps :
      (now : ℕ) (to : OpStatus) (message : String) (os : List AgentOp)
      → Keeps P (apply_all now to message os)
  unfolding apply_all
  apply_all-Keeps now to message [] = Keeps-pure tt
  apply_all-Keeps now to message (x ∷ os) =
      Keeps-bind (apply_status now x.id to message) _ (apply_status-Keeps now x.id to message)
        (λ _. apply_all-Keeps now to message os)

  fail_stale-Keeps :
      (now age : ℕ) (message : String) (os : List AgentOp) → Keeps P (fail_stale now age message os)
  unfolding fail_stale
  fail_stale-Keeps now age message [] = Keeps-pure tt
  fail_stale-Keeps now age message (x ∷ os) =
      Keeps-elim (is_recent now age x.updated_at) _ _ (fail_stale-Keeps now age message os) (
        Keeps-regardless (apply_status now x.id failed message) _
          (apply_status-Keeps now x.id failed message) (fail_stale-Keeps now age message os))

  sweep_targets-Keeps :
      (now age : ℕ) (message : String) (targets : List ℕ)
      → Keeps P (sweep_targets now age message targets)
  unfolding sweep_targets
  sweep_targets-Keeps now age message [] = Keeps-pure tt
  sweep_targets-Keeps now age message (target ∷ targets) =
      Keeps-bind (list_by_target_status_type target running upgrade) _ (reads _) λ os.
        Keeps-bind (fail_stale now age message os) _ (fail_stale-Keeps now age message os)
          (λ _. sweep_targets-Keeps now age message targets)

  ignoring-Keeps : {A : Type 0} (m : Action Ledger A) → Keeps P m → Keeps P (ignoring m)
  ignoring-Keeps m k = Keeps-regardless m (pure tt) k (Keeps-pure tt)

  step-Keeps :
      (d : OpDispatcher) (now : ℕ) (c : Call) → SendingKeeps P d now c → Keeps P (step d now c)
  unfolding step sweep_approval_timeouts reconcile_install reconcile_upgrade sweep_upgrade_timeouts
      append_log
  step-Keeps d now (creates x) s = ignoring-Keeps _ s
  step-Keeps d now (approves k who) s = ignoring-Keeps _ s
  step-Keeps d now (rejects k reason who) s =
      ignoring-Keeps _ (reject_upgrade-Keeps now k reason who)
  step-Keeps d now (expires_approvals age message) s = ignoring-Keeps _ (
      Keeps-bind (list_by_status pending_approval) _ (reads _) (reject_stale-Keeps now age message))
  step-Keeps d now (reports k to message) s = ignoring-Keeps _ (apply_status-Keeps now k to message)
  step-Keeps d now (connects target) s = ignoring-Keeps _ s
  step-Keeps d now (enrolls target) s = ignoring-Keeps _ (
      Keeps-bind (list_by_target_status_type target queued install) _ (reads _)
        (λ os. apply_all-Keeps now succeeded _ os))
  step-Keeps d now (upgrades_to target version) s = ignoring-Keeps _ (
      Keeps-bind (list_by_target_status_type target running upgrade) _ (reads _)
        (λ os. apply_all-Keeps now succeeded _ (where_ (λ x. x.detail =ˢ version) os)))
  step-Keeps d now (expires_upgrades age message) s = ignoring-Keeps _ (
      Keeps-bind list_targets_with_running_upgrades _ (reads _)
        (sweep_targets-Keeps now age message))
  step-Keeps d now (logs k stream chunk) s =
      ignoring-Keeps _ (Keeps-bind (get_op k) _ (reads _) (λ _. appends k stream chunk))

  pub run_calls-each :
      (d : OpDispatcher) (cs : List (ℕ × Call))
      → All (λ c. SendingKeeps P d c.0 c.1) cs
      → Keeps P (run_calls d cs)
  unfolding run_calls
  run_calls-each d [] s = Keeps-pure tt
  run_calls-each d ((now, c) ∷ cs) s =
      Keeps-regardless (step d now c) (run_calls d cs) (step-Keeps d now c s.0)
        (run_calls-each d cs s.1)

-- What every statement of the service keeps, every run of calls keeps.
module _ (P : Ledger → Type 0)
    (updates : (now k : ℕ) (from to : OpStatus) (message : String)
      → is_valid_transition from to ≡ true
      → Keeps P (update_status now k from to message))
    (inserts : (now : ℕ) (x : AgentOp) → Keeps P (insert_op now x))
    (pushes : (d : OpDispatcher) (x : AgentOp) → Keeps P (try_dispatch d x)) where
  create-Keeps : (d : OpDispatcher) (now : ℕ) (x : AgentOp) → Keeps P (create d now x)
  unfolding create
  create-Keeps d now x =
      Keeps-if (is_valid_type x.op_type) _ _
        (Keeps-if (x.target_id == 0) _ _ (Keeps-fail bad_request) (
          Keeps-bind (insert_op now (record x { status = first_status x.op_type })) (try_dispatch d)
            (inserts now (record x { status = first_status x.op_type })) (λ y. pushes d y)))
        (Keeps-fail bad_request)

  approve_upgrade-Keeps :
      (d : OpDispatcher) (now k : ℕ) (who : String) → Keeps P (approve_upgrade d now k who)
  unfolding approve_upgrade is_valid_transition
  approve_upgrade-Keeps d now k who = Keeps-bind (get_op k) _ (Keeps-statement _ (λ t h. h)) λ x.
      Keeps-elim (x.status =ᵒ pending_approval) _ _
        (Keeps-bind (update_status now x.id pending_approval queued (approval_message who)) _
          (updates now x.id pending_approval queued (approval_message who) refl)
          (λ _. pushes d (record x { status = queued })))
        (Keeps-fail conflict)

  dispatch_all-Keeps : (d : OpDispatcher) (os : List AgentOp) → Keeps P (dispatch_all d os)
  unfolding dispatch_all
  dispatch_all-Keeps d [] = Keeps-pure tt
  dispatch_all-Keeps d (x ∷ os) =
      Keeps-bind (try_dispatch d x) _ (pushes d x) (λ _. dispatch_all-Keeps d os)

  sending-Keeps : (d : OpDispatcher) (now : ℕ) (c : Call) → SendingKeeps P d now c
  unfolding drain_target
  sending-Keeps d now (creates x) = create-Keeps d now x
  sending-Keeps d now (approves k who) = approve_upgrade-Keeps d now k who
  sending-Keeps d now (connects target) =
      Keeps-bind (list_queued_by_target target) _ (Keeps-statement _ (λ t h. h))
        (dispatch_all-Keeps d)
  sending-Keeps d now (rejects k reason who) = tt
  sending-Keeps d now (expires_approvals age message) = tt
  sending-Keeps d now (reports k to message) = tt
  sending-Keeps d now (enrolls target) = tt
  sending-Keeps d now (upgrades_to target version) = tt
  sending-Keeps d now (expires_upgrades age message) = tt
  sending-Keeps d now (logs k stream chunk) = tt

  sendings-Keep : (d : OpDispatcher) (cs : List (ℕ × Call)) → All (λ c. SendingKeeps P d c.0 c.1) cs
  sendings-Keep d [] = tt
  sendings-Keep d ((now, c) ∷ cs) = (sending-Keeps d now c, sendings-Keep d cs)

  pub run_calls-Keeps :
      (publishes : (x : AgentOp) → Keeps P (change (publish x)))
      → (appends : (k : ℕ) (stream chunk : String) → Keeps P (append_log_row k stream chunk))
      → (d : OpDispatcher) (cs : List (ℕ × Call)) → Keeps P (run_calls d cs)
  run_calls-Keeps publishes appends d cs =
      run_calls-each P updates publishes appends d cs (sendings-Keep d cs)
