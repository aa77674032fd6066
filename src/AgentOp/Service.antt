-- ===== src/AgentOp/Service.antt =====
-- internal/target/service/agent_op.go. The dispatcher says what pushing an operation to its
-- target's runner gives: `none` for success, or the error.
use software_distribution_pl.Common.{
  ℕ, ◌-◌, String, Bool, true, false, ◌&&◌, ◌||◌, Option, none, some, List, [], ◌∷◌, ◌++◌,
  if◌then◌else◌, leb, ◌==◌, ◌=ˢ◌, where_, Action, ◌>>=◌, regardless, pure, fail, Error, bad_request,
  conflict, ok,
}
use software_distribution_pl.AgentOp.Ledger.{
  OpType, exec, install, upgrade, OpStatus, queued, pending_approval, running, succeeded, failed,
  is_valid_type, is_valid_transition, is_valid_status, AgentOp, OpLog, Ledger, insert_op, get_op,
  update_status, append_log_row, list_logs, list_by_target_status_type, list_queued_by_target,
  list_by_status, list_targets_with_running_upgrades, ◌=ᵒ◌, ◌=ᵗ◌,
}
use Prim.Native.String.{◌++◌ as text_append}

abbrev pub OpDispatcher : Type 0
OpDispatcher = AgentOp → Option Error

abbrev pub push_out : Option Error → AgentOp → Ledger → Ledger
push_out none o t = record t { outbox = t.outbox ++ o ∷ [] }
push_out (some e) o t = t

-- No statement: the gateway is not the store.
abbrev pub change : (Ledger → Ledger) → Action Ledger (Unit {0})
change f w = (ok tt, record w { tables = f w.tables })

abbrev pub is_dispatchable : AgentOp → Bool
is_dispatchable o = (o.status =ᵒ queued) && ((o.op_type =ᵗ exec) || (o.op_type =ᵗ upgrade))

-- Best effort: an error of the dispatcher is only logged.
unfoldable pub try_dispatch : OpDispatcher → AgentOp → Action Ledger (Unit {0})
try_dispatch d o = elim (is_dispatchable o) [ false ↦ pure tt | true ↦ change (push_out (d o) o) ]

abbrev pub first_status : OpType → OpStatus
first_status upgrade = pending_approval
first_status _ = queued

-- A nil target is the id 0.
unfoldable pub create : OpDispatcher → ℕ → AgentOp → Action Ledger (Unit {0})
unfolding try_dispatch is_valid_type
create d now o =
    if is_valid_type o.op_type
    then (if o.target_id == 0
        then fail bad_request
        else (insert_op now (record o { status = first_status o.op_type }) >>= try_dispatch d))
    else fail bad_request

abbrev pub approval_message : String → String
approval_message who = if who =ˢ "" then "approved" else text_append "approved by " who

unfoldable pub approve_upgrade : OpDispatcher → ℕ → ℕ → String → Action Ledger (Unit {0})
unfolding try_dispatch
approve_upgrade d now k approver = do
  o ← get_op k
  elim (o.status =ᵒ pending_approval) [
    | false ↦ fail conflict
    | true ↦ do
      _ ← update_status now o.id pending_approval queued (approval_message approver)
      try_dispatch d (record o { status = queued })
  ]

abbrev pub rejection_message : String → String → String
rejection_message who reason =
    let base = if who =ˢ "" then "rejected" else text_append "rejected by " who in
    if reason =ˢ "" then base else text_append base (text_append ": " reason)

unfoldable pub reject_upgrade : ℕ → ℕ → String → String → Action Ledger (Unit {0})
reject_upgrade now k reason rejector = do
  o ← get_op k
  elim (o.status =ᵒ pending_approval) [
    | false ↦ fail conflict
    | true ↦ update_status now o.id pending_approval failed (rejection_message rejector reason)
  ]

-- time.Since(since) <= max_age; a time in the future counts as no age.
abbrev pub is_recent : ℕ → ℕ → ℕ → Bool
is_recent now max_age since = leb (now - since) max_age

unfoldable pub reject_stale : ℕ → ℕ → String → List AgentOp → Action Ledger (Unit {0})
reject_stale now max_age message [] = pure tt
reject_stale now max_age message (o ∷ os) = elim (is_recent now max_age o.created_at) [
  | true ↦ reject_stale now max_age message os
  | false ↦
      regardless (update_status now o.id pending_approval failed message)
        (reject_stale now max_age message os)
]

unfoldable pub sweep_approval_timeouts : ℕ → ℕ → String → Action Ledger (Unit {0})
unfolding reject_stale
sweep_approval_timeouts now max_age message =
    list_by_status pending_approval >>= reject_stale now max_age message

abbrev pub publish : AgentOp → Ledger → Ledger
publish o t = record t { published = t.published ++ o ∷ [] }

unfoldable pub apply_status : ℕ → ℕ → OpStatus → String → Action Ledger AgentOp
unfolding is_valid_status is_valid_transition
apply_status now k to message = elim (is_valid_status to) [
  | false ↦ fail bad_request
  | true ↦ do
    o ← get_op k
    elim (is_valid_transition o.status to) [
      | false ↦ fail conflict
      | true ↦ do
        _ ← update_status now o.id o.status to message
        _ ← change (publish (record o { status = to; message = message }))
        pure (record o { status = to; message = message })
    ]
]

-- A loop of ApplyStatus calls that stops at the first error.
unfoldable pub apply_all : ℕ → OpStatus → String → List AgentOp → Action Ledger (Unit {0})
unfolding apply_status
apply_all now to message [] = pure tt
apply_all now to message (o ∷ os) =
    apply_status now o.id to message >>= λ _. apply_all now to message os

unfoldable pub reconcile_install : ℕ → ℕ → Action Ledger (Unit {0})
unfolding apply_all
reconcile_install now target = do
  os ← list_by_target_status_type target queued install
  apply_all now succeeded "installed via enrollment (runner first connection)" os

unfoldable pub reconcile_upgrade : ℕ → ℕ → String → Action Ledger (Unit {0})
unfolding apply_all
reconcile_upgrade now target version = do
  os ← list_by_target_status_type target running upgrade
  apply_all now succeeded
      (text_append "upgraded to " (text_append version " (reconciled via agent_info)"))
      (where_ (λ o. o.detail =ˢ version) os)

unfoldable pub fail_stale : ℕ → ℕ → String → List AgentOp → Action Ledger (Unit {0})
unfolding apply_status
fail_stale now max_age message [] = pure tt
fail_stale now max_age message (o ∷ os) = elim (is_recent now max_age o.updated_at) [
  | true ↦ fail_stale now max_age message os
  | false ↦ regardless (apply_status now o.id failed message) (fail_stale now max_age message os)
]

unfoldable pub sweep_targets : ℕ → ℕ → String → List ℕ → Action Ledger (Unit {0})
unfolding fail_stale
sweep_targets now max_age message [] = pure tt
sweep_targets now max_age message (target ∷ targets) = do
  os ← list_by_target_status_type target running upgrade
  _ ← fail_stale now max_age message os
  sweep_targets now max_age message targets

unfoldable pub sweep_upgrade_timeouts : ℕ → ℕ → String → Action Ledger (Unit {0})
unfolding sweep_targets
sweep_upgrade_timeouts now max_age message =
    list_targets_with_running_upgrades >>= sweep_targets now max_age message

unfoldable pub dispatch_all : OpDispatcher → List AgentOp → Action Ledger (Unit {0})
unfolding try_dispatch
dispatch_all d [] = pure tt
dispatch_all d (o ∷ os) = try_dispatch d o >>= λ _. dispatch_all d os

unfoldable pub drain_target : OpDispatcher → ℕ → Action Ledger (Unit {0})
unfolding dispatch_all
drain_target d target = list_queued_by_target target >>= dispatch_all d

-- The operation must exist.
unfoldable pub append_log : ℕ → String → String → Action Ledger OpLog
append_log k stream chunk = get_op k >>= λ _. append_log_row k stream chunk

unfoldable pub read_logs : ℕ → Action Ledger (List OpLog)
read_logs k = get_op k >>= λ _. list_logs k
