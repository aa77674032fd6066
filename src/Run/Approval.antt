-- ===== src/Run/Approval.antt =====
-- Approve of internal/run/service/pipeline_run.go and internal/run/service/approval_timeout.go, with
-- the statements of internal/run/repository/approval.go.
pub mod Gate
pub mod Stuck
pub mod Sweep
mod Tests
use software_distribution_pl.Common.{
  ℕ, suc, ◌+◌, ◌-◌, ◌*◌, ◌^◌, ◌%◌, String, Bool, true, false, ◌&&◌, ◌||◌, not, Option, none, some,
  List, [], ◌∷◌, ◌++◌, ltb, leb, ◌==◌, ◌=ˢ◌, if◌then◌else◌, where_, update_where, find_where,
  Action, ◌>>=◌, attempt, pure, fail, query, execute, statement, required, Error, Result, ok, err,
  corrupt_payload, wrong_pipeline, not_approval, already_decided, no_approver, self_review,
  bad_request,
}
use software_distribution_pl.Run.Spec.{TaskType, ApprovalConfig}
use software_distribution_pl.Run.Definitions.{
  Column, absent, null, corrupt, value, Template, Stage, ApprovalPolicy,
}
use software_distribution_pl.Run.Tables.{
  PipelineRun, TaskRun, TaskPhase, PipelineApproval, ApprovalStatus, Message, decided, Tables,
  run_id,
}
use software_distribution_pl.Run.Rows.{get_run, take_}
use software_distribution_pl.Run.Build.{list_stages, list_templates, task_name}
use software_distribution_pl.Run.Creation.Seeds.{is_approval, get_task_run, send}

-- The dispatcher's Approve: the target, the run, the task, the approver, and whether it rejects.
abbrev pub Relay : Type 0
Relay = ℕ → String → String → String → Bool → Option Error

abbrev pub relay_outcome : Option Error → Message → Action Tables (Unit {0})
relay_outcome none m = send m
relay_outcome (some e) m = fail e

abbrev pub relay_decision : Relay → PipelineRun → String → String → Bool → Action Tables (Unit {0})
relay_decision relay run task approver is_rejected =
    relay_outcome (relay run.target_id run.cr_name task approver is_rejected)
      (decided run.target_id run.cr_name task approver is_rejected)

abbrev pub is_pending : ApprovalStatus → Bool
is_pending ApprovalStatus.pending = true
is_pending _ = false

abbrev pub is_decided : TaskPhase → Bool
is_decided TaskPhase.succeeded = true
is_decided TaskPhase.failed = true
is_decided _ = false

abbrev pub is_some : ℕ → Option ℕ → Bool
is_some k none = false
is_some k (some j) = j == k

abbrev pub is_approval_of : ℕ → ℕ → PipelineApproval → Bool
is_approval_of run task a = (a.run_id == run) && is_some task a.task_run_id

abbrev pub approval_of : ℕ → ℕ → Tables → Option PipelineApproval
approval_of run task t = find_where (is_approval_of run task) t.approvals

abbrev pub get_by_run_and_task : ℕ → ℕ → Action Tables PipelineApproval
get_by_run_and_task run task = query λ t. required (approval_of run task t)

-- Save writes the whole row.
abbrev pub update_approval : PipelineApproval → Action Tables (Unit {0})
update_approval a =
    execute λ t. record t { approvals = update_where (λ x. x.id == a.id) (λ _. a) t.approvals }

abbrev pub resolved : ℕ → String → Bool → PipelineApproval → PipelineApproval
resolved now approver is_approved a = record a {
  status = if is_approved then ApprovalStatus.approved else ApprovalStatus.rejected;
  approver = approver;
  decided_at = some now;
}

-- The requester of a run does not decide on it.
abbrev pub is_own : PipelineApproval → String → Bool
is_own a approver = not (a.requested_by =ˢ "") && (a.requested_by =ˢ approver)

unfoldable pub record_decision : ℕ → String → Bool → PipelineApproval → Action Tables (Unit {0})
record_decision now approver is_approved a = elim (is_pending a.status) [
  | false ↦ fail already_decided
  | true ↦ elim (is_own a approver) [
    | true ↦ fail self_review
    | false ↦ update_approval (resolved now approver is_approved a)
  ]
]

-- A run without an approval row, or with one that cannot be read, is only relayed.
unfoldable pub decide : Bool → ℕ → ℕ → ℕ → String → Bool → Action Tables (Unit {0})
unfolding record_decision
decide false now run task approver is_approved = pure tt
decide true now run task approver is_approved =
    attempt (get_by_run_and_task run task)
      λ r. elim r [ err e ↦ pure tt | ok a ↦ record_decision now approver is_approved a ]

-- The checks on the task and the approver.
abbrev pub check_task : TaskRun → String → Action Tables (Unit {0})
check_task tr approver =
    if not (is_approval tr.task_type)
    then fail not_approval
    else if is_decided tr.phase
    then fail already_decided
    else if approver =ˢ ""
    then fail no_approver
    else pure tt

unfoldable pub approve :
    Relay → Bool → ℕ → ℕ → ℕ → String → Bool → String → Action Tables (Unit {0})
unfolding decide
approve relay has_approvals now pipeline k task is_approved approver = do
  run ← get_run k
  _ ← if run.pipeline_id == pipeline then pure tt else fail wrong_pipeline
  tr ← get_task_run k task
  _ ← check_task tr approver
  _ ← decide has_approvals now k tr.id approver is_approved
  relay_decision relay run task approver (not is_approved)

abbrev pub nanos : ℕ
nanos = 1000000000

-- now.After(createdAt.Add(d)) for the 64-bit duration of so many seconds, which wraps.
unfoldable pub approval_expired : ℕ → ℕ → ℕ → Bool
approval_expired created timeout now =
    let d = (timeout * nanos) % 2 ^ 64 in
    if timeout == 0
    then false
    else if ltb d (2 ^ 63)
    then ltb (created + d) now
    else ltb created (now + (2 ^ 64 - d))

-- The timeout that a column of the approval task declares.
abbrev pub config_timeout : Column ApprovalConfig → Result ℕ
config_timeout absent = ok 0
config_timeout null = ok 0
config_timeout corrupt = err corrupt_payload
config_timeout (value c) = ok c.timeout_seconds

-- The first template with the name of the task.
abbrev pub template_timeout : String → List Template → Option (Result ℕ)
template_timeout name [] = none
template_timeout name (x ∷ xs) =
    if x.name =ˢ name then some (config_timeout x.approval_config) else template_timeout name xs

abbrev pub or_next : Option (Result ℕ) → Action Tables ℕ → Action Tables ℕ
or_next none rest = rest
or_next (some (ok n)) rest = pure n
or_next (some (err e)) rest = fail e

unfoldable pub find_timeout : String → List Stage → Action Tables ℕ
find_timeout name [] = pure 0
find_timeout name (s ∷ ss) =
    let rest = find_timeout name ss in
    list_templates s.id >>= λ tpls. or_next (template_timeout name tpls) rest

abbrev pub name_of_task : ℕ → List TaskRun → String
name_of_task k [] = ""
name_of_task k (r ∷ rs) = if r.id == k then r.task_name else name_of_task k rs

abbrev pub list_task_runs : ℕ → Action Tables (List TaskRun)
list_task_runs run = query λ t. ok (where_ (λ r. r.pipeline_run_id == run) t.task_runs)

-- The name of the task and its timeout; 0 stands for none.
unfoldable pub approval_timeout_for : PipelineRun → ℕ → Action Tables (String × ℕ)
unfolding find_timeout
approval_timeout_for run task = do
  rows ← list_task_runs run.id
  elim (name_of_task task rows =ˢ "") [
    | true ↦ pure ("", 0)
    | false ↦ do
      stages ← list_stages run.pipeline_id
      n ← find_timeout (name_of_task task rows) stages
      pure (name_of_task task rows, n)
  ]

abbrev pub auto_approver : String
auto_approver = "system:approval-timeout"

abbrev pub list_pending : ℕ → Action Tables (List PipelineApproval)
list_pending limit = query λ t. ok (take_ limit (where_ (λ a. is_pending a.status) t.approvals))

abbrev pub timed_out : ℕ → PipelineApproval → PipelineApproval
timed_out now a = record a {
  status = ApprovalStatus.cancelled;
  approver = auto_approver;
  decided_at = some now;
  decision_comment = "auto-closed: approval timed out without a decision";
}

-- The runner is told first; only then the row is closed. The answer is the number of closed rows.
abbrev pub close_row : ℕ → PipelineApproval → Result (Unit {0}) → Action Tables ℕ
close_row now a (err e) = pure 0
close_row now a (ok _) =
    attempt (update_approval (timed_out now a)) λ u. elim u [ err e ↦ pure 0 | ok _ ↦ pure 1 ]

unfoldable pub close_expired : Relay → ℕ → PipelineApproval → PipelineRun → String → Action Tables ℕ
close_expired relay now a run task =
    attempt (relay_decision relay run task auto_approver true) (close_row now a)

unfoldable pub sweep_run : Relay → ℕ → PipelineApproval → ℕ → PipelineRun → Action Tables ℕ
unfolding close_expired
sweep_run relay now a task run = attempt (approval_timeout_for run task) λ r. elim r [
  | err e ↦ pure 0
  | ok n ↦ elim ((n.0 =ˢ "") || not (approval_expired a.created_at n.1 now)) [
    | true ↦ pure 0
    | false ↦ close_expired relay now a run n.0
  ]
]

abbrev pub sweep_task : Relay → ℕ → PipelineApproval → Option ℕ → Action Tables ℕ
sweep_task relay now a none = pure 0
sweep_task relay now a (some task) =
    attempt (get_run a.run_id)
      λ r. elim r [ err e ↦ pure 0 | ok run ↦ sweep_run relay now a task run ]

unfoldable pub sweep_each : Relay → ℕ → List PipelineApproval → Action Tables ℕ
unfolding sweep_run
sweep_each relay now [] = pure 0
sweep_each relay now (a ∷ rest) = do
  n ← sweep_task relay now a a.task_run_id
  m ← sweep_each relay now rest
  pure (n + m)

unfoldable pub sweep_approval_timeouts : Relay → Bool → ℕ → Action Tables ℕ
unfolding sweep_each
sweep_approval_timeouts relay false now = pure 0
sweep_approval_timeouts relay true now = list_pending 500 >>= sweep_each relay now
