-- ===== src/Run/Creation/Seeds.antt =====
-- internal/run/service/pipeline_run.go: the task and approval rows of a new run, with
-- applyApprovalPolicy of internal/run/service/approval_center.go and the statements of
-- internal/run/repository/task_run.go and approval.go that it issues.
use software_distribution_pl.Common.{
  ℕ, suc, String, Bool, true, false, ◌&&◌, not, Option, none, some, List, [], ◌∷◌, ◌++◌, ◌==◌, ◌=ˢ◌,
  if◌then◌else◌, Action, ◌>>=◌, attempt, pure, fail, query, statement, required, Error, Result, ok,
  err, not_found, find_where,
}
use software_distribution_pl.Run.Spec.{TaskType, approval, TaskSpec}
use software_distribution_pl.Run.Definitions.{ApprovalPolicy}
use software_distribution_pl.Run.Tables.{
  PipelineRun, TaskRun, TaskPhase, PipelineApproval, ApprovalStatus, Message, notice, Tables,
}
use software_distribution_pl.Run.Build.{ComponentGuard}
use software_distribution_pl.Run.Params.{VarSource}
use software_distribution_pl.Run.Delivery.Attempt.{Dispatcher}

pub record Owner : Type 0 where
  pub component_id : ℕ
  pub org_id : ℕ

-- What the service is wired with: the answer of the change window, the guards and lookups, which
-- may be absent, the wired stores, and the name of a new run in its cluster.
pub record Hub : Type 0 where
  pub change_window : Option (Option Error)
  pub component_guard : Option ComponentGuard
  pub production_policy : Option (List ℕ → Result (List ℕ))
  pub var_source : Option VarSource
  pub component_meta : Option (ℕ → Result Owner)
  pub environment_meta : Option (ℕ → ℕ → String → Option ℕ)
  pub has_approvals : Bool
  pub has_policies : Bool
  pub has_notices : Bool
  pub service_account : String
  pub limit : ℕ
  pub dispatcher : Dispatcher
  pub run_name : ℕ → String
  pub enqueue_failure : Error → String

abbrev pub send : Message → Action Tables (Unit {0})
send m w = (ok tt, record w { tables = record w.tables { sent = w.tables.sent ++ m ∷ [] } })

-- Save of a row without an id inserts it.
abbrev pub create_task_run : TaskRun → Action Tables ℕ
create_task_run r = statement λ t. (
  ok t.next_id,
  record t {
    task_runs = t.task_runs ++ (record r { id = t.next_id }) ∷ [];
    next_id = suc t.next_id;
  },
)

abbrev pub is_task_of : ℕ → String → TaskRun → Bool
is_task_of run name r = (r.pipeline_run_id == run) && (r.task_name =ˢ name)

abbrev pub get_task_run : ℕ → String → Action Tables TaskRun
get_task_run run name = query λ t. required (find_where (is_task_of run name) t.task_runs)

abbrev pub create_approval : PipelineApproval → Action Tables ℕ
create_approval a = statement λ t. (
  ok t.next_id,
  record t {
    approvals = t.approvals ++ (record a { id = t.next_id }) ∷ [];
    next_id = suc t.next_id;
  },
)

abbrev pub is_some_id : ℕ → Option ℕ → Bool
is_some_id k none = false
is_some_id k (some j) = j == k

abbrev pub is_none_id : Option ℕ → Bool
is_none_id none = true
is_none_id (some j) = false

abbrev pub default_policy : ℕ → Action Tables ApprovalPolicy
default_policy component = query λ t. required (
    find_where (λ p. (p.component_id == component) && is_none_id p.environment_id)
      t.definitions.policies)

abbrev pub or_default : ℕ → Result ApprovalPolicy → Action Tables ApprovalPolicy
or_default component (ok p) = pure p
or_default component (err not_found) = default_policy component
or_default component (err e) = fail e

-- PolicyFor: the policy of the environment, or else that of the component.
unfoldable pub policy_for : ℕ → ℕ → Action Tables ApprovalPolicy
policy_for component environment =
    attempt
      (query λ t. required (
        find_where (λ p. (p.component_id == component) && is_some_id environment p.environment_id)
          t.definitions.policies))
      (or_default component)

-- Any error means that no policy assigns the approval.
abbrev pub assignees_of : Action Tables ApprovalPolicy → Action Tables String → Action Tables String
assignees_of lookup otherwise =
    attempt lookup λ r. elim r [ ok p ↦ pure p.assignees | err e ↦ otherwise ]

-- applyApprovalPolicy gives the assignees of a new approval.
unfoldable pub assignee_for : Bool → ℕ → Option ℕ → Action Tables String
unfolding policy_for
assignee_for false component environment = pure ""
assignee_for true component none = assignees_of (policy_for component 0) (pure "")
assignee_for true component (some e) =
    assignees_of (policy_for component e) (assignees_of (policy_for component 0) (pure ""))

abbrev pub new_task_run : ℕ → TaskSpec → TaskRun
new_task_run run t = record {
  id = 0;
  pipeline_run_id = run;
  task_name = t.name;
  cr_name = "";
  stage_name = t.stage;
  task_type = t.task_type;
  phase = TaskPhase.pending;
  retry_count = 0;
  start_time = none;
  completion_time = none;
  message = "";
}

unfoldable pub seed_tasks : ℕ → List TaskSpec → Action Tables (Unit {0})
seed_tasks run [] = pure tt
seed_tasks run (t ∷ ts) = do _ ← create_task_run (new_task_run run t); seed_tasks run ts

abbrev pub new_approval : ℕ → Owner → PipelineRun → ℕ → String → PipelineApproval
new_approval now owner run task assignee = record {
  id = 0;
  org_id = owner.org_id;
  run_id = run.id;
  task_run_id = some task;
  component_id = owner.component_id;
  pipeline_id = run.pipeline_id;
  status = ApprovalStatus.pending;
  requested_by = run.triggered_by;
  approver = "";
  assignee = assignee;
  decision_comment = "";
  created_at = now;
  decided_at = none;
}

abbrev pub notify_approval : Hub → PipelineRun → Action Tables (Unit {0})
notify_approval h run =
    if h.has_notices && not (run.triggered_by =ˢ "")
    then send (notice "approval_required" run.triggered_by run.cr_name)
    else pure tt

-- The approval of one task; a failed statement is logged and the task left without an approval.
unfoldable pub seed_approval : Hub → ℕ → Owner → PipelineRun → TaskSpec → Action Tables (Unit {0})
unfolding assignee_for
seed_approval h now owner run t = attempt (get_task_run run.id t.name) λ r. elim r [
  | err e ↦ pure tt
  | ok tr ↦ do
    assignee ← assignee_for h.has_policies owner.component_id run.environment_id
    attempt (create_approval (new_approval now owner run tr.id assignee))
        λ c. elim c [ err e ↦ pure tt | ok _ ↦ notify_approval h run ]
]

abbrev pub is_approval : TaskType → Bool
is_approval approval = true
is_approval _ = false

unfoldable pub seed_each : Hub → ℕ → Owner → PipelineRun → List TaskSpec → Action Tables (Unit {0})
unfolding seed_approval
seed_each h now owner run [] = pure tt
seed_each h now owner run (t ∷ ts) = elim (is_approval t.task_type) [
  | false ↦ seed_each h now owner run ts
  | true ↦ do _ ← seed_approval h now owner run t; seed_each h now owner run ts
]

unfoldable pub seed_approvals :
    Hub → ℕ → Option Owner → PipelineRun → List TaskSpec → Action Tables (Unit {0})
unfolding seed_each
seed_approvals h now none run ts = pure tt
seed_approvals h now (some owner) run ts =
    if h.has_approvals then seed_each h now owner run ts else pure tt
