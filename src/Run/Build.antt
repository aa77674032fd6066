-- ===== src/Run/Build.antt =====
-- internal/run/service/pipeline_run.go: buildSpec and templateToTaskSpec, the run that a trigger
-- makes of the stages and the task templates of a pipeline.
pub mod Layers
pub mod Order
pub mod Stages
use software_distribution_pl.Common.{
  ℕ, String, false, Option, none, some, List, [], ◌∷◌, ◌++◌, map, ltb, ◌==◌, ◌=ˢ◌, if◌then◌else◌,
  where_, sort_by, find_row, Action, ◌>>=◌, pure, fail, lift, query, required, Result, ok, err,
  with_ok, corrupt_payload, conflict, no_tasks,
}
use software_distribution_pl.Run.Spec.{
  TaskType, approval, release, TaskSpec, RunSpec, Param, RetryPolicy, ApprovalConfig, RolloutSpec,
  ReleaseSpec, RepoSource,
}
use software_distribution_pl.Run.Definitions.{
  Column, absent, null, corrupt, value, Template, Stage, PipelineDef,
}
use software_distribution_pl.Run.Tables.{Tables}
use software_distribution_pl.Run.Params.{
  VarSource, trigger_params, substitute_params, substitute_params_slice, substitute_release_spec,
}

-- internal/run/models/trigger_request.go.
pub record TriggerRequest : Type 0 where
  pub target_id : Option ℕ
  pub target_ids : List ℕ
  pub target_namespace : String
  pub repo_url : String
  pub repo_ref : String
  pub repo_path : String
  pub params : List Param
  pub commit_sha : String
  pub timeout_seconds : ℕ
  pub triggered_by : String
  pub trigger_source : String

-- json.Unmarshal into a list.
abbrev pub decode_list : Column (List String) → Result (List String)
decode_list absent = err corrupt_payload
decode_list null = ok []
decode_list corrupt = err corrupt_payload
decode_list (value xs) = ok xs

-- json.Unmarshal of a column that may be empty.
abbrev pub decode_optional : Column (List String) → Result (List String)
decode_optional absent = ok []
decode_optional c = decode_list c

-- A config that is left out when the column is empty; null decodes to the zero value.
abbrev pub decode_config : {A : Type 0} → A → Column A → Result (Option A)
decode_config zero_value absent = ok none
decode_config zero_value null = ok (some zero_value)
decode_config zero_value corrupt = err corrupt_payload
decode_config zero_value (value a) = ok (some a)

abbrev pub decode_retry : Column RetryPolicy → Result (Option RetryPolicy)
decode_retry absent = ok none
decode_retry null = ok none
decode_retry corrupt = err corrupt_payload
decode_retry (value r) = ok (some r)

abbrev no_approval_config : ApprovalConfig
no_approval_config = record { required_approvals = 0; allowed_approvers = []; timeout_seconds = 0 }

abbrev no_rollout : RolloutSpec
no_rollout = record {
  workload_ref = "";
  replicas = none;
  stable_image = "";
  canary_image = "";
  steps = [];
  health_check = record {
    check_type = "";
    interval_seconds = 0;
    failure_threshold = 0;
    http_path = "";
    prometheus_query_expr = "";
    prometheus_threshold = "";
  };
  traffic_routing = record { routing_type = ""; ingress_ref = "" };
  is_auto_rollback = false;
}

abbrev no_release : ReleaseSpec
no_release = record {
  source = "";
  chart = none;
  manifest = none;
  values = [];
  target_namespace = "";
  canary = none;
}

abbrev pub approval_config_of : TaskType → Column ApprovalConfig → Result (Option ApprovalConfig)
approval_config_of approval c = decode_config no_approval_config c
approval_config_of _ c = ok none

abbrev pub rollout_of : TaskType → Column RolloutSpec → Result (Option RolloutSpec)
rollout_of release c = decode_config no_rollout c
rollout_of _ c = ok none

abbrev substituted : List Param → Option ReleaseSpec → Option ReleaseSpec
substituted params none = none
substituted params (some rs) = some (substitute_release_spec params rs)

abbrev pub release_of : List Param → TaskType → Column ReleaseSpec → Result (Option ReleaseSpec)
release_of params release c = with_ok (decode_config no_release c) λ rs. ok (substituted params rs)
release_of params _ c = ok none

-- The columns of a template that are decoded.
pub record Decoded : Type 0 where
  pub script_args : List String
  pub command : List String
  pub args : List String
  pub produces : List String
  pub consumes : List String
  pub retry_policy : Option RetryPolicy
  pub approval_config : Option ApprovalConfig
  pub rollout_spec : Option RolloutSpec
  pub release_spec : Option ReleaseSpec

unfoldable pub decode_template : List Param → Template → Result Decoded
decode_template params tpl = with_ok (decode_list tpl.script_args) λ script_args.
    with_ok (decode_optional tpl.command) λ command. with_ok (decode_optional tpl.args) λ args.
      with_ok (decode_list tpl.produces) λ produces. with_ok (decode_list tpl.consumes) λ consumes.
        with_ok (decode_retry tpl.retry_policy) λ retry_policy.
          with_ok (approval_config_of tpl.task_type tpl.approval_config) λ approval_config.
            with_ok (rollout_of tpl.task_type tpl.rollout_config) λ rollout_spec.
              with_ok (release_of params tpl.task_type tpl.release_config) λ release_spec.
                ok (record {
                  script_args = substitute_params_slice params script_args;
                  command = substitute_params_slice params command;
                  args = substitute_params_slice params args;
                  produces = substitute_params_slice params produces;
                  consumes = substitute_params_slice params consumes;
                  retry_policy = retry_policy;
                  approval_config = approval_config;
                  rollout_spec = rollout_spec;
                  release_spec = release_spec;
                })

abbrev pub task_of : List Param → Template → Decoded → TaskSpec
task_of params tpl d = record {
  name = tpl.name;
  task_type = tpl.task_type;
  stage = "";
  image = substitute_params params tpl.image;
  script_path = substitute_params params tpl.script_path;
  script_args = d.script_args;
  command = d.command;
  args = d.args;
  produces = d.produces;
  consumes = d.consumes;
  depends_on = [];
  is_privileged = tpl.is_privileged;
  retry_policy = d.retry_policy;
  timeout_seconds = tpl.timeout_seconds;
  approval_config = d.approval_config;
  rollout_spec = d.rollout_spec;
  release_spec = d.release_spec;
}

unfoldable pub template_to_task_spec : List Param → Template → Result TaskSpec
unfolding decode_template
template_to_task_spec params tpl =
    with_ok (decode_template params tpl) λ d. ok (task_of params tpl d)

-- The statements on the definitions.
abbrev pub definition_key : PipelineDef → ℕ
definition_key p = p.id

abbrev pub get_pipeline : ℕ → Action Tables PipelineDef
get_pipeline k = query λ t. required (find_row definition_key k t.definitions.pipelines)

abbrev pub stages_of : ℕ → Tables → List Stage
stages_of k t =
    sort_by (λ a b. ltb a.sequence b.sequence)
      (where_ (λ s. s.pipeline_id == k) t.definitions.stages)

abbrev pub list_stages : ℕ → Action Tables (List Stage)
list_stages k = query λ t. ok (stages_of k t)

abbrev pub templates_of : ℕ → Tables → List Template
templates_of k t =
    sort_by (λ a b. ltb a.display_order b.display_order)
      (where_ (λ x. x.stage_id == k) t.definitions.templates)

abbrev pub list_templates : ℕ → Action Tables (List Template)
list_templates k = query λ t. ok (templates_of k t)

-- The last name, as a list.
abbrev pub last_name : List String → List String
last_name [] = []
last_name (n ∷ []) = n ∷ []
last_name (n ∷ m ∷ ns) = last_name (m ∷ ns)

abbrev pub predecessor : Stage → List String → List String
predecessor stage names = if stage.execution_mode =ˢ "serial" then last_name names else []

-- The stage and the dependencies of a task; a task with dependencies of its own keeps them.
abbrev pub wait_for : List String → List String → List String → List String
wait_for before serial [] = before ++ serial
wait_for before serial (d ∷ ds) = d ∷ ds

abbrev pub placed : Stage → List String → List String → TaskSpec → TaskSpec
placed stage before names task = record task {
  stage = stage.name;
  depends_on = wait_for before (predecessor stage names) task.depends_on;
}

-- The loop over the templates of a stage, with the names of the stage before and those so far.
unfoldable pub build_tasks :
    List Param → Stage → List String → List String → List Template → Result (List TaskSpec)
unfolding template_to_task_spec
build_tasks params stage before names [] = ok []
build_tasks params stage before names (tpl ∷ tpls) =
    with_ok (template_to_task_spec params tpl) λ task.
      with_ok (build_tasks params stage before (names ++ task.name ∷ []) tpls)
        λ rest. ok (placed stage before names task ∷ rest)

abbrev pub task_name : TaskSpec → String
task_name task = task.name

-- The loop over the stages.
unfoldable pub build_stages : List Param → List String → List Stage → Action Tables (List TaskSpec)
unfolding build_tasks
build_stages params before [] = pure []
build_stages params before (stage ∷ stages) = do
  templates ← list_templates stage.id
  tasks ← lift (build_tasks params stage before [] templates)
  rest ← build_stages params (map task_name tasks) stages
  pure (tasks ++ rest)

-- The interface ComponentGuard: the lifecycle of a component.
abbrev pub ComponentGuard : Type 0
ComponentGuard = ℕ → Result String

abbrev pub guard_lifecycle : Option ComponentGuard → ℕ → Action Tables (Unit {0})
guard_lifecycle none c = pure tt
guard_lifecycle (some g) c = do
  lc ← lift (g c)
  if lc =ˢ "deprecated" then fail conflict else pure tt

abbrev pub repo_of : TriggerRequest → Option RepoSource
repo_of req =
    if req.repo_url =ˢ ""
    then none
    else some (record { url = req.repo_url; ref = req.repo_ref; path = req.repo_path })

abbrev pub namespace_of : TriggerRequest → String
namespace_of req = if req.target_namespace =ˢ "" then "sdp-run" else req.target_namespace

-- A run without tasks is refused.
abbrev pub unless_empty : List TaskSpec → RunSpec → Action Tables RunSpec
unless_empty [] spec = fail no_tasks
unless_empty (t ∷ ts) spec = pure spec

unfoldable pub build_spec :
    Option ComponentGuard → Option VarSource → String → ℕ → TriggerRequest → Action Tables RunSpec
unfolding build_stages
build_spec guard vars service_account k req = do
  p ← get_pipeline k
  _ ← guard_lifecycle guard p.component_id
  stages ← list_stages k
  tasks ← build_stages (trigger_params vars p req.params) [] stages
  unless_empty tasks (record {
    pipeline_ref = p.name;
    tasks = tasks;
    repo = repo_of req;
    params = trigger_params vars p req.params;
    project_id = p.component_id;
    target_namespace = namespace_of req;
    service_account_name = service_account;
    timeout_seconds = req.timeout_seconds;
    triggered_by = req.triggered_by;
  })
