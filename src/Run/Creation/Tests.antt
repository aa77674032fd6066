-- ===== src/Run/Creation/Tests.antt =====
-- A pipeline with two stages, and the theorems on its parameters, its tasks and its trigger.
use software_distribution_pl.Run.Delivery.Attempt.{try_deliver}
use software_distribution_pl.Run.Concurrency.{concurrency_limit}
use software_distribution_pl.Run.Control.{enqueue_dispatch}
use software_distribution_pl.Run.Concurrency.Capacity.{active}
use software_distribution_pl.Common.{
  ℕ, String, true, false, none, some, List, [], ◌∷◌, ◌≡◌, ◌≢◌, refl, Result, ok, err, up, Holds,
  arith, eq_iff, map, sort_by, find_row, find_where, update_where,
}
use software_distribution_pl.Run.Spec.{build, release, TaskType, RunSpec}
use software_distribution_pl.Run.Definitions.{
  value, null, absent, Template, Stage, PipelineDef, queue, Definitions,
}
use software_distribution_pl.Run.Tables.{Tables, Phase, JobState}
use software_distribution_pl.Run.Params.{param, trigger_params, substitute_params, param_value}
use software_distribution_pl.Run.Params.Tiers.{Distinct, trigger_params_tiers}
use software_distribution_pl.Run.Build.{TriggerRequest, build_spec}
use software_distribution_pl.Run.Build.Stages.{IsStaged, build_spec-IsStaged}
use software_distribution_pl.Run.Build.Order.{IsOrdered, build_spec-IsOrdered}
use software_distribution_pl.Run.Creation.Seeds.{Hub}
use software_distribution_pl.Run.Creation.{trigger}
use software_distribution_pl.Run.Creation.Production.{trigger_needs_gate}
use software_distribution_pl.Run.Creation.Admission.{IsWithin}
use software_distribution_pl.Run.Creation.Capacity.{trigger-IsWithin}

abbrev template : ℕ → String → TaskType → Template
template stage name y = record {
  stage_id = stage;
  name = name;
  task_type = y;
  display_order = 0;
  image = "app:${TAG}";
  script_path = "";
  script_args = value [];
  command = value ("make" ∷ []);
  args = absent;
  produces = null;
  consumes = null;
  release_config = absent;
  rollout_config = absent;
  approval_config = absent;
  retry_policy = null;
  timeout_seconds = 60;
  is_privileged = false;
}

abbrev stage : ℕ → String → ℕ → String → Stage
stage k name n mode = record {
  id = k;
  pipeline_id = 5;
  name = name;
  sequence = n;
  execution_mode = mode;
}

abbrev pipeline : PipelineDef
pipeline = record {
  id = 5;
  component_id = 3;
  name = "web";
  version = 2;
  concurrency_policy = queue;
  params = value (record { name = "TAG"; default = "dev" } ∷ []);
}

abbrev definitions : Definitions
definitions = record {
  pipelines = pipeline ∷ [];
  stages = stage 2 "ship" 2 "serial" ∷ stage 1 "test" 1 "parallel" ∷ [];
  templates =
      template 1 "unit" build
      ∷ template 1 "lint" build
      ∷ template 2 "stage" release
      ∷ template 2 "prod" release
      ∷ [];
  targets = record { id = 7; name = "eu"; is_online = true } ∷ [];
  policies = [];
}

abbrev sample : Tables
sample = record {
  runs = [];
  jobs = [];
  task_runs = [];
  approvals = [];
  definitions = definitions;
  next_id = 20;
  sent = [];
  rollouts = [];
  logs = [];
  produced = [];
}

abbrev request : TriggerRequest
request = record {
  target_id = none;
  target_ids = 7 ∷ 7 ∷ [];
  target_namespace = "";
  repo_url = "";
  repo_ref = "";
  repo_path = "";
  params = param "TAG" "v1" ∷ [];
  commit_sha = "";
  timeout_seconds = 0;
  triggered_by = "ann";
  trigger_source = "";
}

abbrev hub : Hub
hub = record {
  change_window = none;
  component_guard = none;
  production_policy = none;
  var_source = none;
  component_meta = none;
  environment_meta = none;
  has_approvals = true;
  has_policies = false;
  has_notices = false;
  service_account = "";
  limit = 1;
  dispatcher = λ target a. none;
  run_name = λ k. "pr-1";
  enqueue_failure = λ e. "failed to enqueue dispatch";
}

abbrev dependencies : Result RunSpec → List (String × List String)
dependencies (err e) = []
dependencies (ok spec) = map (λ t. (t.name, t.depends_on)) spec.tasks

built :
    dependencies (build_spec none none "" 5 request (up sample)).0
    ≡ ("unit", [])
      ∷ ("lint", [])
      ∷ ("stage", "unit" ∷ "lint" ∷ [])
      ∷ ("prod", "unit" ∷ "lint" ∷ "stage" ∷ [])
      ∷ []
unfolding build_spec find_row sort_by
built = refl

replaced_once :
    substitute_params (param "TAG" "v1" ∷ []) "app:${TAG}, ${NO}, $TAG, ${9}"
    ≡ "app:v1, ${NO}, $TAG, ${9}"
unfolding substitute_params param_value
replaced_once = refl

-- The first of two runs is active, the second waits.
phases :
    map (λ r. r.phase) (trigger hub 100 5 request (up sample)).1.tables.runs
    ≡ Phase.pending ∷ Phase.pending_queue ∷ []
unfolding trigger find_row build_spec sort_by enqueue_dispatch try_deliver concurrency_limit
    update_where find_where
phases = refl

job_states :
    map (λ j. j.state) (trigger hub 100 5 request (up sample)).1.tables.jobs
    ≡ JobState.dispatched ∷ JobState.held ∷ []
unfolding trigger find_row build_spec sort_by enqueue_dispatch try_deliver concurrency_limit
    update_where find_where
job_states = refl

tag_named : ◌≢◌ {A = String} "TAG" ""
tag_named = ground (arith, eq_iff "TAG" "")

trigger_params_tiers_example :
    Distinct (trigger_params none pipeline (param "TAG" "v1" ∷ []))
    × (param_value "TAG" (trigger_params none pipeline (param "TAG" "v1" ∷ [])) ≡ some "v1")
unfolding param_value
trigger_params_tiers_example =
    trigger_params_tiers none pipeline (param "TAG" "v1" ∷ []) "TAG" tag_named

build_spec-IsStaged_example :
    Holds (IsStaged 5 sample) (build_spec none none "" 5 request (up sample)).0
build_spec-IsStaged_example = build_spec-IsStaged none none "" 5 request (up sample)

build_spec-IsOrdered_example :
    Holds (λ spec. IsOrdered [] spec.tasks) (build_spec none none "" 5 request (up sample)).0
build_spec-IsOrdered_example = build_spec-IsOrdered none none "" 5 request (up sample)

-- Every target is a production target.
abbrev guarded : Hub
guarded = record hub { production_policy = some (λ ts. ok ts) }

trigger_needs_gate_example :
    ((trigger guarded 100 5 request (up sample)).1.tables ≡ sample)
    × Holds (λ _. ⊥) (trigger guarded 100 5 request (up sample)).0
unfolding sort_by
trigger_needs_gate_example =
    trigger_needs_gate guarded 100 5 request (λ ts. ok ts) (up sample) refl
      ((refl, (refl, tt)), ((refl, (refl, tt)), tt)) (omega arith, tt) (λ ts e. rw e tt)

trigger-IsWithin_example :
    IsWithin 1 queue (active 5 (trigger hub 100 5 request (up sample)).1.tables)
unfolding find_row
trigger-IsWithin_example =
    trigger-IsWithin hub 100 5 request pipeline (up sample) refl (ground arith)
