-- ===== src/Run/Spec.antt =====
-- internal/runnerproto/spec.go and param.go: the run that the hub sends to a runner. A duration and
-- a weight are numbers, and a map of values is its list of pairs.
use software_distribution_pl.Common.{ℕ, String, Bool, Option, List}

-- PipelineTaskType; `other` stands for any text that is none of the constants.
pub data TaskType : Type 0 where
  build release approval test : TaskType
  other : ℕ → TaskType

pub record Param : Type 0 where
  pub name : String
  pub value : String

pub record RepoSource : Type 0 where
  pub url : String
  pub ref : String
  pub path : String

pub record RetryPolicy : Type 0 where
  pub max_retries : ℕ
  pub backoff : ℕ

pub record ApprovalConfig : Type 0 where
  pub required_approvals : ℕ
  pub allowed_approvers : List String
  pub timeout_seconds : ℕ

pub record CanaryStep : Type 0 where
  pub set_weight : Option ℕ
  pub pause : Option (Option ℕ)

pub record HealthCheckSpec : Type 0 where
  pub check_type : String
  pub interval_seconds : ℕ
  pub failure_threshold : ℕ
  pub http_path : String
  pub prometheus_query_expr : String
  pub prometheus_threshold : String

pub record TrafficRoutingSpec : Type 0 where
  pub routing_type : String
  pub ingress_ref : String

pub record RolloutSpec : Type 0 where
  pub workload_ref : String
  pub replicas : Option ℕ
  pub stable_image : String
  pub canary_image : String
  pub steps : List CanaryStep
  pub health_check : HealthCheckSpec
  pub traffic_routing : TrafficRoutingSpec
  pub is_auto_rollback : Bool

pub record ChartSource : Type 0 where
  pub repo_url : String
  pub name : String
  pub version : String

pub record ReleaseSpec : Type 0 where
  pub source : String
  pub chart : Option ChartSource
  pub manifest : Option String
  pub values : List (String × String)
  pub target_namespace : String
  pub canary : Option RolloutSpec

-- PipelineTaskSpec, without the overrides of the stage's mode and of the repository, which the hub
-- leaves unset.
pub record TaskSpec : Type 0 where
  pub name : String
  pub task_type : TaskType
  pub stage : String
  pub image : String
  pub script_path : String
  pub script_args : List String
  pub command : List String
  pub args : List String
  pub produces : List String
  pub consumes : List String
  pub depends_on : List String
  pub is_privileged : Bool
  pub retry_policy : Option RetryPolicy
  pub timeout_seconds : ℕ
  pub approval_config : Option ApprovalConfig
  pub rollout_spec : Option RolloutSpec
  pub release_spec : Option ReleaseSpec

-- PipelineRunSpec, without the tenant and the environment, which the hub leaves empty.
pub record RunSpec : Type 0 where
  pub pipeline_ref : String
  pub tasks : List TaskSpec
  pub repo : Option RepoSource
  pub params : List Param
  pub project_id : ℕ
  pub target_namespace : String
  pub service_account_name : String
  pub timeout_seconds : ℕ
  pub triggered_by : String

-- ApplyPipelineRunPayload, the envelope that the runner receives.
pub record Apply : Type 0 where
  pub name : String
  pub namespace : String
  pub spec : RunSpec
