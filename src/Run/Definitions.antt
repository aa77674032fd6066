-- ===== src/Run/Definitions.antt =====
-- The rows that a run is assembled from: internal/pipeline/models (pipeline.go, stage.go,
-- task_template.go), internal/target/models/target.go and the approval policies of
-- internal/run/models/pipeline_approval.go.
use software_distribution_pl.Common.{ℕ, String, Bool, Option, List}
use software_distribution_pl.Run.Spec.{
  TaskType, RetryPolicy, ApprovalConfig, RolloutSpec, ReleaseSpec,
}

-- A JSON column: no bytes, the text null, what decoding it gives, or bytes that do not decode.
pub data Column {ℓ} (A : Type ℓ) : Type ℓ where
  absent null corrupt : Column A
  value : A → Column A

-- The concurrency policies; `other` stands for any other text.
pub data Policy : Type 0 where
  allow forbid queue : Policy
  other : ℕ → Policy

pub record ParamDecl : Type 0 where
  pub name : String
  pub default : String

pub record PipelineDef : Type 0 where
  pub id : ℕ
  pub component_id : ℕ
  pub name : String
  pub version : ℕ
  pub concurrency_policy : Policy
  pub params : Column (List ParamDecl)

pub record Stage : Type 0 where
  pub id : ℕ
  pub pipeline_id : ℕ
  pub name : String
  pub sequence : ℕ
  pub execution_mode : String

pub record Template : Type 0 where
  pub stage_id : ℕ
  pub name : String
  pub task_type : TaskType
  pub display_order : ℕ
  pub image : String
  pub script_path : String
  pub script_args : Column (List String)
  pub command : Column (List String)
  pub args : Column (List String)
  pub produces : Column (List String)
  pub consumes : Column (List String)
  pub release_config : Column ReleaseSpec
  pub rollout_config : Column RolloutSpec
  pub approval_config : Column ApprovalConfig
  pub retry_policy : Column RetryPolicy
  pub timeout_seconds : ℕ
  pub is_privileged : Bool

pub record Target : Type 0 where
  pub id : ℕ
  pub name : String
  pub is_online : Bool

pub record ApprovalPolicy : Type 0 where
  pub id : ℕ
  pub component_id : ℕ
  pub environment_id : Option ℕ
  pub mode : String
  pub min_approvals : ℕ
  pub assignees : String
  pub timeout_seconds : ℕ
  pub created_by : String

pub record Definitions : Type 0 where
  pub pipelines : List PipelineDef
  pub stages : List Stage
  pub templates : List Template
  pub targets : List Target
  pub policies : List ApprovalPolicy
