-- ===== src/Pipeline/Snapshot.antt =====
-- internal/pipeline/models/version.go, the snapshot of a pipeline's definition. A JSON column is a
-- text, and a nil json.RawMessage is `none`.
use software_distribution_pl.Common.{
  ℕ, String, Bool, Option, none, some, List, map, if◌then◌else◌, ◌=ˢ◌,
}

pub record Pipeline : Type 0 where
  pub id : ℕ
  pub name : String
  pub kind : String
  pub description : String
  pub params : String
  pub version : ℕ

pub record PipelineStage : Type 0 where
  pub id : ℕ
  pub pipeline_id : ℕ
  pub name : String
  pub sequence : ℕ
  pub execution_mode : String

pub record TaskTemplate : Type 0 where
  pub stage_id : ℕ
  pub name : String
  pub task_type : String
  pub display_order : ℕ
  pub image : String
  pub script_path : String
  pub script_args : String
  pub command : String
  pub args : String
  pub produces : String
  pub consumes : String
  pub release_config : String
  pub rollout_config : String
  pub approval_config : String
  pub retry_policy : String
  pub timeout_seconds : ℕ
  pub is_privileged : Bool

pub record SnapshotTask : Type 0 where
  pub name : String
  pub task_type : String
  pub display_order : ℕ
  pub image : String
  pub script_path : String
  pub script_args : Option String
  pub command : Option String
  pub args : Option String
  pub produces : Option String
  pub consumes : Option String
  pub release_config : Option String
  pub rollout_config : Option String
  pub approval_config : Option String
  pub retry_policy : Option String
  pub timeout_seconds : ℕ

pub record SnapshotStage : Type 0 where
  pub name : String
  pub sequence : ℕ
  pub execution_mode : String
  pub tasks : List SnapshotTask

pub record Snapshot : Type 0 where
  pub pipeline_id : ℕ
  pub name : String
  pub kind : String
  pub description : String
  pub params : Option String
  pub stages : List SnapshotStage

abbrev pub raw_or_empty : String → Option String
raw_or_empty v = if v =ˢ "" then none else some v

abbrev pub snapshot_task : TaskTemplate → SnapshotTask
snapshot_task t = record {
  name = t.name;
  task_type = t.task_type;
  display_order = t.display_order;
  image = t.image;
  script_path = t.script_path;
  script_args = raw_or_empty t.script_args;
  command = raw_or_empty t.command;
  args = raw_or_empty t.args;
  produces = raw_or_empty t.produces;
  consumes = raw_or_empty t.consumes;
  release_config = raw_or_empty t.release_config;
  rollout_config = raw_or_empty t.rollout_config;
  approval_config = raw_or_empty t.approval_config;
  retry_policy = raw_or_empty t.retry_policy;
  timeout_seconds = t.timeout_seconds;
}

-- The tasks of a stage; a stage without an entry has none.
abbrev pub TasksByStage : Type 0
TasksByStage = ℕ → List TaskTemplate

abbrev pub snapshot_stage : TasksByStage → PipelineStage → SnapshotStage
snapshot_stage tasks_by_stage st = record {
  name = st.name;
  sequence = st.sequence;
  execution_mode = st.execution_mode;
  tasks = map snapshot_task (tasks_by_stage st.id);
}

abbrev pub build_snapshot : Pipeline → List PipelineStage → TasksByStage → Snapshot
build_snapshot p stages tasks_by_stage = record {
  pipeline_id = p.id;
  name = p.name;
  kind = p.kind;
  description = p.description;
  params = raw_or_empty p.params;
  stages = map (snapshot_stage tasks_by_stage) stages;
}
