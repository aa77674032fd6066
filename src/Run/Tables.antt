-- ===== src/Run/Tables.antt =====
-- The rows of internal/run/models and the phases of internal/runnerproto/phase.go. An id is a
-- number, a time is in nanoseconds, and a JSON column is what decoding it gives.
use software_distribution_pl.Common.{
  ℕ, String, Bool, Option, List, Error, Result, ok, err, corrupt_payload,
}
use software_distribution_pl.Run.Definitions.{Definitions}
use software_distribution_pl.Run.Spec.{TaskType, Param, Apply}

-- PipelineRunPhase; `other` stands for any text that is none of the constants.
pub data Phase : Type 0 where
  pending running waiting_approval pending_queue succeeded failed cancelled : Phase
  other : ℕ → Phase

-- DispatchJobState.
pub data JobState : Type 0 where
  pending dispatching dispatched failed dead held : JobState

-- TaskRunPhase; `other` stands for any text that is none of the constants, `other 0` for the empty
-- one.
pub data TaskPhase : Type 0 where
  pending running succeeded failed skipped : TaskPhase
  other : ℕ → TaskPhase

-- The status of an approval.
pub data ApprovalStatus : Type 0 where
  pending approved rejected cancelled : ApprovalStatus

-- A stored JSON column: the bytes of an envelope, or bytes that do not decode.
pub data Payload : Type 0 where
  encoded : Apply → Payload
  corrupt : Payload

-- json.Unmarshal into ApplyPipelineRunPayload.
abbrev pub decode : Payload → Result Apply
decode (encoded a) = ok a
decode corrupt = err corrupt_payload

pub record DispatchJob : Type 0 where
  pub id : ℕ
  pub pipeline_run_id : ℕ
  pub target_id : ℕ
  pub payload : Payload
  pub state : JobState
  pub attempts : ℕ
  pub last_error : Option Error
  pub next_retry_at : Option ℕ

pub record PipelineRun : Type 0 where
  pub id : ℕ
  pub pipeline_id : ℕ
  pub target_id : ℕ
  pub org_id : Option ℕ
  pub environment_id : Option ℕ
  pub cr_name : String
  pub cr_namespace : String
  pub commit_sha : String
  pub params : List Param
  pub pipeline_version : ℕ
  pub phase : Phase
  pub message : String
  pub timeout_seconds : ℕ
  pub triggered_by : String
  pub trigger_source : String
  pub start_time : Option ℕ
  pub completion_time : Option ℕ
  pub created_at : ℕ

pub record TaskRun : Type 0 where
  pub id : ℕ
  pub pipeline_run_id : ℕ
  pub task_name : String
  pub cr_name : String
  pub stage_name : String
  pub task_type : TaskType
  pub phase : TaskPhase
  pub retry_count : ℕ
  pub start_time : Option ℕ
  pub completion_time : Option ℕ
  pub message : String

pub record PipelineApproval : Type 0 where
  pub id : ℕ
  pub org_id : ℕ
  pub run_id : ℕ
  pub task_run_id : Option ℕ
  pub component_id : ℕ
  pub pipeline_id : ℕ
  pub status : ApprovalStatus
  pub requested_by : String
  pub approver : String
  pub assignee : String
  pub decision_comment : String
  pub created_at : ℕ
  pub decided_at : Option ℕ

-- RolloutPhase; `other` stands for any text that is none of the constants, `other 0` for the empty
-- one.
pub data RolloutPhase : Type 0 where
  progressing paused healthy degraded rolling_back failed rolled_back : RolloutPhase
  other : ℕ → RolloutPhase

-- An entry of step_history; its time is a text of RFC 3339, which is the second that it names.
pub record Step : Type 0 where
  pub at : ℕ
  pub phase : RolloutPhase
  pub weight : ℕ

pub record RolloutRun : Type 0 where
  pub id : ℕ
  pub task_run_id : ℕ
  pub workload_ref : String
  pub phase : RolloutPhase
  pub current_step_index : ℕ
  pub current_weight : ℕ
  pub step_history : List Step
  pub start_time : Option ℕ
  pub completion_time : Option ℕ

pub record TaskRunLog : Type 0 where
  pub id : ℕ
  pub pipeline_run_id : ℕ
  pub task_name : String
  pub stream : String
  pub chunk : String
  pub created_at : ℕ

-- What the artifact registry is handed for a task.
pub record Produced : Type 0 where
  pub component_id : ℕ
  pub run_id : ℕ
  pub task_run_id : ℕ
  pub task_name : String
  pub version : String
  pub storage_keys : List String

-- What the hub tells others: a decision that the runner of a target took, the end of a run, and a
-- notice to a subscriber.
pub data Message : Type 0 where
  decided : (target : ℕ) (run task approver : String) (is_rejected : Bool) → Message
  run_finished : (pipeline : ℕ) (phase : Phase) → Message
  notice : (event subject run : String) → Message

-- The tables that the run service writes, those that it reads, the next id that the database gives
-- out, the messages that went out, in order, and what the artifact registry was handed; pushes of a
-- job and commands to a runner but decisions are not among the messages.
pub record Tables : Type 0 where
  pub runs : List PipelineRun
  pub jobs : List DispatchJob
  pub task_runs : List TaskRun
  pub approvals : List PipelineApproval
  pub definitions : Definitions
  pub next_id : ℕ
  pub sent : List Message
  pub rollouts : List RolloutRun
  pub logs : List TaskRunLog
  pub produced : List Produced

abbrev pub job_id : DispatchJob → ℕ
job_id j = j.id

abbrev pub run_id : PipelineRun → ℕ
run_id r = r.id

abbrev pub task_run_key : TaskRun → ℕ
task_run_key r = r.id

abbrev pub approval_id : PipelineApproval → ℕ
approval_id a = a.id
