-- ===== src/Run/Approval/Tests.antt =====
-- One run that waits for an approval, and the theorems on its decision.
use software_distribution_pl.Common.{
  String, true, false, none, some, [], ◌∷◌, ◌≡◌, ◌≢◌, refl, ok, err, no_runner, already_decided, up,
  arith, eq_iff, map, find_row, find_where, update_where, sort_by, self_review,
}
use software_distribution_pl.Run.Spec.{approval}
use software_distribution_pl.Run.Definitions.{value, absent, Template, Definitions}
use software_distribution_pl.Run.Tables.{
  Tables, PipelineRun, TaskRun, TaskPhase, PipelineApproval, ApprovalStatus, Phase,
}
use software_distribution_pl.Run.Approval.{
  Relay, approve, sweep_approval_timeouts, auto_approver, approval_expired, decide, record_decision,
  approval_timeout_for,
}
use software_distribution_pl.Run.Approval.Gate.{IsGated, approve-IsGated}
use software_distribution_pl.Run.Approval.Stuck.{approve_undelivered}
use software_distribution_pl.Run.Approval.Sweep.{
  AllClosedLate, sweep_approval_timeouts-AllClosedLate,
}

abbrev waiting : PipelineRun
waiting = record {
  id = 10;
  pipeline_id = 5;
  target_id = 7;
  org_id = none;
  environment_id = none;
  cr_name = "pr-1";
  cr_namespace = "sdp-run";
  commit_sha = "";
  params = [];
  pipeline_version = 1;
  phase = Phase.waiting_approval;
  message = "";
  timeout_seconds = 0;
  triggered_by = "ann";
  trigger_source = "manual";
  start_time = none;
  completion_time = none;
  created_at = 0;
}

abbrev gate : TaskRun
gate = record {
  id = 11;
  pipeline_run_id = 10;
  task_name = "sign";
  cr_name = "";
  stage_name = "ship";
  task_type = approval;
  phase = TaskPhase.running;
  retry_count = 0;
  start_time = none;
  completion_time = none;
  message = "";
}

abbrev asked : PipelineApproval
asked = record {
  id = 12;
  org_id = 1;
  run_id = 10;
  task_run_id = some 11;
  component_id = 3;
  pipeline_id = 5;
  status = ApprovalStatus.pending;
  requested_by = "ann";
  approver = "";
  assignee = "";
  decision_comment = "";
  created_at = 0;
  decided_at = none;
}

abbrev template : Template
template = record {
  stage_id = 2;
  name = "sign";
  task_type = approval;
  display_order = 0;
  image = "";
  script_path = "";
  script_args = value [];
  command = absent;
  args = absent;
  produces = value [];
  consumes = value [];
  release_config = absent;
  rollout_config = absent;
  approval_config =
      value
        (record { required_approvals = 2; allowed_approvers = "eve" ∷ []; timeout_seconds = 60 });
  retry_policy = absent;
  timeout_seconds = 0;
  is_privileged = false;
}

abbrev definitions : Definitions
definitions = record {
  pipelines = [];
  stages =
      record { id = 2; pipeline_id = 5; name = "ship"; sequence = 1; execution_mode = "parallel" }
      ∷ [];
  templates = template ∷ [];
  targets = [];
  policies = [];
}

abbrev sample : Tables
sample = record {
  runs = waiting ∷ [];
  jobs = [];
  task_runs = gate ∷ [];
  approvals = asked ∷ [];
  definitions = definitions;
  next_id = 20;
  sent = [];
  rollouts = [];
  logs = [];
  produced = [];
}

abbrev online : Relay
online target run task approver is_rejected = none

abbrev offline : Relay
offline target run task approver is_rejected = some no_runner

-- The requester is refused, another subject is not, though the task wants two approvers and allows
-- only a third.
own_refused : (approve online true 9 5 10 "sign" true "ann" (up sample)).0 ≡ err self_review
unfolding approve decide record_decision find_row find_where
own_refused = refl

other_accepted : (approve online true 9 5 10 "sign" true "bob" (up sample)).0 ≡ ok tt
unfolding approve decide record_decision find_row find_where
other_accepted = refl

-- After a minute the sweep closes the approval, if the runner can be told.
swept :
    map
      (λ a. a.approver)
      (sweep_approval_timeouts online true 60000000001 (up sample)).1.tables.approvals
    ≡ auto_approver ∷ []
unfolding sweep_approval_timeouts approval_expired approval_timeout_for find_row sort_by
    update_where
swept = refl

kept : (sweep_approval_timeouts offline true 60000000001 (up sample)).1.tables ≡ sample
unfolding sweep_approval_timeouts approval_expired approval_timeout_for find_row sort_by
kept = refl

-- A timeout of more seconds than a 64-bit duration holds has passed at once.
wrapped : approval_expired 1000 9300000000 1001 ≡ true
unfolding approval_expired
wrapped = refl

bob_named : ◌≢◌ {A = String} "bob" ""
bob_named = ground (arith, eq_iff "bob" "")

approve-IsGated_example :
    IsGated 5 10 "sign" "bob" true sample (approve online true 9 5 10 "sign" true "bob" (up sample))
approve-IsGated_example = approve-IsGated online 9 5 10 "sign" "bob" true sample

approve_undelivered_example :
    ((approve offline true 9 5 10 "sign" true "bob" (up sample)).0 ≡ err no_runner)
    × ((approve online true 9 5 10 "sign" true "bob"
          (up (approve offline true 9 5 10 "sign" true "bob" (up sample)).1.tables)).0
        ≡ err already_decided)
unfolding find_row find_where
approve_undelivered_example =
    approve_undelivered offline online 9 9 5 10 "sign" "bob" "bob" true true sample waiting gate
      asked no_runner (refl, refl, bob_named, refl, refl, refl) refl refl refl refl bob_named

sweep_approval_timeouts-AllClosedLate_example :
    AllClosedLate (sweep_approval_timeouts online true 60000000001 (up sample)).1.tables
sweep_approval_timeouts-AllClosedLate_example =
    sweep_approval_timeouts-AllClosedLate online 60000000001 true (up sample)
      ((λ q. absurd (cc (q))), tt)
