-- ===== src/Lib.antt =====
-- Verification library of software-distribution-platform-hub, the control plane of a software
-- distribution platform (Go). The hub keeps pipelines and their runs in a relational store, sends
-- work to the runners of deployment targets over a gateway, and guards its routes by roles and by
-- the ownership of resources. The library models its own decision logic; HTTP, SQL, websockets and
-- JSON are at its border.
--
-- Parts and files:
--   Common: tests on numbers and texts, lists and their measures, tables with their key
--     (Common/Keys), the rows of an ordered query (Common/Sorted), statements that the store may
--     refuse (Common/Statements), and three logics for calls: what they keep (Common/Keeping), what
--     a call that only reads returns (Common/Returning), and how it moves the tables
--     (Common/Moving).
--   Text: what the code uses of Go's strings and strconv, on lists of code points.
--   Run: internal/run. Run/Spec is internal/runnerproto/spec.go, the run that a runner is sent, and
--     Run/Definitions the rows of other modules that a run is made of. Run/Tables and Run/Jobs are
--     models/pipeline_run.go, models/dispatch_job.go and repository/dispatch_job.go.
--     Run/Delivery/Attempt is tryDeliver, DrainTarget and sweepOnce of service/pipeline_run.go,
--     Run/Delivery/Backoff its dispatchBackoff. Run/Rows is repository/pipeline_run.go.
--     Run/Concurrency is service/run_concurrency.go: a run above the limit of its pipeline waits as
--     PendingQueue with a held job until SweepQueued promotes it. Run/Control is CancelRun of
--     service/run_control.go with enqueueDispatch and Redispatch. Run/Params is
--     service/pipeline_run_params.go, Run/Build is buildSpec, and Run/Creation is Trigger: its
--     guards, its fan-out over targets, the admission under the limit of the pipeline, and the rows
--     of the tasks and approvals. Run/Approval is Approve and the sweep of expired approvals, which
--     close the rows that Run/Creation seeds. Run/Progress is Progress and StageProgress. What a
--     runner reports: Run/Status is ApplyStatus of service/pipeline_run.go with SaveStatus of
--     repository/task_run.go, which calls Run/Produced, registerProducedArtifacts of
--     service/pipeline_run_params.go, and Run/Rollouts, repository/rollout_run.go with
--     service/release.go; Run/Logs is RecordLogChunk and GetLogs. Run/Timeouts is SweepRunTimeouts
--     of service/run_background.go, and Run/Commands is ControlRollout and RerunTask, which check
--     and relay.
--   AgentOp: the agent operations of internal/target. AgentOp/Ledger is models/agent_op.go and
--     repository/agent_op.go, AgentOp/Service is service/agent_op.go, AgentOp/Calls runs its calls
--     in any order, and AgentOp/Lifecycle, AgentOp/Numbers, AgentOp/Released and AgentOp/Drain are
--     the theorems.
--   Pipeline: internal/pipeline. Pipeline/Snapshot, Pipeline/Changes and Pipeline/Diff are
--     models/version.go (BuildSnapshot, taskFieldChanges, DiffSnapshots), Pipeline/Versions is
--     service/version.go (Publish, Rollback) with the repositories that it calls. Pipeline/Cron is
--     cronexpr/cron.go: Next and NextN, with the parser in Pipeline/Cron/Fields, and
--     Pipeline/Triggers is service/trigger.go, whose scheduler asks Next and starts runs.
--   Platform: Platform/Window is internal/platform/window.go, the change window that Trigger asks.
--   Access: the authorization of a request. Access/Tables is internal/permission/models and the
--     queries of internal/permission/repository, Access/Decisions is service/binding.go and
--     service/resource_ownership.go, Access/Guards is internal/middleware/rbac.go and ownership.go.
--   Retention: internal/retention/retention.go, one pass over old audit logs, runs and artifact
--     versions.
--   Artifact: Artifact/Gc is RunOnce of internal/artifact/service/gc.go.
--   The Tests modules run the definitions on samples and apply the theorems to them.
--
-- How the code is modelled:
--   A service call is a function from a world to a result and a world. A world is the tables and a
--   list of outcomes of the statements to come: a refused statement changes nothing and gives an
--   error. `>>=` stops at an error, `regardless` is a call whose error is only logged, `attempt` is
--   a call whose caller looks at the error. A theorem about any world is about any refusals; a
--   theorem about `up t` is about a store that answers.
--   Rows stand in the order of their creation, and an uuid is a number, 0 for the nil uuid. A time
--   is a number of nanoseconds and is an argument, since the code reads the clock once per call or
--   row.
--   A text column with a known set of values is a data type whose `other n` are the other texts. In
--   TaskPhase and RolloutPhase, whose columns have a default that an INSERT stores for an empty
--   text, `other 0` is the empty text. The time of a step of a rollout is stored as RFC 3339, in
--   whole seconds. The uuid of a log row is drawn by the database and is an argument too.
--   Soft-deleted rows are not in the tables. Counters and sequences that the code keeps
--   non-negative are natural numbers; the product in the backoff is 64-bit and its wrap is written
--   out.
--   The gateway is a parameter, the dispatcher or the relay, which answers each push with success
--   or an error; nothing is assumed of it but where a theorem says so. The JSON package and the
--   object store are parameters too. The optional interfaces that the run service is wired with
--   (owner of a component, production policy, change window, targets, users) are the record Hub, a
--   parameter.
--   The random part of the name of a run is taken from the next id of the store.
--   An instant of Pipeline/Cron is in UTC, where no day is longer than another.
--   Loops over rows are recursion on the list that the query returned. There is fuel in three
--   places: for the decimal digits of a number n, n + 1, which is more than the digits there are;
--   for the search of Next, the minutes up to its limit, since each round advances by one at least;
--   and for the loop of fill, the values from lo to hi, since its step is positive.
--
-- Not modelled: HTTP handlers and routing, identity (Keycloak, tokens, sessions), the gateway's
-- connections, object storage, notification, search, configuration and the start-up, for which the
-- work is done by libraries or services. Of the hub's own logic, cluster roles and the
-- administration of permissions are not modelled.
pub mod Common
pub mod Access
pub mod AgentOp
pub mod Artifact
pub mod Pipeline
pub mod Platform
pub mod Retention
pub mod Run
pub mod Text
