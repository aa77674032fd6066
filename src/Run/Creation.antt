-- ===== src/Run/Creation.antt =====
-- internal/run/service/pipeline_run.go: Trigger, triggerFanout, selectTarget and createRun, with
-- internal/run/service/production_guard.go. What the service is wired with is the record Hub: the
-- optional guards and lookups are interfaces of that file.
pub mod Seeds
pub mod Quiet
pub mod Targets
pub mod Production
pub mod Admission
pub mod Capacity
mod Tests
use software_distribution_pl.Common.{
  ℕ, String, Bool, true, false, ◌&&◌, Option, none, some, List, [], ◌∷◌, if◌then◌else◌, any, ◌=ˢ◌,
  find_row, Action, ◌>>=◌, regardless, attempt, pure, fail, lift, query, statement, required, Error,
  Result, ok, err, conflict, target_offline, no_target, zero,
}
use software_distribution_pl.Run.Spec.{TaskType, approval, TaskSpec, RunSpec, Param, Apply}
use software_distribution_pl.Run.Definitions.{Target, Policy, queue}
use software_distribution_pl.Run.Tables.{PipelineRun, Phase, pending, pending_queue, failed, Tables}
use software_distribution_pl.Run.Rows.{take_, create_run_row, update_run}
use software_distribution_pl.Run.Params.{trigger_params}
use software_distribution_pl.Run.Build.{TriggerRequest, build_spec, get_pipeline, namespace_of}
use software_distribution_pl.Run.Concurrency.{guard_concurrency, should_queue}
use software_distribution_pl.Run.Control.{enqueue_dispatch}
use software_distribution_pl.Run.Creation.Seeds.{
  Hub, seed_tasks, seed_approvals, Owner, is_approval,
}

-- HasApprovalGate of internal/run/service/approval_timeout.go.
abbrev pub has_approval_gate : List TaskSpec → Bool
has_approval_gate = any (λ t. is_approval t.task_type)

-- Production targets among those of a trigger refuse it; a policy that cannot answer does too.
abbrev pub refuse_production : Result (List ℕ) → Action Tables (Unit {0})
refuse_production (err e) = fail e
refuse_production (ok []) = pure tt
refuse_production (ok (t ∷ ts)) = fail conflict

abbrev pub ask_production : Option (List ℕ → Result (List ℕ)) → List ℕ → Action Tables (Unit {0})
ask_production none targets = pure tt
ask_production (some prod) [] = pure tt
ask_production (some prod) (t ∷ ts) = refuse_production (prod (t ∷ ts))

unfoldable pub enforce_production_approval :
    Option (List ℕ → Result (List ℕ)) → RunSpec → List ℕ → Action Tables (Unit {0})
enforce_production_approval policy spec targets =
    if has_approval_gate spec.tasks then pure tt else ask_production policy targets

-- triggerSourceOf.
abbrev pub trigger_source_of : TriggerRequest → String
trigger_source_of req =
    if any (λ s. s =ˢ req.trigger_source) ("cron" ∷ "webhook" ∷ "event" ∷ [])
    then req.trigger_source
    else "manual"

abbrev pub target_key : Target → ℕ
target_key x = x.id

abbrev pub get_target : ℕ → Action Tables Target
get_target k = query λ t. required (find_row target_key k t.definitions.targets)

-- The first page of the targets.
abbrev pub list_targets : Action Tables (List Target)
list_targets = query λ t. ok (take_ 100 t.definitions.targets)

abbrev pub first_online : List Target → Action Tables ℕ
first_online [] = fail no_target
first_online (x ∷ xs) = elim x.is_online [ true ↦ pure x.id | false ↦ first_online xs ]

unfoldable pub select_target : Option ℕ → Action Tables ℕ
select_target (some k) = do
  tg ← get_target k
  if tg.is_online then pure tg.id else fail target_offline
select_target none = list_targets >>= first_online

-- The phase of a new run: above the limit of a queueing pipeline it waits.
abbrev pub initial_phase : ℕ → ℕ → Policy → Action Tables Phase
initial_phase limit k queue = do
  full ← should_queue limit k
  pure (if full then pending_queue else pending)
initial_phase limit k _ = pure pending

-- The component and the organization of the pipeline; a failed lookup is only logged.
abbrev pub owner_of : Option (ℕ → Result Owner) → ℕ → Option Owner
owner_of none k = none
owner_of (some f) k = elim (f k) [ ok o ↦ some o | err e ↦ none ]

abbrev pub environment_of : Hub → Option Owner → ℕ → String → Option ℕ
environment_of h none target ns = none
environment_of h (some o) target ns = elim h.environment_meta [
  | none ↦ none
  | some f ↦ f o.component_id target ns
]

abbrev pub org_of : Option Owner → Option ℕ
org_of none = none
org_of (some o) = some o.org_id

-- The row before the database gives it an id.
abbrev pub new_run :
    Hub
    → ℕ
    → ℕ
    → ℕ
    → RunSpec
    → String
    → List Param
    → ℕ
    → TriggerRequest
    → Phase
    → String
    → PipelineRun
new_run h now k target spec ns params version req phase name =
    let owner = owner_of h.component_meta k in
    record {
      id = 0;
      pipeline_id = k;
      target_id = target;
      org_id = org_of owner;
      environment_id = environment_of h owner target ns;
      cr_name = name;
      cr_namespace = ns;
      commit_sha = req.commit_sha;
      params = params;
      pipeline_version = version;
      phase = phase;
      message = "";
      timeout_seconds = spec.timeout_seconds;
      triggered_by = req.triggered_by;
      trigger_source = trigger_source_of req;
      start_time = none;
      completion_time = none;
      created_at = now;
    }

abbrev pub envelope_of : PipelineRun → RunSpec → Apply
envelope_of run spec = record { name = run.cr_name; namespace = run.cr_namespace; spec = spec }

-- The name of a run in its cluster is made of a fresh uuid.
abbrev pub fresh_name : Hub → Action Tables String
fresh_name h w = (ok (h.run_name w.tables.next_id), w)

-- A run whose dispatch job cannot be stored has failed.
unfoldable pub enqueue_run : Hub → ℕ → PipelineRun → RunSpec → Action Tables PipelineRun
enqueue_run h now run spec =
    attempt (enqueue_dispatch h.dispatcher now run.id run.target_id (envelope_of run spec)) λ r.
      elim r [
        | ok _ ↦ pure run
        | err e ↦
            regardless (update_run (record run { phase = failed; message = h.enqueue_failure e }))
              (fail e)
      ]

-- What follows the choice of the phase.
unfoldable pub store_run : Hub → ℕ → PipelineRun → RunSpec → Action Tables PipelineRun
unfolding enqueue_run seed_tasks seed_approvals
store_run h now row spec = do
  id ← create_run_row row
  _ ← seed_tasks id spec.tasks
  _ ←
      seed_approvals h now (owner_of h.component_meta row.pipeline_id) (record row { id = id })
        spec.tasks
  enqueue_run h now (record row { id = id }) spec

-- What follows the lookup of the policy.
unfoldable pub admit_run :
    Hub
    → ℕ
    → ℕ
    → ℕ
    → RunSpec
    → String
    → List Param
    → ℕ
    → TriggerRequest
    → Policy
    → Action Tables PipelineRun
unfolding store_run guard_concurrency should_queue
admit_run h now k target spec ns params version req policy = do
  _ ← guard_concurrency k policy
  phase ← initial_phase h.limit k policy
  name ← fresh_name h
  store_run h now (new_run h now k target spec ns params version req phase name) spec

unfoldable pub create_run :
    Hub → ℕ → ℕ → ℕ → RunSpec → String → List Param → ℕ → TriggerRequest → Action Tables PipelineRun
unfolding admit_run
create_run h now k target spec ns params version req = do
  p ← get_pipeline k
  admit_run h now k target spec ns params version req p.concurrency_policy

unfoldable pub create_runs :
    Hub
    → ℕ
    → ℕ
    → RunSpec
    → String
    → List Param
    → ℕ
    → TriggerRequest
    → List ℕ
    → Action Tables (List PipelineRun)
unfolding create_run
create_runs h now k spec ns params version req [] = pure []
create_runs h now k spec ns params version req (target ∷ targets) = do
  run ← create_run h now k target spec ns params version req
  runs ← create_runs h now k spec ns params version req targets
  pure (run ∷ runs)

-- The targets that the guard asks about: none for a single target with the nil id.
abbrev pub production_guard_targets : List ℕ → List ℕ → List ℕ
production_guard_targets [] (zero ∷ []) = []
production_guard_targets many targets = targets

-- What Trigger and triggerFanout do once the targets are known.
unfoldable pub trigger_on : Hub → ℕ → ℕ → TriggerRequest → List ℕ → Action Tables (List PipelineRun)
unfolding create_runs enforce_production_approval
trigger_on h now k req targets = do
  spec ← build_spec h.component_guard h.var_source h.service_account k req
  _ ←
      enforce_production_approval h.production_policy spec
        (production_guard_targets req.target_ids targets)
  p ← get_pipeline k
  create_runs h now k spec (namespace_of req) (trigger_params h.var_source p req.params) p.version
      req targets

-- The targets of a fan-out must exist.
unfoldable pub check_targets : List ℕ → Action Tables (Unit {0})
check_targets [] = pure tt
check_targets (k ∷ ks) = do _ ← get_target k; check_targets ks

abbrev pub open_window : Option (Option Error) → Action Tables (Unit {0})
open_window none = pure tt
open_window (some none) = pure tt
open_window (some (some e)) = fail e

abbrev pub targets_of : List ℕ → Option ℕ → Action Tables (List ℕ)
targets_of [] one = do t ← select_target one; pure (t ∷ [])
targets_of (k ∷ ks) one = do _ ← check_targets (k ∷ ks); pure (k ∷ ks)

unfoldable pub trigger : Hub → ℕ → ℕ → TriggerRequest → Action Tables (List PipelineRun)
unfolding trigger_on select_target check_targets
trigger h now k req = do
  _ ← open_window h.change_window
  targets ← targets_of req.target_ids req.target_id
  trigger_on h now k req targets
