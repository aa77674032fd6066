-- ===== src/Run/Produced.antt =====
-- registerProducedArtifacts of internal/run/service/pipeline_run_params.go: the artifacts that a
-- task which has succeeded hands to the registry. The registry is the list `produced`.
use software_distribution_pl.Run.Creation.Seeds.{get_task_run}
use software_distribution_pl.Run.Params.{substitute_params_slice}
use software_distribution_pl.Run.Definitions.{Stage, Template}
use software_distribution_pl.Run.Tables.{TaskPhase, PipelineRun, Produced, Tables}
use software_distribution_pl.Run.Spec.{Param}
use software_distribution_pl.Common.{
  ℕ, String, Bool, true, false, ◌&&◌, ◌||◌, not, Option, none, some, List, [], ◌∷◌, ◌++◌,
  if◌then◌else◌, ◌>>=◌, ◌=ˢ◌, Action, pure, lift, Result, ok,
}
use Prim.Native.String.{◌++◌ as text_append}
use software_distribution_pl.Run.Build.{get_pipeline, decode_optional, list_stages, list_templates}

abbrev pub is_succeeded : TaskPhase → Bool
is_succeeded TaskPhase.succeeded = true
is_succeeded _ = false

-- The keys that the first template with the name of the task produces.
abbrev pub template_keys : String → List Template → Option (Result (List String))
template_keys name [] = none
template_keys name (x ∷ xs) =
    if x.name =ˢ name then some (decode_optional x.produces) else template_keys name xs

abbrev pub or_next_keys :
    Option (Result (List String)) → Action Tables (List String) → Action Tables (List String)
or_next_keys none rest = rest
or_next_keys (some r) rest = lift r

unfoldable pub find_keys : String → List Stage → Action Tables (List String)
find_keys name [] = pure []
find_keys name (s ∷ ss) =
    let rest = find_keys name ss in
    list_templates s.id >>= λ tpls. or_next_keys (template_keys name tpls) rest

unfoldable pub produces_for_task : ℕ → String → Action Tables (List String)
unfolding find_keys
produces_for_task pipeline name = do stages ← list_stages pipeline; find_keys name stages

-- The first parameter VERSION that is not empty, or else a name from the id.
unfoldable pub version_of : String → List Param → String
version_of fallback [] = fallback
version_of fallback (p ∷ ps) =
    let rest = version_of fallback ps in
    if (p.name =ˢ "VERSION") && not (p.value =ˢ "") then p.value else rest

abbrev pub run_version : (ℕ → String) → PipelineRun → String
run_version short_id run = version_of (text_append "run-" (short_id run.id)) run.params

abbrev pub register : Produced → Action Tables (Unit {0})
register p w =
    (ok tt, record w { tables = record w.tables { produced = w.tables.produced ++ p ∷ [] } })

abbrev pub hand_over :
    (ℕ → String) → PipelineRun → ℕ → String → List String → Action Tables (Unit {0})
hand_over short_id run task name [] = pure tt
hand_over short_id run task name (k ∷ ks) = do
  p ← get_pipeline run.pipeline_id
  register (record {
    component_id = p.component_id;
    run_id = run.id;
    task_run_id = task;
    task_name = name;
    version = run_version short_id run;
    storage_keys = substitute_params_slice run.params (k ∷ ks);
  })

-- The caller drops every error.
unfoldable pub register_produced :
    Bool → (ℕ → String) → PipelineRun → String → TaskPhase → Action Tables (Unit {0})
unfolding produces_for_task version_of
register_produced has_registry short_id run name phase =
    if not has_registry || not (is_succeeded phase) then pure tt else do
      tr ← get_task_run run.id name
      keys ← produces_for_task run.pipeline_id name
      hand_over short_id run tr.id name keys
