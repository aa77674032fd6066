-- ===== src/Pipeline/Versions.antt =====
-- internal/pipeline/service/version.go with the repositories that it uses. The tables hold the live
-- rows: a soft-deleted row is in no answer. The body of a version is what `marshal` makes of a
-- snapshot, `decode` reads it back, and `same_body` compares two bodies as texts.
use software_distribution_pl.Pipeline.Snapshot.{
  TasksByStage, build_snapshot, Pipeline, PipelineStage, TaskTemplate, SnapshotTask, SnapshotStage,
  Snapshot,
}
use software_distribution_pl.Common.{
  ℕ, suc, ◌+◌, String, Bool, true, false, ◌&&◌, ◌||◌, not, Option, none, some, List, [], ◌∷◌, ◌++◌,
  if◌then◌else◌, ltb, ◌==◌, ◌=ˢ◌, length, where_, sort_by, find_row, update_where, Action, ◌>>=◌,
  attempt, pure, fail, lift, statement, query, execute, Result, not_found, bad_request, ok, err,
  corrupt_payload, required,
}
pub mod History

module _ (Body : Type 0) where
  pub record PipelineVersion : Type 0 where
    pub pipeline_id : ℕ
    pub version : ℕ
    pub snapshot : Body
    pub created_by : String

  pub record Catalog : Type 0 where
    pub pipelines : List Pipeline
    pub stages : List PipelineStage
    pub templates : List TaskTemplate
    pub versions : List PipelineVersion
    pub next_id : ℕ

pub record RollbackResult : Type 0 where
  pub pipeline_id : ℕ
  pub restored_version : ℕ
  pub new_version : ℕ
  pub stages : ℕ
  pub tasks : ℕ

abbrev pub pipeline_key : Pipeline → ℕ
pipeline_key p = p.id

abbrev pub json_or : Option String → String → String
json_or none default = default
json_or (some raw) default = if (raw =ˢ "") || (raw =ˢ "null") then default else raw

abbrev pub nullable : Option String → String
nullable none = ""
nullable (some raw) = raw

abbrev pub materialized : ℕ → SnapshotTask → TaskTemplate
materialized stage t = record {
  stage_id = stage;
  name = t.name;
  task_type = t.task_type;
  display_order = t.display_order;
  image = t.image;
  script_path = t.script_path;
  script_args = json_or t.script_args "[]";
  command = json_or t.command "[]";
  args = json_or t.args "[]";
  produces = json_or t.produces "[]";
  consumes = json_or t.consumes "[]";
  release_config = nullable t.release_config;
  rollout_config = nullable t.rollout_config;
  approval_config = nullable t.approval_config;
  retry_policy = json_or t.retry_policy "{\"maxRetries\":0}";
  timeout_seconds = t.timeout_seconds;
  is_privileged = false;
}

abbrev pub a_stage : ℕ → SnapshotStage → PipelineStage
a_stage k s = record {
  id = 0;
  pipeline_id = k;
  name = s.name;
  sequence = s.sequence;
  execution_mode = if s.execution_mode =ˢ "" then "parallel" else s.execution_mode;
}

-- ORDER BY version DESC LIMIT 1.
module _ {B : Type 0} where
  abbrev pub newer : PipelineVersion B → Option (PipelineVersion B) → PipelineVersion B
  newer v none = v
  newer v (some u) = if ltb v.version u.version then u else v

  abbrev pub newest : ℕ → List (PipelineVersion B) → Option (PipelineVersion B)
  newest k [] = none
  newest k (v ∷ vs) = if v.pipeline_id == k then some (newer v (newest k vs)) else newest k vs

module _ {Body : Type 0} where
  abbrev pub get_pipeline : ℕ → Action (Catalog Body) Pipeline
  get_pipeline k = query λ t. required (find_row pipeline_key k t.pipelines)

  -- Save writes the whole row.
  abbrev pub update_pipeline : Pipeline → Action (Catalog Body) (Unit {0})
  update_pipeline p =
      execute λ t. record t { pipelines = update_where (λ x. x.id == p.id) (λ _. p) t.pipelines }

  abbrev pub list_by_pipeline_id : ℕ → Action (Catalog Body) (List PipelineStage)
  list_by_pipeline_id k = query λ t.
      ok (sort_by (λ a b. ltb a.sequence b.sequence) (where_ (λ s. s.pipeline_id == k) t.stages))

  abbrev pub list_by_stage_id : ℕ → Action (Catalog Body) (List TaskTemplate)
  list_by_stage_id k = query λ t. ok (
      sort_by (λ a b. ltb a.display_order b.display_order)
        (where_ (λ x. x.stage_id == k) t.templates))

  abbrev pub latest : ℕ → Action (Catalog Body) (PipelineVersion Body)
  latest k = query λ t. required (newest k t.versions)

  abbrev pub create_version : PipelineVersion Body → Action (Catalog Body) (Unit {0})
  create_version v = execute λ t. record t { versions = t.versions ++ v ∷ [] }

  abbrev pub get_by_version : ℕ → ℕ → Action (Catalog Body) (PipelineVersion Body)
  get_by_version k n =
      query
        λ t. required (newest k (where_ (λ v. (v.pipeline_id == k) && (v.version == n)) t.versions))

  abbrev pub create_stage : PipelineStage → Action (Catalog Body) PipelineStage
  create_stage s = statement λ t. (
    ok (record s { id = t.next_id }),
    record t { stages = t.stages ++ record s { id = t.next_id } ∷ []; next_id = suc t.next_id },
  )

  abbrev pub create_template : TaskTemplate → Action (Catalog Body) (Unit {0})
  create_template x = execute λ t. record t { templates = t.templates ++ x ∷ [] }

  abbrev pub delete_templates : ℕ → Action (Catalog Body) (Unit {0})
  delete_templates k =
      execute λ t. record t { templates = where_ (λ x. not (x.stage_id == k)) t.templates }

  abbrev pub delete_stage : ℕ → Action (Catalog Body) (Unit {0})
  delete_stage k = execute λ t. record t { stages = where_ (λ s. not (s.id == k)) t.stages }

  -- The templates of each stage, as a map that answers [] elsewhere.
  unfoldable pub load_templates : List PipelineStage → Action (Catalog Body) TasksByStage
  load_templates [] = pure (λ _. [])
  load_templates (s ∷ ss) = do
    ts ← list_by_stage_id s.id
    rest ← load_templates ss
    pure (λ k. if s.id == k then ts else rest k)

  unfoldable pub current_snapshot : ℕ → Action (Catalog Body) Snapshot
  unfolding load_templates
  current_snapshot k = do
    p ← get_pipeline k
    stages ← list_by_pipeline_id k
    by_stage ← load_templates stages
    pure (build_snapshot p stages by_stage)

  unfoldable pub clear_stages : List PipelineStage → Action (Catalog Body) (Unit {0})
  clear_stages [] = pure tt
  clear_stages (s ∷ ss) = do _ ← delete_templates s.id; _ ← delete_stage s.id; clear_stages ss

  unfoldable pub clear_structure : ℕ → Action (Catalog Body) (Unit {0})
  unfolding clear_stages
  clear_structure k = list_by_pipeline_id k >>= clear_stages

  unfoldable pub create_tasks : ℕ → List SnapshotTask → Action (Catalog Body) (Unit {0})
  create_tasks stage [] = pure tt
  create_tasks stage (t ∷ ts) = do _ ← create_template (materialized stage t); create_tasks stage ts

  unfoldable pub materialize : ℕ → List SnapshotStage → Action (Catalog Body) (Unit {0})
  unfolding create_tasks
  materialize k [] = pure tt
  materialize k (s ∷ ss) = do
    stage ← create_stage (a_stage k s)
    _ ← create_tasks stage.id s.tasks
    materialize k ss

module _ {Body : Type 0} where
  abbrev pub record_version : ℕ → Body → String → Action (Catalog Body) (Unit {0})
  record_version k body who = do
    p ← get_pipeline k
    _ ← update_pipeline (record p { version = p.version + 1 })
    create_version
        (record { pipeline_id = k; version = p.version + 1; snapshot = body; created_by = who })

  abbrev pub get_version : ℕ → ℕ → Action (Catalog Body) (PipelineVersion Body)
  get_version k n = if n == 0 then fail bad_request else get_by_version k n

abbrev pub readable : Option Snapshot → Result Snapshot
readable none = err corrupt_payload
readable (some s) = ok s

-- Every error of the lookup is answered as a pipeline that is not there.
abbrev pub found : {B : Type 0} → Result Pipeline → Action (Catalog B) (Unit {0})
found (ok p) = pure tt
found (err e) = fail not_found

abbrev pub count_tasks : List SnapshotStage → ℕ
count_tasks [] = 0
count_tasks (s ∷ ss) = length s.tasks + count_tasks ss

-- The number of the new version, 0 when the row cannot be read.
abbrev pub version_after : Result Pipeline → ℕ
version_after (ok p) = p.version
version_after (err e) = 0

abbrev pub rolled_back : ℕ → ℕ → List SnapshotStage → ℕ → RollbackResult
rolled_back k n stages version = record {
  pipeline_id = k;
  restored_version = n;
  new_version = version;
  stages = length stages;
  tasks = count_tasks stages;
}

module _ {Body : Type 0} (marshal : Snapshot → Body) (decode : Body → Option Snapshot)
    (same_body : Body → Body → Bool) where
  -- What Publish does after looking for the latest version.
  abbrev pub unless_same :
      ℕ → Body → String → Result (PipelineVersion Body) → Action (Catalog Body) (Unit {0})
  unless_same k body who (ok v) = elim (same_body v.snapshot body) [
    | true ↦ pure tt
    | false ↦ record_version k body who
  ]
  unless_same k body who (err not_found) = record_version k body who
  unless_same k body who (err e) = fail e

  unfoldable pub publish : ℕ → String → Action (Catalog Body) (Unit {0})
  unfolding current_snapshot
  publish k who =
      current_snapshot k >>= λ snap. attempt (latest k) (unless_same k (marshal snap) who)

  unfoldable pub rollback : ℕ → ℕ → String → Action (Catalog Body) RollbackResult
  unfolding clear_structure materialize publish
  rollback k n who = do
    target ← get_version k n
    snap ← lift (readable (decode target.snapshot))
    _ ← attempt (get_pipeline k) found
    _ ← clear_structure k
    _ ← materialize k snap.stages
    _ ← publish k who
    attempt (get_pipeline k) λ r. pure (rolled_back k n snap.stages (version_after r))
