-- ===== src/Pipeline/Tests.antt =====
-- Comparisons of two versions of a sample pipeline.
use software_distribution_pl.Pipeline.Versions.History.{rollback_appends, rollback_keeps_row}
use software_distribution_pl.Pipeline.Versions.{
  pipeline_key, load_templates, current_snapshot, clear_stages, clear_structure, create_tasks,
  PipelineVersion, Catalog, rollback, materialize, publish,
}
use software_distribution_pl.Pipeline.Diff.Tally.{diff_snapshots_reversed}
use software_distribution_pl.Pipeline.Diff.Same.{diff_snapshots_same}
use software_distribution_pl.Pipeline.Changes.{
  task_field_changes, stage_field_changes, itoa, decimal,
}
use software_distribution_pl.Pipeline.Diff.{
  no_diff, stage_of, task_of, compare_stages, removed_stages, compare_tasks, compare_all_tasks,
  removed_tasks, removed_all_tasks, sort_diffs, diff_lists, diff_snapshots, modified, removed,
  added, ChangeType,
}
use software_distribution_pl.Pipeline.Snapshot.{SnapshotTask, SnapshotStage, Snapshot, Pipeline}
use software_distribution_pl.Common.{
  ℕ, String, ◌≡◌, refl, true, Option, none, some, List, [], ◌∷◌, map, insert_by, sort_by, ◌≤◌, Bool,
  ◌&&◌, ◌++◌, ◌=ˢ◌, find_row, update_where, up, ok,
}

abbrev a_task : String → String → ℕ → SnapshotTask
a_task name image order = record {
  name = name;
  task_type = "Build";
  display_order = order;
  image = image;
  script_path = "";
  script_args = none;
  command = some "[]";
  args = none;
  produces = none;
  consumes = none;
  release_config = none;
  rollout_config = none;
  approval_config = none;
  retry_policy = none;
  timeout_seconds = 60;
}

abbrev old_stages : List SnapshotStage
old_stages =
    record {
      name = "build";
      sequence = 1;
      execution_mode = "serial";
      tasks = a_task "compile" "go:1" 1 ∷ a_task "lint" "go:1" 2 ∷ [];
    }
    ∷ record { name = "ship"; sequence = 2; execution_mode = "parallel"; tasks = [] }
    ∷ []

abbrev new_stages : List SnapshotStage
new_stages =
    record {
      name = "verify";
      sequence = 2;
      execution_mode = "parallel";
      tasks = a_task "lint" "go:1" 1 ∷ [];
    }
    ∷ record {
      name = "build";
      sequence = 1;
      execution_mode = "serial";
      tasks = a_task "compile" "go:2" 1 ∷ [];
    }
    ∷ []

abbrev old_version : Snapshot
old_version = record {
  pipeline_id = 1;
  name = "p";
  kind = "build";
  description = "";
  params = none;
  stages = old_stages;
}

abbrev new_version : Snapshot
new_version = record old_version { stages = new_stages }

abbrev renamed : Snapshot
renamed = record old_version { name = "q"; params = some "[]" }

abbrev no_json : String → Option String
no_json raw = none

-- A task that moved is added in one stage and removed from the other.
moved_task :
    map {B = String × String × ChangeType}
      (λ t. (t.stage, t.name, t.change))
      (diff_snapshots no_json old_version new_version 1 2 5 6).diff.tasks
    ≡ ("build", "compile", modified) ∷ ("build", "lint", removed) ∷ ("verify", "lint", added) ∷ []
unfolding diff_snapshots diff_lists compare_stages compare_all_tasks compare_tasks removed_stages
    removed_all_tasks removed_tasks stage_of task_of sort_diffs sort_by insert_by task_field_changes
    stage_field_changes itoa
moved_task = refl

numbers : (itoa 0 ≡ "0") × (itoa 907 ≡ "907")
unfolding itoa decimal
numbers = (refl, refl)

diff_snapshots_reversed_example :
    let forth = (diff_snapshots no_json old_version new_version 1 2 5 6).diff.summary in
    let back = (diff_snapshots no_json new_version old_version 2 1 6 5).diff.summary in
    (forth.stages_added ≡ back.stages_removed)
    × (forth.stages_removed ≡ back.stages_added)
    × (forth.tasks_added ≡ back.tasks_removed)
    × (forth.tasks_removed ≡ back.tasks_added)
diff_snapshots_reversed_example = diff_snapshots_reversed no_json old_version new_version 1 2 5 6

diff_snapshots_same_example :
    ((diff_snapshots no_json old_version renamed 1 2 5 6).is_identical ≡ true)
    × ((diff_snapshots no_json old_version renamed 1 2 5 6).diff ≡ no_diff)
unfolding stage_of task_of
diff_snapshots_same_example =
    diff_snapshots_same no_json old_version renamed 1 2 5 6 refl
      ((refl, (refl, (refl, tt))), ((refl, tt), tt))

-- A body is the snapshot itself; two bodies are compared by their pipelines' names and kinds.
abbrev same_name : Snapshot → Snapshot → Bool
same_name a b = (a.name =ˢ b.name) && (a.kind =ˢ b.kind)

abbrev keep_body : Snapshot → Snapshot
keep_body s = s

abbrev a_pipeline : Pipeline
a_pipeline = record {
  id = 1;
  name = "q";
  kind = "build";
  description = "";
  params = "[]";
  version = 4;
}

abbrev catalog : Catalog Snapshot
catalog = record {
  pipelines = a_pipeline ∷ [];
  stages = [];
  templates = [];
  versions =
      record { pipeline_id = 1; version = 3; snapshot = old_version; created_by = "ann" } ∷ [];
  next_id = 10;
}

restored :
    (rollback keep_body some same_name 1 3 "bob" (up catalog)).0
    ≡ ok (record { pipeline_id = 1; restored_version = 3; new_version = 5; stages = 2; tasks = 2 })
unfolding rollback clear_structure clear_stages materialize create_tasks publish current_snapshot
    load_templates find_row update_where sort_by insert_by
restored = refl

rollback_appends_example :
    (rest : List (PipelineVersion Snapshot)) × ((rollback keep_body some same_name 1 3 "bob"
        (up catalog)).1.tables.versions
      ≡ catalog.versions ++ rest)
rollback_appends_example = rollback_appends keep_body some same_name 1 3 "bob" (up catalog)

rollback_keeps_row_example :
    (x : Pipeline) × (find_row pipeline_key 1
        (rollback keep_body some same_name 1 3 "bob" (up catalog)).1.tables.pipelines
      ≡ some x)
    × ((x.name ≡ "q")
        × (x.kind ≡ "build")
        × (x.description ≡ "")
        × (x.params ≡ "[]")
        × (4 ≤ x.version))
unfolding find_row
rollback_keeps_row_example =
    rollback_keeps_row keep_body some same_name 1 3 "bob" (up catalog) 1 a_pipeline refl
