-- ===== src/Pipeline/Diff.antt =====
-- internal/pipeline/models/version.go, DiffSnapshots. A Go map that is filled in a loop keeps the
-- last entry of a key; the loops over the stages and the tasks carry the diff so far.
pub mod Tally
pub mod Counts
pub mod Same
use software_distribution_pl.Pipeline.Changes.{task_field_changes, stage_field_changes, FieldChange}
use software_distribution_pl.Pipeline.Snapshot.{SnapshotTask, SnapshotStage, Snapshot}
use software_distribution_pl.Common.{
  ℕ, ◌+◌, String, Bool, true, false, ◌&&◌, Option, none, some, List, [], ◌∷◌, ◌++◌, if◌then◌else◌,
  ltb, ◌=ˢ◌, sort_by,
}
use Prim.Native.String.{compare as compare_text}
use Prim.Native.Nat.{Ordering}

pub data ChangeType : Type 0 where
  added removed modified : ChangeType

pub record StageDiff : Type 0 where
  pub name : String
  pub change : ChangeType
  pub fields : List FieldChange

pub record TaskDiff : Type 0 where
  pub stage : String
  pub name : String
  pub change : ChangeType
  pub fields : List FieldChange

pub record DiffSummary : Type 0 where
  pub stages_added : ℕ
  pub stages_removed : ℕ
  pub stages_modified : ℕ
  pub tasks_added : ℕ
  pub tasks_removed : ℕ
  pub tasks_modified : ℕ

pub record SnapshotDiff : Type 0 where
  pub stages : List StageDiff
  pub tasks : List TaskDiff
  pub summary : DiffSummary

pub record Comparison : Type 0 where
  pub from_version : ℕ
  pub to_version : ℕ
  pub from_created_at : ℕ
  pub to_created_at : ℕ
  pub diff : SnapshotDiff
  pub is_identical : Bool

abbrev pub no_diff : SnapshotDiff
no_diff = record {
  stages = [];
  tasks = [];
  summary = record {
    stages_added = 0;
    stages_removed = 0;
    stages_modified = 0;
    tasks_added = 0;
    tasks_removed = 0;
    tasks_modified = 0;
  };
}

abbrev pub or_else {ℓ} : {A : Type ℓ} → Option A → Option A → Option A
or_else none o = o
or_else (some a) o = some a

abbrev pub is_some {ℓ} : {A : Type ℓ} → Option A → Bool
is_some none = false
is_some (some a) = true

-- The maps by name.
unfoldable pub stage_of : String → List SnapshotStage → Option SnapshotStage
stage_of name [] = none
stage_of name (s ∷ ss) = or_else (stage_of name ss) (if s.name =ˢ name then some s else none)

unfoldable pub task_of : String → List SnapshotTask → Option SnapshotTask
task_of name [] = none
task_of name (t ∷ ts) = or_else (task_of name ts) (if t.name =ˢ name then some t else none)

abbrev pub report_stage : StageDiff → DiffSummary → SnapshotDiff → SnapshotDiff
report_stage r summary d = record d { stages = d.stages ++ r ∷ []; summary = summary }

abbrev pub stage_added : String → SnapshotDiff → SnapshotDiff
stage_added name d =
    report_stage (record { name = name; change = added; fields = [] })
      (record d.summary { stages_added = d.summary.stages_added + 1 }) d

abbrev pub stage_removed : String → SnapshotDiff → SnapshotDiff
stage_removed name d =
    report_stage (record { name = name; change = removed; fields = [] })
      (record d.summary { stages_removed = d.summary.stages_removed + 1 }) d

abbrev pub stage_modified : String → List FieldChange → SnapshotDiff → SnapshotDiff
stage_modified name [] d = d
stage_modified name (f ∷ fs) d =
    report_stage (record { name = name; change = modified; fields = f ∷ fs })
      (record d.summary { stages_modified = d.summary.stages_modified + 1 }) d

abbrev pub report_task : TaskDiff → DiffSummary → SnapshotDiff → SnapshotDiff
report_task r summary d = record d { tasks = d.tasks ++ r ∷ []; summary = summary }

abbrev pub task_added : String → String → SnapshotDiff → SnapshotDiff
task_added stage name d =
    report_task (record { stage = stage; name = name; change = added; fields = [] })
      (record d.summary { tasks_added = d.summary.tasks_added + 1 }) d

abbrev pub task_removed : String → String → SnapshotDiff → SnapshotDiff
task_removed stage name d =
    report_task (record { stage = stage; name = name; change = removed; fields = [] })
      (record d.summary { tasks_removed = d.summary.tasks_removed + 1 }) d

abbrev pub task_modified : String → String → List FieldChange → SnapshotDiff → SnapshotDiff
task_modified stage name [] d = d
task_modified stage name (f ∷ fs) d =
    report_task (record { stage = stage; name = name; change = modified; fields = f ∷ fs })
      (record d.summary { tasks_modified = d.summary.tasks_modified + 1 }) d

abbrev pub compare_stage : Option SnapshotStage → SnapshotStage → SnapshotDiff → SnapshotDiff
compare_stage none s d = stage_added s.name d
compare_stage (some prev) s d = stage_modified s.name (stage_field_changes prev s) d

unfoldable pub compare_stages :
    List SnapshotStage → List SnapshotStage → SnapshotDiff → SnapshotDiff
unfolding stage_of
compare_stages from [] d = d
compare_stages from (s ∷ ss) d = compare_stages from ss (compare_stage (stage_of s.name from) s d)

unfoldable pub removed_stages :
    List SnapshotStage → List SnapshotStage → SnapshotDiff → SnapshotDiff
unfolding stage_of
removed_stages to [] d = d
removed_stages to (s ∷ ss) d =
    removed_stages to ss (if is_some (stage_of s.name to) then d else stage_removed s.name d)

-- The tasks of a stage that is not there are none.
abbrev pub tasks_of : Option SnapshotStage → List SnapshotTask
tasks_of none = []
tasks_of (some s) = s.tasks

module _ (reencode : String → Option String) where
  abbrev pub compare_task :
      Option SnapshotTask → String → SnapshotTask → SnapshotDiff → SnapshotDiff
  compare_task none stage t d = task_added stage t.name d
  compare_task (some old) stage t d =
      task_modified stage t.name (task_field_changes reencode old t) d

  unfoldable pub compare_tasks :
      List SnapshotTask → String → List SnapshotTask → SnapshotDiff → SnapshotDiff
  unfolding task_of
  compare_tasks prev stage [] d = d
  compare_tasks prev stage (t ∷ ts) d =
      compare_tasks prev stage ts (compare_task (task_of t.name prev) stage t d)

  unfoldable pub compare_all_tasks :
      List SnapshotStage → List SnapshotStage → SnapshotDiff → SnapshotDiff
  unfolding compare_tasks
  compare_all_tasks from [] d = d
  compare_all_tasks from (s ∷ ss) d =
      compare_all_tasks from ss (compare_tasks (tasks_of (stage_of s.name from)) s.name s.tasks d)

unfoldable pub removed_tasks :
    List SnapshotTask → String → List SnapshotTask → SnapshotDiff → SnapshotDiff
unfolding task_of
removed_tasks next stage [] d = d
removed_tasks next stage (t ∷ ts) d =
    removed_tasks next stage ts
      (if is_some (task_of t.name next) then d else task_removed stage t.name d)

unfoldable pub removed_all_tasks :
    List SnapshotStage → List SnapshotStage → SnapshotDiff → SnapshotDiff
unfolding removed_tasks
removed_all_tasks to [] d = d
removed_all_tasks to (s ∷ ss) d =
    removed_all_tasks to ss (removed_tasks (tasks_of (stage_of s.name to)) s.name s.tasks d)

abbrev pub change_rank : ChangeType → ℕ
change_rank added = 0
change_rank modified = 1
change_rank removed = 2

-- The first comparison that is not equal decides.
abbrev pub is_less : Ordering → Bool → Bool
is_less Ordering.lt rest = true
is_less Ordering.eq rest = rest
is_less Ordering.gt rest = false

abbrev pub stage_before : StageDiff → StageDiff → Bool
stage_before a b =
    is_less (compare_text a.name b.name) (ltb (change_rank a.change) (change_rank b.change))

abbrev pub task_before : TaskDiff → TaskDiff → Bool
task_before a b =
    is_less (compare_text a.stage b.stage)
      (is_less (compare_text a.name b.name) (ltb (change_rank a.change) (change_rank b.change)))

unfoldable pub sort_diffs : SnapshotDiff → SnapshotDiff
unfolding sort_by
sort_diffs d = record d {
  stages = sort_by stage_before d.stages;
  tasks = sort_by task_before d.tasks;
}

abbrev pub is_empty {ℓ} : {A : Type ℓ} → List A → Bool
is_empty [] = true
is_empty (x ∷ xs) = false

module _ (reencode : String → Option String) where
  unfoldable pub diff_lists : List SnapshotStage → List SnapshotStage → SnapshotDiff
  unfolding compare_stages removed_stages compare_all_tasks removed_all_tasks
  diff_lists from to =
      removed_all_tasks to from (
        compare_all_tasks reencode from to
          (removed_stages to from (compare_stages from to no_diff)))

  unfoldable pub diff_snapshots : Snapshot → Snapshot → ℕ → ℕ → ℕ → ℕ → Comparison
  unfolding diff_lists sort_diffs
  diff_snapshots from to from_version to_version from_at to_at =
      let d = sort_diffs (diff_lists from.stages to.stages) in
      record {
        from_version = from_version;
        to_version = to_version;
        from_created_at = from_at;
        to_created_at = to_at;
        diff = d;
        is_identical = is_empty d.stages && is_empty d.tasks;
      }
