-- ===== src/Pipeline/Diff/Counts.antt =====
-- The summary of a comparison against the lists that it sums up.
use software_distribution_pl.Pipeline.Changes.{task_field_changes, stage_field_changes, FieldChange}
use software_distribution_pl.Pipeline.Snapshot.{SnapshotTask, SnapshotStage, Snapshot}
use software_distribution_pl.Pipeline.Diff.{
  change_rank, ChangeType, DiffSummary, SnapshotDiff, added, removed, modified, no_diff, is_some,
  stage_of, task_of, report_stage, stage_removed, stage_modified, report_task, task_removed,
  task_modified, compare_stage, compare_stages, removed_stages, tasks_of, compare_task,
  compare_tasks, compare_all_tasks, removed_tasks, removed_all_tasks, stage_before, task_before,
  sort_diffs, diff_lists, diff_snapshots, StageDiff, TaskDiff,
}
use software_distribution_pl.Common.{
  String, ◌≡◌, Bool, ◌==◌, count_where, ℕ, ◌+◌, refl, Option, none, some, List, [], ◌∷◌, ◌++◌,
  arith, if◌then◌else◌, count_where-append, sort_by, count_where-sort_by, true, false,
}

abbrev is_change : ChangeType → ChangeType → Bool
is_change a b = change_rank a == change_rank b

-- The counts of the lists.
abbrev pub recount : SnapshotDiff → DiffSummary
recount d = record {
  stages_added = count_where (λ s. is_change added s.change) d.stages;
  stages_removed = count_where (λ s. is_change removed s.change) d.stages;
  stages_modified = count_where (λ s. is_change modified s.change) d.stages;
  tasks_added = count_where (λ t. is_change added t.change) d.tasks;
  tasks_removed = count_where (λ t. is_change removed t.change) d.tasks;
  tasks_modified = count_where (λ t. is_change modified t.change) d.tasks;
}

abbrev IsCounted : SnapshotDiff → Type 0
IsCounted d = d.summary ≡ recount d

-- A summary with one more stage, or task, of a kind.
abbrev with_stage : ChangeType → DiffSummary → DiffSummary
with_stage added s = record s { stages_added = s.stages_added + 1 }
with_stage removed s = record s { stages_removed = s.stages_removed + 1 }
with_stage modified s = record s { stages_modified = s.stages_modified + 1 }

abbrev with_task : ChangeType → DiffSummary → DiffSummary
with_task added s = record s { tasks_added = s.tasks_added + 1 }
with_task removed s = record s { tasks_removed = s.tasks_removed + 1 }
with_task modified s = record s { tasks_modified = s.tasks_modified + 1 }

stages_with :
    (r : StageDiff) (c : ChangeType) (rs : List StageDiff)
    → count_where (λ s. is_change c s.change) (rs ++ r ∷ [])
      ≡ count_where (λ s. is_change c s.change) rs + (if is_change c r.change then 1 else 0)
stages_with r c rs = omega (arith, count_where-append (λ s. is_change c s.change) rs (r ∷ []))

tasks_with :
    (r : TaskDiff) (c : ChangeType) (rs : List TaskDiff)
    → count_where (λ s. is_change c s.change) (rs ++ r ∷ [])
      ≡ count_where (λ s. is_change c s.change) rs + (if is_change c r.change then 1 else 0)
tasks_with r c rs = omega (arith, count_where-append (λ s. is_change c s.change) rs (r ∷ []))

report_stage-IsCounted :
    (r : StageDiff) (d : SnapshotDiff)
    → IsCounted d
    → IsCounted (report_stage r (with_stage r.change d.summary) d)
report_stage-IsCounted r d h = ground (
  arith,
  h,
  stages_with r added d.stages,
  stages_with r removed d.stages,
  stages_with r modified d.stages,
)

report_task-IsCounted :
    (r : TaskDiff) (d : SnapshotDiff)
    → IsCounted d
    → IsCounted (report_task r (with_task r.change d.summary) d)
report_task-IsCounted r d h = ground (
  arith,
  h,
  tasks_with r added d.tasks,
  tasks_with r removed d.tasks,
  tasks_with r modified d.tasks,
)

-- What a loop body keeps, the loop keeps.
compare_stage-IsCounted :
    (o : Option SnapshotStage) (s : SnapshotStage) (d : SnapshotDiff)
    → IsCounted d
    → IsCounted (compare_stage o s d)
compare_stage-IsCounted none s d h =
    report_stage-IsCounted (record { name = s.name; change = added; fields = [] }) d h
compare_stage-IsCounted (some prev) s d h = kept (stage_field_changes prev s)
  where
    kept : (fs : List FieldChange) → IsCounted (stage_modified s.name fs d)
    kept [] = h
    kept (f ∷ fs) =
        report_stage-IsCounted (record { name = s.name; change = modified; fields = f ∷ fs }) d h

compare_stages-IsCounted :
    (from ss : List SnapshotStage) (d : SnapshotDiff)
    → IsCounted d
    → IsCounted (compare_stages from ss d)
unfolding compare_stages
compare_stages-IsCounted from [] d h = h
compare_stages-IsCounted from (s ∷ ss) d h =
    compare_stages-IsCounted from ss (compare_stage (stage_of s.name from) s d)
      (compare_stage-IsCounted (stage_of s.name from) s d h)

removed_stages-IsCounted :
    (to ss : List SnapshotStage) (d : SnapshotDiff)
    → IsCounted d
    → IsCounted (removed_stages to ss d)
unfolding removed_stages
removed_stages-IsCounted to [] d h = h
removed_stages-IsCounted to (s ∷ ss) d h =
    removed_stages-IsCounted to ss _ (kept (is_some (stage_of s.name to)))
  where
    kept : (b : Bool) → IsCounted (if b then d else stage_removed s.name d)
    kept true = h
    kept false =
        report_stage-IsCounted (record { name = s.name; change = removed; fields = [] }) d h

module _ (reencode : String → Option String) where
  compare_task-IsCounted :
      (o : Option SnapshotTask) (stage : String) (t : SnapshotTask) (d : SnapshotDiff)
      → IsCounted d
      → IsCounted (compare_task reencode o stage t d)
  compare_task-IsCounted none stage t d h =
      report_task-IsCounted (record { stage = stage; name = t.name; change = added; fields = [] }) d
        h
  compare_task-IsCounted (some old) stage t d h = kept (task_field_changes reencode old t)
    where
      kept : (fs : List FieldChange) → IsCounted (task_modified stage t.name fs d)
      kept [] = h
      kept (f ∷ fs) =
          report_task-IsCounted
            (record { stage = stage; name = t.name; change = modified; fields = f ∷ fs }) d h

  compare_tasks-IsCounted :
      (prev : List SnapshotTask) (stage : String) (ts : List SnapshotTask) (d : SnapshotDiff)
      → IsCounted d
      → IsCounted (compare_tasks reencode prev stage ts d)
  unfolding compare_tasks
  compare_tasks-IsCounted prev stage [] d h = h
  compare_tasks-IsCounted prev stage (t ∷ ts) d h =
      compare_tasks-IsCounted prev stage ts (compare_task reencode (task_of t.name prev) stage t d)
        (compare_task-IsCounted (task_of t.name prev) stage t d h)

  compare_all_tasks-IsCounted :
      (from ss : List SnapshotStage) (d : SnapshotDiff)
      → IsCounted d
      → IsCounted (compare_all_tasks reencode from ss d)
  unfolding compare_all_tasks
  compare_all_tasks-IsCounted from [] d h = h
  compare_all_tasks-IsCounted from (s ∷ ss) d h =
      let prev = tasks_of (stage_of s.name from) in
      compare_all_tasks-IsCounted from ss (compare_tasks reencode prev s.name s.tasks d)
        (compare_tasks-IsCounted prev s.name s.tasks d h)

removed_tasks-IsCounted :
    (next : List SnapshotTask) (stage : String) (ts : List SnapshotTask) (d : SnapshotDiff)
    → IsCounted d
    → IsCounted (removed_tasks next stage ts d)
unfolding removed_tasks
removed_tasks-IsCounted next stage [] d h = h
removed_tasks-IsCounted next stage (t ∷ ts) d h =
    removed_tasks-IsCounted next stage ts _ (kept (is_some (task_of t.name next)))
  where
    kept : (b : Bool) → IsCounted (if b then d else task_removed stage t.name d)
    kept true = h
    kept false =
        report_task-IsCounted
          (record { stage = stage; name = t.name; change = removed; fields = [] }) d h

removed_all_tasks-IsCounted :
    (to ss : List SnapshotStage) (d : SnapshotDiff)
    → IsCounted d
    → IsCounted (removed_all_tasks to ss d)
unfolding removed_all_tasks
removed_all_tasks-IsCounted to [] d h = h
removed_all_tasks-IsCounted to (s ∷ ss) d h =
    let next = tasks_of (stage_of s.name to) in
    removed_all_tasks-IsCounted to ss (removed_tasks next s.name s.tasks d)
      (removed_tasks-IsCounted next s.name s.tasks d h)

sort_diffs-IsCounted : (d : SnapshotDiff) → IsCounted d → IsCounted (sort_diffs d)
unfolding sort_diffs
sort_diffs-IsCounted d h = ground (
  arith,
  h,
  stages_sorted added,
  stages_sorted removed,
  stages_sorted modified,
  tasks_sorted added,
  tasks_sorted removed,
  tasks_sorted modified,
)
  where
    stages_sorted :
        (c : ChangeType)
        → count_where (λ s. is_change c s.change) (sort_by stage_before d.stages)
          ≡ count_where (λ s. is_change c s.change) d.stages
    stages_sorted c = count_where-sort_by stage_before (λ s. is_change c s.change) d.stages

    tasks_sorted :
        (c : ChangeType)
        → count_where (λ t. is_change c t.change) (sort_by task_before d.tasks)
          ≡ count_where (λ t. is_change c t.change) d.tasks
    tasks_sorted c = count_where-sort_by task_before (λ t. is_change c t.change) d.tasks

-- The six counts of the summary are the numbers of the listed stages and tasks of each kind of
-- change, after the sort.
pub diff_snapshots_counted :
    (reencode : String → Option String) (from to : Snapshot) (v v' at at' : ℕ)
    → let d = (diff_snapshots reencode from to v v' at at').diff in d.summary ≡ recount d
unfolding diff_snapshots diff_lists
diff_snapshots_counted reencode from to v v' at at' =
    sort_diffs-IsCounted (diff_lists reencode from.stages to.stages) (
      removed_all_tasks-IsCounted to.stages from.stages _ (
        compare_all_tasks-IsCounted reencode from.stages to.stages _ (
          removed_stages-IsCounted to.stages from.stages _
            (compare_stages-IsCounted from.stages to.stages no_diff refl))))
