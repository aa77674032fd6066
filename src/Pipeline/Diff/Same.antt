-- ===== src/Pipeline/Diff/Same.antt =====
-- Comparisons of snapshots that have the same stages.
use software_distribution_pl.Pipeline.Changes.{
  task_field_changes, stage_field_changes, FieldChange, is_changed, task_fields,
}
use software_distribution_pl.Pipeline.Diff.{
  stage_of, task_of, no_diff, is_some, stage_removed, stage_modified, task_removed, task_modified,
  compare_stage, compare_stages, removed_stages, tasks_of, compare_task, compare_tasks,
  compare_all_tasks, removed_tasks, removed_all_tasks, sort_diffs, diff_lists, diff_snapshots,
  SnapshotDiff,
}
use software_distribution_pl.Pipeline.Snapshot.{SnapshotTask, SnapshotStage, Snapshot}
use software_distribution_pl.Common.{
  String, ◌≡◌, refl, Option, some, List, [], eq_refl, ==_self, All, ℕ, ap, ◌∙◌, true, ◌∷◌,
  if◌then◌else◌, where_, sort_by,
}

-- Each stage, and each task within its stage, is the entry of its name.
abbrev pub IsIndexed : List SnapshotStage → Type 0
IsIndexed ss =
    All (λ s. (stage_of s.name ss ≡ some s) × All (λ t. task_of t.name s.tasks ≡ some t) s.tasks) ss

none_changed :
    (fs : List FieldChange) → All (λ f. f.before ≡ f.after) fs → where_ is_changed fs ≡ []
none_changed [] h = refl
none_changed (f ∷ fs) h = rw (h.0, eq_refl f.after) (none_changed fs h.1)

stage_field_changes_self : (s : SnapshotStage) → stage_field_changes s s ≡ []
unfolding stage_field_changes
stage_field_changes_self s = rw (eq_refl s.execution_mode, ==_self s.sequence) refl

task_field_changes_self :
    (reencode : String → Option String) (t : SnapshotTask) → task_field_changes reencode t t ≡ []
unfolding task_field_changes
task_field_changes_self reencode t = none_changed (task_fields reencode t t) (
  refl,
  (
    refl,
    (
      refl,
      (refl, (refl, (refl, (refl, (refl, (refl, (refl, (refl, (refl, (refl, (refl, tt))))))))))),
    ),
  ),
)

compare_stages_same :
    (from ss : List SnapshotStage) (d : SnapshotDiff)
    → All (λ s. stage_of s.name from ≡ some s) ss
    → compare_stages from ss d ≡ d
unfolding compare_stages
compare_stages_same from [] d h = refl
compare_stages_same from (s ∷ ss) d h =
    ap (λ o. compare_stages from ss (compare_stage o s d)) h.0
    ∙ ap (λ fs. compare_stages from ss (stage_modified s.name fs d)) (stage_field_changes_self s)
    ∙ compare_stages_same from ss d h.1

removed_stages_same :
    (to ss : List SnapshotStage) (d : SnapshotDiff)
    → All (λ s. stage_of s.name to ≡ some s) ss
    → removed_stages to ss d ≡ d
unfolding removed_stages
removed_stages_same to [] d h = refl
removed_stages_same to (s ∷ ss) d h =
    ap (λ o. removed_stages to ss (if is_some o then d else stage_removed s.name d)) h.0
    ∙ removed_stages_same to ss d h.1

compare_tasks_same :
    (reencode : String → Option String) (prev : List SnapshotTask) (stage : String)
    (ts : List SnapshotTask) (d : SnapshotDiff)
    → All (λ t. task_of t.name prev ≡ some t) ts
    → compare_tasks reencode prev stage ts d ≡ d
unfolding compare_tasks
compare_tasks_same reencode prev stage [] d h = refl
compare_tasks_same reencode prev stage (t ∷ ts) d h =
    ap (λ o. compare_tasks reencode prev stage ts (compare_task reencode o stage t d)) h.0
    ∙ ap (λ fs. compare_tasks reencode prev stage ts (task_modified stage t.name fs d))
        (task_field_changes_self reencode t)
    ∙ compare_tasks_same reencode prev stage ts d h.1

removed_tasks_same :
    (next : List SnapshotTask) (stage : String) (ts : List SnapshotTask) (d : SnapshotDiff)
    → All (λ t. task_of t.name next ≡ some t) ts
    → removed_tasks next stage ts d ≡ d
unfolding removed_tasks
removed_tasks_same next stage [] d h = refl
removed_tasks_same next stage (t ∷ ts) d h =
    ap (λ o. removed_tasks next stage ts (if is_some o then d else task_removed stage t.name d)) h.0
    ∙ removed_tasks_same next stage ts d h.1

abbrev IsIndexedIn : List SnapshotStage → List SnapshotStage → Type 0
IsIndexedIn from ss =
    All (λ s. (stage_of s.name from ≡ some s) × All (λ t. task_of t.name s.tasks ≡ some t) s.tasks)
      ss

compare_all_tasks_same :
    (reencode : String → Option String) (from ss : List SnapshotStage) (d : SnapshotDiff)
    → IsIndexedIn from ss
    → compare_all_tasks reencode from ss d ≡ d
unfolding compare_all_tasks
compare_all_tasks_same reencode from [] d h = refl
compare_all_tasks_same reencode from (s ∷ ss) d h =
    ap
      (λ o.
        compare_all_tasks reencode from ss (compare_tasks reencode (tasks_of o) s.name s.tasks d))
      h.0.0
    ∙ ap (compare_all_tasks reencode from ss)
        (compare_tasks_same reencode s.tasks s.name s.tasks d h.0.1)
    ∙ compare_all_tasks_same reencode from ss d h.1

removed_all_tasks_same :
    (to ss : List SnapshotStage) (d : SnapshotDiff)
    → IsIndexedIn to ss
    → removed_all_tasks to ss d ≡ d
unfolding removed_all_tasks
removed_all_tasks_same to [] d h = refl
removed_all_tasks_same to (s ∷ ss) d h =
    ap (λ o. removed_all_tasks to ss (removed_tasks (tasks_of o) s.name s.tasks d)) h.0.0
    ∙ ap (removed_all_tasks to ss) (removed_tasks_same s.tasks s.name s.tasks d h.0.1)
    ∙ removed_all_tasks_same to ss d h.1

stages_indexed :
    (from ss : List SnapshotStage)
    → IsIndexedIn from ss
    → All (λ s. stage_of s.name from ≡ some s) ss
stages_indexed from [] h = h
stages_indexed from (s ∷ ss) h = (h.0.0, stages_indexed from ss h.1)

diff_lists_same :
    (reencode : String → Option String) (ss : List SnapshotStage)
    → IsIndexed ss
    → diff_lists reencode ss ss ≡ no_diff
unfolding diff_lists
diff_lists_same reencode ss h =
    ap (λ d. removed_all_tasks ss ss (compare_all_tasks reencode ss ss (removed_stages ss ss d)))
      (compare_stages_same ss ss no_diff (stages_indexed ss ss h))
    ∙ ap (λ d. removed_all_tasks ss ss (compare_all_tasks reencode ss ss d))
        (removed_stages_same ss ss no_diff (stages_indexed ss ss h))
    ∙ ap (removed_all_tasks ss ss) (compare_all_tasks_same reencode ss ss no_diff h)
    ∙ removed_all_tasks_same ss ss no_diff h

-- Two snapshots with the same stages, in which each stage and each task of a stage is the entry of
-- its name, are reported as identical with no difference and zero counts, whatever the names,
-- kinds, descriptions and parameters of the two pipelines are.
pub diff_snapshots_same :
    (reencode : String → Option String) (from to : Snapshot) (v v' at at' : ℕ)
    → to.stages ≡ from.stages
    → IsIndexed from.stages
    → ((diff_snapshots reencode from to v v' at at').is_identical ≡ true)
      × ((diff_snapshots reencode from to v v' at at').diff ≡ no_diff)
unfolding diff_snapshots sort_diffs sort_by
diff_snapshots_same reencode from to v v' at at' e h =
    let none_differ : diff_lists reencode from.stages to.stages ≡ no_diff =
      ap (diff_lists reencode from.stages) e ∙ diff_lists_same reencode from.stages h in
    rw none_differ (refl, refl)
