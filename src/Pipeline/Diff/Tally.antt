-- ===== src/Pipeline/Diff/Tally.antt =====
-- The added and removed counts of a comparison, and the comparison the other way round.
use software_distribution_pl.Pipeline.Changes.{stage_field_changes, FieldChange, task_field_changes}
use software_distribution_pl.Pipeline.Diff.{
  is_some, stage_of, task_of, stage_modified, compare_stage, compare_stages, tasks_of, SnapshotDiff,
  no_diff, stage_removed, task_removed, task_modified, removed_stages, compare_task, compare_tasks,
  compare_all_tasks, removed_tasks, removed_all_tasks, sort_diffs, diff_lists, diff_snapshots,
}
use software_distribution_pl.Pipeline.Snapshot.{SnapshotTask, SnapshotStage, Snapshot}
use software_distribution_pl.Common.{
  ℕ, ◌+◌, ◌≡◌, Bool, not, Option, none, some, List, [], ◌∷◌, arith, if◌then◌else◌, count_where,
  String, inl, inr, Bool-cases,
}

-- Stages added and removed, tasks added and removed.
abbrev tally : SnapshotDiff → ℕ × ℕ × ℕ × ℕ
tally d = (
  d.summary.stages_added, d.summary.stages_removed, d.summary.tasks_added, d.summary.tasks_removed,
)

abbrev pub is_missing_stage : List SnapshotStage → SnapshotStage → Bool
is_missing_stage other s = not (is_some (stage_of s.name other))

abbrev pub is_missing_task : List SnapshotTask → SnapshotTask → Bool
is_missing_task other t = not (is_some (task_of t.name other))

abbrev missing_tasks : List SnapshotStage → List SnapshotStage → ℕ
missing_tasks other [] = 0
missing_tasks other (s ∷ ss) =
    count_where (is_missing_task (tasks_of (stage_of s.name other))) s.tasks
    + missing_tasks other ss

abbrev raised : ℕ → ℕ → ℕ → ℕ → SnapshotDiff → ℕ × ℕ × ℕ × ℕ
raised a b c e d = (
  d.summary.stages_added + a,
  d.summary.stages_removed + b,
  d.summary.tasks_added + c,
  d.summary.tasks_removed + e,
)

abbrev one : Bool → ℕ
one b = if b then 1 else 0

tally-compare_stage :
    (o : Option SnapshotStage) (s : SnapshotStage) (d : SnapshotDiff)
    → tally (compare_stage o s d) ≡ raised (one (not (is_some o))) 0 0 0 d
tally-compare_stage none s d = ground arith
tally-compare_stage (some prev) s d = quiet (stage_field_changes prev s)
  where
    quiet : (fs : List FieldChange) → tally (stage_modified s.name fs d) ≡ raised 0 0 0 0 d
    quiet [] = ground arith
    quiet (f ∷ fs) = ground arith

tally-compare_stages :
    (from ss : List SnapshotStage) (d : SnapshotDiff)
    → tally (compare_stages from ss d) ≡ raised (count_where (is_missing_stage from) ss) 0 0 0 d
unfolding compare_stages
tally-compare_stages from [] d = ground arith
tally-compare_stages from (s ∷ ss) d = ground (
  arith,
  tally-compare_stage (stage_of s.name from) s d,
  tally-compare_stages from ss (compare_stage (stage_of s.name from) s d),
)

tally-removed_stages :
    (to ss : List SnapshotStage) (d : SnapshotDiff)
    → tally (removed_stages to ss d) ≡ raised 0 (count_where (is_missing_stage to) ss) 0 0 d
unfolding removed_stages
tally-removed_stages to [] d = ground arith
tally-removed_stages to (s ∷ ss) d = elim (Bool-cases (is_some (stage_of s.name to))) [
  | inl e ↦ ground (arith, e, tally-removed_stages to ss d)
  | inr e ↦ ground (arith, e, tally-removed_stages to ss (stage_removed s.name d))
]

module _ (reencode : String → Option String) where
  tally-compare_task :
      (o : Option SnapshotTask) (stage : String) (t : SnapshotTask) (d : SnapshotDiff)
      → tally (compare_task reencode o stage t d) ≡ raised 0 0 (one (not (is_some o))) 0 d
  tally-compare_task none stage t d = ground arith
  tally-compare_task (some old) stage t d = quiet (task_field_changes reencode old t)
    where
      quiet : (fs : List FieldChange) → tally (task_modified stage t.name fs d) ≡ raised 0 0 0 0 d
      quiet [] = ground arith
      quiet (f ∷ fs) = ground arith

  tally-compare_tasks :
      (prev : List SnapshotTask) (stage : String) (ts : List SnapshotTask) (d : SnapshotDiff)
      → tally (compare_tasks reencode prev stage ts d)
        ≡ raised 0 0 (count_where (is_missing_task prev) ts) 0 d
  unfolding compare_tasks
  tally-compare_tasks prev stage [] d = ground arith
  tally-compare_tasks prev stage (t ∷ ts) d = ground (
    arith,
    tally-compare_task (task_of t.name prev) stage t d,
    tally-compare_tasks prev stage ts (compare_task reencode (task_of t.name prev) stage t d),
  )

  tally-compare_all_tasks :
      (from ss : List SnapshotStage) (d : SnapshotDiff)
      → tally (compare_all_tasks reencode from ss d) ≡ raised 0 0 (missing_tasks from ss) 0 d
  unfolding compare_all_tasks
  tally-compare_all_tasks from [] d = ground arith
  tally-compare_all_tasks from (s ∷ ss) d =
      let prev = tasks_of (stage_of s.name from) in
      ground (
        arith,
        tally-compare_tasks prev s.name s.tasks d,
        tally-compare_all_tasks from ss (compare_tasks reencode prev s.name s.tasks d),
      )

tally-removed_tasks :
    (next : List SnapshotTask) (stage : String) (ts : List SnapshotTask) (d : SnapshotDiff)
    → tally (removed_tasks next stage ts d) ≡ raised 0 0 0 (count_where (is_missing_task next) ts) d
unfolding removed_tasks
tally-removed_tasks next stage [] d = ground arith
tally-removed_tasks next stage (t ∷ ts) d = elim (Bool-cases (is_some (task_of t.name next))) [
  | inl e ↦ ground (arith, e, tally-removed_tasks next stage ts d)
  | inr e ↦ ground (arith, e, tally-removed_tasks next stage ts (task_removed stage t.name d))
]

tally-removed_all_tasks :
    (to ss : List SnapshotStage) (d : SnapshotDiff)
    → tally (removed_all_tasks to ss d) ≡ raised 0 0 0 (missing_tasks to ss) d
unfolding removed_all_tasks
tally-removed_all_tasks to [] d = ground arith
tally-removed_all_tasks to (s ∷ ss) d =
    let next = tasks_of (stage_of s.name to) in
    ground (
      arith,
      tally-removed_tasks next s.name s.tasks d,
      tally-removed_all_tasks to ss (removed_tasks next s.name s.tasks d),
    )

tally-diff_lists :
    (reencode : String → Option String) (from to : List SnapshotStage)
    → tally (diff_lists reencode from to) ≡ (
      count_where (is_missing_stage from) to,
      count_where (is_missing_stage to) from,
      missing_tasks from to,
      missing_tasks to from,
    )
unfolding diff_lists
tally-diff_lists reencode from to =
    let d₁ = compare_stages from to no_diff in
    let d₂ = removed_stages to from d₁ in
    let d₃ = compare_all_tasks reencode from to d₂ in
    ground (
      arith,
      tally-compare_stages from to no_diff,
      tally-removed_stages to from d₁,
      tally-compare_all_tasks reencode from to d₂,
      tally-removed_all_tasks to from d₃,
    )

-- Comparing two versions the other way round swaps the added and the removed counts, of the stages
-- and of the tasks, for any snapshots.
pub diff_snapshots_reversed :
    (reencode : String → Option String) (from to : Snapshot) (v v' at at' : ℕ)
    → let forth = (diff_snapshots reencode from to v v' at at').diff.summary in
      let back = (diff_snapshots reencode to from v' v at' at).diff.summary in
      (forth.stages_added ≡ back.stages_removed)
      × (forth.stages_removed ≡ back.stages_added)
      × (forth.tasks_added ≡ back.tasks_removed)
      × (forth.tasks_removed ≡ back.tasks_added)
unfolding diff_snapshots sort_diffs
diff_snapshots_reversed reencode from to v v' at at' = ground (
  arith,
  tally-diff_lists reencode from.stages to.stages,
  tally-diff_lists reencode to.stages from.stages,
)
