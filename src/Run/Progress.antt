-- ===== src/Run/Progress.antt =====
-- StageProgress of internal/run/service/pipeline_run.go: the tasks of a run counted by stage.
pub mod Totals
mod Tests
use software_distribution_pl.Common.{
  ℕ, suc, ◌+◌, String, Bool, true, false, ◌||◌, ◌&&◌, not, Option, none, some, List, [], ◌∷◌, ◌++◌,
  map, ltb, leb, ◌==◌, ◌=ˢ◌, if◌then◌else◌, any, where_, Action, ◌>>=◌, pure,
}
use software_distribution_pl.Run.Definitions.{Stage}
use software_distribution_pl.Run.Tables.{PipelineRun, TaskRun, TaskPhase, Tables}
use software_distribution_pl.Run.Rows.{get_run}
use software_distribution_pl.Run.Build.{list_stages}
use software_distribution_pl.Run.Approval.{list_task_runs}

pub record StageProgressRow : Type 0 where
  pub name : String
  pub sequence : ℕ
  pub execution_mode : String
  pub status : String
  pub done : ℕ
  pub total : ℕ

pub record Tally : Type 0 where
  pub done : ℕ
  pub failed : ℕ
  pub running : ℕ
  pub total : ℕ

abbrev pub no_tally : Tally
no_tally = record { done = 0; failed = 0; running = 0; total = 0 }

-- One more task in this phase.
abbrev pub counted : TaskPhase → Tally → Tally
counted TaskPhase.succeeded c = record c { total = c.total + 1; done = c.done + 1 }
counted TaskPhase.failed c = record c {
  total = c.total + 1;
  done = c.done + 1;
  failed = c.failed + 1;
}
counted TaskPhase.skipped c = record c { total = c.total + 1; done = c.done + 1 }
counted TaskPhase.running c = record c { total = c.total + 1; running = c.running + 1 }
counted _ c = record c { total = c.total + 1 }

-- The map `counts` with the order of its names: a new name goes to the end.
abbrev pub Counts : Type 0
Counts = List (String × Tally)

unfoldable pub count_task : TaskRun → Counts → Counts
count_task t [] = (t.stage_name, counted t.phase no_tally) ∷ []
count_task t (e ∷ es) =
    if e.0 =ˢ t.stage_name then (e.0, counted t.phase e.1) ∷ es else e ∷ count_task t es

unfoldable pub count_tasks : List TaskRun → Counts → Counts
unfolding count_task
count_tasks [] cs = cs
count_tasks (t ∷ ts) cs = count_tasks ts (count_task t cs)

unfoldable pub tally_of : String → Counts → Option Tally
tally_of n [] = none
tally_of n (e ∷ es) = if e.0 =ˢ n then some e.1 else tally_of n es

abbrev pub derive_tally : Tally → String
derive_tally c =
    if c.total == 0
    then "pending"
    else if ltb 0 c.failed
    then "failed"
    else if c.done == c.total
    then "succeeded"
    else if ltb 0 c.done || ltb 0 c.running
    then "running"
    else "pending"

abbrev pub derive : Option Tally → String
derive none = "pending"
derive (some c) = derive_tally c

abbrev pub done_of : Option Tally → ℕ
done_of none = 0
done_of (some c) = c.done

abbrev pub total_of : Option Tally → ℕ
total_of none = 0
total_of (some c) = c.total

abbrev pub stage_row : Counts → Stage → StageProgressRow
stage_row counts st = record {
  name = st.name;
  sequence = st.sequence;
  execution_mode = st.execution_mode;
  status = derive (tally_of st.name counts);
  done = done_of (tally_of st.name counts);
  total = total_of (tally_of st.name counts);
}

-- A stage of the tasks that the definition does not have any more.
abbrev pub drifted_row : String × Tally → StageProgressRow
drifted_row e = record {
  name = e.0;
  sequence = 0;
  execution_mode = "";
  status = derive_tally e.1;
  done = e.1.done;
  total = e.1.total;
}

abbrev pub is_seen : List Stage → String × Tally → Bool
is_seen stages e = any (λ s. s.name =ˢ e.0) stages

unfoldable pub stage_rows : List TaskRun → List Stage → List StageProgressRow
unfolding count_tasks tally_of
stage_rows tasks stages =
    let counts = count_tasks tasks [] in
    map (stage_row counts) stages ++ map drifted_row (where_ (λ e. not (is_seen stages e)) counts)

unfoldable pub stage_progress : ℕ → Action Tables (PipelineRun × List StageProgressRow)
unfolding stage_rows
stage_progress k = do
  run ← get_run k
  tasks ← list_task_runs k
  stages ← list_stages run.pipeline_id
  pure (run, stage_rows tasks stages)

-- Progress.
unfoldable pub progress : ℕ → Action Tables (PipelineRun × List TaskRun)
progress k = do run ← get_run k; tasks ← list_task_runs k; pure (run, tasks)
