-- ===== src/Run/Progress/Tests.antt =====
-- A run of three tasks, one of a stage that the pipeline has lost.
use software_distribution_pl.Common.{ℕ, String, none, List, [], ◌∷◌, ◌≡◌, refl, map}
use software_distribution_pl.Run.Spec.{build}
use software_distribution_pl.Run.Definitions.{Stage}
use software_distribution_pl.Run.Tables.{TaskRun, TaskPhase}
use software_distribution_pl.Run.Progress.{stage_rows}
use software_distribution_pl.Run.Progress.Totals.{stage_rows_totals, sum_of}

abbrev task : ℕ → String → TaskPhase → TaskRun
task k stage phase = record {
  id = k;
  pipeline_run_id = 10;
  task_name = "";
  cr_name = "";
  stage_name = stage;
  task_type = build;
  phase = phase;
  retry_count = 0;
  start_time = none;
  completion_time = none;
  message = "";
}

abbrev tasks : List TaskRun
tasks =
    task 1 "test" TaskPhase.succeeded
    ∷ task 2 "test" TaskPhase.running
    ∷ task 3 "old" TaskPhase.failed
    ∷ []

abbrev stages : List Stage
stages =
    record { id = 1; pipeline_id = 5; name = "test"; sequence = 1; execution_mode = "parallel" }
    ∷ record { id = 2; pipeline_id = 5; name = "ship"; sequence = 2; execution_mode = "serial" }
    ∷ []

statuses :
    map {B = String × String} (λ r. (r.name, r.status)) (stage_rows tasks stages)
    ≡ ("test", "running") ∷ ("ship", "pending") ∷ ("old", "failed") ∷ []
unfolding stage_rows
statuses = refl

stage_rows_totals_example :
    (sum_of (λ r. r.total) (stage_rows tasks stages) ≡ 3)
    × (sum_of (λ r. r.done) (stage_rows tasks stages) ≡ 2)
stage_rows_totals_example = stage_rows_totals tasks stages (refl, (refl, tt))
