-- ===== src/Retention/Tests.antt =====
-- Some old rows, and the theorems on the collector.
use software_distribution_pl.Retention.Newest.{collect_once_newest}
use software_distribution_pl.Retention.Versions.{collect_once_counts}
use software_distribution_pl.Retention.Runs.{collect_once-IsKept, IsKept}
use software_distribution_pl.Run.Tables.{Phase}
use software_distribution_pl.Retention.{
  new_retention_gc, collect_runs, is_of_component, collect_artifacts, collect_once, OldRun,
  ArtifactVersion, History, RetentionGc, nanos, beyond,
}
use software_distribution_pl.Common.{
  ℕ, ◌*◌, ◌≡◌, refl, some, [], ◌∷◌, map, arith, count_where, take, insert_by, sort_by, find_row, up,
  ◌≤◌,
}

abbrev a_run : ℕ → Phase → OldRun
a_run k p = record { id = k; phase = p; completion_time = some 5; updated_at = 7 }

abbrev a_version : ℕ → ℕ → ℕ → ArtifactVersion
a_version k c t = record { id = k; component_id = c; created_at = t }

abbrev sample : History
sample = record {
  audit_logs = record { id = 1; created_at = 3 } ∷ [];
  runs = a_run 10 Phase.succeeded ∷ a_run 11 Phase.cancelled ∷ a_run 12 Phase.failed ∷ [];
  task_runs =
      record { id = 20; pipeline_run_id = 10 } ∷ record { id = 21; pipeline_run_id = 11 } ∷ [];
  artifacts = a_version 30 1 100 ∷ a_version 31 1 300 ∷ a_version 32 2 50 ∷ a_version 33 1 200 ∷ [];
}

abbrev collector : RetentionGc
collector = new_retention_gc 0 1 2 0

abbrev two_days : ℕ
two_days = 2 * (86400 * nanos)

-- The cancelled run stays, and the oldest of three versions goes.
pass :
    let h = (collect_once collector two_days (up sample)).1.tables in
    (map (λ r. r.id) h.runs ≡ 11 ∷ [])
    × (map (λ x. x.id) h.task_runs ≡ 21 ∷ [])
    × (map (λ a. a.id) h.artifacts ≡ 31 ∷ 32 ∷ 33 ∷ [])
unfolding collect_once collect_runs collect_artifacts beyond take sort_by insert_by
pass = (refl, refl, refl)

cancelled-IsKept :
    IsKept 11 (a_run 11 Phase.cancelled) (record { id = 21; pipeline_run_id = 11 } ∷ []) sample
unfolding find_row
cancelled-IsKept = record {
  run_keys = (refl, (refl, (refl, tt)));
  same_run = refl;
  same_tasks = refl;
}

collect_once-IsKept_example :
    IsKept 11
      (a_run 11 Phase.cancelled)
      (record { id = 21; pipeline_run_id = 11 } ∷ [])
      (collect_once collector two_days (up sample)).1.tables
collect_once-IsKept_example =
    collect_once-IsKept collector two_days 11 (a_run 11 Phase.cancelled)
      (record { id = 21; pipeline_run_id = 11 } ∷ []) (up sample) refl cancelled-IsKept

collect_once_counts_example :
    count_where (is_of_component 1) (collect_once collector two_days (up sample)).1.tables.artifacts
    ≡ 2
unfolding find_row
collect_once_counts_example =
    collect_once_counts collector two_days 1 sample (refl, (refl, (refl, (refl, tt)))) (omega arith)

collect_once_newest_example : 100 ≤ 200
unfolding find_row collect_once collect_artifacts beyond sort_by insert_by take
collect_once_newest_example =
    collect_once_newest collector two_days sample (a_version 33 1 200) (a_version 30 1 100)
      (refl, (refl, (refl, (refl, tt)))) (omega arith) refl refl refl refl
