-- ===== src/Artifact/Tests.antt =====
-- A pass of the collector over sample rows.
use software_distribution_pl.Artifact.Gc.Kept.{run_once_keeps}
use software_distribution_pl.Artifact.Gc.{
  ObjectDeleter, collect_all, run_once, Artifact, Store, GcReport, pending_deletion, active,
  artifact_key,
}
use software_distribution_pl.Common.{
  ℕ, String, ◌≡◌, refl, Option, none, some, [], ◌∷◌, if◌then◌else◌, ◌=ˢ◌, insert_by, sort_by,
  update_where, up, store_failed, ok, find_row, take,
}

abbrev a_row : ℕ → String → Option ℕ → Artifact
a_row k key expires = record {
  id = k;
  storage_key = key;
  expires_at = expires;
  cleanup_state = active;
}

abbrev sample : Store
sample = record {
  artifacts =
      a_row 1 "a" (some 9) ∷ a_row 2 "b" (some 3) ∷ a_row 3 "c" none ∷ a_row 4 "d" (some 90) ∷ [];
  removed = [];
}

abbrev refuses_a : ObjectDeleter
refuses_a key = if key =ˢ "a" then some store_failed else none

abbrev report : GcReport
report = record {
  scanned = 2;
  deleted = 1;
  objects_failed = 1;
  rows_failed = 0;
  pending_sample = "a" ∷ [];
}

-- The refused object keeps its row, which waits for the next pass.
pass : run_once (some refuses_a) 100 10 (up sample) ≡ (
  ok report,
  up (record {
    artifacts =
        record (a_row 1 "a" (some 9)) { cleanup_state = pending_deletion }
        ∷ a_row 3 "c" none
        ∷ a_row 4 "d" (some 90)
        ∷ [];
    removed = "b" ∷ [];
  }),
)
unfolding run_once collect_all take sort_by insert_by update_where
pass = refl

run_once_keeps_example :
    find_row artifact_key 4 (run_once (some refuses_a) 100 10 (up sample)).1.tables.artifacts
    ≡ some (a_row 4 "d" (some 90))
unfolding find_row
run_once_keeps_example =
    run_once_keeps (some refuses_a) 100 10 4 (a_row 4 "d" (some 90)) (up sample)
      ((refl, (refl, (refl, (refl, tt))))) refl refl
