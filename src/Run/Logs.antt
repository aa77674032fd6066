-- ===== src/Run/Logs.antt =====
-- RecordLogChunk and GetLogs of internal/run/service/pipeline_run.go with
-- internal/run/repository/task_run_log.go and internal/run/models/task_run_log.go. The id of a row
-- is the uuid that the database draws, read as a number in its order, and no order of arrival.
pub mod Order
use software_distribution_pl.Run.Rows.{get_run}
use software_distribution_pl.Run.Status.{get_by_cr_name_target}
use software_distribution_pl.Run.Tables.{TaskRunLog, Tables, PipelineRun}
use software_distribution_pl.Common.{
  ℕ, String, ◌&&◌, List, [], ◌∷◌, ◌++◌, if◌then◌else◌, ◌>>=◌, ◌==◌, ◌=ˢ◌, where_, Action, attempt,
  pure, query, execute, ok, err, Result, Bool, ◌||◌, ltb, sort_by,
}

pub record LogChunk : Type 0 where
  pub pipeline_run_name : String
  pub task_name : String
  pub stream : String
  pub chunk : String

abbrev pub run_level_log_bucket : String
run_level_log_bucket = "__run__"

abbrev pub bucket : String → String
bucket name = if name =ˢ "" then run_level_log_bucket else name

abbrev pub log_row : ℕ → ℕ → ℕ → LogChunk → TaskRunLog
log_row drawn now run c = record {
  id = drawn;
  pipeline_run_id = run;
  task_name = bucket c.task_name;
  stream = c.stream;
  chunk = c.chunk;
  created_at = now;
}

abbrev pub append_log : TaskRunLog → Action Tables (Unit {0})
append_log l = execute λ t. record t { logs = t.logs ++ l ∷ [] }

-- A chunk of a run that is not found, for any reason, is ignored.
abbrev pub log_found : ℕ → ℕ → LogChunk → Result PipelineRun → Action Tables (Unit {0})
log_found drawn now c (err e) = pure tt
log_found drawn now c (ok run) = append_log (log_row drawn now run.id c)

unfoldable pub record_log_chunk : ℕ → ℕ → ℕ → LogChunk → Action Tables (Unit {0})
record_log_chunk drawn now target c =
    attempt (get_by_cr_name_target c.pipeline_run_name target) (log_found drawn now c)

-- created_at asc, id asc.
abbrev pub is_logged_before : TaskRunLog → TaskRunLog → Bool
is_logged_before a b =
    ltb a.created_at b.created_at || ((a.created_at == b.created_at) && ltb a.id b.id)

abbrev pub is_log_of : ℕ → String → TaskRunLog → Bool
is_log_of run name l = (l.pipeline_run_id == run) && (l.task_name =ˢ name)

abbrev pub logs_of : ℕ → String → List TaskRunLog → List TaskRunLog
logs_of run name ls = sort_by is_logged_before (where_ (is_log_of run name) ls)

-- GetLogs without its pages.
unfoldable pub get_logs : ℕ → String → Action Tables (List TaskRunLog)
get_logs run name = do _ ← get_run run; query λ t. ok (logs_of run name t.logs)
