-- ===== src/Run/Rows.antt =====
-- internal/run/repository/pipeline_run.go: the statements on pipeline_runs that the run service
-- issues. Rows stand in the order of their creation.
use software_distribution_pl.Common.{
  ℕ, zero, suc, Bool, true, false, ◌&&◌, List, [], ◌∷◌, ◌==◌, where_, count_where, find_row,
  update_where, Action, query, execute, ok, required, ◌++◌, statement,
}
use software_distribution_pl.Run.Tables.{
  PipelineRun, Tables, run_id, Phase, pending, running, waiting_approval, pending_queue, succeeded,
  failed, cancelled,
}

-- activeRunPhases of internal/run/service/run_concurrency.go.
abbrev pub is_active : Phase → Bool
is_active pending = true
is_active running = true
is_active waiting_approval = true
is_active _ = false

abbrev pub is_queued : Phase → Bool
is_queued pending_queue = true
is_queued _ = false

-- isTerminalPhase of internal/run/service/pipeline_run.go.
abbrev pub is_terminal : Phase → Bool
is_terminal succeeded = true
is_terminal failed = true
is_terminal cancelled = true
is_terminal _ = false

abbrev pub occupies : ℕ → PipelineRun → Bool
occupies pid r = (r.pipeline_id == pid) && is_active r.phase

abbrev pub get_run : ℕ → Action Tables PipelineRun
get_run k = query λ t. required (find_row run_id k t.runs)

-- Update saves the whole row.
abbrev pub update_run : PipelineRun → Action Tables (Unit {0})
update_run r = execute λ t. record t { runs = update_where (λ x. x.id == r.id) (λ _. r) t.runs }

abbrev pub count_active_by_pipeline : ℕ → Action Tables ℕ
count_active_by_pipeline pid = query λ t. ok (count_where (occupies pid) t.runs)

abbrev pub take_ {ℓ} : {A : Type ℓ} → ℕ → List A → List A
take_ zero xs = []
take_ (suc n) [] = []
take_ (suc n) (x ∷ xs) = x ∷ take_ n xs

abbrev pub find_queued : ℕ → Action Tables (List PipelineRun)
find_queued limit = query λ t. ok (take_ limit (where_ (λ r. is_queued r.phase) t.runs))

-- Create gives the row its id.
abbrev pub create_run_row : PipelineRun → Action Tables ℕ
create_run_row r = statement λ t. (
  ok t.next_id,
  record t { runs = t.runs ++ (record r { id = t.next_id }) ∷ []; next_id = suc t.next_id },
)
