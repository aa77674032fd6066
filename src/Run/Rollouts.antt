-- ===== src/Run/Rollouts.antt =====
-- internal/run/repository/rollout_run.go with internal/run/models/rollout_run.go, and
-- internal/run/service/release.go.
use software_distribution_pl.Run.Approval.{nanos}
pub mod History
use software_distribution_pl.Common.{
  ℕ, suc, String, Bool, true, false, ◌||◌, not, Option, none, some, [], ◌∷◌, ◌++◌, if◌then◌else◌,
  ◌>>=◌, ◌==◌, ◌=ˢ◌, where_, find_row, find_where, update_where, required, Action, query, execute,
  Result, bad_request, ok, err, zero, ◌/◌,
}
use software_distribution_pl.Run.Tables.{
  healthy, degraded, rolling_back, progressing, paused, RolloutPhase, Step, RolloutRun, Tables,
}

pub record RolloutSummary : Type 0 where
  pub phase : RolloutPhase
  pub current_step_index : ℕ
  pub current_weight : ℕ
  pub workload_ref : String

-- isTerminalRolloutPhase.
abbrev pub is_settled : RolloutPhase → Bool
is_settled healthy = true
is_settled degraded = true
is_settled rolling_back = true
is_settled _ = false

abbrev pub rollout_id : RolloutRun → ℕ
rollout_id r = r.id

-- The format has no fractions of a second.
abbrev pub rfc3339 : ℕ → ℕ
rfc3339 t = t / nanos

abbrev pub step_of : ℕ → RolloutSummary → Step
step_of now s = record { at = rfc3339 now; phase = s.phase; weight = s.current_weight }

-- The column has the default Progressing, which takes the place of an empty phase on INSERT.
abbrev pub or_progressing : RolloutPhase → RolloutPhase
or_progressing (RolloutPhase.other zero) = progressing
or_progressing p = p

abbrev pub new_rollout : ℕ → RolloutSummary → ℕ → RolloutRun
new_rollout task s now = record {
  id = 0;
  task_run_id = task;
  workload_ref = s.workload_ref;
  phase = or_progressing s.phase;
  current_step_index = s.current_step_index;
  current_weight = s.current_weight;
  step_history = [];
  start_time = some now;
  completion_time = none;
}

abbrev pub completed : RolloutPhase → ℕ → Option ℕ → Option ℕ
completed p now (some t) = some t
completed p now none = if is_settled p then some now else none

abbrev pub with_snapshot : RolloutSummary → ℕ → RolloutRun → RolloutRun
with_snapshot s now r = record r {
  phase = s.phase;
  current_step_index = s.current_step_index;
  current_weight = s.current_weight;
  workload_ref = if s.workload_ref =ˢ "" then r.workload_ref else s.workload_ref;
  completion_time = completed s.phase now r.completion_time;
}

abbrev pub appended : ℕ → RolloutSummary → RolloutRun → RolloutRun
appended now s r = record r { step_history = r.step_history ++ step_of now s ∷ [] }

abbrev pub is_rollout_of : ℕ → RolloutRun → Bool
is_rollout_of task r = r.task_run_id == task

abbrev pub insert_rollout : RolloutRun → Tables → Tables
insert_rollout r t = record t {
  rollouts = t.rollouts ++ (record r { id = t.next_id }) ∷ [];
  next_id = suc t.next_id;
}

abbrev pub save_rollout : RolloutRun → Tables → Tables
save_rollout r t = record t { rollouts = update_where (λ x. x.id == r.id) (λ _. r) t.rollouts }

-- The row of the task after a snapshot, or a new one; the transaction is one statement.
abbrev pub with_upsert : ℕ → RolloutSummary → ℕ → Tables → Option RolloutRun → Tables
with_upsert task s now t none = insert_rollout (appended now s (new_rollout task s now)) t
with_upsert task s now t (some r) = save_rollout (appended now s (with_snapshot s now r)) t

unfoldable pub upsert_snapshot : ℕ → RolloutSummary → ℕ → Action Tables (Unit {0})
upsert_snapshot task s now =
    execute λ t. with_upsert task s now t (find_where (is_rollout_of task) t.rollouts)

-- The release service.
abbrev pub get_rollout : ℕ → Action Tables RolloutRun
get_rollout k = query λ t. required (find_row rollout_id k t.rollouts)

unfoldable pub create_release : RolloutRun → Action Tables (Unit {0})
create_release r = execute (insert_rollout r)

unfoldable pub update_release : ℕ → RolloutRun → Action Tables (Unit {0})
update_release k r = do old ← get_rollout k; execute (save_rollout (record r { id = old.id }))

unfoldable pub delete_release : ℕ → Action Tables (Unit {0})
delete_release k = execute λ t. record t { rollouts = where_ (λ r. not (r.id == k)) t.rollouts }

-- The phase that a filter of the release view stands for; none is no filter.
unfoldable pub map_release_state : String → Result (Option RolloutPhase)
map_release_state state =
    if (state =ˢ "") || (state =ˢ "all")
    then ok none
    else if state =ˢ "running"
    then ok (some progressing)
    else if state =ˢ "paused"
    then ok (some paused)
    else if state =ˢ "succeeded"
    then ok (some healthy)
    else err bad_request
