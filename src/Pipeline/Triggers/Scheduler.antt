-- ===== src/Pipeline/Triggers/Scheduler.antt =====
-- internal/pipeline/service/trigger.go: tick, fire, InvokeWebhook and EvaluateRunFinished, with the
-- queries of internal/pipeline/repository/trigger.go.
use software_distribution_pl.Pipeline.Triggers.{
  cron, event, trigger_id, Starter, Calls, decode_event_spec, cron_expr_of, PipelineTrigger, Fired,
  Triggers,
}
use software_distribution_pl.Pipeline.Cron.Fields.{panicked, Outcome, done, refused}
use software_distribution_pl.Pipeline.Cron.{next_fire, Expr, Instant}
use software_distribution_pl.Common.{
  ℕ, String, Bool, false, ◌&&◌, ◌||◌, not, Option, none, some, List, [], ◌∷◌, ◌++◌, if◌then◌else◌,
  ◌>>=◌, ltb, ◌==◌, ◌=ˢ◌, where_, update_where, regardless, pure, fail, query, execute, Result,
  crashed, ok, err,
}

abbrev pub is_cron : PipelineTrigger → Bool
is_cron r = elim (r.trigger_type) [ cron ↦ r.enabled | _ ↦ false ]

abbrev pub is_event : PipelineTrigger → Bool
is_event r = elim (r.trigger_type) [ event ↦ r.enabled | _ ↦ false ]

-- The rows that ClaimDueCron returns. Outside a transaction its locks end with the statement.
unfoldable pub claim_due_cron : Calls (List PipelineTrigger)
claim_due_cron = query λ t. ok (where_ is_cron t.rows)

unfoldable pub update_last_triggered : ℕ → Instant → Calls (Unit {0})
unfolding update_where
update_last_triggered k now = execute λ t. record t {
  rows =
      update_where (λ x. trigger_id x == k) (λ x. record x { last_triggered_at = some now }) t.rows;
}

abbrev pub fired_by : PipelineTrigger → String → Fired
fired_by r source = record { pipeline = r.pipeline_id; source = source; trigger = r.name }

abbrev pub started : Result (Unit {0}) → Fired → Triggers → Result (Unit {0}) × Triggers
started (ok u) f t = (ok tt, record t { fired = t.fired ++ f ∷ [] })
started (err e) f t = (err e, t)

unfoldable pub fire : Starter → PipelineTrigger → String → Calls (Unit {0})
fire start r source w =
    let answer = started (start w.tables (fired_by r source)) (fired_by r source) w.tables in
    (answer.0, record w { tables = answer.1 })

-- What follows a start: the stamp, unless the start failed.
unfoldable pub fire_and_stamp : Starter → PipelineTrigger → String → Instant → Calls (Unit {0})
unfolding fire update_last_triggered
fire_and_stamp start r source now = do _ ← fire start r source; update_last_triggered r.id now

abbrev pub base_of : PipelineTrigger → Instant
base_of r = elim (r.last_triggered_at) [ some t ↦ t | none ↦ r.created_at ]

abbrev pub is_due : Instant → Option Instant → Bool
is_due now none = false
is_due now (some t) = not (ltb now.at t.at)

-- A claimed row, with what its expression parses to, and the rest of the loop.
abbrev pub tick_row :
    Starter → Instant → PipelineTrigger → Calls (Unit {0}) → Outcome Expr → Calls (Unit {0})
tick_row start now r rest refused = rest
tick_row start now r rest panicked = fail crashed
tick_row start now r rest (done e) =
    if is_due now (next_fire e (base_of r))
    then regardless (fire_and_stamp start r "cron" now) rest
    else rest

-- The loop of tick over the claimed rows.
unfoldable pub tick_each : Starter → Instant → List PipelineTrigger → Calls (Unit {0})
tick_each start now [] = pure tt
tick_each start now (r ∷ rs) =
    let rest = tick_each start now rs in tick_row start now r rest (cron_expr_of r.spec)

unfoldable pub tick : Starter → Instant → Calls (Unit {0})
unfolding tick_each claim_due_cron
tick start now = do rows ← claim_due_cron; tick_each start now rows

unfoldable pub invoke_webhook : Starter → PipelineTrigger → Instant → Calls (Unit {0})
unfolding fire_and_stamp
invoke_webhook start r now = fire_and_stamp start r "webhook" now

abbrev pub lists_status : String → List String → Bool
lists_status phase [] = false
lists_status phase (s ∷ ss) = (s =ˢ phase) || lists_status phase ss

abbrev pub watches : ℕ → String → PipelineTrigger → Bool
watches k phase r =
    let spec = decode_event_spec r.spec in
    (spec.on_pipeline_id == k) && lists_status phase spec.statuses

unfoldable pub event_each : Starter → Instant → ℕ → String → List PipelineTrigger → Calls (Unit {0})
unfolding fire_and_stamp
event_each start now k phase [] = pure tt
event_each start now k phase (r ∷ rs) =
    let rest = event_each start now k phase rs in
    if watches k phase r then regardless (fire_and_stamp start r "event" now) rest else rest

unfoldable pub evaluate_run_finished : Starter → Instant → ℕ → String → Calls (Unit {0})
unfolding event_each
evaluate_run_finished start now k phase = do
  rows ← query λ t. ok (where_ is_event t.rows)
  event_each start now k phase rows
