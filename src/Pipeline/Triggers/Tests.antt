-- ===== src/Pipeline/Triggers/Tests.antt =====
-- The scheduler of triggers on samples.
use software_distribution_pl.Pipeline.Cron.Search.{IsInstant}
use software_distribution_pl.Pipeline.Triggers.Firing.{IsReadable}
use software_distribution_pl.Text.{codes}
use software_distribution_pl.Pipeline.Triggers.Overdue.{is_overdue, IsSound, tick_fires_overdue}
use software_distribution_pl.Pipeline.Cron.{next_fire, Instant}
use software_distribution_pl.Pipeline.Triggers.{
  cron_expr_of, Starter, PipelineTrigger, Fired, Triggers, cron, bytes, authorize_webhook, no_bytes,
  webhook, update, event, rotate, create, delete,
}
use software_distribution_pl.Pipeline.Triggers.Scheduler.{
  fire_and_stamp, is_cron, fired_by, tick_each, tick, evaluate_run_finished,
}
use software_distribution_pl.Common.{
  ◌≡◌, refl, true, none, some, [], ◌∷◌, ◌++◌, map, arith, where_, All, update_where, up, ok, false,
}

-- Wednesday, 31 December 2025, 23:59, and a minute later.
abbrev before : Instant
before = record { year = 2025; month = 12; day = 31; hour = 23; minute = 59; weekday = 3; at = 100 }

abbrev now : Instant
now = record { year = 2026; month = 1; day = 1; hour = 0; minute = 0; weekday = 4; at = 101 }

abbrev nightly : PipelineTrigger
nightly = record {
  id = 1;
  pipeline_id = 5;
  name = "nightly";
  trigger_type = cron;
  enabled = true;
  spec = bytes (some (codes "0 0 * * *")) none;
  token = "";
  last_triggered_at = none;
  created_by = "ann";
  created_at = before;
}

abbrev broken : PipelineTrigger
broken = record nightly { id = 2; spec = bytes (some (codes "0 0")) none }

abbrev sample : Triggers
sample = record { rows = broken ∷ nightly ∷ []; fired = []; next_id = 3 }

abbrev willing : Starter
willing t f = ok tt

abbrev one_start : Fired
one_start = record { pipeline = 5; source = "cron"; trigger = "nightly" }

tick_test : (tick willing now (up sample)).1.tables.fired ≡ one_start ∷ []
unfolding tick update_where fire_and_stamp cron_expr_of next_fire
tick_test = refl

-- The next tick of the same minute fires nothing.
second_tick_test :
    (tick willing now (tick willing now (up sample)).1).1.tables.fired ≡ one_start ∷ []
unfolding tick update_where fire_and_stamp cron_expr_of next_fire
second_tick_test = refl

-- Two hubs that claim before either has stamped both fire.
two_hubs_test :
    (tick_each willing now sample.rows
      (tick_each willing now sample.rows (up sample)).1).1.tables.fired
    ≡ one_start ∷ one_start ∷ []
unfolding tick_each update_where fire_and_stamp cron_expr_of next_fire
two_hubs_test = refl

sample-IsReadable : All IsReadable (where_ is_cron sample.rows)
unfolding cron_expr_of
sample-IsReadable = ground arith

before-IsInstant : IsInstant before
before-IsInstant = (omega arith, omega arith, omega arith, omega arith)

sample-IsSound : All IsSound (where_ is_cron sample.rows)
unfolding cron_expr_of
sample-IsSound =
    ((sample-IsReadable.0, before-IsInstant), ((sample-IsReadable.1.0, before-IsInstant), tt))

tick_fires_overdue_example :
    (tick willing now (up sample)).1.tables.fired
    ≡ [] ++ map (λ r. fired_by r "cron") (where_ (is_overdue now) (where_ is_cron sample.rows))
tick_fires_overdue_example = tick_fires_overdue willing now sample (λ t f. refl) sample-IsSound

-- A trigger that is created switched off is stored switched on.
disabled_test :
    (create (ok "wh_1") now 5 (record nightly { enabled = false }) "ann" (up sample)).1.tables.rows
    ≡ broken ∷ nightly ∷ record nightly { id = 3; created_at = now } ∷ []
unfolding create
disabled_test = refl

-- A patch that only renames switches the trigger off, since its switch is then false.
renamed_test :
    (update 1
      (record { name = "later"; spec = no_bytes; enabled = false })
      (up sample)).1.tables.rows
    ≡ broken ∷ record nightly { name = "later"; enabled = false } ∷ []
unfolding update
renamed_test = refl

webhook_row : PipelineTrigger
webhook_row = record nightly { id = 4; trigger_type = webhook; token = "wh_1" }

-- A token opens its own webhook only.
webhook_test :
    ((authorize_webhook 4 "wh_1" (up (record sample { rows = webhook_row ∷ [] }))).0
      ≡ ok (some webhook_row))
    × ((authorize_webhook 4 "" (up (record sample { rows = webhook_row ∷ [] }))).0 ≡ ok none)
unfolding authorize_webhook webhook_row
webhook_test = (refl, refl)

rotate_test :
    (rotate (ok "wh_2") 4 (up (record sample { rows = webhook_row ∷ [] }))).1.tables.rows
    ≡ record webhook_row { token = "wh_2" } ∷ []
unfolding rotate webhook_row
rotate_test = refl

-- An event trigger without statuses waits for success.
abbrev follower : PipelineTrigger
follower = record nightly {
  id = 6;
  name = "follower";
  trigger_type = event;
  spec = bytes none (some (record { on_pipeline_id = 9; statuses = [] }));
}

event_test :
    ((evaluate_run_finished willing now 9 "Succeeded"
        (up (record sample { rows = follower ∷ [] }))).1.tables.fired
      ≡ record { pipeline = 5; source = "event"; trigger = "follower" } ∷ [])
    × ((evaluate_run_finished willing now 9 "Failed"
          (up (record sample { rows = follower ∷ [] }))).1.tables.fired
        ≡ [])
unfolding evaluate_run_finished
event_test = (refl, refl)

delete_test : (delete 2 (up sample)).1.tables.rows ≡ nightly ∷ []
unfolding delete
delete_test = refl
