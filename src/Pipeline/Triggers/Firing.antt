-- ===== src/Pipeline/Triggers/Firing.antt =====
-- internal/pipeline/service/trigger.go: which triggers a tick of the scheduler fires.
use software_distribution_pl.Pipeline.Cron.Fields.{Outcome, done, panicked, refused}
use software_distribution_pl.Pipeline.Cron.{next_fire, Expr, Instant}
use software_distribution_pl.Pipeline.Triggers.{
  trigger_id, Starter, cron_expr_of, PipelineTrigger, Fired, Triggers, Calls,
}
use software_distribution_pl.Pipeline.Triggers.Scheduler.{
  is_cron, claim_due_cron, fired_by, fire_and_stamp, base_of, tick_each, tick, is_due, tick_row,
}
use software_distribution_pl.Common.{
  String, ◌≡◌, refl, sym, ◌∙◌, ◌≢◌, inl, inr, Bool, false, some, append_assoc, append-nil, List, [],
  ◌∷◌, ◌++◌, map, ◌==◌, Bool-cases, where_, All, update_where, up, ok, if◌then◌else◌,
}

abbrev pub due_of : Instant → PipelineTrigger → Outcome Expr → Bool
due_of now r (done e) = is_due now (next_fire e (base_of r))
due_of now r refused = false
due_of now r panicked = false

-- The trigger has a fire time after its last stamp, or after its creation, that is not after now.
abbrev pub due_now : Instant → PipelineTrigger → Bool
due_now now r = due_of now r (cron_expr_of r.spec)

abbrev pub IsReadable : PipelineTrigger → Type 0
IsReadable r = cron_expr_of r.spec ≢ panicked

abbrev fired_cron : PipelineTrigger → Fired
fired_cron r = fired_by r "cron"

fire_and_stamp-accepted :
    (start : Starter) (now : Instant) (r : PipelineTrigger) (source : String) (t : Triggers)
    → start t (fired_by r source) ≡ ok tt
    → fire_and_stamp start r source now (up t) ≡ (
      ok tt,
      up (record t {
        rows =
            update_where
              (λ x. trigger_id x == r.id)
              (λ x. record x { last_triggered_at = some now })
              t.rows;
        fired = t.fired ++ fired_by r source ∷ [];
      }),
    )
unfolding fire_and_stamp
fire_and_stamp-accepted start now r source t h = rw h refl

abbrev after_fire : Instant → PipelineTrigger → Triggers → Triggers
after_fire now r t = record t {
  rows =
      update_where (λ x. trigger_id x == r.id) (λ x. record x { last_triggered_at = some now })
        t.rows;
  fired = t.fired ++ fired_cron r ∷ [];
}

module _ (start : Starter) (now : Instant)
    (accepts : (t : Triggers) (f : Fired) → start t f ≡ ok tt) where
  -- A row adds its start if it is due; the rest of the loop adds those after it.
  fired-tick_row :
      (r : PipelineTrigger) (o : Outcome Expr) (rest : Calls (Unit {0})) (later : List Fired)
      (t : Triggers)
      → o ≢ panicked
      → ((s : Triggers) → (rest (up s)).1.tables.fired ≡ s.fired ++ later)
      → (tick_row start now r rest o (up t)).1.tables.fired
        ≡ t.fired ++ (if due_of now r o then fired_cron r ∷ later else later)
  fired-tick_row r refused rest later t u h = h t
  fired-tick_row r panicked rest later t u h = absurd (u refl)
  fired-tick_row r (done e) rest later t u h =
      elim (Bool-cases (is_due now (next_fire e (base_of r)))) [
        | inl d ↦
            let sent = fire_and_stamp-accepted start now r "cron" t (accepts t (fired_cron r)) in
            rw (d, sent) (h (after_fire now r t) ∙ append_assoc t.fired (fired_cron r ∷ []) later)
        | inr d ↦ rw d (h t)
      ]

  map-due :
      (r : PipelineTrigger) (rs : List PipelineTrigger)
      → map fired_cron (where_ (due_now now) (r ∷ rs)) ≡ (
          if due_now now r
          then fired_cron r ∷ map fired_cron (where_ (due_now now) rs)
          else map fired_cron (where_ (due_now now) rs))
  map-due r rs = elim (Bool-cases (due_now now r)) [ inl e ↦ rw e refl | inr e ↦ rw e refl ]

  fired-tick_each :
      (rs : List PipelineTrigger) (t : Triggers)
      → All IsReadable rs
      → (tick_each start now rs (up t)).1.tables.fired
        ≡ t.fired ++ map fired_cron (where_ (due_now now) rs)
  unfolding tick_each
  fired-tick_each [] t u = sym (append-nil t.fired)
  fired-tick_each (r ∷ rs) t u = cc (
    fired-tick_row r (cron_expr_of r.spec) (tick_each start now rs)
        (map fired_cron (where_ (due_now now) rs)) t u.0 (λ s. fired-tick_each rs s u.1),
    map-due r rs,
  )

  -- When the statements and the starts of runs succeed and no enabled cron trigger has an
  -- expression at which the parser panics, a tick starts exactly the enabled cron triggers with a
  -- fire time after their last stamp, or their creation, and not after now, in order and once
  -- each.
  pub fired-tick :
      (t : Triggers)
      → All IsReadable (where_ is_cron t.rows)
      → (tick start now (up t)).1.tables.fired
        ≡ t.fired ++ map (λ r. fired_by r "cron") (where_ (due_now now) (where_ is_cron t.rows))
  unfolding tick claim_due_cron
  fired-tick t u = fired-tick_each (where_ is_cron t.rows) t u
