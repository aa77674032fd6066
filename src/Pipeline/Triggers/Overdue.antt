-- ===== src/Pipeline/Triggers/Overdue.antt =====
-- internal/pipeline/service/trigger.go: which triggers are overdue, said minute by minute, and that a
-- tick fires them.
use software_distribution_pl.Pipeline.Cron.Fields.{refused, Outcome, done, panicked}
use software_distribution_pl.Pipeline.Cron.Search.{
  is_match, search_minutes, IsInstant, next_minute-IsInstant,
}
use software_distribution_pl.Pipeline.Cron.Fires.{next_minute-at, next_fire-eq}
use software_distribution_pl.Pipeline.Triggers.Scheduler.{is_cron, fired_by, base_of, tick, is_due}
use software_distribution_pl.Pipeline.Triggers.Firing.{due_of, due_now, IsReadable, fired-tick}
use software_distribution_pl.Pipeline.Cron.{next_minute, Expr, Instant}
use software_distribution_pl.Pipeline.Triggers.{
  Starter, cron_expr_of, PipelineTrigger, Fired, Triggers,
}
use software_distribution_pl.Common.{
  ℕ, zero, suc, ◌-◌, ◌*◌, min, ◌≡◌, refl, ap, ◌∙◌, ◌≢◌, inl, inr, Bool, false, ◌||◌, Option, none,
  some, List, [], ◌∷◌, ◌++◌, map, arith, ltb, Bool-cases, where_, All, up, ok,
}

-- A minute among the next n, this one first, matches.
abbrev pub has_match : Expr → ℕ → Instant → Bool
has_match e zero t = false
has_match e (suc n) t = is_match e t || has_match e n (next_minute t)

abbrev pub last_seen : Option Instant → Instant → Instant
last_seen none created = created
last_seen (some stamp) created = stamp

-- A minute after the last stamp, or after the creation, up to now, and within 2928 days, matches.
abbrev pub is_overdue_by : Instant → PipelineTrigger → Outcome Expr → Bool
is_overdue_by now r (done e) =
    let last = last_seen r.last_triggered_at r.created_at in
    has_match e (min (now.at - last.at) (2928 * 1440)) (next_minute last)
is_overdue_by now r refused = false
is_overdue_by now r panicked = false

abbrev pub is_overdue : Instant → PipelineTrigger → Bool
is_overdue now r = is_overdue_by now r (cron_expr_of r.spec)

-- The parser does not panic at the expression, and the last time is a time.
abbrev pub IsSound : PipelineTrigger → Type 0
IsSound r =
    (cron_expr_of r.spec ≢ panicked) × IsInstant (last_seen r.last_triggered_at r.created_at)

is_due-search_minutes :
    (e : Expr) (now : Instant) (n : ℕ) (t : Instant)
    → IsInstant t
    → is_due now (search_minutes e n t) ≡ has_match e (min (suc now.at - t.at) n) t
unfolding search_minutes
is_due-search_minutes e now zero t u =
    let none_left : min (suc now.at - t.at) 0 ≡ 0 = omega arith in rw none_left refl
is_due-search_minutes e now (suc n) t u =
    let rest = is_due-search_minutes e now n (next_minute t) (next_minute-IsInstant t u) in
    let later = next_minute-at t u in
    elim (Bool-cases (ltb now.at t.at)) [
      | inl over ↦
          let none_left : min (suc now.at - t.at) (suc n) ≡ 0 = ground (arith, over) in
          let none_later : min (suc now.at - (next_minute t).at) n ≡ 0 =
            ground (arith, over, later) in
          elim (Bool-cases (is_match e t)) [
            | inl hit ↦ rw (none_left, hit, over) refl
            | inr miss ↦ rw (none_left, miss) (rest ∙ rw none_later refl)
          ]
      | inr early ↦
          let left : min (suc now.at - t.at) (suc n)
              ≡ suc (min (suc now.at - (next_minute t).at) n) =
            ground (arith, early, later) in
          elim (Bool-cases (is_match e t)) [
            | inl hit ↦ rw (left, hit, early) refl
            | inr miss ↦ rw (left, miss) rest
          ]
    ]

base_of-eq : (r : PipelineTrigger) → base_of r ≡ last_seen r.last_triggered_at r.created_at
base_of-eq r = last r.last_triggered_at
  where
    last :
        (o : Option Instant)
        → elim o [ some t ↦ t | none ↦ r.created_at ] ≡ last_seen o r.created_at
    last none = refl
    last (some t) = refl

due_of-eq :
    (now : Instant) (r : PipelineTrigger) (o : Outcome Expr)
    → IsInstant (last_seen r.last_triggered_at r.created_at)
    → due_of now r o ≡ is_overdue_by now r o
due_of-eq now r refused u = refl
due_of-eq now r panicked u = refl
due_of-eq now r (done e) u =
    let last = last_seen r.last_triggered_at r.created_at in
    let t = next_minute last in
    let span : suc now.at - t.at ≡ now.at - last.at = omega (arith, next_minute-at last u) in
    rw (base_of-eq r, next_fire-eq e last u)
      (is_due-search_minutes e now (2928 * 1440) t (next_minute-IsInstant last u)
        ∙ ap (λ k. has_match e (min k (2928 * 1440)) t) span)

where_-due :
    (now : Instant) (rs : List PipelineTrigger)
    → All IsSound rs
    → where_ (due_now now) rs ≡ where_ (is_overdue now) rs
where_-due now [] u = refl
where_-due now (r ∷ rs) u =
    let same : due_now now r ≡ is_overdue now r = due_of-eq now r (cron_expr_of r.spec) (u.0.1) in
    rw (same, where_-due now rs u.1) refl

IsSound-IsReadable : (rs : List PipelineTrigger) → All IsSound rs → All IsReadable rs
IsSound-IsReadable [] u = tt
IsSound-IsReadable (r ∷ rs) u = (u.0.0, IsSound-IsReadable rs u.1)

-- When the statements and the starts of runs succeed, no enabled cron trigger has an expression at
-- which the parser panics, and their last stamps, or their creations, are instants whose fields
-- are in range, a tick starts exactly those enabled cron triggers of which some minute after the
-- last stamp, or the creation, up to now and within 2928 days, matches the expression, in order
-- and once each.
pub tick_fires_overdue :
    (start : Starter) (now : Instant) (t : Triggers)
    → ((s : Triggers) (f : Fired) → start s f ≡ ok tt)
    → All IsSound (where_ is_cron t.rows)
    → (tick start now (up t)).1.tables.fired
      ≡ t.fired ++ map (λ r. fired_by r "cron") (where_ (is_overdue now) (where_ is_cron t.rows))
tick_fires_overdue start now t accepts u =
    fired-tick start now accepts t (IsSound-IsReadable (where_ is_cron t.rows) u)
    ∙ ap (λ rs. t.fired ++ map (λ r. fired_by r "cron") rs)
        (where_-due now (where_ is_cron t.rows) u)
