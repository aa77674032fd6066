-- ===== src/Pipeline/Cron/Fires.antt =====
-- internal/pipeline/cronexpr/cron.go: what Next returns, and that its loop ends.
use software_distribution_pl.Pipeline.Cron.Skips.{DeadDay, DeadMonth, skip_day, skip_month}
use software_distribution_pl.Pipeline.Cron.Search.{
  search_minutes, IsInstant, DeadHour, is_match, next_month-IsInstant, next_day-IsInstant,
  next_hour-IsInstant, next_minute-IsInstant, search_step, skip_hour,
}
use software_distribution_pl.Pipeline.Cron.{
  days_in_month, rest_of_day, next_month, next_day, next_hour, next_minute, day_matches, Expr,
  Instant, scan, max_scan_days, next_fire, or_none,
}
use software_distribution_pl.Common.{
  ℕ, ◌+◌, ◌-◌, ◌*◌, ◌≡◌, refl, false, arith, zero, suc, ◌≤◌, ◌<◌, inl, inr, true, ltb, ltb→lt,
  Bool-cases, sym, ◌∙◌, some, ap,
}

pub next_minute-at : (t : Instant) → IsInstant t → (next_minute t).at ≡ t.at + 1
unfolding next_minute
next_minute-at t u = ground (arith, u)

next_hour-at : (t : Instant) → IsInstant t → (next_hour t).at ≡ t.at + (60 - t.minute)
unfolding next_hour
next_hour-at t u = ground (arith, u)

next_day-at : (t : Instant) → IsInstant t → (next_day t).at ≡ t.at + rest_of_day t
unfolding next_day
next_day-at t u = ground (arith, u)

next_month-at :
    (t : Instant)
    → (next_month t).at ≡ t.at + (rest_of_day t + (days_in_month t.year t.month - t.day) * 1440)
unfolding next_month
next_month-at t = omega arith

no_month : (e : Expr) (t : Instant) → e.month t.month ≡ false → DeadMonth e t
no_month e t h d w k m a = rw h refl

no_day : (e : Expr) (t : Instant) → day_matches e t ≡ false → DeadDay e t
no_day e t h k m a = ground (arith, h)

no_hour : (e : Expr) (t : Instant) → e.hour t.hour ≡ false → DeadHour e t
no_hour e t h m a = ground (arith, h)

-- A skip of d minutes that passes over no match.
skip-eq :
    (e : Expr) (fuel limit d : ℕ) (t u : Instant)
    → u.at ≡ t.at + d
    → scan e fuel limit u ≡ some (search_minutes e (limit - u.at) u)
    → search_minutes e (limit - t.at) t ≡ search_minutes e (limit - t.at - d) u
    → scan e fuel limit u ≡ some (search_minutes e (limit - t.at) t)
skip-eq e fuel limit d t u later found skipped =
    let left : limit - u.at ≡ limit - t.at - d = omega (arith, later) in cc (found, skipped, left)

is_match-hit :
    (e : Expr) (t : Instant)
    → e.month t.month ≡ true
    → day_matches e t ≡ true
    → e.hour t.hour ≡ true
    → is_match e t ≡ e.minute t.minute
is_match-hit e t p q r = rw (p, q, r) refl

module _ (e : Expr) (fuel limit : ℕ)
    (deeper : (u : Instant)
      → IsInstant u
      → limit - u.at ≤ fuel
      → scan e fuel limit u ≡ some (search_minutes e (limit - u.at) u))
    (t : Instant) (u : IsInstant t) (early : t.at < limit) (enough : limit - t.at ≤ suc fuel) where
  scan-month :
      e.month t.month ≡ false
      → scan e fuel limit (next_month t) ≡ some (search_minutes e (limit - t.at) t)
  scan-month h =
      let days : ℕ = days_in_month t.year t.month - t.day in
      let minutes : ℕ = rest_of_day t + days * 1440 in
      skip-eq e fuel limit minutes t (next_month t) (next_month-at t)
        (deeper (next_month t) (next_month-IsInstant t)
          (omega (arith, next_month-at t, early, enough, u)))
        (skip_month e days (limit - t.at) t (omega (arith, u)) (u.0) (u.1) (no_month e t h))

  scan-day :
      day_matches e t ≡ false
      → scan e fuel limit (next_day t) ≡ some (search_minutes e (limit - t.at) t)
  scan-day h =
      skip-eq e fuel limit (rest_of_day t) t (next_day t) (next_day-at t u)
        (deeper (next_day t) (next_day-IsInstant t u)
          (omega (arith, next_day-at t u, early, enough, u)))
        (skip_day e (23 - t.hour) (limit - t.at) t (omega (arith, u)) (u.0) (no_day e t h))

  scan-hour :
      e.hour t.hour ≡ false
      → scan e fuel limit (next_hour t) ≡ some (search_minutes e (limit - t.at) t)
  scan-hour h =
      let minutes : 59 - t.minute + 1 ≡ 60 - t.minute = omega (arith, u) in
      skip-eq e fuel limit (60 - t.minute) t (next_hour t) (next_hour-at t u)
        (deeper (next_hour t) (next_hour-IsInstant t u)
          (omega (arith, next_hour-at t u, early, enough, u)))
        (cc (
          skip_hour e (59 - t.minute) (limit - t.at) t (omega (arith, u)) (u.1) (no_hour e t h),
          minutes,
        ))

  scan-minute :
      is_match e t ≡ false
      → scan e fuel limit (next_minute t) ≡ some (search_minutes e (limit - t.at) t)
  scan-minute h =
      skip-eq e fuel limit 1 t (next_minute t) (next_minute-at t u)
        (deeper (next_minute t) (next_minute-IsInstant t u)
          (omega (arith, next_minute-at t u, early, enough, u)))
        (search_step e (limit - t.at) t h)

search_minutes-hit :
    (e : Expr) (n : ℕ) (t : Instant) → 0 < n → is_match e t ≡ true → search_minutes e n t ≡ some t
unfolding search_minutes
search_minutes-hit e zero t n h = absurd (omega (arith, n))
search_minutes-hit e (suc k) t n h = rw h refl

-- From an instant whose fields are in range, the loop of Next with at least as much fuel as there
-- are minutes up to the limit does not run out of it: it ends by a match or at the limit, with
-- what a search of those minutes one by one finds.
pub scan-eq :
    (e : Expr) (fuel limit : ℕ) (t : Instant)
    → IsInstant t
    → limit - t.at ≤ fuel
    → scan e fuel limit t ≡ some (search_minutes e (limit - t.at) t)
unfolding scan search_minutes
scan-eq e zero limit t u enough =
    let over : limit - t.at ≡ 0 = omega (arith, enough) in
    let late : ltb t.at limit ≡ false = ground (arith, over) in rw (late, over) refl
scan-eq e (suc fuel) limit t u enough = elim (Bool-cases (ltb t.at limit)) [
  | inr late ↦ let over : limit - t.at ≡ 0 = ground (arith, late) in rw (late, over) refl
  | inl early ↦
      let before : t.at < limit = ltb→lt t.at limit early in
      let deeper = scan-eq e fuel limit in
      elim (Bool-cases (e.month t.month)) [
        | inr p ↦ rw (early, p) (scan-month e fuel limit deeper t u before enough p)
        | inl p ↦ elim (Bool-cases (day_matches e t)) [
          | inr q ↦ rw (early, p, q) (scan-day e fuel limit deeper t u before enough q)
          | inl q ↦ elim (Bool-cases (e.hour t.hour)) [
            | inr r ↦ rw (early, p, q, r) (scan-hour e fuel limit deeper t u before enough r)
            | inl r ↦
                let hit : is_match e t ≡ e.minute t.minute = is_match-hit e t p q r in
                elim (Bool-cases (e.minute t.minute)) [
                  | inr s ↦
                      rw (early, p, q, r, s)
                        (scan-minute e fuel limit deeper t u before enough (hit ∙ s))
                  | inl s ↦
                      rw (early, p, q, r, s)
                        (ap some (
                          sym (
                            search_minutes-hit e (limit - t.at) t (omega (arith, before))
                              (hit ∙ s))))
                ]
          ]
        ]
      ]
]

-- For an instant whose fields are in range, Next finds what a search minute by minute, from the
-- next minute on for 2928 days, finds first: its skips of months, days and hours pass over no
-- match.
pub next_fire-eq :
    (e : Expr) (after : Instant)
    → IsInstant after
    → next_fire e after ≡ search_minutes e (max_scan_days * 1440) (next_minute after)
unfolding next_fire
next_fire-eq e after u =
    let t = next_minute after in
    let limit = t.at + max_scan_days * 1440 in
    let span : limit - t.at ≡ max_scan_days * 1440 = omega arith in
    cc (
      ap or_none (
          scan-eq e (max_scan_days * 1440) limit t (next_minute-IsInstant after u)
            (omega (arith, span))),
      span,
    )
