-- ===== src/Pipeline/Cron/Skips.antt =====
-- internal/pipeline/cronexpr/cron.go: the skips of a day and of a month in Next.
use software_distribution_pl.Pipeline.Cron.Search.{is_match, search_minutes, skip_hour}
use software_distribution_pl.Common.{
  ℕ, zero, suc, ◌+◌, ◌-◌, ◌≤◌, ◌<◌, false, ltb, ◌≡◌, refl, arith, lt→ltb, ◌%◌, ◌*◌,
}
use software_distribution_pl.Pipeline.Cron.{
  Expr, Instant, days_in_month, next_month, next_day, next_hour, rest_of_day,
}

-- No minute of the day matches.
abbrev pub DeadDay : Expr → Instant → Type 0
DeadDay e t = (h m a : ℕ) → is_match e (record t { hour = h; minute = m; at = a }) ≡ false

abbrev hour_on : Instant → Instant
hour_on t = record t { hour = t.hour + 1; minute = 0; at = t.at + (60 - t.minute) }

next_hour-within : (t : Instant) → t.hour < 23 → next_hour t ≡ hour_on t
unfolding next_hour
next_hour-within t h = rw (lt→ltb t.hour 23 h) refl

next_hour-last : (t : Instant) → t.hour ≡ 23 → next_hour t ≡ next_day t
unfolding next_hour
next_hour-last t h = rw h refl

next_day-hour_on : (t : Instant) → t.hour < 23 → t.minute ≤ 59 → next_day (hour_on t) ≡ next_day t
unfolding next_day next_month
next_day-hour_on t h u = ground (arith, h, u)

pub skip_day :
    (e : Expr) (k n : ℕ) (t : Instant)
    → t.hour + k ≡ 23
    → t.minute ≤ 59
    → DeadDay e t
    → search_minutes e n t ≡ search_minutes e (n - rest_of_day t) (next_day t)
skip_day e zero n t last u dead =
    let minutes : n - (59 - t.minute + 1) ≡ n - rest_of_day t = omega (arith, last, u) in
    cc (
      skip_hour e (59 - t.minute) n t (omega (arith, u)) (omega (arith, last)) (dead t.hour),
      next_hour-last t (omega (arith, last)),
      minutes,
    )
skip_day e (suc k) n t last u dead =
    let inside : t.hour < 23 = omega (arith, last) in
    let minutes : n - (59 - t.minute + 1) - rest_of_day (hour_on t) ≡ n - rest_of_day t =
      omega (arith, last, u) in
    cc (
      skip_hour e (59 - t.minute) n t (omega (arith, u)) (omega (arith, last)) (dead t.hour),
      next_hour-within t inside,
      skip_day e k (n - (59 - t.minute + 1)) (hour_on t) (omega (arith, last)) (omega arith) dead,
      next_day-hour_on t inside u,
      minutes,
    )

-- No minute of the month matches.
abbrev pub DeadMonth : Expr → Instant → Type 0
DeadMonth e t =
    (d w h m a : ℕ)
    → is_match e (record t { day = d; weekday = w; hour = h; minute = m; at = a }) ≡ false

abbrev day_on : Instant → Instant
day_on t = record t {
  day = t.day + 1;
  hour = 0;
  minute = 0;
  weekday = (t.weekday + 1) % 7;
  at = t.at + rest_of_day t;
}

next_day-within : (t : Instant) → t.day < days_in_month t.year t.month → next_day t ≡ day_on t
unfolding next_day
next_day-within t h = rw (lt→ltb t.day (days_in_month t.year t.month) h) refl

next_day-last : (t : Instant) → t.day ≡ days_in_month t.year t.month → next_day t ≡ next_month t
unfolding next_day
next_day-last t h =
    let late : ltb t.day (days_in_month t.year t.month) ≡ false = ground (arith, h) in rw late refl

weekday_on : (w d n : ℕ) → d < n → ((w + 1) % 7 + (n - (d + 1)) + 1) % 7 ≡ (w + (n - d) + 1) % 7
weekday_on w d n h = omega (arith, h)

minutes_on : (a d n : ℕ) → d < n → a + 1440 + (n - (d + 1)) * 1440 ≡ a + (n - d) * 1440
minutes_on a d n h = omega (arith, h)

next_month-day_on :
    (t : Instant) → t.day < days_in_month t.year t.month → next_month (day_on t) ≡ next_month t
unfolding next_month
next_month-day_on t h =
    let last = days_in_month t.year t.month in
    cc (weekday_on t.weekday t.day last h, minutes_on (t.at + rest_of_day t) t.day last h)

pub skip_month :
    (e : Expr) (k n : ℕ) (t : Instant)
    → t.day + k ≡ days_in_month t.year t.month
    → t.minute ≤ 59
    → t.hour ≤ 23
    → DeadMonth e t
    → search_minutes e n t ≡ search_minutes e (n - (rest_of_day t + k * 1440)) (next_month t)
skip_month e zero n t last u v dead =
    let minutes : n - rest_of_day t ≡ n - (rest_of_day t + zero * 1440) = omega arith in
    cc (
      skip_day e (23 - t.hour) n t (omega (arith, v)) u (dead t.day t.weekday),
      next_day-last t (omega (arith, last)),
      minutes,
    )
skip_month e (suc k) n t last u v dead =
    let inside : t.day < days_in_month t.year t.month = omega (arith, last) in
    let minutes : n - rest_of_day t - (rest_of_day (day_on t) + k * 1440)
        ≡ n - (rest_of_day t + suc k * 1440) =
      omega arith in
    cc (
      skip_day e (23 - t.hour) n t (omega (arith, v)) u (dead t.day t.weekday),
      next_day-within t inside,
      skip_month e k (n - rest_of_day t) (day_on t) (omega (arith, last)) (omega arith)
          (omega arith) dead,
      next_month-day_on t inside,
      minutes,
    )
