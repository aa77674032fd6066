-- ===== src/Pipeline/Cron/Search.antt =====
-- internal/pipeline/cronexpr/cron.go: a search minute by minute, and the skip of an hour.
use software_distribution_pl.Common.{
  ℕ, zero, suc, ◌+◌, ◌-◌, ◌≤◌, ◌<◌, Bool, false, ◌&&◌, Option, none, some, ltb, if◌then◌else◌, ◌≡◌,
  refl, arith, Bool-cases, inl, inr, lt→ltb,
}
use software_distribution_pl.Pipeline.Cron.{
  Expr, Instant, days_in_month, next_month, next_day, next_hour, next_minute, day_matches,
}

abbrev pub is_match : Expr → Instant → Bool
is_match e t = e.month t.month && (day_matches e t && (e.hour t.hour && e.minute t.minute))

-- The search minute by minute.
unfoldable pub search_minutes : Expr → ℕ → Instant → Option Instant
unfolding next_minute
search_minutes e zero t = none
search_minutes e (suc n) t =
    let later = search_minutes e n (next_minute t) in if is_match e t then some t else later

-- The fields of an instant are in range.
abbrev pub IsInstant : Instant → Type 0
IsInstant t = (t.minute ≤ 59) × (t.hour ≤ 23) × (1 ≤ t.day) × (t.day ≤ days_in_month t.year t.month)

days_in_month_pos : (y m : ℕ) → 1 ≤ days_in_month y m
days_in_month_pos y m = ground arith

pub next_month-IsInstant : (t : Instant) → IsInstant (next_month t)
unfolding next_month
next_month-IsInstant t = ground (arith, days_in_month_pos (next_month t).year (next_month t).month)

pub next_day-IsInstant : (t : Instant) → IsInstant t → IsInstant (next_day t)
unfolding next_day
next_day-IsInstant t u = elim (Bool-cases (ltb t.day (days_in_month t.year t.month))) [
  | inl e ↦ rw e (ground (arith, e, u))
  | inr e ↦ rw e (next_month-IsInstant t)
]

pub next_hour-IsInstant : (t : Instant) → IsInstant t → IsInstant (next_hour t)
unfolding next_hour
next_hour-IsInstant t u = elim (Bool-cases (ltb t.hour 23)) [
  | inl e ↦ rw e (ground (arith, e, u))
  | inr e ↦ rw e (next_day-IsInstant t u)
]

pub next_minute-IsInstant : (t : Instant) → IsInstant t → IsInstant (next_minute t)
unfolding next_minute
next_minute-IsInstant t u = elim (Bool-cases (ltb t.minute 59)) [
  | inl e ↦ rw e (ground (arith, e, u))
  | inr e ↦ rw e (next_hour-IsInstant t u)
]

-- No minute of the hour matches.
abbrev pub DeadHour : Expr → Instant → Type 0
DeadHour e t = (m a : ℕ) → is_match e (record t { minute = m; at = a }) ≡ false

pub search_step :
    (e : Expr) (n : ℕ) (t : Instant)
    → is_match e t ≡ false
    → search_minutes e n t ≡ search_minutes e (n - 1) (next_minute t)
unfolding search_minutes
search_step e zero t h = refl
search_step e (suc n) t h = let less : suc n - 1 ≡ n = omega arith in rw (h, less) refl

-- The instant one minute later, within its hour.
abbrev minute_on : Instant → Instant
minute_on t = record t { minute = t.minute + 1; at = t.at + 1 }

next_minute-within : (t : Instant) → t.minute < 59 → next_minute t ≡ minute_on t
unfolding next_minute
next_minute-within t h = rw (lt→ltb t.minute 59 h) refl

next_minute-last : (t : Instant) → t.minute ≡ 59 → next_minute t ≡ next_hour t
unfolding next_minute
next_minute-last t h = rw h refl

next_hour-minute_on :
    (t : Instant) → t.minute < 59 → t.hour ≤ 23 → next_hour (minute_on t) ≡ next_hour t
unfolding next_hour next_day next_month
next_hour-minute_on t h u = ground (arith, h, u)

pub skip_hour :
    (e : Expr) (k n : ℕ) (t : Instant)
    → t.minute + k ≡ 59
    → t.hour ≤ 23
    → DeadHour e t
    → search_minutes e n t ≡ search_minutes e (n - (k + 1)) (next_hour t)
skip_hour e zero n t last u dead =
    cc (search_step e n t (dead t.minute t.at), next_minute-last t (omega (arith, last)))
skip_hour e (suc k) n t last u dead =
    let inside : t.minute < 59 = omega (arith, last) in
    let less : n - 1 - (k + 1) ≡ n - (suc k + 1) = omega arith in
    cc (
      search_step e n t (dead t.minute t.at),
      next_minute-within t inside,
      skip_hour e k (n - 1) (minute_on t) (omega (arith, last)) u dead,
      next_hour-minute_on t inside u,
      less,
    )
