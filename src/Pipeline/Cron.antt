-- ===== src/Pipeline/Cron.antt =====
-- internal/pipeline/cronexpr/cron.go: Next, NextN and dayMatches, in UTC, where each day has 1440
-- minutes. The parser is the child `Fields`. A bitset is a function, and an instant has its civil
-- fields, its weekday and its number of minutes from a fixed start; seconds are cut off by Truncate.
pub mod Fields
pub mod Search
pub mod Skips
pub mod Fires
mod Tests
use software_distribution_pl.Common.{
  ℕ, zero, suc, ◌+◌, ◌-◌, ◌*◌, ◌%◌, Bool, true, false, ◌&&◌, ◌||◌, not, Option, none, some, List,
  [], ◌∷◌, ltb, ◌==◌, if◌then◌else◌,
}

pub record Expr : Type 0 where
  pub minute : ℕ → Bool
  pub hour : ℕ → Bool
  pub dom : ℕ → Bool
  pub month : ℕ → Bool
  pub dow : ℕ → Bool
  pub has_dom_star : Bool
  pub has_dow_star : Bool

pub record Instant : Type 0 where
  pub year : ℕ
  pub month : ℕ
  pub day : ℕ
  pub hour : ℕ
  pub minute : ℕ
  pub weekday : ℕ
  pub at : ℕ

abbrev pub is_leap : ℕ → Bool
is_leap y = ((y % 4 == 0) && not (y % 100 == 0)) || (y % 400 == 0)

abbrev pub days_in_month : ℕ → ℕ → ℕ
days_in_month y m =
    if m == 2
    then (if is_leap y then 29 else 28)
    else if (m == 4) || ((m == 6) || ((m == 9) || (m == 11)))
    then 30
    else 31

-- The minutes that are left of a day.
abbrev pub rest_of_day : Instant → ℕ
rest_of_day t = 1440 - (t.hour * 60 + t.minute)

-- The first day of the next month: time.Date(year, month, 1, ...).AddDate(0, 1, 0).
unfoldable pub next_month : Instant → Instant
next_month t =
    let days = days_in_month t.year t.month - t.day in
    let turn = t.month == 12 in
    record {
      year = if turn then t.year + 1 else t.year;
      month = if turn then 1 else t.month + 1;
      day = 1;
      hour = 0;
      minute = 0;
      weekday = (t.weekday + days + 1) % 7;
      at = t.at + rest_of_day t + days * 1440;
    }

-- The next midnight: time.Date(year, month, day, ...).AddDate(0, 0, 1).
unfoldable pub next_day : Instant → Instant
unfolding next_month
next_day t =
    if ltb t.day (days_in_month t.year t.month)
    then record t {
      day = t.day + 1;
      hour = 0;
      minute = 0;
      weekday = (t.weekday + 1) % 7;
      at = t.at + rest_of_day t;
    }
    else next_month t

-- t.Truncate(time.Hour).Add(time.Hour).
unfoldable pub next_hour : Instant → Instant
unfolding next_day
next_hour t =
    if ltb t.hour 23
    then record t { hour = t.hour + 1; minute = 0; at = t.at + (60 - t.minute) }
    else next_day t

-- t.Add(time.Minute).
unfoldable pub next_minute : Instant → Instant
unfolding next_hour
next_minute t =
    if ltb t.minute 59 then record t { minute = t.minute + 1; at = t.at + 1 } else next_hour t

abbrev pub day_matches : Expr → Instant → Bool
day_matches e t =
    if e.has_dom_star && e.has_dow_star
    then true
    else if e.has_dom_star
    then e.dow t.weekday
    else if e.has_dow_star
    then e.dom t.day
    else e.dom t.day || e.dow t.weekday

abbrev pub max_scan_days : ℕ
max_scan_days = 2928

-- The loop of Next up to the limit, on fuel: the outer option is none if the fuel ends it, the inner
-- one if the limit does.
unfoldable pub scan : Expr → ℕ → ℕ → Instant → Option (Option Instant)
scan e zero limit t = if ltb t.at limit then none else some none
scan e (suc fuel) limit t =
    let by_month = scan e fuel limit (next_month t) in
    let by_day = scan e fuel limit (next_day t) in
    let by_hour = scan e fuel limit (next_hour t) in
    let by_minute = scan e fuel limit (next_minute t) in
    if not (ltb t.at limit)
    then some none
    else if not (e.month t.month)
    then by_month
    else if not (day_matches e t)
    then by_day
    else if not (e.hour t.hour)
    then by_hour
    else if not (e.minute t.minute)
    then by_minute
    else some (some t)

abbrev pub or_none : Option (Option Instant) → Option Instant
or_none none = none
or_none (some o) = o

-- Each round advances by a minute at least, so the minutes to scan are enough fuel.
unfoldable pub next_fire : Expr → Instant → Option Instant
unfolding scan next_minute
next_fire e after =
    let t = next_minute after in
    or_none (scan e (max_scan_days * 1440) (t.at + max_scan_days * 1440) t)

-- The times that NextN collects, up to n, until a search has no answer.
unfoldable pub next_times : Expr → ℕ → Instant → List Instant
unfolding next_fire
next_times e zero t = []
next_times e (suc n) t = elim (next_fire e t) [ none ↦ [] | some u ↦ u ∷ next_times e n u ]

-- An error of the first search is the error of all.
unfoldable pub next_n : Expr → ℕ → Instant → Option (List Instant)
unfolding next_times
next_n e zero t = some []
next_n e (suc n) t = elim (next_fire e t) [ none ↦ none | some u ↦ some (u ∷ next_times e n u) ]
