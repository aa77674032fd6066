-- ===== src/Pipeline/Cron/Tests.antt =====
-- Cron expressions on samples.
use software_distribution_pl.Pipeline.Cron.Fields.{Outcome, parse, done, refused, panicked}
use software_distribution_pl.Text.{codes}
use software_distribution_pl.Pipeline.Cron.Search.{search_minutes}
use software_distribution_pl.Pipeline.Cron.Fires.{next_fire-eq, scan-eq}
use software_distribution_pl.Pipeline.Cron.{
  next_minute, max_scan_days, next_fire, Expr, Instant, scan,
}
use software_distribution_pl.Common.{◌*◌, ◌≡◌, refl, true, false, some, arith, ◌==◌, ℕ, List}

-- 30 6 * * 1: half past six on Mondays.
abbrev mondays : Expr
mondays = record {
  minute = λ n. n == 30;
  hour = λ n. n == 6;
  dom = λ n. true;
  month = λ n. true;
  dow = λ n. n == 1;
  has_dom_star = true;
  has_dow_star = false;
}

-- Wednesday, 31 December 2025, 23:59.
abbrev new_year : Instant
new_year = record {
  year = 2025;
  month = 12;
  day = 31;
  hour = 23;
  minute = 59;
  weekday = 3;
  at = 100;
}

-- The next Monday is 5 January 2026.
next_fire_test :
    next_fire mondays new_year
    ≡ some
        (record { year = 2026; month = 1; day = 5; hour = 6; minute = 30; weekday = 1; at = 6251 })
unfolding next_fire
next_fire_test = refl

next_fire-eq_example :
    next_fire mondays new_year
    ≡ search_minutes mondays (max_scan_days * 1440) (next_minute new_year)
next_fire-eq_example = next_fire-eq mondays new_year (ground arith)

scan-eq_example : scan mondays 20000 10000 new_year ≡ some (search_minutes mondays 9900 new_year)
scan-eq_example = scan-eq mondays 20000 10000 new_year (ground arith) (omega arith)

-- Text into a schedule.
abbrev workdays : List ℕ
workdays = codes "*/20 9-17/4,20 * 2 1-5"

abbrev or_mondays : Outcome Expr → Expr
or_mondays (done e) = e
or_mondays refused = mondays
or_mondays panicked = mondays

schedule : Expr
schedule = or_mondays (parse workdays)

-- The loop variable of fill wraps around, and the index is negative.
overflow_test : parse (codes "1/9223372036854775807 * * * *") ≡ panicked
unfolding parse
overflow_test = refl

refused_test : parse (codes "5-1 * * * *") ≡ refused
unfolding parse
refused_test = refl
