-- ===== src/Platform/Window/Tests.antt =====
-- The change window on samples.
use software_distribution_pl.Text.{codes}
use software_distribution_pl.Platform.Window.Clock.{parse_hhmm-hhmm, in_window-opened, hhmm, opened}
use software_distribution_pl.Platform.Window.{parse_hhmm, in_window, ChangeWindow, validate, pos}
use software_distribution_pl.Common.{◌+◌, ◌*◌, ◌≡◌, refl, true, false, ◌||◌, some, [], ◌∷◌, arith}

-- From 22:00 to 06:00, opened on Mondays.
abbrev night : ChangeWindow
night = record {
  enabled = true;
  start = codes "22:00";
  end = codes " 06:00";
  weekdays = pos 1 ∷ [];
}

-- A window from a time to the same time.
abbrev around : ChangeWindow
around = record night { end = codes "22:00" }

night_test :
    (in_window night 1 30 2 ≡ true)
    × (in_window night 1 30 1 ≡ false)
    × (in_window night 23 0 1 ≡ true)
    × (in_window night 6 0 2 ≡ false)
unfolding in_window
night_test = (refl, refl, refl, refl)

around_test : (validate around ≡ true) × (in_window around 22 0 1 ≡ false)
unfolding validate in_window
around_test = (refl, refl)

-- Signs pass for digits.
signs_test : parse_hhmm (codes "+5:-0") ≡ some 300
unfolding parse_hhmm
signs_test = refl

parse_hhmm-hhmm_example : parse_hhmm (hhmm 615) ≡ some 615
parse_hhmm-hhmm_example = parse_hhmm-hhmm 615 (omega arith)

start_test : parse_hhmm night.start ≡ some 1320
unfolding parse_hhmm
start_test = refl

end_test : parse_hhmm night.end ≡ some 360
unfolding parse_hhmm
end_test = refl

in_window-opened_example : in_window night 1 30 2 ≡ (
    opened night.weekdays 1320 360 (1 * 60 + 30) 2 0
    || opened night.weekdays 1320 360 (1 * 60 + 30) 2 1)
in_window-opened_example =
    in_window-opened night 1320 360 1 30 2 refl start_test end_test (omega arith) (omega arith)
      (omega arith)
