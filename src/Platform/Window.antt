-- ===== src/Platform/Window.antt =====
-- internal/platform/window.go: ChangeWindow, Validate, InWindow and parseHHMM.
use software_distribution_pl.Text.{trim_space, ℤ, split, atoi, pos, negsuc}
use software_distribution_pl.Common.{
  ℕ, ◌+◌, ◌*◌, ◌%◌, Bool, true, false, ◌&&◌, ◌||◌, not, Option, none, some, List, [], ◌∷◌,
  if◌then◌else◌, ltb, leb, ◌==◌, length,
}
pub mod Clock
mod Tests

pub record ChangeWindow : Type 0 where
  pub enabled : Bool
  pub start : List ℕ
  pub end : List ℕ
  pub weekdays : List ℤ

-- A number from 0 to a bound.
abbrev pub within : ℕ → Option ℤ → Option ℕ
within bound (some (pos n)) = if leb n bound then some n else none
within bound (some (negsuc n)) = none
within bound none = none

abbrev pub two_digits : List ℕ → Bool
two_digits s = length s == 2

abbrev pub clock_of : List (List ℕ) → Option ℕ
clock_of (h ∷ m ∷ []) =
    if not (two_digits h) || not (two_digits m) then none else elim (within 23 (atoi h)) [
      | none ↦ none
      | some hour ↦ elim (within 59 (atoi m)) [
        | none ↦ none
        | some minute ↦ some (hour * 60 + minute)
      ]
    ]
clock_of _ = none

unfoldable pub parse_hhmm : List ℕ → Option ℕ
unfolding trim_space split atoi
parse_hhmm s = clock_of (split b':' (trim_space s))

abbrev pub is_weekday : ℤ → Bool
is_weekday (pos d) = leb d 6
is_weekday (negsuc d) = false

abbrev pub are_weekdays : List ℤ → Bool
are_weekdays [] = true
are_weekdays (d ∷ ds) = is_weekday d && are_weekdays ds

abbrev pub is_some : Option ℕ → Bool
is_some none = false
is_some (some n) = true

-- Whether Validate returns no error.
unfoldable pub validate : ChangeWindow → Bool
unfolding parse_hhmm
validate w = is_some (parse_hhmm w.start) && (is_some (parse_hhmm w.end) && are_weekdays w.weekdays)

abbrev pub is_day : ℕ → ℤ → Bool
is_day d (pos n) = d == n
is_day d (negsuc n) = false

abbrev pub lists_day : List ℤ → ℕ → Bool
lists_day [] d = false
lists_day (w ∷ ws) d = is_day d w || lists_day ws d

unfoldable pub weekday_allowed : List ℤ → ℕ → Bool
weekday_allowed [] d = true
weekday_allowed (w ∷ ws) d = lists_day (w ∷ ws) d

-- The minutes of a day, and its weekday, from 0 for Sunday.
unfoldable pub in_hours : List ℤ → ℕ → ℕ → ℕ → ℕ → Bool
unfolding weekday_allowed
in_hours days start end minutes weekday =
    if leb start end
    then (if ltb minutes start || leb end minutes then false else weekday_allowed days weekday)
    else if leb start minutes
    then weekday_allowed days weekday
    else if ltb minutes end
    then weekday_allowed days ((weekday + 6) % 7)
    else false

unfoldable pub in_window : ChangeWindow → ℕ → ℕ → ℕ → Bool
unfolding parse_hhmm in_hours
in_window w hour minute weekday = if not w.enabled then true else elim (parse_hhmm w.start) [
  | none ↦ false
  | some start ↦ elim (parse_hhmm w.end) [
    | none ↦ false
    | some end ↦ in_hours w.weekdays start end (hour * 60 + minute) weekday
  ]
]
