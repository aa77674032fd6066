-- ===== src/Platform/Window/Clock.antt =====
-- internal/platform/window.go: what parseHHMM reads, and which times InWindow allows.
use software_distribution_pl.Platform.Window.{
  parse_hhmm, weekday_allowed, in_hours, within, clock_of, in_window, ChangeWindow,
}
use software_distribution_pl.Text.{
  atoi, pos, negsuc, split, is_space, trim_space, ℤ, numeral, trim_left, trim_right,
}
use software_distribution_pl.Common.{
  ℕ, ◌+◌, ◌-◌, ◌*◌, ◌/◌, ◌%◌, ◌≤◌, ◌<◌, ◌≡◌, Bool, ◌&&◌, ◌||◌, Option, none, some, List, [], ◌∷◌,
  arith, if◌then◌else◌, ltb, leb, ◌^◌, refl, true, false, ◌==◌,
}

abbrev pub digit : ℕ → ℕ
digit n = b'0' + n

-- A minute of the day as HH:MM.
abbrev pub hhmm : ℕ → List ℕ
hhmm n = digit (n / 600) ∷ digit (n / 60 % 10) ∷ b':' ∷ digit (n % 60 / 10) ∷ digit (n % 10) ∷ []

digit_space : (d : ℕ) → d ≤ 9 → is_space (digit d) ≡ false
unfolding is_space
digit_space d h = ground (arith, h)

digit_colon : (d : ℕ) → d ≤ 9 → (digit d == b':') ≡ false
digit_colon d h = ground (arith, h)

numeral-pair : (d e : ℕ) → d ≤ 9 → e ≤ 9 → numeral 0 (digit d ∷ digit e ∷ []) ≡ some (d * 10 + e)
unfolding numeral
numeral-pair d e h k = ground (arith, h, k)

atoi-pair : (d e : ℕ) → d ≤ 9 → e ≤ 9 → atoi (digit d ∷ digit e ∷ []) ≡ some (pos (d * 10 + e))
unfolding atoi
atoi-pair d e h k =
    let minus : (digit d == b'-') ≡ false = ground (arith, h) in
    let plus : (digit d == b'+') ≡ false = ground (arith, h) in
    let small : ltb (d * 10 + e) (2 ^ 63) ≡ true = ground (arith, h, k) in
    rw (minus, plus, numeral-pair d e h k, small) refl

clock_text : ℕ → ℕ → ℕ → ℕ → List ℕ
clock_text a b c d = digit a ∷ digit b ∷ b':' ∷ digit c ∷ digit d ∷ []

trim_right-last : (c : ℕ) → is_space c ≡ false → trim_right (c ∷ []) ≡ c ∷ []
unfolding trim_right
trim_right-last c h = rw h refl

trim_right-cons : (c d : ℕ) (s r : List ℕ) → trim_right s ≡ d ∷ r → trim_right (c ∷ s) ≡ c ∷ d ∷ r
unfolding trim_right
trim_right-cons c d s r h = rw h refl

trim_left-word : (c : ℕ) (s : List ℕ) → is_space c ≡ false → trim_left (c ∷ s) ≡ c ∷ s
unfolding trim_left
trim_left-word c s h = rw h refl

trim_space-clock_text :
    (a b c d : ℕ) → a ≤ 9 → d ≤ 9 → trim_space (clock_text a b c d) ≡ clock_text a b c d
unfolding trim_space clock_text
trim_space-clock_text a b c d h m =
    let last = trim_right-last (digit d) (digit_space d m) in
    let minute = trim_right-cons (digit c) (digit d) (digit d ∷ []) [] last in
    let colon = trim_right-cons b':' (digit c) (digit c ∷ digit d ∷ []) (digit d ∷ []) minute in
    let units =
      trim_right-cons (digit b) b':' (b':' ∷ digit c ∷ digit d ∷ []) (digit c ∷ digit d ∷ [])
        colon in
    let all =
      trim_right-cons (digit a) (digit b) (digit b ∷ b':' ∷ digit c ∷ digit d ∷ [])
        (b':' ∷ digit c ∷ digit d ∷ []) units in
    rw all (trim_left-word (digit a) (digit b ∷ b':' ∷ digit c ∷ digit d ∷ []) (digit_space a h))

split-clock_text :
    (a b c d : ℕ)
    → a ≤ 9
    → b ≤ 9
    → c ≤ 9
    → d ≤ 9
    → split b':' (clock_text a b c d) ≡ (digit a ∷ digit b ∷ []) ∷ (digit c ∷ digit d ∷ []) ∷ []
unfolding split clock_text
split-clock_text a b c d h k l m =
    rw (digit_colon a h, digit_colon b k, digit_colon c l, digit_colon d m) refl

parse_hhmm-clock_text :
    (a b c d : ℕ)
    → a ≤ 9
    → b ≤ 9
    → c ≤ 5
    → d ≤ 9
    → a * 10 + b ≤ 23
    → parse_hhmm (clock_text a b c d) ≡ some ((a * 10 + b) * 60 + (c * 10 + d))
unfolding parse_hhmm
parse_hhmm-clock_text a b c d h k l m n =
    let units : c ≤ 9 = omega (arith, l) in
    let hour : leb (a * 10 + b) 23 ≡ true = ground (arith, n) in
    let minute : leb (c * 10 + d) 59 ≡ true = ground (arith, l, m) in
    rw
      (
        trim_space-clock_text a b c d h m,
        split-clock_text a b c d h k units m,
        atoi-pair a b h k,
        hour,
        atoi-pair c d units m,
        minute,
      )
      refl

-- Every minute of a day, written with two digits for the hour and two for the minute, is read back
-- by parseHHMM.
pub parse_hhmm-hhmm : (n : ℕ) → n < 1440 → parse_hhmm (hhmm n) ≡ some n
unfolding clock_text
parse_hhmm-hhmm n h =
    let whole : (n / 600 * 10 + n / 60 % 10) * 60 + (n % 60 / 10 * 10 + n % 10) ≡ n =
      omega (arith, h) in
    cc (
      parse_hhmm-clock_text (n / 600) (n / 60 % 10) (n % 60 / 10) (n % 10) (omega (arith, h))
          (omega (arith, h)) (omega (arith, h)) (omega (arith, h)) (omega (arith, h)),
      whole,
    )

within-le : (b : ℕ) (z : Option ℤ) (n : ℕ) → within b z ≡ some n → n ≤ b
within-le b none n h = ground (arith, h)
within-le b (some (pos k)) n h = ground (arith, h)
within-le b (some (negsuc k)) n h = ground (arith, h)

-- The window that opened a number of days ago contains the time.
abbrev pub opened : List ℤ → ℕ → ℕ → ℕ → ℕ → ℕ → Bool
opened days start end minutes weekday ago =
    let time = minutes + 1440 * ago in
    let close = if ltb end start then end + 1440 else end in
    weekday_allowed days ((weekday + 7 - ago) % 7) && (leb start time && ltb time close)

in_hours-opened :
    (days : List ℤ) (start end minutes weekday : ℕ)
    → start < 1440
    → end < 1440
    → minutes < 1440
    → weekday < 7
    → in_hours days start end minutes weekday
      ≡ (opened days start end minutes weekday 0 || opened days start end minutes weekday 1)
unfolding in_hours
in_hours-opened days start end minutes weekday h k l w = ground (arith, h, k, l, w)

clock_of-lt : (ws : List (List ℕ)) (n : ℕ) → clock_of ws ≡ some n → n < 1440
clock_of-lt [] n h = ground (arith, h)
clock_of-lt (a ∷ []) n h = ground (arith, h)
clock_of-lt (a ∷ b ∷ []) n h = ground (arith, h, within-le 23 (atoi a), within-le 59 (atoi b))
clock_of-lt (a ∷ b ∷ c ∷ ws) n h = ground (arith, h)

parse_hhmm-lt : (s : List ℕ) (n : ℕ) → parse_hhmm s ≡ some n → n < 1440
unfolding parse_hhmm
parse_hhmm-lt s n h = clock_of-lt (split b':' (trim_space s)) n h

-- When the window is enabled and its times parse, a time of a week is in it exactly if the window
-- of an allowed day, that of the same day or of the day before, has opened and not yet closed,
-- where a window that ends before it starts closes on the day after.
pub in_window-opened :
    (w : ChangeWindow) (start end hour minute weekday : ℕ)
    → w.enabled ≡ true
    → parse_hhmm w.start ≡ some start
    → parse_hhmm w.end ≡ some end
    → hour ≤ 23
    → minute ≤ 59
    → weekday < 7
    → in_window w hour minute weekday ≡ (
        opened w.weekdays start end (hour * 60 + minute) weekday 0
        || opened w.weekdays start end (hour * 60 + minute) weekday 1)
unfolding in_window
in_window-opened w start end hour minute weekday on p q h m d =
    rw (on, p, q)
      (in_hours-opened w.weekdays start end (hour * 60 + minute) weekday
        (parse_hhmm-lt w.start start p) (parse_hhmm-lt w.end end q) (omega (arith, h, m)) d)
