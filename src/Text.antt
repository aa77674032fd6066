-- ===== src/Text.antt =====
-- What the code uses of Go's strings and strconv, on texts as lists of code points.
use software_distribution_pl.Common.{
  ℕ, zero, suc, ◌+◌, ◌-◌, ◌*◌, ◌^◌, String, ◌≡◌, refl, Bool, ◌&&◌, ◌||◌, Option, none, some, List,
  [], ◌∷◌, if◌then◌else◌, ltb, leb, ◌==◌,
}
use Prim.Native.Char.{code}

-- The code points of a text literal.
abbrev pub codes : String → List ℕ
codes String.[] = []
codes (String.◌∷◌ c s) = code c ∷ codes s

-- unicode.IsSpace.
unfoldable pub is_space : ℕ → Bool
is_space c =
    (leb 9 c && leb c 13)
    || ((c == 32)
        || ((c == 133)
            || ((c == 160)
                || ((c == 5760)
                    || ((leb 8192 c && leb c 8202)
                        || ((c == 8232)
                            || ((c == 8233) || ((c == 8239) || ((c == 8287) || (c == 12288))))))))))

unfoldable pub trim_left : List ℕ → List ℕ
unfolding is_space
trim_left [] = []
trim_left (c ∷ s) = let rest = trim_left s in if is_space c then rest else c ∷ s

-- A space is kept if something else follows it.
unfoldable pub trim_right : List ℕ → List ℕ
unfolding is_space
trim_right [] = []
trim_right (c ∷ s) = elim (trim_right s) [
  | [] ↦ if is_space c then [] else c ∷ []
  | d ∷ r ↦ c ∷ d ∷ r
]

unfoldable pub trim_space : List ℕ → List ℕ
unfolding trim_left trim_right
trim_space s = trim_left (trim_right s)

abbrev pub extend : ℕ → List (List ℕ) → List (List ℕ)
extend c [] = (c ∷ []) ∷ []
extend c (w ∷ ws) = (c ∷ w) ∷ ws

-- strings.Split at one character.
unfoldable pub split : ℕ → List ℕ → List (List ℕ)
split sep [] = [] ∷ []
split sep (c ∷ s) = let rest = split sep s in if c == sep then [] ∷ rest else extend c rest

-- strings.Fields; the flag tells that a word is open.
unfoldable pub fields : List ℕ → List (List ℕ)
unfolding is_space
fields [] = []
fields (c ∷ []) = if is_space c then [] else (c ∷ []) ∷ []
fields (c ∷ d ∷ s) =
    let rest = fields (d ∷ s) in
    if is_space c then rest else if is_space d then (c ∷ []) ∷ rest else extend c rest

-- strings.SplitN at the first of a character into two.
unfoldable pub cut : ℕ → List ℕ → Option (List ℕ × List ℕ)
cut sep [] = none
cut sep (c ∷ s) =
    let later : Option (List ℕ × List ℕ) = elim (cut sep s) [
      | none ↦ none
      | some (a, b) ↦ some (c ∷ a, b)
    ] in
    if c == sep then some ([], s) else later

-- A signed number of 64 bits.
pub data ℤ : Type 0 where
  pos negsuc : ℕ → ℤ

abbrev pub is_digit : ℕ → Bool
is_digit c = leb b'0' c && leb c b'9'

-- The number that digits spell behind n.
unfoldable pub numeral : ℕ → List ℕ → Option ℕ
numeral n [] = some n
numeral n (c ∷ s) = let rest = numeral (n * 10 + (c - b'0')) s in if is_digit c then rest else none

abbrev pub positive : Option ℕ → Option ℤ
positive none = none
positive (some n) = if ltb n (2 ^ 63) then some (pos n) else none

abbrev pub negative : Option ℕ → Option ℤ
negative none = none
negative (some zero) = some (pos 0)
negative (some (suc n)) = if ltb n (2 ^ 63) then some (negsuc n) else none

abbrev pub digits : List ℕ → Option ℕ
unfolding numeral
digits [] = none
digits (c ∷ s) = numeral 0 (c ∷ s)

-- strconv.Atoi: a sign is optional, and a number beyond 64 bits is an error.
unfoldable pub atoi : List ℕ → Option ℤ
unfolding numeral
atoi [] = none
atoi (c ∷ s) =
    if c == b'-'
    then negative (digits s)
    else if c == b'+'
    then positive (digits s)
    else positive (digits (c ∷ s))

atoi_signs :
    (atoi (codes "-0") ≡ some (pos 0))
    × (atoi (codes "+5") ≡ some (pos 5))
    × (atoi (codes "-12") ≡ some (negsuc 11))
    × (atoi (codes "+-1") ≡ none)
    × (atoi (codes "-") ≡ none)
unfolding atoi
atoi_signs = (refl, refl, refl, refl, refl)

atoi_range :
    (atoi (codes "9223372036854775807") ≡ some (pos 9223372036854775807))
    × (atoi (codes "9223372036854775808") ≡ none)
unfolding atoi
atoi_range = (refl, refl)

fields_words : fields (codes "  a bc  d ") ≡ codes "a" ∷ codes "bc" ∷ codes "d" ∷ []
unfolding fields
fields_words = refl
