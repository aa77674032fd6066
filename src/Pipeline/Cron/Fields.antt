-- ===== src/Pipeline/Cron/Fields.antt =====
-- internal/pipeline/cronexpr/cron.go: Parse and fill. The panic of an index out of range, after
-- the loop variable has wrapped around its 64 bits, is an outcome of its own.
pub mod Bits
pub mod Covers
use software_distribution_pl.Pipeline.Cron.{Expr}
use software_distribution_pl.Text.{trim_space, fields, split, cut, atoi, ℤ, pos}
use software_distribution_pl.Common.{
  ℕ, zero, suc, ◌+◌, ◌-◌, ◌^◌, Bool, false, ◌||◌, Option, none, some, List, [], ◌∷◌, if◌then◌else◌,
  ltb, leb, ◌==◌,
}

pub data Outcome {ℓ} (A : Type ℓ) : Type ℓ where
  done : A → Outcome A
  refused panicked : Outcome A

infixl 10 ◌>>=◌
abbrev pub ◌>>=◌ {ℓ ℓ'} : {A : Type ℓ} {B : Type ℓ'} → Outcome A → (A → Outcome B) → Outcome B
done x >>= f = f x
refused >>= f = refused
panicked >>= f = panicked

-- A part of a field: from, to and step.
pub record Item : Type 0 where
  pub lo : ℕ
  pub hi : ℕ
  pub step : ℕ

abbrev pub positive_step : Option ℤ → Option ℕ
positive_step (some (pos (suc n))) = some (suc n)
positive_step _ = none

-- The base of a part, and its step.
unfoldable pub base_and_step : List ℕ → Option (List ℕ × ℕ)
unfolding cut atoi
base_and_step part = elim (cut b'/' part) [
  | none ↦ some (part, 1)
  | some (base, text) ↦ elim (positive_step (atoi text)) [ none ↦ none | some n ↦ some (base, n) ]
]

abbrev pub is_star : List ℕ → Bool
is_star (c ∷ []) = c == b'*'
is_star _ = false

-- The range, if it is in the bounds of its field, which start at zero or one.
abbrev pub ranged : ℕ → ℕ → ℕ → Option ℤ → Option ℤ → Option Item
ranged least most step (some (pos lo)) (some (pos hi)) =
    if ltb lo least || (ltb most hi || ltb hi lo)
    then none
    else some (record { lo = lo; hi = hi; step = step })
ranged least most step _ _ = none

unfoldable pub item : ℕ → ℕ → List ℕ → Option Item
unfolding base_and_step cut atoi
item least most [] = none
item least most (c ∷ part) = elim (base_and_step (c ∷ part)) [
  | none ↦ none
  | some (base, step) ↦
      if is_star base
      then ranged least most step (some (pos least)) (some (pos most))
      else elim (cut b'-' base) [
        | some (a, b) ↦ ranged least most step (atoi a) (atoi b)
        | none ↦ ranged least most step (atoi base) (atoi base)
      ]
]

abbrev pub set_bit : ℕ → (ℕ → Bool) → ℕ → Bool
set_bit v bits n = bits n || (v == n)

-- The loop of fill; v grows with each round, so the values from lo to hi are enough fuel.
unfoldable pub mark : ℕ → ℕ → ℕ → ℕ → (ℕ → Bool) → Outcome (ℕ → Bool)
mark zero v hi step bits = done bits
mark (suc fuel) v hi step bits =
    let rest = mark fuel (v + step) hi step (set_bit v bits) in
    if ltb hi v then done bits else if leb (2 ^ 63) (v + step) then panicked else rest

unfoldable pub fill_parts : ℕ → ℕ → List (List ℕ) → (ℕ → Bool) → Outcome (ℕ → Bool)
unfolding item mark
fill_parts least most [] bits = done bits
fill_parts least most (part ∷ parts) bits = elim (item least most part) [
  | none ↦ refused
  | some i ↦ mark (suc (i.hi - i.lo)) i.lo i.hi i.step bits >>= λ marked.
      fill_parts least most parts marked
]

-- The bits of a field, and whether it is a star.
unfoldable pub fill : ℕ → ℕ → List ℕ → Outcome ((ℕ → Bool) × Bool)
unfolding fill_parts split
fill least most field =
    fill_parts least most (split b',' field) (λ n. false) >>= λ bits. done (bits, is_star field)

-- The fields in the order of the text.
abbrev pub expr_of :
    (ℕ → Bool) × Bool
    → (ℕ → Bool) × Bool
    → (ℕ → Bool) × Bool
    → (ℕ → Bool) × Bool
    → (ℕ → Bool) × Bool
    → Expr
expr_of m h d o w = record {
  minute = m.0;
  hour = h.0;
  dom = d.0;
  month = o.0;
  dow = w.0;
  has_dom_star = d.1;
  has_dow_star = w.1;
}

abbrev pub parse_fields : List (List ℕ) → Outcome Expr
parse_fields (minute ∷ hour ∷ dom ∷ month ∷ dow ∷ []) = fill 1 31 dom >>= λ d. fill 0 6 dow >>= λ w.
    fill 0 59 minute >>= λ m.
    fill 0 23 hour >>= λ h. fill 1 12 month >>= λ o. done (expr_of m h d o w)
parse_fields _ = refused

unfoldable pub parse : List ℕ → Outcome Expr
unfolding fill fields trim_space
parse text = parse_fields (fields (trim_space text))
