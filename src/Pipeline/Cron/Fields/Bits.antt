-- ===== src/Pipeline/Cron/Fields/Bits.antt =====
-- internal/pipeline/cronexpr/cron.go: the values that fill marks for a field.
use software_distribution_pl.Pipeline.Cron.Fields.{mark, done, set_bit}
use software_distribution_pl.Common.{
  ℕ, zero, suc, ◌+◌, ◌-◌, ◌%◌, ◌≤◌, ◌<◌, ◌≡◌, refl, Bool, true, false, ◌&&◌, ◌||◌, arith, leb, ◌==◌,
  sym, inl, inr, ltb, Bool-cases,
}
use native.Mathlib.Nat.{mod-eq_of_lt, mod-eq-sub-mod, zero-mod}

-- The values of a range with a step.
abbrev pub covers : ℕ → ℕ → ℕ → ℕ → Bool
covers lo hi step n = leb lo n && (leb n hi && ((n - lo) % step == 0))

covers-below : (v hi step n : ℕ) → n < v → covers v hi step n ≡ false
covers-below v hi step n h = let early : leb v n ≡ false = ground (arith, h) in rw early refl

covers-between : (v hi step n : ℕ) → v < n → n < v + step → covers v hi step n ≡ false
covers-between v hi step n h k =
    let short : (n - v) % step ≡ n - v = mod-eq_of_lt (omega (arith, h, k)) in
    rw short (ground (arith, h, k))

covers-beyond : (v hi step n : ℕ) → v + step ≤ n → covers v hi step n ≡ covers (v + step) hi step n
covers-beyond v hi step n h =
    let shift : (n - v) % step ≡ (n - v - step) % step = mod-eq-sub-mod (omega (arith, h)) in
    let same : n - v - step ≡ n - (v + step) = omega arith in
    let from : leb v n ≡ true = ground (arith, h) in
    let later : leb (v + step) n ≡ true = ground (arith, h) in rw (from, later, shift, same) refl

covers-at : (v hi step : ℕ) → v ≤ hi → covers v hi step v ≡ true
covers-at v hi step h =
    let none_left : v - v ≡ 0 = omega arith in
    let from : leb v v ≡ true = ground arith in
    let to : leb v hi ≡ true = ground (arith, h) in rw (from, to, none_left, zero-mod step) refl

covers-step :
    (v hi step n : ℕ)
    → 1 ≤ step
    → v ≤ hi
    → covers v hi step n ≡ ((v == n) || covers (v + step) hi step n)
covers-step v hi step n s h = ground (
  arith,
  covers-below v hi step n,
  covers-below (v + step) hi step n,
  covers-between v hi step n,
  covers-beyond v hi step n,
  covers-at v hi step h,
  s,
)

covers-over : (v hi step n : ℕ) → hi < v → covers v hi step n ≡ false
covers-over v hi step n h = ground (arith, h)

pub or_assoc : (a b c : Bool) → ((a || b) || c) ≡ (a || (b || c))
or_assoc true b c = refl
or_assoc false b c = refl

-- The bits that a loop leaves are those before it and the values of its range.
pub mark-covers :
    (fuel v hi step n : ℕ) (bits b : ℕ → Bool)
    → 1 ≤ step
    → suc hi - v ≤ fuel
    → mark fuel v hi step bits ≡ done b
    → b n ≡ (bits n || covers v hi step n)
unfolding mark
mark-covers zero v hi step n bits b s enough h =
    let same : bits ≡ b = cc in
    let over : covers v hi step n ≡ false = covers-over v hi step n (omega (arith, enough)) in
    rw (sym same, over) ground (arith)
mark-covers (suc fuel) v hi step n bits b s enough h = elim (Bool-cases (ltb hi v)) [
  | inl e ↦
      let same : bits ≡ b = ground (arith, h, e) in
      let over : covers v hi step n ≡ false = covers-over v hi step n (ground (arith, e)) in
      rw (sym same, over) ground (arith)
  | inr e ↦
      let inside : v ≤ hi = ground (arith, e) in
      let rest : mark fuel (v + step) hi step (set_bit v bits) ≡ done b = ground (arith, h, e) in
      let marked : b n ≡ (set_bit v bits n || covers (v + step) hi step n) =
        mark-covers fuel (v + step) hi step n (set_bit v bits) b s (omega (arith, enough, s))
          rest in
      rw (marked, covers-step v hi step n s inside)
        (or_assoc (bits n) (v == n) (covers (v + step) hi step n))
]
