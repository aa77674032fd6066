-- ===== src/Common/Others.antt =====
-- Statements on one row, seen by a query for other rows.
use mathlib.Core.Logic.{inl, inr}
use native.Mathlib.Omega.{arith}
use mathlib.Core.Option.{none, some, some-injective, Option}
use mathlib.Core.List.{List, ◌∷◌, [], ◌++◌}
use mathlib.Core.Bool.{Bool, true, false}
use Prim.Native.Nat.{ℕ, ◌<◌, ◌≤◌}
use mathlib.Core.Path.{◌≡◌, refl, subst}
use software_distribution_pl.Common.Tests.{◌==◌, ==_self, if◌then◌else◌, Bool-cases}
use software_distribution_pl.Common.Lists.{where_, All}
use software_distribution_pl.Common.Tables.{find_row, find_where, update_where}
use software_distribution_pl.Common.Keys.{IsKeyed}

pub where_-append {ℓ} :
    {A : Type ℓ} (p : A → Bool) (xs : List A) (y : A)
    → p y ≡ false
    → where_ p (xs ++ y ∷ []) ≡ where_ p xs
where_-append p [] y h = rw h refl
where_-append p (x ∷ xs) y h = elim (Bool-cases (p x)) [
  | inl e ↦ rw (e, where_-append p xs y h) refl
  | inr e ↦ rw e (where_-append p xs y h)
]

-- A query after an INSERT.
abbrev pub or_row {ℓ} : {A : Type ℓ} → Option A → Option A → Option A
or_row none o = o
or_row (some r) o = some r

pub find_where-append :
    {R : Type 0} (p : R → Bool) (y : R) (rs : List R)
    → find_where p (rs ++ y ∷ []) ≡ or_row (find_where p rs) (if p y then some y else none)
unfolding find_where
find_where-append p y [] = refl
find_where-append p y (x ∷ rs) = elim (Bool-cases (p x)) [
  | inl e ↦ rw e refl
  | inr e ↦ rw e (find_where-append p y rs)
]

module _ {R : Type 0} (key : R → ℕ) where
  -- A row that a query found is the row of its key.
  pub find_where-row :
      (p : R → Bool) (r : R) (rs : List R)
      → IsKeyed key rs
      → find_where p rs ≡ some r
      → find_row key (key r) rs ≡ some r
  unfolding find_where find_row
  find_where-row p r [] u e = absurd (cc)
  find_where-row p r (x ∷ rs) u e = elim (Bool-cases (p x)) [
    | inl hit ↦
        let same : x ≡ r = some-injective x r (rw hit at e) in
        subst (λ y. (if key x == key y then some x else find_row key (key y) rs) ≡ some y) same
          (rw (==_self (key x)) refl)
    | inr miss ↦
        let rest : find_row key (key r) rs ≡ some r = find_where-row p r rs u.1 (rw miss at e) in
        ground (arith, rest, u.0)
  ]

  save_missing :
      (k : ℕ) (r' : R) (rs : List R)
      → find_row key k rs ≡ none
      → update_where (λ x. key x == k) (λ _. r') rs ≡ rs
  unfolding find_row update_where
  save_missing k r' [] h = refl
  save_missing k r' (x ∷ rs) h = ground (arith, save_missing k r' rs)

  -- A row that is saved is no row of a query that it passes neither before nor after.
  pub where_-save :
      (q : R → Bool) (k : ℕ) (r r' : R) (rs : List R)
      → IsKeyed key rs
      → find_row key k rs ≡ some r
      → q r ≡ false
      → q r' ≡ false
      → where_ q (update_where (λ x. key x == k) (λ _. r') rs) ≡ where_ q rs
  unfolding find_row update_where
  where_-save q k r r' [] u e h h' = refl
  where_-save q k r r' (x ∷ rs) u e h h' = elim (Bool-cases (key x == k)) [
    | inl hit ↦
        let gone : find_row key k rs ≡ none = ground (arith, hit, u.0) in
        let same : x ≡ r = some-injective x r (rw hit at e) in
        let out : q x ≡ false = rw same h in rw (hit, h', out, save_missing k r' rs gone) refl
    | inr miss ↦ rw (miss, where_-save q k r r' rs u.1 (rw miss at e) h h') refl
  ]

  pub find_where-save_other :
      (q : R → Bool) (k : ℕ) (r r' : R) (rs : List R)
      → IsKeyed key rs
      → find_row key k rs ≡ some r
      → q r ≡ false
      → q r' ≡ false
      → find_where q (update_where (λ x. key x == k) (λ _. r') rs) ≡ find_where q rs
  unfolding find_row find_where update_where
  find_where-save_other q k r r' [] u e h h' = refl
  find_where-save_other q k r r' (x ∷ rs) u e h h' = elim (Bool-cases (key x == k)) [
    | inl hit ↦
        let gone : find_row key k rs ≡ none = ground (arith, hit, u.0) in
        let same : x ≡ r = some-injective x r (rw hit at e) in
        let out : q x ≡ false = rw same h in rw (hit, h', out, save_missing k r' rs gone) refl
    | inr miss ↦ rw (miss, find_where-save_other q k r r' rs u.1 (rw miss at e) h h') refl
  ]

  -- A key that grows with the number that bounds the keys.
  pub All-lt_le :
      (n m : ℕ) (rs : List R) → n ≤ m → All (λ r. key r < n) rs → All (λ r. key r < m) rs
  All-lt_le n m [] l h = tt
  All-lt_le n m (r ∷ rs) l h = (omega (arith, l, h.0), All-lt_le n m rs l h.1)

  pub All-save :
      (P : R → Type 0) (p : R → Bool) (r' : R) (rs : List R)
      → P r'
      → All P rs
      → All P (update_where p (λ _. r') rs)
  unfolding update_where
  All-save P p r' [] h u = tt
  All-save P p r' (x ∷ rs) h u = (row (p x), All-save P p r' rs h u.1)
    where
      row : (b : Bool) → P (if b then r' else x)
      row true = h
      row false = u.0
