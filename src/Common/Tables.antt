-- ===== src/Common/Tables.antt =====
-- A database table as a list of rows in the order of their creation, with the SQL statements that
-- the repositories issue: a lookup by primary key, INSERT, and UPDATE ... WHERE.
use Prim.Native.Nat.{ℕ, ◌<◌}
use mathlib.Core.Path.{◌≡◌, refl, subst}
use mathlib.Core.Logic.{inl, inr}
use mathlib.Core.Bool.{Bool, true, false}
use mathlib.Core.Option.{Option, none, some, some-injective}
use mathlib.Core.List.{List, [], ◌∷◌, ◌++◌}
use native.Mathlib.Omega.{arith}
use software_distribution_pl.Common.Tests.{◌==◌, ==_iff, if◌then◌else◌, Bool-cases, ==_self}
use software_distribution_pl.Common.Lists.{All, count_where}

abbrev pub map_option {ℓ κ} : {A : Type ℓ} {B : Type κ} → (A → B) → Option A → Option B
map_option f none = none
map_option f (some a) = some (f a)

module _ {R : Type 0} (key : R → ℕ) where
  -- SELECT ... WHERE id = k LIMIT 1.
  unfoldable pub find_row : ℕ → List R → Option R
  find_row k [] = none
  find_row k (r ∷ rs) = if key r == k then some r else find_row k rs

module _ {R : Type 0} where
  -- SELECT ... WHERE p LIMIT 1.
  unfoldable pub find_where : (R → Bool) → List R → Option R
  find_where p [] = none
  find_where p (r ∷ rs) = if p r then some r else find_where p rs

  -- UPDATE ... SET f WHERE p.
  unfoldable pub update_where : (R → Bool) → (R → R) → List R → List R
  update_where p f [] = []
  update_where p f (r ∷ rs) = (if p r then f r else r) ∷ update_where p f rs

  pub update_where-All :
      (P : R → Type 0) (p : R → Bool) (f : R → R)
      → ((r : R) → P r → p r ≡ true → P (f r))
      → (rs : List R) → All P rs
      → All P (update_where p f rs)
  unfolding update_where
  update_where-All P p f keep [] h = tt
  update_where-All P p f keep (r ∷ rs) h = (row (p r) refl, update_where-All P p f keep rs h.1)
    where
      row : (b : Bool) → p r ≡ b → P (if b then f r else r)
      row true e = keep r h.0 e
      row false e = h.0

  pub find_where-passes :
      (p : R → Bool) {r : R} (rs : List R) → find_where p rs ≡ some r → p r ≡ true
  unfolding find_where
  find_where-passes p [] e = absurd (cc)
  find_where-passes p {r} (x ∷ rs) e = elim (Bool-cases (p x)) [
    | inl hit ↦ subst (λ y. p y ≡ true) (some-injective x r (rw hit at e)) hit
    | inr miss ↦ find_where-passes p rs (rw miss at e)
  ]

  -- Saving a row that a query found: the query then finds the saved row, if it still passes.
  pub find_where-save :
      (key : R → ℕ) (p : R → Bool) (a b : R) (rs : List R)
      → p b ≡ true
      → find_where p rs ≡ some a
      → find_where p (update_where (λ x. key x == key a) (λ _. b) rs) ≡ some b
  unfolding find_where update_where
  find_where-save key p a b [] h e = absurd (cc)
  find_where-save key p a b (x ∷ rs) h e = elim (Bool-cases (key x == key a)) [
    | inl same ↦ rw (same, h) refl
    | inr differ ↦ elim (Bool-cases (p x)) [
      | inl hit ↦
          let at : x ≡ a = some-injective x a (rw hit at e) in
          absurd (true_false (subst (λ y. (key x == key y) ≡ true) at (==_self (key x))) differ)
      | inr miss ↦ rw (differ, miss) (find_where-save key p a b rs h (rw miss at e))
    ]
  ]
    where
      true_false : {b : Bool} → b ≡ true → b ≡ false → ⊥
      true_false q r = cc

  -- A statement that affects no row changes nothing.
  pub update_where_none :
      (p : R → Bool) (f : R → R) (rs : List R) → count_where p rs ≡ 0 → update_where p f rs ≡ rs
  unfolding update_where
  update_where_none p f [] h = refl
  update_where_none p f (r ∷ rs) h = ground (arith, update_where_none p f rs)

module _ {R : Type 0} (key : R → ℕ) where
  -- An UPDATE that keeps the primary key is seen by a lookup as one application of it.
  pub find_row-update_where :
      (p : R → Bool) (f : R → R)
      → ((r : R) → key (f r) ≡ key r)
      → (k : ℕ) (rs : List R)
      → find_row key k (update_where p f rs)
        ≡ map_option (λ r. if p r then f r else r) (find_row key k rs)
  unfolding find_row update_where
  find_row-update_where p f same k [] = refl
  find_row-update_where p f same k (r ∷ rs) =
      ground (arith, same r, find_row-update_where p f same k rs)

  -- A row behind an INSERT is found if no earlier row has its key.
  pub find_row-insert :
      (r : R) (rs : List R)
      → find_row key (key r) rs ≡ none
      → find_row key (key r) (rs ++ r ∷ []) ≡ some r
  unfolding find_row
  find_row-insert r [] h = ground arith
  find_row-insert r (x ∷ rs) h = ground (arith, find_row-insert r rs)

  -- Keys that a sequence has not yet given out are not found.
  pub find_row_fresh : (k : ℕ) (rs : List R) → All (λ r. key r < k) rs → find_row key k rs ≡ none
  unfolding find_row
  find_row_fresh k [] h = refl
  find_row_fresh k (r ∷ rs) h = ground (arith, find_row_fresh k rs h.1)

  pub find_row-All :
      (P : R → Type 0) (k : ℕ) {r : R} (rs : List R)
      → All P rs
      → find_row key k rs ≡ some r
      → P r × (key r ≡ k)
  unfolding find_row
  find_row-All P k [] h e = absurd (cc)
  find_row-All P k {r} (x ∷ rs) h e = elim (Bool-cases (key x == k)) [
    | inl hit ↦
        let same : x ≡ r = some-injective x r (rw hit at e) in
        subst (λ y. P y × (key y ≡ k)) same (h.0, (==_iff _ _).0 hit)
    | inr miss ↦ find_row-All P k rs h.1 (rw miss at e)
  ]

  -- An INSERT hides no row.
  pub find_row-grow :
      (k : ℕ) (r : R) (rs ys : List R)
      → find_row key k rs ≡ some r
      → find_row key k (rs ++ ys) ≡ some r
  unfolding find_row
  find_row-grow k r [] ys e = absurd (cc)
  find_row-grow k r (x ∷ rs) ys e = ground (arith, find_row-grow k r rs ys)
