-- ===== src/Common/Keys.antt =====
-- Primary keys: what UPDATE, SELECT ... WHERE and ORDER BY do to a lookup, when no two rows share a
-- key.
use mathlib.Core.Logic.{inl, inr}
use native.Mathlib.Omega.{arith}
use software_distribution_pl.Common.Lists.{where_, take, sort_by, insert_by, count_where}
use mathlib.Core.Option.{none, Option, some}
use mathlib.Core.List.{List, ◌∷◌, [], ◌++◌}
use mathlib.Core.Bool.{Bool, ◌&&◌, true, false}
use Prim.Native.Nat.{ℕ, ◌+◌, zero, suc}
use mathlib.Core.Path.{◌≡◌, refl, ◌∙◌, subst}
use software_distribution_pl.Common.Tests.{◌==◌, if◌then◌else◌, Bool-cases, ==_iff}
use software_distribution_pl.Common.Tables.{
  find_row, update_where, find_row-update_where, map_option,
}

-- The row that was found, if it passes the test.
abbrev pub keep {ℓ} : {A : Type ℓ} → (A → Bool) → Option A → Option A
keep p none = none
keep p (some a) = if p a then some a else none

module _ {R : Type 0} (key : R → ℕ) where
  -- A primary key: no two rows share it.
  abbrev pub IsKeyed : List R → Type 0
  IsKeyed [] = Unit
  IsKeyed (r ∷ rs) = (find_row key (key r) rs ≡ none) × IsKeyed rs

  pub IsKeyed-update_where :
      (p : R → Bool) (f : R → R)
      → ((r : R) → key (f r) ≡ key r)
      → (rs : List R) → IsKeyed rs
      → IsKeyed (update_where p f rs)
  unfolding update_where
  IsKeyed-update_where p f same [] h = tt
  IsKeyed-update_where p f same (r ∷ rs) h = (
    ground (arith, same r, find_row-update_where key p f same (key r) rs),
    IsKeyed-update_where p f same rs h.1,
  )

  -- Whether the row that a lookup found passes a test, as a number of rows.
  abbrev pub hits : (R → Bool) → Option R → ℕ
  hits p none = 0
  hits p (some r) = if p r then 1 else 0

  -- A statement with WHERE id = k AND p affects the row that the lookup finds, if it passes p.
  count_none :
      (p : R → Bool) (k : ℕ) (rs : List R)
      → find_row key k rs ≡ none
      → count_where (λ r. (key r == k) && p r) rs ≡ 0
  unfolding find_row
  count_none p k [] h = refl
  count_none p k (r ∷ rs) h = ground (arith, count_none p k rs)

  pub count_keyed :
      (p : R → Bool) (k : ℕ) (rs : List R)
      → IsKeyed rs
      → count_where (λ r. (key r == k) && p r) rs ≡ hits p (find_row key k rs)
  unfolding find_row
  count_keyed p k [] h = refl
  count_keyed p k (r ∷ rs) h = ground (arith, count_keyed p k rs h.1, count_none p k rs)

  -- A lookup finds a row of that key.
  pub find_row-key : (k : ℕ) {r : R} (rs : List R) → find_row key k rs ≡ some r → key r ≡ k
  unfolding find_row
  find_row-key k [] e = absurd (cc)
  find_row-key k {r} (x ∷ rs) e = ground (arith, find_row-key k {r = r} rs)

  -- A lookup in a filtered table.
  pub find_row-where_ :
      (p : R → Bool) (k : ℕ) (rs : List R)
      → IsKeyed rs
      → find_row key k (where_ p rs) ≡ keep p (find_row key k rs)
  unfolding find_row
  find_row-where_ p k [] h = refl
  find_row-where_ p k (r ∷ rs) h = ground (arith, find_row-where_ p k rs h.1, h.0)

  pub IsKeyed-where_ : (p : R → Bool) (rs : List R) → IsKeyed rs → IsKeyed (where_ p rs)
  IsKeyed-where_ p [] h = h
  IsKeyed-where_ p (r ∷ rs) h = elim (Bool-cases (p r)) [
    | inl e ↦ rw e (rw (find_row-where_ p (key r) rs h.1, h.0) refl, IsKeyed-where_ p rs h.1)
    | inr e ↦ rw e (IsKeyed-where_ p rs h.1)
  ]

  module _ (before : R → R → Bool) where
    find_row-insert_by :
        (k : ℕ) (x : R) (rs : List R)
        → find_row key (key x) rs ≡ none
        → find_row key k (insert_by before x rs) ≡ find_row key k (x ∷ rs)
    unfolding find_row insert_by
    find_row-insert_by k x [] h = refl
    find_row-insert_by k x (y ∷ rs) h = ground (arith, find_row-insert_by k x rs)

    IsKeyed-insert_by :
        (x : R) (rs : List R)
        → find_row key (key x) rs ≡ none
        → IsKeyed rs
        → IsKeyed (insert_by before x rs)
    unfolding find_row insert_by
    IsKeyed-insert_by x [] h u = (refl, tt)
    IsKeyed-insert_by x (y ∷ rs) h u = elim (Bool-cases (before y x)) [
      | inl e ↦
          let rest : find_row key (key x) rs ≡ none = ground arith in
          rw e (
            ground (arith, find_row-insert_by (key y) x rs, rest, u.0),
            IsKeyed-insert_by x rs rest u.1,
          )
      | inr e ↦ rw e (h, u)
    ]

    -- Sorting changes no lookup.
    pub find_row-sort_by :
        (k : ℕ) (rs : List R) → IsKeyed rs → find_row key k (sort_by before rs) ≡ find_row key k rs
    unfolding sort_by find_row
    find_row-sort_by k [] h = refl
    find_row-sort_by k (r ∷ rs) h = ground (
      arith,
      find_row-insert_by k r (sort_by before rs),
      find_row-sort_by (key r) rs h.1,
      find_row-sort_by k rs h.1,
      h.0,
    )

    pub IsKeyed-sort_by : (rs : List R) → IsKeyed rs → IsKeyed (sort_by before rs)
    unfolding sort_by
    IsKeyed-sort_by [] h = h
    IsKeyed-sort_by (r ∷ rs) h =
        IsKeyed-insert_by r (sort_by before rs) (find_row-sort_by (key r) rs h.1 ∙ h.0)
          (IsKeyed-sort_by rs h.1)

  -- A row that is no row of a list is none of its first rows.
  pub find_row-take :
      (k n : ℕ) (rs : List R) → find_row key k rs ≡ none → find_row key k (take n rs) ≡ none
  unfolding take find_row
  find_row-take k n [] h = refl
  find_row-take k zero (r ∷ rs) h = refl
  find_row-take k (suc n) (r ∷ rs) h = ground (arith, find_row-take k n rs)

  absent-update_where :
      (k : ℕ) (f : R → R) (rs : List R)
      → find_row key k rs ≡ none
      → update_where (λ x. key x == k) f rs ≡ rs
  unfolding find_row update_where
  absent-update_where k f [] h = refl
  absent-update_where k f (r ∷ rs) h = ground (arith, absent-update_where k f rs)

  abbrev one_if : Bool → ℕ
  one_if true = 1
  one_if false = 0

  -- A row that is saved anew counts by what it now is.
  pub count_where-save :
      (p : R → Bool) (r r' : R) (rs : List R)
      → IsKeyed rs
      → find_row key (key r) rs ≡ some r
      → count_where p (update_where (λ x. key x == key r) (λ _. r') rs) + one_if (p r)
        ≡ count_where p rs + one_if (p r')
  unfolding find_row update_where
  count_where-save p r r' [] u h = absurd (cc)
  count_where-save p r r' (x ∷ rs) u h = elim (Bool-cases (key x == key r)) [
    | inl e ↦
        let k : key x ≡ key r = (==_iff _ _).0 e in
        let gone : find_row key (key r) rs ≡ none = subst (λ m. find_row key m rs ≡ none) k u.0 in
        ground (arith, absent-update_where (key r) (λ _. r') rs gone, h, e)
    | inr e ↦ ground (arith, count_where-save p r r' rs u.1)
  ]

  update_where_guarded :
      (p : R → Bool) (f : R → R) (rs : List R)
      → update_where p f rs ≡ update_where p (λ x. if p x then f x else x) rs
  unfolding update_where
  update_where_guarded p f [] = refl
  update_where_guarded p f (r ∷ rs) = ground (arith, update_where_guarded p f rs)

  module _ (r' : R) where
    save_key : (x : R) → key (if key x == key r' then r' else x) ≡ key x
    save_key x = ground arith

    -- What a lookup sees of a row that is saved whole.
    pub find_row-save :
        (j : ℕ) (rs : List R)
        → find_row key j (update_where (λ x. key x == key r') (λ _. r') rs)
          ≡ map_option (λ x. if key x == key r' then r' else x) (find_row key j rs)
    find_row-save j rs = rw (update_where_guarded (λ x. key x == key r') (λ _. r') rs) (
        ground (
          arith,
          find_row-update_where key (λ x. key x == key r') (λ x. if key x == key r' then r' else x)
              save_key j rs,
        ))

    pub IsKeyed-save :
        (rs : List R) → IsKeyed rs → IsKeyed (update_where (λ x. key x == key r') (λ _. r') rs)
    IsKeyed-save rs u = rw (update_where_guarded (λ x. key x == key r') (λ _. r') rs) (
        IsKeyed-update_where (λ x. key x == key r') (λ x. if key x == key r' then r' else x)
          save_key rs u)

  find_row-append :
      (k : ℕ) (r : R) (rs : List R)
      → find_row key k rs ≡ none
      → find_row key k (rs ++ r ∷ []) ≡ (if key r == k then some r else none)
  unfolding find_row
  find_row-append k r [] h = refl
  find_row-append k r (x ∷ rs) h = ground (arith, find_row-append k r rs)

  -- A row with a new key.
  pub IsKeyed-insert :
      (r : R) (rs : List R) → IsKeyed rs → find_row key (key r) rs ≡ none → IsKeyed (rs ++ r ∷ [])
  unfolding find_row
  IsKeyed-insert r [] u h = (refl, tt)
  IsKeyed-insert r (x ∷ rs) u h = (
    ground (arith, find_row-append (key x) r rs u.0, h),
    IsKeyed-insert r rs u.1 (ground (arith, h)),
  )
