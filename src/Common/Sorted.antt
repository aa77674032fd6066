-- ===== src/Common/Sorted.antt =====
-- The rows of a query with an ORDER BY, described without the sort.
use software_distribution_pl.Common.Tests.{ltb, Bool-cases}
use software_distribution_pl.Common.Lists.{
  where_, count_where, All, insert_by, sort_by, count_where-sort_by,
}
use native.Mathlib.Omega.{arith}
use mathlib.Core.List.{List, [], ◌∷◌, ◌++◌}
use mathlib.Core.Bool.{Bool, ◌&&◌, false}
use mathlib.Core.Logic.{inl, inr}
use mathlib.Core.Path.{◌≡◌, refl, ◌∙◌, ap}
use Prim.Native.Nat.{ℕ, ◌≤◌}

pub count_where-where_ {ℓ} :
    {A : Type ℓ} (p q : A → Bool) (xs : List A)
    → count_where p (where_ q xs) ≡ count_where (λ x. q x && p x) xs
count_where-where_ p q [] = refl
count_where-where_ p q (x ∷ xs) = ground (arith, count_where-where_ p q xs)

module _ {A : Type 0} (key : A → ℕ) where
  abbrev pub IsSortedBy : List A → Type 0
  IsSortedBy [] = Unit
  IsSortedBy (x ∷ xs) = All (λ y. key x ≤ key y) xs × IsSortedBy xs

  All-insert_by :
      (P : A → Type 0) (x : A) (ys : List A)
      → P x
      → All P ys
      → All P (insert_by (λ a b. ltb (key a) (key b)) x ys)
  unfolding insert_by
  All-insert_by P x [] p h = (p, tt)
  All-insert_by P x (y ∷ ys) p h = elim (Bool-cases (ltb (key y) (key x))) [
    | inl e ↦ rw e (h.0, All-insert_by P x ys p h.1)
    | inr e ↦ rw e (p, h)
  ]

  All-later : (m n : ℕ) (ys : List A) → m ≤ n → All (λ y. n ≤ key y) ys → All (λ y. m ≤ key y) ys
  All-later m n [] l h = tt
  All-later m n (y ∷ ys) l h = (omega (arith, l, h.0), All-later m n ys l h.1)

  insert_by-IsSortedBy :
      (x : A) (ys : List A)
      → IsSortedBy ys
      → IsSortedBy (insert_by (λ a b. ltb (key a) (key b)) x ys)
  unfolding insert_by
  insert_by-IsSortedBy x [] h = (tt, tt)
  insert_by-IsSortedBy x (y ∷ ys) h = elim (Bool-cases (ltb (key y) (key x))) [
    | inl e ↦ rw e (
      All-insert_by (λ z. key y ≤ key z) x ys (ground (arith, e)) h.0,
      insert_by-IsSortedBy x ys h.1,
    )
    | inr e ↦
        let l : key x ≤ key y = ground (arith, e) in
        rw e ((l, All-later (key x) (key y) ys l h.0), h)
  ]

  sort_by-IsSortedBy : (xs : List A) → IsSortedBy (sort_by (λ a b. ltb (key a) (key b)) xs)
  unfolding sort_by
  sort_by-IsSortedBy [] = tt
  sort_by-IsSortedBy (x ∷ xs) =
      insert_by-IsSortedBy x (sort_by (λ a b. ltb (key a) (key b)) xs) (sort_by-IsSortedBy xs)

  -- The rows of a table that belong, each as often as it stands there, by rising key.
  pub record IsListing (belongs : A → Bool) (table xs : List A) : Type 0 where
    pub rises : IsSortedBy xs
    pub same_rows : (p : A → Bool) → count_where p xs ≡ count_where (λ a. belongs a && p a) table

  pub sort_by-IsListing :
      (belongs : A → Bool) (table : List A)
      → IsListing belongs table (sort_by (λ a b. ltb (key a) (key b)) (where_ belongs table))
  sort_by-IsListing belongs table = record {
    rises = sort_by-IsSortedBy (where_ belongs table);
    same_rows = λ p.
        count_where-sort_by (λ a b. ltb (key a) (key b)) p (where_ belongs table)
        ∙ count_where-where_ p belongs table;
  }

-- A row that comes before no other is the last.
module _ {A : Type 0} (before : A → A → Bool) (y : A) where
  insert_by-last :
      (x : A) (zs : List A)
      → before y x ≡ false
      → insert_by before x (zs ++ y ∷ []) ≡ insert_by before x zs ++ y ∷ []
  unfolding insert_by
  insert_by-last x [] e = rw e refl
  insert_by-last x (z ∷ zs) e = elim (Bool-cases (before z x)) [
    | inl p ↦ rw p (ap (λ rest. z ∷ rest) (insert_by-last x zs e))
    | inr p ↦ rw p refl
  ]

  pub sort_by-last :
      (xs : List A)
      → All (λ x. before y x ≡ false) xs
      → sort_by before (xs ++ y ∷ []) ≡ sort_by before xs ++ y ∷ []
  unfolding sort_by insert_by
  sort_by-last [] h = refl
  sort_by-last (x ∷ xs) h = rw (sort_by-last xs h.1) (insert_by-last x (sort_by before xs) h.0)
