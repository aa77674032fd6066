-- ===== src/Retention/Newest.antt =====
-- internal/retention/retention.go: the versions of a component that a pass keeps are the newest.
use mathlib.Core.Option.{some-injective}
use software_distribution_pl.Retention.Versions.{artifact_id, is_any-beyond, collect_once-left}
use software_distribution_pl.Run.Status.Untouched.{P}
use software_distribution_pl.Retention.{
  is_any, is_newer, is_of_component, ArtifactVersion, beyond, collect_once, History, RetentionGc,
}
use software_distribution_pl.Common.{
  ℕ, ◌≤◌, ◌≡◌, refl, inl, inr, true, false, some, List, [], ◌∷◌, arith, leb, ◌==◌, Bool-cases,
  count_where, All, insert_by, sort_by, find_row, IsKeyed, sym, ap, ◌∙◌, subst, Bool, none, ==_self,
  find_row-All, ◌<◌, not, Option, keep, find_row-where_, find_row-sort_by, IsKeyed-sort_by, up,
}

abbrev IsSorted : List ArtifactVersion → Type 0
IsSorted [] = Unit
IsSorted (x ∷ xs) = All (λ y. y.created_at ≤ x.created_at) xs × IsSorted xs

All-insert_by :
    (P : ArtifactVersion → Type 0) (x : ArtifactVersion) (ys : List ArtifactVersion)
    → P x
    → All P ys
    → All P (insert_by is_newer x ys)
unfolding insert_by
All-insert_by P x [] p h = (p, tt)
All-insert_by P x (y ∷ ys) p h = elim (Bool-cases (is_newer y x)) [
  | inl e ↦ rw e (h.0, All-insert_by P x ys p h.1)
  | inr e ↦ rw e (p, h)
]

-- Rows at or before one time are at or before a later one.
All-older :
    (s t : ℕ) (ys : List ArtifactVersion)
    → s ≤ t
    → All (λ y. y.created_at ≤ s) ys
    → All (λ y. y.created_at ≤ t) ys
All-older s t [] l h = tt
All-older s t (y ∷ ys) l h = (omega (arith, l, h.0), All-older s t ys l h.1)

insert_by-IsSorted :
    (x : ArtifactVersion) (ys : List ArtifactVersion)
    → IsSorted ys
    → IsSorted (insert_by is_newer x ys)
unfolding insert_by
insert_by-IsSorted x [] h = (tt, tt)
insert_by-IsSorted x (y ∷ ys) h = elim (Bool-cases (is_newer y x)) [
  | inl e ↦ rw e (
    All-insert_by (λ z. z.created_at ≤ y.created_at) x ys (ground (arith, e)) h.0,
    insert_by-IsSorted x ys h.1,
  )
  | inr e ↦
      let l : y.created_at ≤ x.created_at = ground (arith, e) in
      rw e ((l, All-older y.created_at x.created_at ys l h.0), h)
]

sort_by-IsSorted : (xs : List ArtifactVersion) → IsSorted (sort_by is_newer xs)
unfolding sort_by
sort_by-IsSorted [] = tt
sort_by-IsSorted (x ∷ xs) = insert_by-IsSorted x (sort_by is_newer xs) (sort_by-IsSorted xs)

module _ (n : ℕ) (before : List ArtifactVersion) (x : ArtifactVersion)
    (xs : List ArtifactVersion) where
  -- The first row is behind if its component has its rows already.
  is_any-own :
      find_row artifact_id x.id xs ≡ none
      → is_any (beyond n before (x ∷ xs)) x.id
        ≡ leb n (count_where (is_of_component x.component_id) before)
  unfolding beyond
  is_any-own u = elim (Bool-cases (leb n (count_where (is_of_component x.component_id) before))) [
    | inl b ↦ rw (b, ==_self x.id) refl
    | inr b ↦ rw b (is_any-beyond n x.id (x ∷ before) xs u)
  ]

  is_any-later :
      (i : ℕ)
      → (x.id == i) ≡ false
      → is_any (beyond n before (x ∷ xs)) i ≡ is_any (beyond n (x ∷ before) xs) i
  unfolding beyond
  is_any-later i miss =
      elim (Bool-cases (leb n (count_where (is_of_component x.component_id) before))) [
        | inl b ↦ rw (b, miss) refl
        | inr b ↦ rw b refl
      ]

-- Where the component has its rows already, each further one is behind.
all_behind :
    (n : ℕ) (before xs : List ArtifactVersion) (a : ArtifactVersion)
    → IsKeyed artifact_id xs
    → n ≤ count_where (is_of_component a.component_id) before
    → find_row artifact_id a.id xs ≡ some a
    → is_any (beyond n before xs) a.id ≡ true
unfolding find_row
all_behind n before [] a u l e = absurd (cc)
all_behind n before (x ∷ xs) a u l e = elim (Bool-cases (x.id == a.id)) [
  | inl hit ↦
      subst (λ y. is_any (beyond n before (x ∷ xs)) y.id ≡ true) (some-injective x a (rw hit at e))
        (is_any-own n before x xs u.0
          ∙ subst (λ y. leb n (count_where (is_of_component y.component_id) before) ≡ true)
              (sym (some-injective x a (rw hit at e))) (ground (arith, l)))
  | inr miss ↦
      is_any-later n before x xs a.id miss
      ∙ all_behind n (x ∷ before) xs a u.1 (ground (arith, l)) (rw miss at e)
]

-- In a sorted table, of two rows of a component the one that is behind is not the newer one.
newest-beyond :
    (n : ℕ) (before xs : List ArtifactVersion) (a b : ArtifactVersion)
    → IsKeyed artifact_id xs
    → IsSorted xs
    → find_row artifact_id a.id xs ≡ some a
    → find_row artifact_id b.id xs ≡ some b
    → b.component_id ≡ a.component_id
    → is_any (beyond n before xs) a.id ≡ false
    → is_any (beyond n before xs) b.id ≡ true
    → b.created_at ≤ a.created_at
unfolding find_row
newest-beyond n before [] a b u h ea eb c ka kb = absurd (cc)
newest-beyond n before (x ∷ xs) a b u h ea eb c ka kb = elim (Bool-cases (x.id == a.id)) [
  | inl hit ↦
      subst (λ y. b.created_at ≤ y.created_at) (some-injective x a (rw hit at ea))
        (elim (Bool-cases (x.id == b.id)) [
          | inl also ↦
              subst (λ y. y.created_at ≤ x.created_at) (some-injective x b (rw also at eb))
                (omega arith)
          | inr miss ↦
              (find_row-All artifact_id (λ y. y.created_at ≤ x.created_at) b.id {r = b} xs h.0
                (rw miss at eb)).0
        ])
  | inr miss ↦
      let kept : is_any (beyond n (x ∷ before) xs) a.id ≡ false =
        sym (is_any-later n before x xs a.id miss) ∙ ka in
      elim (Bool-cases (x.id == b.id)) [
        | inl hit ↦
            let same : x ≡ b = some-injective x b (rw hit at eb) in
            let own : leb n (count_where (is_of_component x.component_id) before) ≡ true =
              sym (is_any-own n before x xs u.0)
              ∙ subst (λ y. is_any (beyond n before (x ∷ xs)) y.id ≡ true) (sym same) kb in
            let of_a : x.component_id ≡ a.component_id = ap (λ y. y.component_id) same ∙ c in
            let full : leb n (count_where (is_of_component a.component_id) before) ≡ true =
              subst (λ d. leb n (count_where (is_of_component d) before) ≡ true) of_a own in
            absurd (
              true_false (all_behind n (x ∷ before) xs a u.1 (ground (arith, full)) (rw miss at ea))
                kept)
        | inr other ↦
            newest-beyond n (x ∷ before) xs a b u.1 h.1 (rw miss at ea) (rw other at eb) c kept
              (sym (is_any-later n before x xs b.id other) ∙ kb)
      ]
]
  where
    true_false : {b : Bool} → b ≡ true → b ≡ false → ⊥
    true_false q r = cc

-- When the statements succeed, the ids of the artifacts are unique and the threshold of versions
-- is on, an artifact that a pass of the collector removes is no newer than any artifact of its
-- component that the pass leaves.
pub collect_once_newest :
    (g : RetentionGc) (now : ℕ) (h : History) (a b : ArtifactVersion)
    → IsKeyed artifact_id h.artifacts
    → 0 < g.artifact_versions
    → find_row artifact_id b.id h.artifacts ≡ some b
    → find_row artifact_id a.id (collect_once g now (up h)).1.tables.artifacts ≡ some a
    → find_row artifact_id b.id (collect_once g now (up h)).1.tables.artifacts ≡ none
    → b.component_id ≡ a.component_id
    → b.created_at ≤ a.created_at
collect_once_newest g now h a b u on eb stays gone c =
    let sorted = sort_by is_newer h.artifacts in
    let ks = beyond g.artifact_versions [] sorted in
    let row = λ (i : ℕ).
      ap (find_row artifact_id i) (collect_once-left g now h on)
      ∙ find_row-where_ artifact_id (λ x. not (is_any ks x.id)) i h.artifacts u in
    let in_sorted = λ (i : ℕ). find_row-sort_by artifact_id is_newer i h.artifacts u in
    let (ea, ka) =
      kept (is_any ks) (find_row artifact_id a.id h.artifacts) a (sym (row a.id) ∙ stays) in
    newest-beyond g.artifact_versions [] sorted a b
      (IsKeyed-sort_by artifact_id is_newer h.artifacts u) (sort_by-IsSorted h.artifacts)
      (in_sorted a.id ∙ ea) (in_sorted b.id ∙ eb) c ka
      (removed (is_any ks) (find_row artifact_id b.id h.artifacts) b (sym (row b.id) ∙ gone) eb)
  where
    kept :
        (p : ℕ → Bool) (o : Option ArtifactVersion) (x : ArtifactVersion)
        → keep (λ y. not (p y.id)) o ≡ some x
        → (o ≡ some x) × (p x.id ≡ false)
    kept p none x e = absurd (cc)
    kept p (some y) x e = elim (Bool-cases (p y.id)) [
      | inl hit ↦ absurd (none_some x (rw hit at e))
      | inr miss ↦
          let same : y ≡ x = some-injective y x (rw miss at e) in
          (ap some same, subst (λ z. p z.id ≡ false) same miss)
    ]
      where
        none_some : (x : ArtifactVersion) → ◌≡◌ {A = Option ArtifactVersion} none (some x) → ⊥
        none_some x q = cc

    removed :
        (p : ℕ → Bool) (o : Option ArtifactVersion) (x : ArtifactVersion)
        → keep (λ y. not (p y.id)) o ≡ none
        → o ≡ some x
        → p x.id ≡ true
    removed p none x e q = absurd (cc)
    removed p (some y) x e q = elim (Bool-cases (p y.id)) [
      | inl hit ↦ subst (λ z. p z.id ≡ true) (some-injective y x q) hit
      | inr miss ↦ absurd (some_none y (rw miss at e))
    ]
      where
        some_none : (x : ArtifactVersion) → ◌≡◌ {A = Option ArtifactVersion} (some x) none → ⊥
        some_none x q = cc
