-- ===== src/Run/Progress/Totals.antt =====
-- The rows of the stages count every task of a run once.
use software_distribution_pl.Common.{
  ℕ, ◌+◌, String, Bool, true, false, not, Option, none, some, List, [], ◌∷◌, ◌++◌, map, ◌≡◌, refl,
  sym, arith, any, length, count_where, where_, ◌=ˢ◌, if◌then◌else◌, eq_iff, inl, inr, Bool-cases,
  subst, ◌∙◌,
}
use software_distribution_pl.Run.Definitions.{Stage}
use software_distribution_pl.Run.Tables.{TaskRun, TaskPhase}
use software_distribution_pl.Run.Progress.{
  StageProgressRow, Tally, no_tally, counted, Counts, count_task, count_tasks, tally_of, stage_row,
  drifted_row, is_seen, stage_rows, done_of, total_of,
}

abbrev pub is_finished : TaskPhase → Bool
is_finished TaskPhase.succeeded = true
is_finished TaskPhase.failed = true
is_finished TaskPhase.skipped = true
is_finished _ = false

abbrev pub sum_of : {A : Type 0} → (A → ℕ) → List A → ℕ
sum_of f [] = 0
sum_of f (x ∷ xs) = f x + sum_of f xs

sum_of-map :
    {A B : Type 0} (f : B → ℕ) (g : A → B) (xs : List A)
    → sum_of f (map g xs) ≡ sum_of (λ x. f (g x)) xs
sum_of-map f g [] = refl
sum_of-map f g (x ∷ xs) = omega (arith, sum_of-map f g xs)

sum_of-append :
    {A : Type 0} (f : A → ℕ) (xs ys : List A) → sum_of f (xs ++ ys) ≡ sum_of f xs + sum_of f ys
sum_of-append f [] ys = omega arith
sum_of-append f (x ∷ xs) ys = omega (arith, sum_of-append f xs ys)

sum_of_cong :
    {A : Type 0} (f g : A → ℕ) (xs : List A) → ((x : A) → f x ≡ g x) → sum_of f xs ≡ sum_of g xs
sum_of_cong f g [] h = refl
sum_of_cong f g (x ∷ xs) h = omega (arith, h x, sum_of_cong f g xs h)

-- Stages with names of their own.
abbrev pub AreNamedApart : List Stage → Type 0
AreNamedApart [] = Unit
AreNamedApart (s ∷ ss) = (any (λ x. x.name =ˢ s.name) ss ≡ false) × AreNamedApart ss

AreCountedApart : Counts → Type 0
AreCountedApart [] = Unit
AreCountedApart (e ∷ es) = (tally_of e.0 es ≡ none) × AreCountedApart es

tally_of-count_task :
    (n : String) (t : TaskRun) (cs : Counts)
    → (t.stage_name =ˢ n) ≡ false
    → tally_of n (count_task t cs) ≡ tally_of n cs
unfolding tally_of count_task
tally_of-count_task n t [] h = ground (arith, h)
tally_of-count_task n t (e ∷ es) h = ground (
  arith,
  h,
  tally_of-count_task n t es h,
  eq_iff e.0 t.stage_name,
  eq_iff e.0 n,
  eq_iff t.stage_name n,
)

count_task-AreCountedApart :
    (t : TaskRun) (cs : Counts) → AreCountedApart cs → AreCountedApart (count_task t cs)
unfolding AreCountedApart count_task tally_of
count_task-AreCountedApart t [] h = (refl, tt)
count_task-AreCountedApart t (e ∷ es) h = ground (
  arith,
  count_task-AreCountedApart t es h.1,
  tally_of-count_task e.0 t es,
  eq_iff e.0 t.stage_name,
  eq_iff t.stage_name e.0,
)

count_tasks-AreCountedApart :
    (ts : List TaskRun) (cs : Counts) → AreCountedApart cs → AreCountedApart (count_tasks ts cs)
unfolding count_tasks
count_tasks-AreCountedApart [] cs h = h
count_tasks-AreCountedApart (t ∷ ts) cs h =
    count_tasks-AreCountedApart ts (count_task t cs) (count_task-AreCountedApart t cs h)

-- A number that each task adds to the tally of its stage.
module _ (f : Tally → ℕ) (weight : TaskPhase → ℕ)
    (add : (p : TaskPhase) (c : Tally) → f (counted p c) ≡ f c + weight p)
    (start : f no_tally ≡ 0) where
  abbrev f_of : Option Tally → ℕ
  f_of none = 0
  f_of (some c) = f c

  sum_of-count_task :
      (t : TaskRun) (cs : Counts)
      → sum_of (λ e. f e.1) (count_task t cs) ≡ sum_of (λ e. f e.1) cs + weight t.phase
  unfolding count_task
  sum_of-count_task t [] = omega (arith, add t.phase no_tally, start)
  sum_of-count_task t (e ∷ es) = ground (arith, sum_of-count_task t es, add t.phase e.1)

  sum_of-count_tasks :
      (ts : List TaskRun) (cs : Counts)
      → sum_of (λ e. f e.1) (count_tasks ts cs)
        ≡ sum_of (λ e. f e.1) cs + sum_of (λ t. weight t.phase) ts
  unfolding count_tasks
  sum_of-count_tasks [] cs = omega arith
  sum_of-count_tasks (t ∷ ts) cs =
      omega (arith, sum_of-count_tasks ts (count_task t cs), sum_of-count_task t cs)

  sum_of-none : (stages : List Stage) → sum_of (λ s. f_of (tally_of s.name [])) stages ≡ 0
  unfolding tally_of
  sum_of-none [] = refl
  sum_of-none (s ∷ ss) = omega (arith, sum_of-none ss)

  -- What the stages see of one more entry.
  sum_of-stages :
      (stages : List Stage) (e : String × Tally) (es : Counts)
      → AreNamedApart stages
      → tally_of e.0 es ≡ none
      → sum_of (λ s. f_of (tally_of s.name (e ∷ es))) stages
        ≡ (if is_seen stages e then f e.1 else 0) + sum_of (λ s. f_of (tally_of s.name es)) stages
  unfolding tally_of
  sum_of-stages [] e es u h = refl
  sum_of-stages (s ∷ ss) e es u h = elim (Bool-cases (s.name =ˢ e.0)) [
    | inl same ↦
        let q : s.name ≡ e.0 = (eq_iff s.name e.0).0 same in
        let back : (e.0 =ˢ s.name) ≡ true = (eq_iff e.0 s.name).1 (sym q) in
        let unseen : is_seen ss e ≡ false = subst (λ n. any (λ x. x.name =ˢ n) ss ≡ false) q u.0 in
        let gone : tally_of s.name es ≡ none = subst (λ n. tally_of n es ≡ none) (sym q) h in
        rw (back, same, gone) (omega (arith, rw unseen at (sum_of-stages ss e es u.1 h)))
    | inr differ ↦
        let back : (e.0 =ˢ s.name) ≡ false =
          ground (arith, differ, eq_iff s.name e.0, eq_iff e.0 s.name) in
        rw (back, differ) (omega (arith, sum_of-stages ss e es u.1 h))
  ]

  -- The rows of the stages and the rows behind them.
  sum_of-rows :
      (stages : List Stage) (cs : Counts)
      → AreNamedApart stages
      → AreCountedApart cs
      → sum_of (λ s. f_of (tally_of s.name cs)) stages
          + sum_of (λ e. f e.1) (where_ (λ e. not (is_seen stages e)) cs)
        ≡ sum_of (λ e. f e.1) cs
  unfolding AreCountedApart
  sum_of-rows stages [] u h = omega (arith, sum_of-none stages)
  sum_of-rows stages (e ∷ es) u h =
      ground (arith, sum_of-stages stages e es u h.0, sum_of-rows stages es u h.1)

  -- A field of the rows that reads the number.
  sum_of-stage_rows :
      (g : StageProgressRow → ℕ) (tasks : List TaskRun) (stages : List Stage)
      → ((cs : Counts) (s : Stage) → g (stage_row cs s) ≡ f_of (tally_of s.name cs))
      → ((e : String × Tally) → g (drifted_row e) ≡ f e.1)
      → AreNamedApart stages
      → sum_of g (stage_rows tasks stages) ≡ sum_of (λ t. weight t.phase) tasks
  unfolding stage_rows AreCountedApart
  sum_of-stage_rows g tasks stages named drifted u =
      let cs = count_tasks tasks [] in
      let late = where_ (λ e. not (is_seen stages e)) cs in
      omega (
        arith,
        sum_of-append g (map (stage_row cs) stages) (map drifted_row late),
        sum_of-map g (stage_row cs) stages,
        sum_of-map g drifted_row late,
        sum_of_cong (λ s. g (stage_row cs s)) (λ s. f_of (tally_of s.name cs)) stages (named cs),
        sum_of_cong (λ e. g (drifted_row e)) (λ e. f e.1) late drifted,
        sum_of-rows stages cs u (count_tasks-AreCountedApart tasks [] tt),
        sum_of-count_tasks tasks [],
      )

sum_of-ones : {A : Type 0} (xs : List A) → sum_of (λ x. 1) xs ≡ length xs
sum_of-ones [] = refl
sum_of-ones (x ∷ xs) = omega (arith, sum_of-ones xs)

abbrev finished_weight : TaskPhase → ℕ
finished_weight p = if is_finished p then 1 else 0

sum_of-finished :
    (ts : List TaskRun)
    → sum_of (λ t. finished_weight t.phase) ts ≡ count_where (λ t. is_finished t.phase) ts
sum_of-finished [] = refl
sum_of-finished (t ∷ ts) = omega (arith, sum_of-finished ts)

counted-total : (p : TaskPhase) (c : Tally) → (counted p c).total ≡ c.total + 1
counted-total p c = ground arith

counted-done : (p : TaskPhase) (c : Tally) → (counted p c).done ≡ c.done + finished_weight p
counted-done p c = ground arith

total_of-f_of : (o : Option Tally) → total_of o ≡ f_of (λ c. c.total) (λ p. 1) counted-total refl o
total_of-f_of none = refl
total_of-f_of (some c) = refl

done_of-f_of :
    (o : Option Tally) → done_of o ≡ f_of (λ c. c.done) finished_weight counted-done refl o
done_of-f_of none = refl
done_of-f_of (some c) = refl

-- When the stages of the pipeline have names of their own, the totals of the rows of StageProgress
-- add up to the number of tasks of the run and their done counts to the number of finished tasks.
pub stage_rows_totals :
    (tasks : List TaskRun) (stages : List Stage)
    → AreNamedApart stages
    → (sum_of (λ r. r.total) (stage_rows tasks stages) ≡ length tasks)
      × (sum_of (λ r. r.done) (stage_rows tasks stages)
          ≡ count_where (λ t. is_finished t.phase) tasks)
stage_rows_totals tasks stages u = (
  sum_of-stage_rows (λ c. c.total) (λ p. 1) counted-total refl (λ r. r.total) tasks stages
        (λ cs s. total_of-f_of (tally_of s.name cs)) (λ e. refl) u
      ∙ sum_of-ones tasks,
  sum_of-stage_rows (λ c. c.done) finished_weight counted-done refl (λ r. r.done) tasks stages
        (λ cs s. done_of-f_of (tally_of s.name cs)) (λ e. refl) u
      ∙ sum_of-finished tasks,
)
