-- ===== src/Retention/Runs.antt =====
-- internal/retention/retention.go: the runs that a pass of the collector does not touch.
use software_distribution_pl.Retention.{
  is_collected, old_run_id, is_any, delete_tasks, delete_runs, delete_found, collect_runs,
  collect_artifacts, collect_once, OldRun, OldTask, History, RetentionGc, cutoff, without,
}
use software_distribution_pl.Common.{
  ℕ, ◌≡◌, refl, ◌∙◌, inl, inr, false, not, none, some, List, [], ◌∷◌, map, arith, ◌==◌, ==_iff,
  Bool-cases, Keeps-pure, Keeps-statement, Keeps-if, Keeps-regardless, Keeps-attempt_read, Keeps,
  where_, take, find_row, IsKeyed, find_row-key, find_row-where_, IsKeyed-where_, find_row-take,
  World, ok, sym, ap, subst, Holds, execute,
}

abbrev pub tasks_of : ℕ → History → List OldTask
tasks_of i h = where_ (λ x. x.pipeline_run_id == i) h.task_runs

-- The row and the task rows of a run.
pub record IsKept (i : ℕ) (r : OldRun) (xs : List OldTask) (h : History) : Type 0 where
  pub run_keys : IsKeyed old_run_id h.runs
  pub same_run : find_row old_run_id i h.runs ≡ some r
  pub same_tasks : tasks_of i h ≡ xs

is_any-ids :
    (i : ℕ) (rs : List OldRun)
    → find_row old_run_id i rs ≡ none
    → is_any (map old_run_id rs) i ≡ false
unfolding find_row
is_any-ids i [] h = refl
is_any-ids i (r ∷ rs) h = ground (arith, is_any-ids i rs)

where_-without :
    (i : ℕ) (ks : List ℕ) (xs : List OldTask)
    → is_any ks i ≡ false
    → where_ (λ x. x.pipeline_run_id == i) (without (λ x. x.pipeline_run_id) ks xs)
      ≡ where_ (λ x. x.pipeline_run_id == i) xs
where_-without i ks [] h = refl
where_-without i ks (x ∷ xs) h = elim (Bool-cases (x.pipeline_run_id == i)) [
  | inl mine ↦
      let out : is_any ks x.pipeline_run_id ≡ false = rw ((==_iff _ _).0 mine) h in
      rw (out, mine, where_-without i ks xs h) refl
  | inr other ↦ elim (Bool-cases (is_any ks x.pipeline_run_id)) [
    | inl gone ↦ rw (gone, other) (where_-without i ks xs h)
    | inr kept ↦ rw (kept, other) (where_-without i ks xs h)
  ]
]

module _ (i : ℕ) (r : OldRun) (xs : List OldTask) where
  delete_tasks-IsKept :
      (ks : List ℕ) → is_any ks i ≡ false → Keeps (IsKept i r xs) (delete_tasks ks)
  delete_tasks-IsKept ks out = Keeps-statement _ λ t h. record {
    run_keys = h.run_keys;
    same_run = h.same_run;
    same_tasks = where_-without i ks t.task_runs out ∙ h.same_tasks;
  }

  delete_runs-IsKept : (ks : List ℕ) → is_any ks i ≡ false → Keeps (IsKept i r xs) (delete_runs ks)
  delete_runs-IsKept ks out = Keeps-statement _ λ t h.
      let key : old_run_id r ≡ i = find_row-key old_run_id i {r = r} t.runs h.same_run in
      let stays : is_any ks (old_run_id r) ≡ false = rw key out in
      record {
        run_keys = IsKeyed-where_ old_run_id _ t.runs h.run_keys;
        same_run =
            find_row-where_ old_run_id (λ x. not (is_any ks x.id)) i t.runs h.run_keys
            ∙ rw (h.same_run, stays) refl;
        same_tasks = where_-without i ks t.task_runs out ∙ h.same_tasks;
      }

  delete_found-IsKept :
      (ks : List ℕ) → is_any ks i ≡ false → Keeps (IsKept i r xs) (delete_found (ok ks))
  delete_found-IsKept [] out = Keeps-pure tt
  delete_found-IsKept (k ∷ ks) out =
      Keeps-regardless (delete_tasks (k ∷ ks)) _ (delete_tasks-IsKept (k ∷ ks) out) (
        Keeps-regardless (delete_runs (k ∷ ks)) _ (delete_runs-IsKept (k ∷ ks) out) (Keeps-pure tt))

  -- A statement on the other tables.
  others-IsKept :
      (f : History → History)
      → ((h : History) → ((f h).runs ≡ h.runs) × ((f h).task_runs ≡ h.task_runs))
      → Keeps (IsKept i r xs) (execute f)
  others-IsKept f same = Keeps-statement _ λ t h. record {
    run_keys = subst (IsKeyed old_run_id) (sym (same t).0) h.run_keys;
    same_run = ap (find_row old_run_id i) (same t).0 ∙ h.same_run;
    same_tasks = ap (where_ (λ x. x.pipeline_run_id == i)) (same t).1 ∙ h.same_tasks;
  }

  collect_runs-IsKept :
      (t batch : ℕ) → is_collected t r ≡ false → Keeps (IsKept i r xs) (collect_runs t batch)
  unfolding collect_runs
  collect_runs-IsKept t batch young =
      Keeps-attempt_read _ delete_found
        (λ ks w e h. (delete_found-IsKept ks (out ks w.tables e h)).at w h) (λ _. Keeps-pure tt)
    where
      out :
          (ks : List ℕ) (h : History)
          → ok (map old_run_id (take batch (where_ (is_collected t) h.runs))) ≡ ok ks
          → IsKept i r xs h
          → is_any ks i ≡ false
      out ks h e kept =
          let gone : find_row old_run_id i (where_ (is_collected t) h.runs) ≡ none =
            find_row-where_ old_run_id (is_collected t) i h.runs kept.run_keys
            ∙ rw (kept.same_run, young) refl in
          let none_of : is_any (map old_run_id (take batch (where_ (is_collected t) h.runs))) i
              ≡ false =
            is_any-ids i _
              (find_row-take old_run_id i batch (where_ (is_collected t) h.runs) gone) in
          subst (Holds (λ ks. is_any ks i ≡ false)) e none_of

-- Whatever statements the store refuses, when the ids of the runs are unique, a pass of the
-- collector leaves a run that it does not take for terminal, or that is not older than the
-- threshold, and its task rows as they are.
pub collect_once-IsKept :
    (g : RetentionGc) (now i : ℕ) (r : OldRun) (xs : List OldTask) (w : World History)
    → is_collected (cutoff now g.run_log_days) r ≡ false
    → IsKept i r xs w.tables
    → IsKept i r xs (collect_once g now w).1.tables
unfolding collect_once collect_artifacts
collect_once-IsKept g now i r xs w young h =
    (Keeps-regardless _ _
        (Keeps-if (g.audit_log_days == 0) _ _ (Keeps-pure tt)
          (others-IsKept i r xs _ (λ h. (refl, refl))))
        (Keeps-regardless _ _
          (Keeps-if (g.run_log_days == 0) _ _ (Keeps-pure tt)
            (collect_runs-IsKept i r xs (cutoff now g.run_log_days) g.batch young))
          (Keeps-regardless _ _
            (Keeps-if (g.artifact_versions == 0) _ _ (Keeps-pure tt)
              (others-IsKept i r xs _ (λ h. (refl, refl))))
            (Keeps-pure tt)))).at
      w h
