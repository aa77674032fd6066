-- ===== src/Run/Rollouts/History.antt =====
-- internal/run/repository/rollout_run.go: the step history of a task is what was reported of it.
use software_distribution_pl.Run.Tables.{Step, Tables, RolloutRun}
use software_distribution_pl.Run.Rollouts.{
  rollout_id, step_of, is_rollout_of, with_upsert, upsert_snapshot, RolloutSummary, new_rollout,
  with_snapshot, appended,
}
use software_distribution_pl.Common.{
  ℕ, ◌<◌, ◌≡◌, refl, sym, ◌∙◌, inl, inr, none, some, append_assoc, append-nil, List, [], ◌∷◌, ◌++◌,
  map, if◌then◌else◌, ◌==◌, Bool-cases, where_, All, find_where, IsKeyed, up, suc, subst, true,
  false, Option, arith, ==_iff, All-append, find_row, find_where-passes, find_where-save,
  find_row_fresh, find_row-All, find_where-append, find_where-row, find_where-save_other, All-lt_le,
  All-save, IsKeyed-save, IsKeyed-insert, or_row, ◌/◌,
}

-- A snapshot that a runner reports: the task row, the time and the summary.
pub record RolloutReport : Type 0 where
  pub task : ℕ
  pub at : ℕ
  pub summary : RolloutSummary

-- The tables after some reports, in a store that answers.
unfoldable pub run_reports : List RolloutReport → Tables → Tables
run_reports [] t = t
run_reports (x ∷ xs) t = run_reports xs (upsert_snapshot x.task x.summary x.at (up t)).1.tables

abbrev pub steps_of : Option RolloutRun → List Step
steps_of none = []
steps_of (some r) = r.step_history

abbrev pub history_of : ℕ → Tables → List Step
history_of k t = steps_of (find_where (is_rollout_of k) t.rollouts)

-- The ids of the rows are primary keys that the sequence gave out.
abbrev pub AreRollouts : Tables → Type 0
AreRollouts t = IsKeyed rollout_id t.rollouts × All (λ r. rollout_id r < t.next_id) t.rollouts

abbrev after_snapshot : ℕ → RolloutSummary → ℕ → Tables → Tables
after_snapshot task s now t = with_upsert task s now t (find_where (is_rollout_of task) t.rollouts)

module _ (task : ℕ) (s : RolloutSummary) (now : ℕ) (t : Tables) (u : AreRollouts t) where
  row_of :
      (r : RolloutRun)
      → find_where (is_rollout_of task) t.rollouts ≡ some r
      → find_row rollout_id r.id t.rollouts ≡ some r
  row_of r e = find_where-row rollout_id (is_rollout_of task) r t.rollouts u.0 e

  upsert-AreRollouts :
      (o : Option RolloutRun)
      → find_where (is_rollout_of task) t.rollouts ≡ o
      → AreRollouts (with_upsert task s now t o)
  upsert-AreRollouts none e =
      let y : RolloutRun = record (appended now s (new_rollout task s now)) { id = t.next_id } in
      (
        IsKeyed-insert rollout_id y t.rollouts u.0
            (find_row_fresh rollout_id t.next_id t.rollouts u.1),
        All-append (λ z. rollout_id z < suc t.next_id) t.rollouts (y ∷ [])
            (All-lt_le rollout_id t.next_id (suc t.next_id) t.rollouts (omega arith) u.1)
            (omega arith, tt),
      )
  upsert-AreRollouts (some r) e =
      let y : RolloutRun = appended now s (with_snapshot s now r) in
      let below =
        find_row-All rollout_id (λ z. rollout_id z < t.next_id) r.id {r = r} t.rollouts u.1
          (row_of r e) in
      (
        IsKeyed-save rollout_id y t.rollouts u.0,
        All-save rollout_id (λ z. rollout_id z < t.next_id) (λ z. z.id == r.id) y t.rollouts below.0
            u.1,
      )

  history_of-upsert :
      (k : ℕ) (o : Option RolloutRun)
      → find_where (is_rollout_of task) t.rollouts ≡ o
      → history_of k (with_upsert task s now t o)
        ≡ history_of k t ++ (if task == k then step_of now s ∷ [] else [])
  history_of-upsert k none e =
      let y : RolloutRun = record (appended now s (new_rollout task s now)) { id = t.next_id } in
      elim (Bool-cases (task == k)) [
        | inl same ↦
            let here : find_where (is_rollout_of k) t.rollouts ≡ none =
              subst (λ j. find_where (is_rollout_of j) t.rollouts ≡ none) ((==_iff task k).0 same)
                e in
            rw (find_where-append (is_rollout_of k) y t.rollouts) (rw (here, same) refl)
        | inr apart ↦
            rw (find_where-append (is_rollout_of k) y t.rollouts)
              (rw apart (unchanged (find_where (is_rollout_of k) t.rollouts)))
      ]
    where
      unchanged : (o : Option RolloutRun) → steps_of (or_row o none) ≡ steps_of o ++ []
      unchanged none = refl
      unchanged (some r) = sym (append-nil r.step_history)
  history_of-upsert k (some r) e =
      let y : RolloutRun = appended now s (with_snapshot s now r) in
      let mine : is_rollout_of task r ≡ true =
        find_where-passes (is_rollout_of task) {r = r} t.rollouts e in
      elim (Bool-cases (task == k)) [
        | inl same ↦
            let to : task ≡ k = (==_iff task k).0 same in
            let here : find_where (is_rollout_of k) t.rollouts ≡ some r =
              subst (λ j. find_where (is_rollout_of j) t.rollouts ≡ some r) to e in
            let own : is_rollout_of k y ≡ true = subst (λ j. is_rollout_of j r ≡ true) to mine in
            rw (find_where-save rollout_id (is_rollout_of k) r y t.rollouts own here)
              (rw (here, same) refl)
        | inr apart ↦
            let out : is_rollout_of k r ≡ false = ground (arith, mine, apart) in
            rw
              (find_where-save_other rollout_id (is_rollout_of k) r.id r y t.rollouts u.0
                (row_of r e) out out)
              (rw apart (sym (append-nil (history_of k t))))
      ]

  after_snapshot-AreRollouts : AreRollouts (after_snapshot task s now t)
  after_snapshot-AreRollouts = upsert-AreRollouts (find_where (is_rollout_of task) t.rollouts) refl

  history_of-after_snapshot :
      (k : ℕ)
      → history_of k (after_snapshot task s now t)
        ≡ history_of k t ++ (if task == k then step_of now s ∷ [] else [])
  history_of-after_snapshot k =
      history_of-upsert k (find_where (is_rollout_of task) t.rollouts) refl

-- When the statements succeed, the ids of the rollout rows are unique and below the next id, the
-- step history of a task after any reports of rollouts is its old history followed by one step for
-- each report of that task, in their order, with the second, the phase and the weight of the
-- report.
pub history_of-run_reports :
    (k : ℕ) (xs : List RolloutReport) (t : Tables)
    → AreRollouts t
    → history_of k (run_reports xs t)
      ≡ history_of k t
        ++ map
            (λ x. record {
              at = x.at / 1000000000;
              phase = x.summary.phase;
              weight = x.summary.current_weight;
            })
            (where_ (λ x. x.task == k) xs)
unfolding run_reports upsert_snapshot
history_of-run_reports k [] t u = sym (append-nil (history_of k t))
history_of-run_reports k (x ∷ xs) t u =
    let t' = after_snapshot x.task x.summary x.at t in
    let rest =
      history_of-run_reports k xs t' (after_snapshot-AreRollouts x.task x.summary x.at t u) in
    let first = history_of-after_snapshot x.task x.summary x.at t u k in
    let later =
      map (λ (z : RolloutReport). step_of z.at z.summary)
        (where_ (λ (z : RolloutReport). z.task == k) xs) in
    elim (Bool-cases (x.task == k)) [
      | inl e ↦ rw e (
          rest
          ∙ rw first (rw e (append_assoc (history_of k t) (step_of x.at x.summary ∷ []) later)))
      | inr e ↦ rw e (rest ∙ rw first (rw e (rw (append-nil (history_of k t)) refl)))
    ]
