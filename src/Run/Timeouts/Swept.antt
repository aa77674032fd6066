-- ===== src/Run/Timeouts/Swept.antt =====
-- internal/run/service/run_background.go: what a sweep of the timeouts does to the runs and the jobs.
use software_distribution_pl.Run.Creation.Seeds.{send}
use software_distribution_pl.Run.Rows.{update_run}
use software_distribution_pl.Run.Approval.Gate.{run_of}
use software_distribution_pl.Run.Status.{is_named_by, Sinks, tell}
use software_distribution_pl.Run.Tables.{
  run_id, PipelineRun, Message, Tables, Phase, run_finished, notice, DispatchJob,
}
use software_distribution_pl.Run.Timeouts.{
  announce_timeout, fail_each, timed_out, is_timed_out, sweep_run_timeouts,
}
use software_distribution_pl.Common.{
  ℕ, suc, ◌≡◌, refl, inl, inr, Bool, true, false, ◌&&◌, Option, none, some, List, [], ◌∷◌,
  if◌then◌else◌, ◌==◌, Bool-cases, map_option, find_row, update_where, IsKeyed, find_row-save, up,
  then_, pure, Result, World, ok, err, arith, ◌>>=◌, Option-cases, ap, ◌∙◌, Keeps-pure,
  Keeps-statement, Keeps-if, Keeps-bind, Keeps-attempt, Keeps-outcome, Keeps, where_, find_row-key,
  find_row-where_, IsKeyed-where_, sym, subst,
}

-- A row after the loop over some rows.
abbrev failed_by : ℕ → Option PipelineRun → PipelineRun → PipelineRun
failed_by now none r = r
failed_by now (some x) r = timed_out now x

then_-world : (r : Result ℕ) (w : World Tables) → (then_ (r, w) (λ n. pure (suc n))).1 ≡ w
then_-world (ok n) w = refl
then_-world (err e) w = refl

-- Two messages of which each may be sent leave the runs and meet no refusal.
abbrev told_both : Bool → Message → Bool → Message → Tables → Result (Unit {0}) × World Tables
told_both b m c n t = (tell b m >>= λ _. tell c n) (up t)

told_both_lem :
    (b : Bool) (m : Message) (c : Bool) (n : Message) (t : Tables)
    → (told_both b m c n t ≡ (ok tt, up (told_both b m c n t).1.tables))
      × ((told_both b m c n t).1.tables.runs ≡ t.runs)
told_both_lem true m true n t = (refl, refl)
told_both_lem true m false n t = (refl, refl)
told_both_lem false m true n t = (refl, refl)
told_both_lem false m false n t = (refl, refl)

module _ (s : Sinks) (now : ℕ) where
  -- The tables after the announcement of one run.
  told : PipelineRun → Tables → Tables
  told r t = (announce_timeout s (timed_out now r) (up t)).1.tables

  announce_timeout_lem :
      (r : PipelineRun) (t : Tables)
      → (announce_timeout s (timed_out now r) (up t) ≡ (ok tt, up (told r t)))
        × ((told r t).runs ≡ t.runs)
  unfolding announce_timeout told
  announce_timeout_lem r t =
      told_both_lem s.has_finished_hook (run_finished r.pipeline_id Phase.failed)
        (s.has_notify_sink && is_named_by r) (notice "run_failed" r.triggered_by r.cr_name) t

  saved : PipelineRun → Tables → Tables
  saved r t = record t { runs = update_where (λ x. x.id == r.id) (λ _. timed_out now r) t.runs }

  fail_each-step :
      (r : PipelineRun) (rs : List PipelineRun) (t : Tables)
      → (fail_each s now (r ∷ rs) (up t)).1 ≡ (fail_each s now rs (up (told r (saved r t)))).1
  unfolding fail_each saved
  fail_each-step r rs t = rw ((announce_timeout_lem r (saved r t)).0) (
      then_-world (fail_each s now rs (up (told r (saved r t)))).0
        (fail_each s now rs (up (told r (saved r t)))).1)

  run_of-fail_each :
      (i : ℕ) (rs : List PipelineRun) (t : Tables)
      → IsKeyed run_id rs
      → run_of i (fail_each s now rs (up t)).1.tables
        ≡ map_option (λ r. failed_by now (find_row run_id r.id rs) r) (run_of i t)
  unfolding find_row
  run_of-fail_each i [] t u = elim (Option-cases (run_of i t)) [
    | inl e ↦ unfold fail_each in rw e refl
    | inr (x, e) ↦ unfold fail_each in rw e refl
  ]
  run_of-fail_each i (r ∷ rs) t u =
      let t' = told r (saved r t) in
      let after = run_of-fail_each i rs t' u.1 in
      let row : run_of i t'
          ≡ map_option (λ x. if x.id == r.id then timed_out now r else x) (run_of i t) =
        rw ((announce_timeout_lem r (saved r t)).1)
          (unfold saved in find_row-save run_id (timed_out now r) i t.runs) in
      rw (fail_each-step r rs t, after, row)
        (elim (Option-cases (run_of i t)) [
          | inl e ↦ rw e refl
          | inr (x, e) ↦ rw e (ap some (joined x))
        ])
    where
      joined :
          (x : PipelineRun)
          → failed_by now
              (find_row run_id (if x.id == r.id then timed_out now r else x).id rs)
              (if x.id == r.id then timed_out now r else x)
            ≡ failed_by now (find_row run_id x.id (r ∷ rs)) x
      joined x = elim (Bool-cases (x.id == r.id)) [
        | inl same ↦ ground (arith, same, u.0)
        | inr apart ↦ ground (arith, apart)
      ]

  -- The jobs are no matter of the sweep, whatever the store refuses.
  tell-jobs : (js : List DispatchJob) (b : Bool) (m : Message) → Keeps (λ t. t.jobs ≡ js) (tell b m)
  tell-jobs js b m = Keeps-if b (send m) (pure tt) (record { at = λ w h. h }) (Keeps-pure tt)

  fail_each-jobs :
      (js : List DispatchJob) (rs : List PipelineRun)
      → Keeps (λ t. t.jobs ≡ js) (fail_each s now rs)
  unfolding fail_each announce_timeout
  fail_each-jobs js [] = Keeps-pure 0
  fail_each-jobs js (r ∷ rs) =
      let rest = fail_each-jobs js rs in
      let ended = run_finished r.pipeline_id Phase.failed in
      let told = notice "run_failed" r.triggered_by r.cr_name in
      let noticed = s.has_notify_sink && is_named_by r in
      let marked =
        announce_timeout s (timed_out now r) >>= λ _. fail_each s now rs >>= λ n. pure (suc n) in
      let announced : Keeps (λ t. t.jobs ≡ js) (announce_timeout s (timed_out now r)) =
        Keeps-bind (tell s.has_finished_hook ended) (λ _. tell noticed told)
          (tell-jobs js s.has_finished_hook ended) (λ _. tell-jobs js noticed told) in
      let counted : Keeps (λ t. t.jobs ≡ js) marked =
        Keeps-bind (announce_timeout s (timed_out now r)) _ announced
          λ _. Keeps-bind (fail_each s now rs) _ rest λ n. Keeps-pure (suc n) in
      Keeps-attempt (update_run (timed_out now r))
        (λ a. elim a [ err e ↦ fail_each s now rs | ok _ ↦ marked ]) (Keeps-statement _ (λ t h. h))
        λ a. Keeps-outcome a (λ _. marked) (λ _. fail_each s now rs) (λ _. counted) (λ _. rest)

-- When the statements succeed and the ids of the runs are unique, SweepRunTimeouts fails exactly
-- the runs with a timeout that are in no closed phase and started, or were created, longer ago
-- than it, leaves the row of every other run as it is, and leaves every dispatch job as it is.
pub run_of-sweep_run_timeouts :
    (s : Sinks) (now i : ℕ) (t : Tables)
    → IsKeyed run_id t.runs
    → (run_of i (sweep_run_timeouts s now (up t)).1.tables
        ≡ map_option (λ r. if is_timed_out now r then timed_out now r else r) (run_of i t))
      × ((sweep_run_timeouts s now (up t)).1.tables.jobs ≡ t.jobs)
unfolding sweep_run_timeouts
run_of-sweep_run_timeouts s now i t u =
    let rs = where_ (is_timed_out now) t.runs in
    (
      run_of-fail_each s now i rs t (IsKeyed-where_ run_id (is_timed_out now) t.runs u) ∙ found,
      (fail_each-jobs s now t.jobs rs).at (up t) refl,
    )
  where
    found :
        map_option
          (λ r. failed_by now (find_row run_id r.id (where_ (is_timed_out now) t.runs)) r)
          (run_of i t)
        ≡ map_option (λ r. if is_timed_out now r then timed_out now r else r) (run_of i t)
    found = elim (Option-cases (run_of i t)) [
      | inl e ↦ rw e refl
      | inr (r, e) ↦
          let own : run_of r.id t ≡ some r =
            subst (λ k. run_of k t ≡ some r) (sym (find_row-key run_id i {r = r} t.runs e)) e in
          let kept = find_row-where_ run_id (is_timed_out now) r.id t.runs u in
          elim (Bool-cases (is_timed_out now r)) [
            | inl late ↦ rw e (rw (kept, own, late) refl)
            | inr soon ↦ rw e (rw (kept, own, soon) refl)
          ]
    ]
