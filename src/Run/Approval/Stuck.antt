-- ===== src/Run/Approval/Stuck.antt =====
-- A decision that was recorded but did not reach the runner.
use software_distribution_pl.Common.{
  ℕ, String, Bool, true, false, not, some, ◌≡◌, refl, err, Error, up, already_decided,
  find_where-save, ◌≢◌, arith, eq_iff, ◌=ˢ◌, ==_iff, then_, ◌==◌, update_where, find_where-passes,
}
use software_distribution_pl.Run.Tables.{
  PipelineRun, TaskRun, PipelineApproval, Tables, approval_id,
}
use software_distribution_pl.Run.Approval.{
  Relay, approve, decide, record_decision, is_pending, is_own, is_approval_of, approval_of,
  resolved,
}
use software_distribution_pl.Run.Approval.Gate.{IsChecked}

-- The decision on a row that is no longer pending.
decided_again :
    (relay : Relay) (now pipeline k : ℕ) (task approver : String) (is_approved : Bool) (t : Tables)
    (run : PipelineRun) (tr : TaskRun) (a : PipelineApproval)
    → IsChecked pipeline k task approver t run tr
    → approval_of k tr.id t ≡ some a
    → is_pending a.status ≡ false
    → (approve relay true now pipeline k task is_approved approver (up t)).0 ≡ err already_decided
unfolding approve decide record_decision
decided_again relay now pipeline k task approver is_approved t run tr a (r, p, n, s, y, d) e q =
    rw (r, (==_iff run.pipeline_id pipeline).1 p, s, y, d, unnamed, e, record_decision, q) refl
  where
    unnamed : (approver =ˢ "") ≡ false
    unnamed = ground (arith, n, eq_iff approver "")

-- The tables with the decision.
abbrev recorded : ℕ → String → Bool → PipelineApproval → Tables → Tables
recorded now approver is_approved a t = record t {
  approvals =
      update_where (λ x. x.id == a.id) (λ _. resolved now approver is_approved a) t.approvals;
}

recorded_only :
    (relay : Relay) (now pipeline k : ℕ) (task approver : String) (is_approved : Bool) (t : Tables)
    (run : PipelineRun) (tr : TaskRun) (a : PipelineApproval) (e : Error)
    → IsChecked pipeline k task approver t run tr
    → approval_of k tr.id t ≡ some a
    → is_pending a.status ≡ true
    → is_own a approver ≡ false
    → relay run.target_id run.cr_name task approver (not is_approved) ≡ some e
    → approve relay true now pipeline k task is_approved approver (up t)
      ≡ (err e, up (recorded now approver is_approved a t))
unfolding approve decide record_decision
recorded_only relay now pipeline k task approver is_approved t run tr a e (r, p, n, s, y, d) found q
      own lost =
    rw
      (
        r,
        (==_iff run.pipeline_id pipeline).1 p,
        s,
        y,
        d,
        unnamed,
        found,
        record_decision,
        q,
        own,
        lost,
      )
      refl
  where
    unnamed : (approver =ˢ "") ≡ false
    unnamed = ground (arith, n, eq_iff approver "")

approval_of-recorded :
    (now k task : ℕ) (approver : String) (is_approved : Bool) (t : Tables) (a : PipelineApproval)
    → approval_of k task t ≡ some a
    → approval_of k task (recorded now approver is_approved a t)
      ≡ some (resolved now approver is_approved a)
approval_of-recorded now k task approver is_approved t a e =
    find_where-save approval_id (is_approval_of k task) a (resolved now approver is_approved a)
      t.approvals (find_where-passes (is_approval_of k task) {r = a} t.approvals e) e

is_pending-resolved :
    (now : ℕ) (approver : String) (b : Bool) (a : PipelineApproval)
    → is_pending (resolved now approver b a).status ≡ false
is_pending-resolved now approver true a = refl
is_pending-resolved now approver false a = refl

-- When the statements succeed and the gate passes but the relay to the runner fails, Approve
-- answers the error of the relay, and every later Approve of the task by any named approver is
-- refused as already decided.
pub approve_undelivered :
    (relay later : Relay) (now then_ pipeline k : ℕ) (task approver other : String)
    (is_approved is_other : Bool) (t : Tables) (run : PipelineRun) (tr : TaskRun)
    (a : PipelineApproval) (e : Error)
    → IsChecked pipeline k task approver t run tr
    → approval_of k tr.id t ≡ some a
    → is_pending a.status ≡ true
    → is_own a approver ≡ false
    → relay run.target_id run.cr_name task approver (not is_approved) ≡ some e
    → other ≢ ""
    → let out = approve relay true now pipeline k task is_approved approver (up t) in
      (out.0 ≡ err e)
      × ((approve later true then_ pipeline k task is_other other (up out.1.tables)).0
          ≡ err already_decided)
approve_undelivered relay later now then_ pipeline k task approver other is_approved is_other t run
      tr a e (r, p, n, s, y, d) found q own lost named =
    rw
      (recorded_only relay now pipeline k task approver is_approved t run tr a e (r, p, n, s, y, d)
        found q own lost)
      (
        refl,
        decided_again later then_ pipeline k task other is_other
            (recorded now approver is_approved a t) run tr (resolved now approver is_approved a)
            (r, p, named, s, y, d) (approval_of-recorded now k tr.id approver is_approved t a found)
            (is_pending-resolved now approver is_approved a),
      )
