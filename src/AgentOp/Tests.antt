-- ===== src/AgentOp/Tests.antt =====
-- The services of the agent operations on a sample ledger.
use software_distribution_pl.AgentOp.Released.{run_calls-IsReleased, IsReleased, IsApproved}
use software_distribution_pl.AgentOp.Ledger.{
  OpType, OpStatus, AgentOp, Ledger, pending_approval, exec, upgrade, succeeded, queued, running,
  install, failed,
}
use software_distribution_pl.AgentOp.Calls.{
  run_calls, Call, upgrades_to, approves, step, reports, logs,
}
use software_distribution_pl.AgentOp.Lifecycle.{op_of, run_calls_forward, run_calls_settled, rank}
use software_distribution_pl.AgentOp.Service.{
  OpDispatcher, try_dispatch, approve_upgrade, apply_status, reconcile_install, reconcile_upgrade,
  append_log,
}
use software_distribution_pl.Common.{
  ℕ, ◌<◌, ◌≡◌, refl, ◌⊎◌, true, false, none, some, List, [], ◌∷◌, All, find_row, up, no_runner,
  update_where, ◌++◌,
}

abbrev an_op : ℕ → OpType → OpStatus → AgentOp
an_op k kind status = record {
  id = k;
  target_id = 7;
  op_type = kind;
  status = status;
  detail = "v2";
  message = "";
  created_at = 1;
  updated_at = 1;
}

abbrev sample : Ledger
sample = record {
  ops = an_op 1 upgrade pending_approval ∷ an_op 2 exec succeeded ∷ an_op 3 install queued ∷ [];
  logs = [];
  next_id = 4;
  outbox = [];
  published = [];
}

abbrev accepting : OpDispatcher
accepting o = none

abbrev refusing : OpDispatcher
refusing o = some no_runner

abbrev a_day : List (ℕ × Call)
a_day =
    (2, approves 1 "ann")
    ∷ (3, reports 1 running "")
    ∷ (4, reports 2 failed "late")
    ∷ (5, logs 1 "stdout" "a")
    ∷ (6, logs 1 "stdout" "b")
    ∷ (7, reports 3 succeeded "in")
    ∷ (8, upgrades_to 7 "v2")
    ∷ []

-- The upgrade is sent once it is approved, and the install is not sent.
sent_upgrade : (run_calls accepting a_day (up sample)).1.tables.outbox ≡ an_op 1 upgrade queued ∷ []
unfolding run_calls step approve_upgrade try_dispatch apply_status append_log reconcile_install
    reconcile_upgrade find_row update_where
sent_upgrade = refl

run_calls_forward_example :
    (x : AgentOp) × (op_of 1 (run_calls accepting a_day (up sample)).1.tables ≡ some x)
    × ((x ≡ an_op 1 upgrade pending_approval) ⊎ (0 < rank x.status))
unfolding find_row update_where
run_calls_forward_example =
    run_calls_forward accepting a_day (up sample) 1 (an_op 1 upgrade pending_approval) refl

run_calls_settled_example :
    op_of 2
      (run_calls refusing a_day (record { faults = false ∷ true ∷ []; tables = sample })).1.tables
    ≡ some (an_op 2 exec succeeded)
unfolding find_row
run_calls_settled_example =
    run_calls_settled refusing a_day (record { faults = false ∷ true ∷ []; tables = sample }) 2
      (an_op 2 exec succeeded) refl refl

run_calls-IsReleased_example :
    (sent : List AgentOp) × ((run_calls accepting a_day (up sample)).1.tables.outbox ≡ [] ++ sent)
    × All (IsReleased (IsApproved a_day)) sent
run_calls-IsReleased_example = run_calls-IsReleased accepting a_day (up sample)
