-- ===== src/AgentOp/Lifecycle.antt =====
-- The lifecycle of an operation, whatever the calls and whatever statements the store refuses.
use software_distribution_pl.AgentOp.Calls.{run_calls, run_calls-Keeps, Call}
use software_distribution_pl.Common.{
  ℕ, ◌<◌, String, ◌≡◌, ◌⊎◌, true, Option, some, List, arith, find_row, update_where, refl, subst,
  inl, inr, none, ◌==◌, Bool-cases, &&_split, Keeps-pure, Keeps-statement, Keeps-bind, Keeps,
  find_row-update_where, find_row-grow, query, Error, ◌∙◌, World, ap, ok, Keeps-elim, pure,
}
use software_distribution_pl.AgentOp.Ledger.{
  OpStatus, queued, pending_approval, running, is_valid_transition, AgentOp, Ledger, op_key,
  update_status, ◌=ᵒ◌, moves, moved, is_terminal, max_seq,
}
use software_distribution_pl.AgentOp.Service.{
  OpDispatcher, push_out, is_dispatchable, try_dispatch, change,
}

-- How far along its life an operation is.
abbrev pub rank : OpStatus → ℕ
rank pending_approval = 0
rank queued = 1
rank running = 2
rank _ = 3

abbrev pub op_of : ℕ → Ledger → Option AgentOp
op_of i t = find_row op_key i t.ops

transition-rank : (from to : OpStatus) → is_valid_transition from to ≡ true → rank from < rank to
unfolding is_valid_transition
transition-rank from to h = ground arith

same_rank : (a b : OpStatus) → (a =ᵒ b) ≡ true → rank a ≡ rank b
same_rank a b h = ground arith

rank_top : (a b : OpStatus) → is_terminal a ≡ true → rank a < rank b → ⊥
rank_top a b h l = ground arith

-- The row i is still the row `o`, or it is further along.
abbrev pub Forward : ℕ → AgentOp → Ledger → Type 0
Forward i o t = (x : AgentOp) × (op_of i t ≡ some x) × ((x ≡ o) ⊎ (rank o.status < rank x.status))

module _ (i : ℕ) (o : AgentOp) where
  update-Forward :
      (now k : ℕ) (from to : OpStatus) (message : String) (t : Ledger)
      → rank from < rank to
      → Forward i o t
      → Forward i o (record t { ops = update_where (moves k from) (moved now to message) t.ops })
  update-Forward now k from to message t h (x, e, f) =
      let row =
        find_row-update_where op_key (moves k from) (moved now to message) (λ _. refl) i t.ops in
      elim (Bool-cases (moves k from x)) [
        | inr b ↦ (x, ground (arith, row, e, b), f)
        | inl b ↦
            let same : rank x.status ≡ rank from =
              same_rank x.status from (&&_split (x.id == k) (x.status =ᵒ from) b).1 in
            (
              moved now to message x,
              ground (arith, row, e, b),
              inr (further x f (omega (arith, same))),
            )
      ]
    where
      further :
          (x : AgentOp)
          → (x ≡ o) ⊎ (rank o.status < rank x.status)
          → rank x.status < rank to
          → rank o.status < rank to
      further x (inl p) l = subst (λ y. rank y.status < rank to) p l
      further x (inr m) l = omega arith

  update_status-Forward :
      (now k : ℕ) (from to : OpStatus) (message : String)
      → is_valid_transition from to ≡ true
      → Keeps (Forward i o) (update_status now k from to message)
  update_status-Forward now k from to message h =
      Keeps-statement _
        (λ t f. update-Forward now k from to message t (transition-rank from to h) f)

  try_dispatch-Forward : (d : OpDispatcher) (x : AgentOp) → Keeps (Forward i o) (try_dispatch d x)
  unfolding try_dispatch
  try_dispatch-Forward d x =
      Keeps-elim (is_dispatchable x) (change (push_out (d x) x)) (pure tt)
        (record { at = λ w h. pushed (d x) w.tables h }) (Keeps-pure tt)
    where
      pushed : (r : Option Error) (t : Ledger) → Forward i o t → Forward i o (push_out r x t)
      pushed none t h = h
      pushed (some e) t h = h

  run_calls-Forward :
      (d : OpDispatcher) (cs : List (ℕ × Call)) → Keeps (Forward i o) (run_calls d cs)
  run_calls-Forward =
      run_calls-Keeps (Forward i o) update_status-Forward
        (λ now x. Keeps-statement _ (λ t (y, e, f). (y, find_row-grow op_key i y t.ops _ e, f)))
        try_dispatch-Forward (λ x. record { at = λ w h. h })
        (λ k stream chunk.
          Keeps-bind (query (λ t. ok (max_seq k t.logs))) _ (Keeps-statement _ (λ t h. h))
            (λ top. Keeps-statement _ (λ t h. h)))

-- After any calls of the service at any times, with any of their statements refused by the store,
-- an operation that was in the table is still in it, and its row is unchanged or has moved forward
-- in the order pending approval, queued, running, settled.
pub run_calls_forward :
    (d : OpDispatcher) (cs : List (ℕ × Call)) (w : World Ledger) (i : ℕ) (o : AgentOp)
    → op_of i w.tables ≡ some o
    → (x : AgentOp) × (op_of i (run_calls d cs w).1.tables ≡ some x)
      × ((x ≡ o) ⊎ (rank o.status < rank x.status))
run_calls_forward d cs w i o e = Keeps.at (run_calls-Forward i o d cs) w (o, e, inl refl)

-- An operation that has succeeded or failed keeps its row unchanged under any calls of the
-- service, whatever statements the store refuses.
pub run_calls_settled :
    (d : OpDispatcher) (cs : List (ℕ × Call)) (w : World Ledger) (i : ℕ) (o : AgentOp)
    → op_of i w.tables ≡ some o
    → is_terminal o.status ≡ true
    → op_of i (run_calls d cs w).1.tables ≡ some o
run_calls_settled d cs w i o e h = let (x, f, c) = run_calls_forward d cs w i o e in settled x f c
  where
    settled :
        (x : AgentOp)
        → op_of i (run_calls d cs w).1.tables ≡ some x
        → (x ≡ o) ⊎ (rank o.status < rank x.status)
        → op_of i (run_calls d cs w).1.tables ≡ some o
    settled x f (inl p) = f ∙ ap some p
    settled x f (inr m) = absurd (rank_top o.status x.status h m)
