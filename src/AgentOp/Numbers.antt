-- ===== src/AgentOp/Numbers.antt =====
-- How the log lines of an operation are numbered.
use software_distribution_pl.AgentOp.Ledger.{max_seq, append_log_row, AgentOp, OpLog, Ledger}
use software_distribution_pl.AgentOp.Calls.{run_calls, run_calls-Keeps, Call}
use software_distribution_pl.AgentOp.Service.{
  OpDispatcher, push_out, is_dispatchable, try_dispatch, change,
}
use software_distribution_pl.Common.{
  ℕ, suc, ◌+◌, max, String, ◌≡◌, inl, inr, Bool, true, false, ◌&&◌, Option, none, some, List, [],
  ◌∷◌, ◌++◌, arith, if◌then◌else◌, ◌==◌, Bool-cases, Keeps-pure, Keeps-statement, Keeps, Error,
  World, subst, pure, Keeps-elim,
}

-- The lines of the operation `k` carry the numbers from n + 1 on, in the order of the table.
unfoldable pub is_numbered : ℕ → ℕ → List OpLog → Bool
is_numbered k n [] = true
is_numbered k n (l ∷ ls) =
    if l.op_id == k then (l.seq == suc n) && is_numbered k (suc n) ls else is_numbered k n ls

is_numbered-append :
    (k n : ℕ) (ls : List OpLog) (l : OpLog)
    → is_numbered k n ls ≡ true
    → (l.op_id ≡ k → l.seq ≡ suc (max n (max_seq k ls)))
    → is_numbered k n (ls ++ l ∷ []) ≡ true
unfolding is_numbered
is_numbered-append k n [] l h e = ground arith
is_numbered-append k n (x ∷ ls) l h e = elim (Bool-cases (x.op_id == k)) [
  | inr b ↦
      ground
        (arith, b, is_numbered-append k n ls l (ground (arith, h, b)) (λ p. ground (arith, e p, b)))
  | inl b ↦ ground (
    arith,
    b,
    is_numbered-append k (suc n) ls l (ground (arith, h, b)) (λ p. ground (arith, e p, h, b)),
  )
]

abbrev Numbered : ℕ → Ledger → Type 0
Numbered k t = is_numbered k 0 t.logs ≡ true

-- The line that append_log_row adds.
abbrev next_line : ℕ → String → String → List OpLog → OpLog
next_line k stream chunk ls = record {
  op_id = k;
  seq = max_seq k ls + 1;
  stream = stream;
  chunk = chunk;
}

is_numbered-next_line :
    (i k : ℕ) (stream chunk : String) (ls : List OpLog)
    → is_numbered i 0 ls ≡ true
    → is_numbered i 0 (ls ++ next_line k stream chunk ls ∷ []) ≡ true
is_numbered-next_line i k stream chunk ls h =
    is_numbered-append i 0 ls (next_line k stream chunk ls) h
      λ e. subst (λ j. max_seq k ls + 1 ≡ suc (max 0 (max_seq j ls))) e (omega arith)

append_log_row-Numbered :
    (i k : ℕ) (stream chunk : String) → Keeps (Numbered i) (append_log_row k stream chunk)
append_log_row-Numbered i k stream chunk = record { at = λ w h. added w.faults w.tables h }
  where
    added :
        (faults : List Bool) (t : Ledger)
        → Numbered i t
        → Numbered i
            (append_log_row k stream chunk (record { faults = faults; tables = t })).1.tables
    added [] t h = is_numbered-next_line i k stream chunk t.logs h
    added (true ∷ faults) t h = h
    added (false ∷ []) t h = is_numbered-next_line i k stream chunk t.logs h
    added (false ∷ true ∷ faults) t h = h
    added (false ∷ false ∷ faults) t h = is_numbered-next_line i k stream chunk t.logs h

sends-Numbered : (i : ℕ) (d : OpDispatcher) (x : AgentOp) → Keeps (Numbered i) (try_dispatch d x)
unfolding try_dispatch
sends-Numbered i d x =
    Keeps-elim (is_dispatchable x) (change (push_out (d x) x)) (pure tt)
      (record { at = λ w s. pushed (d x) w.tables s }) (Keeps-pure tt)
  where
    pushed : (r : Option Error) (t : Ledger) → Numbered i t → Numbered i (push_out r x t)
    pushed none t s = s
    pushed (some e) t s = s

run_calls-Numbered :
    (i : ℕ) (d : OpDispatcher) (cs : List (ℕ × Call)) → Keeps (Numbered i) (run_calls d cs)
run_calls-Numbered i =
    run_calls-Keeps (Numbered i) (λ now k from to message h. Keeps-statement _ (λ t s. s))
      (λ now x. Keeps-statement _ (λ t s. s)) (sends-Numbered i) (λ x. record { at = λ w s. s })
      (append_log_row-Numbered i)

-- When the log lines of an operation are numbered 1, 2, 3 and so on in the order of the table,
-- they still are after any calls of the service under any refusals of the store.
pub logs-run_calls :
    (d : OpDispatcher) (cs : List (ℕ × Call)) (w : World Ledger) (i : ℕ)
    → is_numbered i 0 w.tables.logs ≡ true
    → is_numbered i 0 (run_calls d cs w).1.tables.logs ≡ true
logs-run_calls d cs w i h = Keeps.at (run_calls-Numbered i d cs) w h
