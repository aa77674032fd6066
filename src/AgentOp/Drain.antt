-- ===== src/AgentOp/Drain.antt =====
-- What DrainTarget of the agent operations sends when a runner connects.
use software_distribution_pl.AgentOp.Ledger.{is_listed, AgentOp, Ledger, queued, exec}
use software_distribution_pl.AgentOp.Service.{
  OpDispatcher, push_out, try_dispatch, dispatch_all, drain_target,
}
use software_distribution_pl.Common.{
  ℕ, ◌≡◌, Bool, true, false, none, some, List, [], ◌∷◌, ◌++◌, arith, where_, All, up, ok, refl, ap,
  ◌∙◌, inl, inr, Bool-cases, then_, append_assoc, append-nil, Option, if◌then◌else◌, Error,
}

abbrev pub sends : Option Error → Bool
sends none = true
sends (some e) = false

abbrev pub is_accepted : OpDispatcher → AgentOp → Bool
is_accepted d o = sends (d o)

-- The ledger after `sent` went out.
abbrev pub with_sent : List AgentOp → Ledger → Ledger
with_sent sent t = record t { outbox = t.outbox ++ sent }

try_dispatch_listed :
    (d : OpDispatcher) (target : ℕ) (o : AgentOp) (t : Ledger)
    → is_listed target queued exec o ≡ true
    → try_dispatch d o (up t) ≡ (ok tt, up (push_out (d o) o t))
unfolding try_dispatch
try_dispatch_listed d target o t h = ground (arith, h)

-- Pushing one operation and then sending others.
pushed_then :
    (o : AgentOp) (sent : List AgentOp) (t : Ledger) (r : Option Error)
    → with_sent sent (push_out r o t) ≡ with_sent (if sends r then o ∷ sent else sent) t
pushed_then o sent t none = ap (λ l. record t { outbox = l }) (append_assoc t.outbox (o ∷ []) sent)
pushed_then o sent t (some e) = refl

dispatch_all-eq :
    (d : OpDispatcher) (target : ℕ) (os : List AgentOp) (t : Ledger)
    → All (λ o. is_listed target queued exec o ≡ true) os
    → dispatch_all d os (up t) ≡ (ok tt, up (with_sent (where_ (is_accepted d) os) t))
unfolding dispatch_all
dispatch_all-eq d target [] t h = rw (append-nil t.outbox) refl
dispatch_all-eq d target (o ∷ os) t h =
    ap (λ r. then_ r (λ _. dispatch_all d os)) (try_dispatch_listed d target o t h.0)
    ∙ dispatch_all-eq d target os (push_out (d o) o t) h.1
    ∙ ap (λ u. (ok tt, up u)) (pushed_then o (where_ (is_accepted d) os) t (d o))

-- When the statements succeed, DrainTarget succeeds, sends the queued exec operations of the
-- target that the dispatcher accepts, in order, and nothing else, and changes nothing else.
pub drain_target-eq :
    (d : OpDispatcher) (target : ℕ) (t : Ledger)
    → drain_target d target (up t) ≡ (
      ok tt,
      up (with_sent (where_ (is_accepted d) (where_ (is_listed target queued exec) t.ops)) t),
    )
unfolding drain_target
drain_target-eq d target t =
    dispatch_all-eq d target (where_ (is_listed target queued exec) t.ops) t
      (All-listed (is_listed target queued exec) t.ops)
  where
    All-listed : (p : AgentOp → Bool) (os : List AgentOp) → All (λ o. p o ≡ true) (where_ p os)
    All-listed p [] = tt
    All-listed p (o ∷ os) = elim (Bool-cases (p o)) [
      | inl e ↦ rw e (e, All-listed p os)
      | inr e ↦ rw e (All-listed p os)
    ]
