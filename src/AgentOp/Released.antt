-- ===== src/AgentOp/Released.antt =====
-- internal/target/service/agent_op.go: what goes out to the runners, and the approval of an upgrade.
use software_distribution_pl.AgentOp.Calls.{
  run_calls, run_calls-each, Call, creates, approves, rejects, expires_approvals, reports, connects,
  enrolls, upgrades_to, expires_upgrades, logs, SendingKeeps,
}
use software_distribution_pl.AgentOp.Ledger.{
  AgentOp, Ledger, queued, pending_approval, exec, upgrade, update_status, max_seq, inserted,
  op_key, is_valid_type, ◌=ᵒ◌, is_listed, OpType, OpStatus, ◌=ᵗ◌,
}
use software_distribution_pl.AgentOp.Service.{
  OpDispatcher, push_out, is_dispatchable, try_dispatch, change, create, approve_upgrade,
  drain_target, dispatch_all, first_status, approval_message,
}
use software_distribution_pl.Common.{
  arith, ℕ, String, ◌≡◌, ap, ◌∙◌, ◌⊎◌, Option, none, some, append_assoc, List, [], ◌∷◌, ◌++◌, ◌==◌,
  Keeps-pure, Keeps-fail, Keeps-statement, Keeps-if, Keeps-elim, Keeps-guarded, Keeps-bind,
  Keeps-result, Keeps, All, All-append, pure, Error, bad_request, conflict, refl, sym, subst, ◌≢◌,
  inl, inr, true, ◌||◌, append-nil, Bool-cases, Option-cases, &&_split, where_, find_row,
  find_row-key, required, query, Result, World, ok, err,
}

-- The call is an approval of the operation `k`.
abbrev pub Approves : ℕ → Call → Type 0
Approves k (approves j who) = j ≡ k
Approves k _ = ⊥

-- One of the calls approves the operation `k`.
abbrev pub IsApproved : List (ℕ × Call) → ℕ → Type 0
IsApproved [] k = ⊥
IsApproved ((now, c) ∷ cs) k = Approves k c ⊎ IsApproved cs k

-- What may go out: a queued exec, or a queued upgrade that was approved.
abbrev pub IsReleased : (ℕ → Type 0) → AgentOp → Type 0
IsReleased approved o =
    (o.status ≡ queued) × ((o.op_type ≡ exec) ⊎ ((o.op_type ≡ upgrade) × approved o.id))

-- What was sent after `before`.
abbrev pub Sends : (ℕ → Type 0) → List AgentOp → Ledger → Type 0
Sends approved before t =
    (sent : List AgentOp) × (t.outbox ≡ before ++ sent) × All (IsReleased approved) sent

is_queued : (s : OpStatus) → (s =ᵒ queued) ≡ true → s ≡ queued
is_queued s h = ground arith

exec_or_upgrade : (k : OpType) → ((k =ᵗ exec) || (k =ᵗ upgrade)) ≡ true → (k ≡ exec) ⊎ (k ≡ upgrade)
exec_or_upgrade OpType.exec h = inl refl
exec_or_upgrade OpType.upgrade h = inr refl
exec_or_upgrade OpType.install h = ground arith
exec_or_upgrade (OpType.other n) h = ground arith

first_status-upgrade : (k : OpType) → k ≡ upgrade → first_status k ≢ queued
first_status-upgrade k e h = ground arith

exec_not_upgrade : (k : OpType) → k ≡ exec → k ≢ upgrade
exec_not_upgrade k e h = ground arith

listed_exec :
    (target : ℕ) (os : List AgentOp)
    → All (λ o. o.op_type ≡ exec) (where_ (is_listed target queued exec) os)
listed_exec target [] = tt
listed_exec target (o ∷ os) = elim (Bool-cases (is_listed target queued exec o)) [
  | inl e ↦ rw e (ground (arith, e), listed_exec target os)
  | inr e ↦ rw e (listed_exec target os)
]

-- What holds of a value holds of the value that a statement returned.
abbrev Of : {A : Type 0} → (A → Type 0) → Result A → Type 0
Of Q (ok a) = Q a
Of Q (err e) = Unit

get_op-id :
    (k : ℕ) (x : AgentOp) (t : Ledger) → required (find_row op_key k t.ops) ≡ ok x → x.id ≡ k
get_op-id k x t e = elim (Option-cases (find_row op_key k t.ops)) [
  | inl n ↦ absurd (ground (arith, n, e))
  | inr (y, f) ↦
      let same : ok y ≡ ok x = sym (ap required f) ∙ e in
      subst (Of (λ z. z.id ≡ k)) same (find_row-key op_key k {r = y} t.ops f)
]

module _ (approved : ℕ → Type 0) (before : List AgentOp) where
  pushed :
      (x : AgentOp) (r : Option Error) (t : Ledger)
      → IsReleased approved x
      → Sends approved before t
      → Sends approved before (push_out r x t)
  pushed x (some e) t released s = s
  pushed x none t released (sent, e, all) = (
    sent ++ x ∷ [],
    ap (λ out. out ++ x ∷ []) e ∙ append_assoc before sent (x ∷ []),
    All-append (IsReleased approved) sent (x ∷ []) all (released, tt),
  )

  -- An operation that is sent is released, if an upgrade that is queued was approved.
  sends :
      (d : OpDispatcher) (x : AgentOp)
      → (x.op_type ≡ upgrade → x.status ≡ queued → approved x.id)
      → Keeps (Sends approved before) (try_dispatch d x)
  unfolding try_dispatch
  sends d x known =
      Keeps-guarded (is_dispatchable x) (change (push_out (d x) x)) (pure tt)
        (λ b. record {
          at = λ w s.
              pushed x (d x) w.tables
                (
                  is_queued x.status (&&_split (x.status =ᵒ queued) _ b).0,
                  elim (exec_or_upgrade x.op_type (&&_split (x.status =ᵒ queued) _ b).1) [
                    | inl e ↦ inl e
                    | inr e ↦
                        inr (e, known e (is_queued x.status (&&_split (x.status =ᵒ queued) _ b).0))
                  ],
                )
                s;
        })
        (λ b. Keeps-pure tt)

  create-Sends :
      (d : OpDispatcher) (now : ℕ) (x : AgentOp) → Keeps (Sends approved before) (create d now x)
  unfolding create
  create-Sends d now x =
      Keeps-if (is_valid_type x.op_type) _ _
        (Keeps-if (x.target_id == 0) _ _ (Keeps-fail bad_request) (
          Keeps-result _ (try_dispatch d) (λ t s. s)
            (λ t y s e.
              let z = inserted (record x { status = first_status x.op_type }) t.next_id now in
              subst (Of (λ z. Keeps (Sends approved before) (try_dispatch d z))) e
                (sends d z λ u q. absurd (first_status-upgrade x.op_type u q)))))
        (Keeps-fail bad_request)

  approve_upgrade-Sends :
      (d : OpDispatcher) (now k : ℕ) (who : String)
      → approved k
      → Keeps (Sends approved before) (approve_upgrade d now k who)
  unfolding approve_upgrade
  approve_upgrade-Sends d now k who a =
      Keeps-result _ _ (λ t s. s)
        λ t x s e.
          Keeps-elim (x.status =ᵒ pending_approval) _ _
            (Keeps-bind (update_status now x.id pending_approval queued (approval_message who)) _
              (Keeps-statement _ (λ t s. s))
              (λ _.
                sends d (record x { status = queued })
                  (λ _ _. subst approved (sym (get_op-id k x t e)) a)))
            (Keeps-fail conflict)

  dispatch_all-Sends :
      (d : OpDispatcher) (os : List AgentOp)
      → All (λ o. o.op_type ≡ exec) os
      → Keeps (Sends approved before) (dispatch_all d os)
  unfolding dispatch_all
  dispatch_all-Sends d [] h = Keeps-pure tt
  dispatch_all-Sends d (x ∷ os) h =
      Keeps-bind (try_dispatch d x) _ (sends d x (λ e q. absurd (exec_not_upgrade x.op_type h.0 e)))
        (λ _. dispatch_all-Sends d os h.1)

  drain_target-Sends :
      (d : OpDispatcher) (target : ℕ) → Keeps (Sends approved before) (drain_target d target)
  unfolding drain_target
  drain_target-Sends d target =
      Keeps-result _ (dispatch_all d) (λ t s. s)
        (λ t os s e.
          dispatch_all-Sends d os
            (subst (Of (All (λ o. o.op_type ≡ exec))) e (listed_exec target t.ops)))

-- The calls of a part of the list.
module _ (all : List (ℕ × Call)) (before : List AgentOp) (d : OpDispatcher) where
  sending_Sends :
      (now : ℕ) (c : Call)
      → ((k : ℕ) → Approves k c → IsApproved all k)
      → SendingKeeps (Sends (IsApproved all) before) d now c
  sending_Sends now (creates x) known = create-Sends (IsApproved all) before d now x
  sending_Sends now (approves k who) known =
      approve_upgrade-Sends (IsApproved all) before d now k who (known k refl)
  sending_Sends now (connects target) known = drain_target-Sends (IsApproved all) before d target
  sending_Sends now (rejects k reason who) known = tt
  sending_Sends now (expires_approvals age message) known = tt
  sending_Sends now (reports k to message) known = tt
  sending_Sends now (enrolls target) known = tt
  sending_Sends now (upgrades_to target version) known = tt
  sending_Sends now (expires_upgrades age message) known = tt
  sending_Sends now (logs k stream chunk) known = tt

  sendings_Send :
      (cs : List (ℕ × Call))
      → ((k : ℕ) → IsApproved cs k → IsApproved all k)
      → All (λ c. SendingKeeps (Sends (IsApproved all) before) d c.0 c.1) cs
  sendings_Send [] known = tt
  sendings_Send ((now, c) ∷ cs) known =
      (sending_Sends now c (λ k a. known k (inl a)), sendings_Send cs (λ k a. known k (inr a)))

-- Any calls of the service, under any refusals of the store, only add to what was sent before, and
-- each operation that they add is queued and is an exec, or is an upgrade for whose id an approval
-- is among these calls: no installation is sent, and no upgrade without its approval.
pub run_calls-IsReleased :
    (d : OpDispatcher) (cs : List (ℕ × Call)) (w : World Ledger)
    → (sent : List AgentOp) × ((run_calls d cs w).1.tables.outbox ≡ w.tables.outbox ++ sent)
      × All (IsReleased (IsApproved cs)) sent
run_calls-IsReleased d cs w =
    Keeps.at
      (run_calls-each (Sends (IsApproved cs) w.tables.outbox)
        (λ now k from to message b. Keeps-statement _ (λ t s. s)) (λ x. record { at = λ v s. s })
        (λ k stream chunk.
          Keeps-bind (query (λ t. ok (max_seq k t.logs))) _ (Keeps-statement _ (λ t s. s))
            (λ top. Keeps-statement _ (λ t s. s)))
        d cs (sendings_Send cs w.tables.outbox d cs (λ k a. a)))
      w ([], sym (append-nil w.tables.outbox), tt)
