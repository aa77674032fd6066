-- ===== src/AgentOp/Ledger.antt =====
-- internal/target/models/agent_op.go and internal/target/repository/agent_op.go. `outbox` lists the
-- operations that went out over the gateway and `published` the states that the event stream got.
use software_distribution_pl.Common.{
  ℕ, suc, ◌+◌, max, String, Bool, true, false, ◌&&◌, ◌||◌, not, List, [], ◌∷◌, ◌++◌, map,
  if◌then◌else◌, ltb, ◌==◌, where_, sort_by, find_row, update_where, Action, ◌>>=◌, statement,
  query, execute, ok, required,
}

-- `other` stands for any text that is none of the constants.
pub data OpType : Type 0 where
  exec install upgrade : OpType
  other : ℕ → OpType

pub data OpStatus : Type 0 where
  queued pending_approval running succeeded failed : OpStatus
  other : ℕ → OpStatus

abbrev pub status_code : OpStatus → ℕ
status_code queued = 0
status_code pending_approval = 1
status_code running = 2
status_code succeeded = 3
status_code failed = 4
status_code (OpStatus.other n) = 5 + n

-- Equality of the two texts.
infix 50 ◌=ᵒ◌
abbrev pub ◌=ᵒ◌ : OpStatus → OpStatus → Bool
a =ᵒ b = status_code a == status_code b

abbrev pub type_code : OpType → ℕ
type_code exec = 0
type_code install = 1
type_code upgrade = 2
type_code (OpType.other n) = 3 + n

infix 50 ◌=ᵗ◌
abbrev pub ◌=ᵗ◌ : OpType → OpType → Bool
a =ᵗ b = type_code a == type_code b

unfoldable pub is_valid_type : OpType → Bool
is_valid_type exec = true
is_valid_type install = true
is_valid_type upgrade = true
is_valid_type _ = false

unfoldable pub is_valid_transition : OpStatus → OpStatus → Bool
is_valid_transition pending_approval to = (to =ᵒ queued) || (to =ᵒ failed)
is_valid_transition queued to = (to =ᵒ running) || ((to =ᵒ succeeded) || (to =ᵒ failed))
is_valid_transition running to = (to =ᵒ succeeded) || (to =ᵒ failed)
is_valid_transition _ to = false

abbrev pub is_terminal : OpStatus → Bool
is_terminal s = (s =ᵒ succeeded) || (s =ᵒ failed)

-- What a runner may report.
unfoldable pub is_valid_status : OpStatus → Bool
is_valid_status running = true
is_valid_status succeeded = true
is_valid_status failed = true
is_valid_status _ = false

pub record AgentOp : Type 0 where
  pub id : ℕ
  pub target_id : ℕ
  pub op_type : OpType
  pub status : OpStatus
  pub detail : String
  pub message : String
  pub created_at : ℕ
  pub updated_at : ℕ

pub record OpLog : Type 0 where
  pub op_id : ℕ
  pub seq : ℕ
  pub stream : String
  pub chunk : String

pub record Ledger : Type 0 where
  pub ops : List AgentOp
  pub logs : List OpLog
  pub next_id : ℕ
  pub outbox : List AgentOp
  pub published : List AgentOp

abbrev pub op_key : AgentOp → ℕ
op_key o = o.id

abbrev pub inserted : AgentOp → ℕ → ℕ → AgentOp
inserted o k now = record o { id = k; created_at = now; updated_at = now }

-- The row as it was stored.
abbrev pub insert_op : ℕ → AgentOp → Action Ledger AgentOp
insert_op now o = statement λ t. (
  ok (inserted o t.next_id now),
  record t { ops = t.ops ++ inserted o t.next_id now ∷ []; next_id = suc t.next_id },
)

abbrev pub get_op : ℕ → Action Ledger AgentOp
get_op k = query λ t. required (find_row op_key k t.ops)

abbrev pub moves : ℕ → OpStatus → AgentOp → Bool
moves k from o = (o.id == k) && (o.status =ᵒ from)

abbrev pub moved : ℕ → OpStatus → String → AgentOp → AgentOp
moved now to message o = record o { status = to; message = message; updated_at = now }

-- The current status stands in the WHERE clause; the number of rows is not looked at.
abbrev pub update_status : ℕ → ℕ → OpStatus → OpStatus → String → Action Ledger (Unit {0})
update_status now k from to message =
    execute λ t. record t { ops = update_where (moves k from) (moved now to message) t.ops }

abbrev pub max_seq : ℕ → List OpLog → ℕ
max_seq k [] = 0
max_seq k (l ∷ ls) = if l.op_id == k then max l.seq (max_seq k ls) else max_seq k ls

abbrev pub insert_log : OpLog → Action Ledger OpLog
insert_log l = statement λ t. (ok l, record t { logs = t.logs ++ l ∷ [] })

-- SELECT COALESCE(MAX(seq), 0), then the INSERT.
abbrev pub append_log_row : ℕ → String → String → Action Ledger OpLog
append_log_row k stream chunk = do
  top ← query λ t. ok (max_seq k t.logs)
  insert_log (record { op_id = k; seq = top + 1; stream = stream; chunk = chunk })

abbrev pub list_logs : ℕ → Action Ledger (List OpLog)
list_logs k = query λ t. ok (sort_by (λ a b. ltb a.seq b.seq) (where_ (λ l. l.op_id == k) t.logs))

abbrev pub is_listed : ℕ → OpStatus → OpType → AgentOp → Bool
is_listed target status kind o =
    (o.target_id == target) && ((o.status =ᵒ status) && (o.op_type =ᵗ kind))

abbrev pub list_by_target_status_type : ℕ → OpStatus → OpType → Action Ledger (List AgentOp)
list_by_target_status_type target status kind =
    query λ t. ok (where_ (is_listed target status kind) t.ops)

-- The drain list: exec operations only.
abbrev pub list_queued_by_target : ℕ → Action Ledger (List AgentOp)
list_queued_by_target target = list_by_target_status_type target queued exec

abbrev pub list_by_status : OpStatus → Action Ledger (List AgentOp)
list_by_status status = query λ t. ok (where_ (λ o. o.status =ᵒ status) t.ops)

-- DISTINCT target_id.
unfoldable pub distinct : List ℕ → List ℕ
distinct [] = []
distinct (n ∷ ns) = n ∷ where_ (λ m. not (m == n)) (distinct ns)

abbrev pub list_targets_with_running_upgrades : Action Ledger (List ℕ)
list_targets_with_running_upgrades = query λ t. ok (
    distinct (
      map (λ o. o.target_id) (where_ (λ o. (o.status =ᵒ running) && (o.op_type =ᵗ upgrade)) t.ops)))
