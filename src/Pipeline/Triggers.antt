-- ===== src/Pipeline/Triggers.antt =====
-- internal/pipeline/models/trigger.go, and the validation and the edits of triggers of
-- internal/pipeline/service/trigger.go. What fires them is the child `Scheduler`. A time is the
-- minute that it falls in: fire times are whole minutes. The start of a run is a parameter, and
-- `fired` records the starts that it accepts. A panic is the error `crashed`.
pub mod Scheduler
pub mod Firing
pub mod Overdue
mod Tests
use software_distribution_pl.Pipeline.Cron.Fields.{panicked, Outcome, done, parse, refused}
use software_distribution_pl.Pipeline.Cron.{next_fire, next_n, Expr, Instant}
use software_distribution_pl.Common.{
  ℕ, ◌+◌, String, Bool, true, false, ◌&&◌, ◌||◌, not, Option, none, some, List, [], ◌∷◌, ◌++◌,
  if◌then◌else◌, ◌>>=◌, ltb, ◌==◌, ◌=ˢ◌, where_, find_row, update_where, required, with_ok, Action,
  regardless, attempt, pure, fail, lift, statement, query, execute, Result, bad_request, crashed,
  ok, err,
}

pub data TriggerType : Type 0 where
  cron webhook event : TriggerType
  unknown : String → TriggerType

pub record EventSpec : Type 0 where
  pub on_pipeline_id : ℕ
  pub statuses : List String

-- No bytes, or bytes with what they decode to as a cron body and as an event body, if they do.
pub data Spec : Type 0 where
  no_bytes : Spec
  bytes : Option (List ℕ) → Option EventSpec → Spec

pub record PipelineTrigger : Type 0 where
  pub id : ℕ
  pub pipeline_id : ℕ
  pub name : String
  pub trigger_type : TriggerType
  pub enabled : Bool
  pub spec : Spec
  pub token : String
  pub last_triggered_at : Option Instant
  pub created_by : String
  pub created_at : Instant

-- A start that was accepted: the pipeline, and the source with the name of the trigger.
pub record Fired : Type 0 where
  pub pipeline : ℕ
  pub source : String
  pub trigger : String

pub record Triggers : Type 0 where
  pub rows : List PipelineTrigger
  pub fired : List Fired
  pub next_id : ℕ

abbrev pub trigger_id : PipelineTrigger → ℕ
trigger_id r = r.id

abbrev pub Starter : Type 0
Starter = Triggers → Fired → Result (Unit {0})

abbrev pub Calls : Type 0 → Type 0
Calls A = Action Triggers A

abbrev pub default_statuses : List String → List String
default_statuses [] = "Succeeded" ∷ []
default_statuses (s ∷ ss) = s ∷ ss

abbrev pub decode_event_spec : Spec → EventSpec
decode_event_spec (bytes c (some e)) = record e { statuses = default_statuses e.statuses }
decode_event_spec _ = record { on_pipeline_id = 0; statuses = default_statuses [] }

unfoldable pub cron_expr_of : Spec → Outcome Expr
unfolding parse
cron_expr_of no_bytes = refused
cron_expr_of (bytes none e) = refused
cron_expr_of (bytes (some []) e) = refused
cron_expr_of (bytes (some (c ∷ s)) e) = parse (c ∷ s)

abbrev pub accepted : Outcome Expr → Result (Unit {0})
accepted (done e) = ok tt
accepted refused = err bad_request
accepted panicked = err crashed

unfoldable pub validate : TriggerType → Spec → Result (Unit {0})
unfolding cron_expr_of
validate cron s = accepted (cron_expr_of s)
validate webhook s = ok tt
validate event (bytes c (some e)) = if e.on_pipeline_id == 0 then err bad_request else ok tt
validate event _ = err bad_request
validate (unknown t) s = err bad_request

abbrev pub get_trigger : ℕ → Calls PipelineTrigger
get_trigger k = query λ t. required (find_row trigger_id k t.rows)

abbrev pub save_trigger : PipelineTrigger → Calls (Unit {0})
save_trigger r =
    execute λ t. record t { rows = update_where (λ x. trigger_id x == r.id) (λ _. r) t.rows }

abbrev pub default_spec : Spec → Spec
default_spec no_bytes = bytes (some []) (some (record { on_pipeline_id = 0; statuses = [] }))
default_spec (bytes c e) = bytes c e

-- An INSERT gives a column with a default that value in place of a zero value, as false is.
abbrev pub with_defaults : PipelineTrigger → PipelineTrigger
with_defaults r = record r { enabled = true; spec = default_spec r.spec }

abbrev pub insert_trigger : PipelineTrigger → Calls PipelineTrigger
insert_trigger r = statement λ t.
    let row = record (with_defaults r) { id = t.next_id } in
    (ok row, record t { rows = t.rows ++ row ∷ []; next_id = t.next_id + 1 })

abbrev pub token_for : TriggerType → Result String → String → Result String
token_for webhook minted old = minted
token_for _ minted old = ok old

unfoldable pub create :
    Result String → Instant → ℕ → PipelineTrigger → String → Calls PipelineTrigger
unfolding validate
create minted now k trig by = if trig.name =ˢ "" then fail bad_request else do
  _ ← lift (validate trig.trigger_type trig.spec)
  token ← lift (token_for trig.trigger_type minted trig.token)
  insert_trigger (record trig { pipeline_id = k; created_by = by; token = token; created_at = now })

-- A patch of the name, the spec and the switch.
pub record Patch : Type 0 where
  pub name : String
  pub spec : Spec
  pub enabled : Bool

abbrev pub named : String → PipelineTrigger → PipelineTrigger
named name r = if name =ˢ "" then r else record r { name = name }

abbrev pub respecified : Spec → PipelineTrigger → Result PipelineTrigger
unfolding validate
respecified no_bytes r = ok r
respecified (bytes c e) r =
    with_ok (validate r.trigger_type (bytes c e)) λ _. ok (record r { spec = bytes c e })

unfoldable pub update : ℕ → Patch → Calls PipelineTrigger
unfolding validate find_row update_where
update k patch = do
  r ← get_trigger k
  s ← lift (respecified patch.spec (named patch.name r))
  _ ← save_trigger (record s { enabled = patch.enabled })
  pure (record s { enabled = patch.enabled })

unfoldable pub delete : ℕ → Calls (Unit {0})
delete k = execute λ t. record t { rows = where_ (λ r. not (trigger_id r == k)) t.rows }

abbrev pub is_webhook : TriggerType → Bool
is_webhook webhook = true
is_webhook _ = false

unfoldable pub rotate : Result String → ℕ → Calls String
unfolding find_row update_where
rotate minted k = do
  r ← get_trigger k
  _ ← lift (if is_webhook r.trigger_type then ok tt else err bad_request)
  token ← lift minted
  _ ← save_trigger (record r { token = token })
  pure token

-- A trigger whose token is presented; an empty token authorizes nothing.
abbrev pub presents : String → PipelineTrigger → Bool
presents token r =
    is_webhook r.trigger_type && (not (r.token =ˢ "") && (not (token =ˢ "") && (token =ˢ r.token)))

unfoldable pub authorize_webhook : ℕ → String → Calls (Option PipelineTrigger)
unfolding find_row
authorize_webhook k token = attempt (get_trigger k) λ found. elim found [
  | err e ↦ pure none
  | ok r ↦ pure (if presents token r then some r else none)
]

unfoldable pub preview_cron : Instant → List ℕ → ℕ → Result (List Instant)
unfolding parse next_n
preview_cron now text n = elim (parse text) [
  | refused ↦ err bad_request
  | panicked ↦ err crashed
  | done e ↦ elim (next_n e (if (n == 0) || ltb 10 n then 5 else n) now) [
    | none ↦ err bad_request
    | some ts ↦ ok ts
  ]
]
