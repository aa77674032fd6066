-- ===== src/Pipeline/Changes.antt =====
-- internal/pipeline/models/version.go: the changed fields of a stage or a task. `reencode` is the
-- JSON package's decoding and encoding of a text, `none` when it is not JSON.
use software_distribution_pl.Pipeline.Snapshot.{SnapshotTask, SnapshotStage}
use software_distribution_pl.Common.{
  ℕ, suc, ◌/◌, ◌%◌, String, Option, none, some, List, [], ◌∷◌, if◌then◌else◌, ltb, ◌==◌, ◌=ˢ◌, zero,
  Bool, not, where_,
}
use Prim.Native.String.{◌++◌ as text_append}

pub record FieldChange : Type 0 where
  pub field : String
  pub before : String
  pub after : String

abbrev pub digit : ℕ → String
digit n =
    if n == 0
    then "0"
    else if n == 1
    then "1"
    else if n == 2
    then "2"
    else if n == 3
    then "3"
    else if n == 4
    then "4"
    else if n == 5
    then "5"
    else if n == 6
    then "6"
    else if n == 7
    then "7"
    else if n == 8
    then "8"
    else "9"

-- The decimal digits; the fuel n + 1 exceeds their number.
unfoldable pub decimal : ℕ → ℕ → String
decimal zero n = ""
decimal (suc fuel) n =
    let rest = decimal fuel (n / 10) in
    if ltb n 10 then digit n else text_append rest (digit (n % 10))

unfoldable pub itoa : ℕ → String
unfolding decimal
itoa n = decimal (suc n) n

abbrev pub field_change : String → String → String → FieldChange
field_change field before after = record { field = field; before = before; after = after }

abbrev pub is_changed : FieldChange → Bool
is_changed f = not (f.before =ˢ f.after)

module _ (reencode : String → Option String) where
  abbrev pub or_raw : String → Option String → String
  or_raw raw none = raw
  or_raw raw (some out) = out

  abbrev pub canonical_json : String → String
  canonical_json raw = if raw =ˢ "" then "" else or_raw raw (reencode raw)

  abbrev pub canonical : Option String → String
  canonical none = ""
  canonical (some raw) = canonical_json raw

  -- The fields that are compared, in the order of the calls of `add`.
  abbrev pub task_fields : SnapshotTask → SnapshotTask → List FieldChange
  task_fields x y =
      field_change "type" x.task_type y.task_type
      ∷ field_change "displayOrder" (itoa x.display_order) (itoa y.display_order)
      ∷ field_change "image" x.image y.image
      ∷ field_change "scriptPath" x.script_path y.script_path
      ∷ field_change "timeoutSeconds" (itoa x.timeout_seconds) (itoa y.timeout_seconds)
      ∷ field_change "scriptArgs" (canonical x.script_args) (canonical y.script_args)
      ∷ field_change "command" (canonical x.command) (canonical y.command)
      ∷ field_change "args" (canonical x.args) (canonical y.args)
      ∷ field_change "produces" (canonical x.produces) (canonical y.produces)
      ∷ field_change "consumes" (canonical x.consumes) (canonical y.consumes)
      ∷ field_change "retryPolicy" (canonical x.retry_policy) (canonical y.retry_policy)
      ∷ field_change "releaseConfig" (canonical x.release_config) (canonical y.release_config)
      ∷ field_change "rolloutConfig" (canonical x.rollout_config) (canonical y.rollout_config)
      ∷ field_change "approvalConfig" (canonical x.approval_config) (canonical y.approval_config)
      ∷ []

  -- `add` keeps a field whose two values differ.
  unfoldable pub task_field_changes : SnapshotTask → SnapshotTask → List FieldChange
  task_field_changes x y = where_ is_changed (task_fields x y)

unfoldable pub stage_field_changes : SnapshotStage → SnapshotStage → List FieldChange
stage_field_changes x y =
    let modes =
      if x.execution_mode =ˢ y.execution_mode
      then []
      else record { field = "executionMode"; before = x.execution_mode; after = y.execution_mode }
        ∷ [] in
    if x.sequence == y.sequence
    then modes
    else record { field = "sequence"; before = itoa x.sequence; after = itoa y.sequence } ∷ modes
