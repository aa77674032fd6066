-- ===== src/Common/Statements.antt =====
-- Database statements that may fail. A world is the tables with the outcomes of the statements to
-- come: `true` stands for a statement that the store refuses, which then changes nothing.
use mathlib.Core.Bool.{Bool, true, false}
use mathlib.Core.Option.{Option, none, some}
use mathlib.Core.List.{List, [], ◌∷◌}

pub data Error : Type 0 where
  store_failed not_found bad_request conflict forbidden unauthorized : Error
  no_runner send_failed corrupt_payload : Error
  run_terminal not_approval already_decided no_approver self_review wrong_pipeline : Error
  cancelled_while_queued no_dispatch_record missing_task_name out_of_org no_locator no_param : Error
  no_tasks no_target target_offline not_in_run unknown_action not_release crashed : Error

pub data Result {ℓ} (A : Type ℓ) : Type ℓ where
  ok : A → Result A
  err : Error → Result A

-- A lookup of one row.
abbrev pub required {ℓ} : {A : Type ℓ} → Option A → Result A
required none = err not_found
required (some a) = ok a

-- A value that an error replaces.
abbrev pub with_ok : {A B : Type 0} → Result A → (A → Result B) → Result B
with_ok (ok a) f = f a
with_ok (err e) f = err e

pub record World (T : Type 0) : Type 0 where
  pub faults : List Bool
  pub tables : T

-- A world whose statements all succeed.
abbrev pub up : {T : Type 0} → T → World T
up t = record { faults = []; tables = t }

abbrev pub Action : Type 0 → Type 0 → Type 0
Action T A = World T → Result A × World T

infixl 5 ◌>>=◌ ◌>>◌
module _ {T A B : Type 0} where
  abbrev pub then_ : Result A × World T → (A → Action T B) → Result B × World T
  then_ (ok a, w) f = f a w
  then_ (err e, w) f = (err e, w)

  abbrev pub ◌>>=◌ : Action T A → (A → Action T B) → Action T B
  ◌>>=◌ m f w = then_ (m w) f

  -- A call whose error the caller logs and drops.
  abbrev pub regardless_ : Result A × World T → Action T B → Result B × World T
  regardless_ (r, w) k = k w

  abbrev pub regardless : Action T A → Action T B → Action T B
  regardless m k w = regardless_ (m w) k

  -- A call whose caller looks at the error.
  abbrev pub attempt_ : Result A × World T → (Result A → Action T B) → Result B × World T
  attempt_ (r, w) k = k r w

  abbrev pub attempt : Action T A → (Result A → Action T B) → Action T B
  attempt m k w = attempt_ (m w) k

module _ {T A : Type 0} where
  abbrev pub ◌>>◌ : Action T (Unit {0}) → Action T A → Action T A
  ◌>>◌ m k w = then_ (m w) (λ _. k)

  abbrev pub pure : A → Action T A
  pure a w = (ok a, w)

  abbrev pub fail : Error → Action T A
  fail e w = (err e, w)

  abbrev pub lift : Result A → Action T A
  lift r w = (r, w)

  abbrev pub statement_ : List Bool → (T → Result A × T) → T → Result A × World T
  statement_ [] f t = ((f t).0, record { faults = []; tables = (f t).1 })
  statement_ (true ∷ rest) f t = (err store_failed, record { faults = rest; tables = t })
  statement_ (false ∷ rest) f t = ((f t).0, record { faults = rest; tables = (f t).1 })

  -- One statement: it fails as the world says, or it runs.
  abbrev pub statement : (T → Result A × T) → Action T A
  statement f w = statement_ w.faults f w.tables

  -- A statement that only reads.
  abbrev pub query : (T → Result A) → Action T A
  query f = statement λ t. (f t, t)

module _ {T : Type 0} where
  -- A statement that writes and returns nothing.
  abbrev pub execute : (T → T) → Action T (Unit {0})
  execute f = statement λ t. (ok tt, f t)
