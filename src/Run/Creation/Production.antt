-- ===== src/Run/Creation/Production.antt =====
-- The production guard: internal/run/service/production_guard.go as Trigger uses it.
use software_distribution_pl.Run.Creation.Targets.{
  IsRequested, IsNamed, Returns-both, targets_of-Returns, targets_of-guarded,
}
use software_distribution_pl.Common.{
  ℕ, String, false, Option, none, some, List, [], ◌∷◌, ◌++◌, map, World, Result, ok, err, ◌≡◌, refl,
  All, Holds, Returns, Returns-bind, Returns-pure, Returns-fail, arith, conflict, Error,
}
use software_distribution_pl.Run.Spec.{TaskSpec, RunSpec}
use software_distribution_pl.Run.Definitions.{Template, Stage}
use software_distribution_pl.Run.Tables.{Tables}
use software_distribution_pl.Run.Build.{TriggerRequest, templates_of, stages_of, task_name}
use software_distribution_pl.Run.Build.Layers.{IsStage, IsLayered, Layered, build_spec-Returns}
use software_distribution_pl.Run.Creation.Seeds.{Hub, is_approval}
use software_distribution_pl.Run.Creation.{
  trigger, trigger_on, targets_of, open_window, has_approval_gate, enforce_production_approval,
  ask_production, refuse_production, production_guard_targets,
}

-- The policy names a production target, or it cannot answer.
abbrev pub IsRefusal : Result (List ℕ) → Type 0
IsRefusal (err e) = Unit
IsRefusal (ok []) = ⊥
IsRefusal (ok (t ∷ ts)) = Unit

-- No template of the pipeline is an approval.
abbrev pub IsUngated : ℕ → Tables → Type 0
IsUngated k t =
    All (λ s. All (λ x. is_approval x.task_type ≡ false) (templates_of s.id t)) (stages_of k t)

has_approval_gate-append :
    (xs ys : List TaskSpec)
    → has_approval_gate xs ≡ false
    → has_approval_gate ys ≡ false
    → has_approval_gate (xs ++ ys) ≡ false
has_approval_gate-append [] ys hx hy = hy
has_approval_gate-append (x ∷ xs) ys hx hy = ground (arith, has_approval_gate-append xs ys)

IsStage-gate :
    (stage : Stage) (before names : List String) (tpls : List Template) (tasks : List TaskSpec)
    → All (λ x. is_approval x.task_type ≡ false) tpls
    → IsStage stage before names tpls tasks
    → has_approval_gate tasks ≡ false
IsStage-gate stage before names [] [] a h = refl
IsStage-gate stage before names [] (x ∷ xs) a h = absurd h
IsStage-gate stage before names (y ∷ ys) [] a h = absurd h
IsStage-gate stage before names (y ∷ ys) (x ∷ xs) a (_, same, _, _, h) =
    rw (same, a.0) (IsStage-gate stage before (names ++ x.name ∷ []) ys xs a.1 h)

IsLayered-gate :
    (templates : ℕ → List Template) (before : List String) (stages : List Stage)
    (tasks : List TaskSpec)
    → All (λ s. All (λ x. is_approval x.task_type ≡ false) (templates s.id)) stages
    → IsLayered templates before stages tasks
    → has_approval_gate tasks ≡ false
IsLayered-gate templates before [] tasks a h = rw h refl
IsLayered-gate templates before (s ∷ ss) tasks a (here, later, e, st, l) = rw e (
    has_approval_gate-append here later (IsStage-gate s before [] (templates s.id) here a.0 st)
      (IsLayered-gate templates (map task_name here) ss later a.1 l))

-- Every nonempty list of targets is refused for a run without a gate.
enforce-refuses :
    (t : Tables) (prod : List ℕ → Result (List ℕ)) (spec : RunSpec) (ids : List ℕ) (one : Option ℕ)
    (ts : List ℕ)
    → has_approval_gate spec.tasks ≡ false
    → IsRequested ids one ts
    → IsRefusal (prod ts)
    → Returns t (λ _. ⊥) (enforce_production_approval (some prod) spec ts)
unfolding enforce_production_approval
enforce-refuses t prod spec ids one ts gate req bad = rw gate (asked ids one ts req bad)
  where
    answered : (r : Result (List ℕ)) → IsRefusal r → Returns t (λ _. ⊥) (refuse_production r)
    answered (err e) b = Returns-fail e
    answered (ok []) b = absurd b
    answered (ok (x ∷ xs)) b = Returns-fail conflict

    asked :
        (ids : List ℕ) (one : Option ℕ) (ts : List ℕ)
        → IsRequested ids one ts
        → IsRefusal (prod ts)
        → Returns t (λ _. ⊥) (ask_production (some prod) ts)
    asked [] none [] q b = absurd (cc (q.1))
    asked [] (some k) [] q b = absurd (cc (q))
    asked (k ∷ ks) one [] q b = absurd (cc (q))
    asked ids one (x ∷ xs) q b = answered (prod (x ∷ xs)) b

pub open_window-Returns :
    (t : Tables) (o : Option (Option Error)) → Returns t (λ _. Unit) (open_window o)
open_window-Returns t none = Returns-pure tt tt
open_window-Returns t (some none) = Returns-pure tt tt
open_window-Returns t (some (some e)) = Returns-fail e

trigger-Returns :
    (h : Hub) (now k : ℕ) (req : TriggerRequest) (prod : List ℕ → Result (List ℕ)) (t : Tables)
    → h.production_policy ≡ some prod
    → IsUngated k t
    → IsNamed t
    → ((ts : List ℕ) → IsRequested req.target_ids req.target_id ts → IsRefusal (prod ts))
    → Returns t (λ _. ⊥) (trigger h now k req)
unfolding trigger trigger_on
trigger-Returns h now k req prod t policy ungated named bad =
    Returns-bind {Q = λ _. Unit} (open_window h.change_window) _
      (open_window-Returns t h.change_window)
      λ _ _.
        Returns-bind {Q = chosen} (targets_of req.target_ids req.target_id) (trigger_on h now k req)
          (Returns-both t _ _ _ (targets_of-Returns t req.target_ids req.target_id)
            (targets_of-guarded t req.target_ids req.target_id named))
          λ ts (q, asked).
            Returns-bind {Q = Layered k t} _ _
              (build_spec-Returns t h.component_guard h.var_source h.service_account k req)
              λ spec l.
                let gate =
                  IsLayered-gate (λ s. templates_of s t) [] (stages_of k t) spec.tasks ungated l in
                let refused : Returns t (λ _. ⊥)
                    (enforce_production_approval h.production_policy spec
                      (production_guard_targets req.target_ids ts)) =
                  rw (policy, asked)
                    (enforce-refuses t prod spec req.target_ids req.target_id ts gate q
                      (bad ts q)) in
                Returns-bind {Q = λ _. ⊥}
                  (enforce_production_approval h.production_policy spec
                    (production_guard_targets req.target_ids ts))
                  _ refused λ _ never. absurd never
  where
    chosen : List ℕ → Type 0
    chosen ts =
        IsRequested req.target_ids req.target_id ts
        × (production_guard_targets req.target_ids ts ≡ ts)

-- Whatever statements the store refuses, when no template of the pipeline is an approval, no
-- target has the nil id, and the production policy names a production target in the requested
-- targets or cannot answer, Trigger fails and leaves every table as it was.
pub trigger_needs_gate :
    (h : Hub) (now k : ℕ) (req : TriggerRequest) (prod : List ℕ → Result (List ℕ))
    (w : World Tables)
    → h.production_policy ≡ some prod
    → IsUngated k w.tables
    → IsNamed w.tables
    → ((ts : List ℕ) → IsRequested req.target_ids req.target_id ts → IsRefusal (prod ts))
    → ((trigger h now k req w).1.tables ≡ w.tables) × Holds (λ _. ⊥) (trigger h now k req w).0
trigger_needs_gate h now k req prod w policy ungated named bad =
    (trigger-Returns h now k req prod w.tables policy ungated named bad).at w refl
