-- ===== src/Run/Creation/Capacity.antt =====
-- The bound on the active runs of a pipeline, as Trigger keeps it.
use software_distribution_pl.Run.Concurrency.Capacity.{active}
use software_distribution_pl.Run.Build.Layers.{build_spec-Returns}
use software_distribution_pl.Run.Creation.Production.{open_window-Returns}
use software_distribution_pl.Run.Creation.Targets.{targets_of-Returns}
use software_distribution_pl.Run.Params.{trigger_params}
use software_distribution_pl.Run.Build.{
  TriggerRequest, get_pipeline, definition_key, namespace_of, build_spec,
}
use software_distribution_pl.Common.{
  ℕ, List, [], ◌∷◌, ◌≡◌, World, Keeps, Keeps-pure, Keeps-fail, Keeps-statement, Keeps-bind, arith,
  String, pure, refl, subst, Option, none, some, Keeps-Returns, Keeps-if, Keeps-read, find_row,
  required, Result, conflict, ok, err,
}
use software_distribution_pl.Run.Spec.{RunSpec, Param}
use software_distribution_pl.Run.Definitions.{Definitions, PipelineDef}
use software_distribution_pl.Run.Tables.{Tables}
use software_distribution_pl.Run.Creation.Seeds.{Hub}
use software_distribution_pl.Run.Creation.Quiet.{On}
use software_distribution_pl.Run.Creation.{
  admit_run, has_approval_gate, refuse_production, ask_production, enforce_production_approval,
  create_run, create_runs, trigger_on, targets_of, trigger, open_window, production_guard_targets,
}
use software_distribution_pl.Run.Creation.Admission.{Bound, IsWithin, admit_run-Bound}

module _ (h : Hub) (now k : ℕ) (defs : Definitions) (p : PipelineDef)
    (defined : find_row definition_key k defs.pipelines ≡ some p) where
  abbrev Within : Tables → Type 0
  Within = On (Bound h.limit k defs p.concurrency_policy)

  create_run-Within :
      (target : ℕ) (spec : RunSpec) (ns : String) (params : List Param) (version : ℕ)
      (req : TriggerRequest)
      → Keeps Within (create_run h now k target spec ns params version req)
  unfolding create_run
  create_run-Within target spec ns params version req =
      Keeps-read _ (λ q. admit_run h now k target spec ns params version req q.concurrency_policy)
        λ q w e u.
          let same : p ≡ q =
            found q (subst (λ d. required (find_row definition_key k d.pipelines) ≡ ok q) u.0 e) in
          subst
            (λ x.
              Within
                (admit_run h now k target spec ns params version req x.concurrency_policy
                  w).1.tables)
            same
            ((admit_run-Bound h now k target spec ns params version req defs
                p.concurrency_policy).at
              w u)
    where
      found : (q : PipelineDef) → required (find_row definition_key k defs.pipelines) ≡ ok q → p ≡ q
      found q e = ground (arith, e, defined)

  create_runs-Within :
      (spec : RunSpec) (ns : String) (params : List Param) (version : ℕ) (req : TriggerRequest)
      (targets : List ℕ)
      → Keeps Within (create_runs h now k spec ns params version req targets)
  unfolding create_runs
  create_runs-Within spec ns params version req [] = Keeps-pure []
  create_runs-Within spec ns params version req (x ∷ xs) =
      Keeps-bind (create_run h now k x spec ns params version req) _
        (create_run-Within x spec ns params version req)
        λ r.
          Keeps-bind (create_runs h now k spec ns params version req xs) _
            (create_runs-Within spec ns params version req xs) λ rs. Keeps-pure (r ∷ rs)

  ask_production-Within :
      (policy : Option (List ℕ → Result (List ℕ))) (ts : List ℕ)
      → Keeps Within (ask_production policy ts)
  ask_production-Within none ts = Keeps-pure tt
  ask_production-Within (some f) [] = Keeps-pure tt
  ask_production-Within (some f) (x ∷ xs) = answered (f (x ∷ xs))
    where
      answered : (r : Result (List ℕ)) → Keeps Within (refuse_production r)
      answered (err e) = Keeps-fail e
      answered (ok []) = Keeps-pure tt
      answered (ok (y ∷ ys)) = Keeps-fail conflict

  trigger-Within : (req : TriggerRequest) → Keeps Within (trigger h now k req)
  unfolding trigger trigger_on enforce_production_approval
  trigger-Within req =
      Keeps-bind (open_window h.change_window) _
        (Keeps-Returns (open_window h.change_window) (λ t. open_window-Returns t h.change_window))
        λ _.
          Keeps-bind (targets_of req.target_ids req.target_id) (trigger_on h now k req)
            (Keeps-Returns (targets_of req.target_ids req.target_id)
              (λ t. targets_of-Returns t req.target_ids req.target_id))
            λ ts.
              Keeps-bind (build_spec h.component_guard h.var_source h.service_account k req) _
                (Keeps-Returns _ (λ t.
                  build_spec-Returns t h.component_guard h.var_source h.service_account k req))
                λ spec.
                  Keeps-bind
                    (enforce_production_approval h.production_policy spec
                      (production_guard_targets req.target_ids ts))
                    _
                    (Keeps-if (has_approval_gate spec.tasks) (pure tt)
                      (ask_production h.production_policy
                        (production_guard_targets req.target_ids ts))
                      (Keeps-pure tt)
                      (ask_production-Within h.production_policy
                        (production_guard_targets req.target_ids ts)))
                    λ _. Keeps-bind (get_pipeline k) _ (Keeps-statement _ (λ t u. u)) λ q.
                      create_runs-Within spec (namespace_of req)
                        (trigger_params h.var_source q req.params) q.version req ts

-- Whatever statements the store refuses, one Trigger of a pipeline, its fan-out over many targets
-- included, keeps its active runs within the bound of its policy: the limit under queue and one
-- under forbid.
pub trigger-IsWithin :
    (h : Hub) (now k : ℕ) (req : TriggerRequest) (p : PipelineDef) (w : World Tables)
    → find_row definition_key k w.tables.definitions.pipelines ≡ some p
    → IsWithin h.limit p.concurrency_policy (active k w.tables)
    → IsWithin h.limit p.concurrency_policy (active k (trigger h now k req w).1.tables)
trigger-IsWithin h now k req p w defined u =
    ((trigger-Within h now k w.tables.definitions p defined req).at w (refl, u)).1
