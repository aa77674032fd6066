-- ===== src/Access/Passing.antt =====
-- What a request that a guard lets pass has shown, whatever statements the store refuses.
use software_distribution_pl.Access.Tables.{
  component_of_pipeline, PipelineOwner, RunOwner, AccessTables,
}
use software_distribution_pl.Access.Guards.{
  locate_component, answer_permission, Answer, Resource, forbidden_403, internal_500, of_component,
  of_pipeline, of_run, next,
}
use software_distribution_pl.Common.{
  ℕ, ◌≡◌, refl, ap, Bool, true, false, Option, none, some, arith, Holds, Returns-pure, Returns-fail,
  Returns-query, Returns-bind, Returns-weaken, Returns, map_option, find_row, query, Result,
  no_locator, ok, err, ◌∙◌, required,
}

abbrev owner_of : AccessTables → ℕ → Option ℕ
owner_of t k =
    map_option (λ p. p.component_id) (find_row (λ (p : PipelineOwner). p.id) k t.pipelines)

abbrev owner_of_run : AccessTables → Option RunOwner → Option ℕ
owner_of_run t none = none
owner_of_run t (some r) = owner_of t r.pipeline_id

-- The component that the id of a route stands for.
abbrev pub component_of : AccessTables → Resource → ℕ → Option ℕ
component_of t of_component k = some k
component_of t of_pipeline k = owner_of t k
component_of t of_run k = owner_of_run t (find_row (λ (r : RunOwner). r.id) k t.runs)

module _ (t : AccessTables) where
  required-Holds : {A : Type 0} (o : Option A) → Holds (λ a. o ≡ some a) (required o)
  required-Holds none = tt
  required-Holds (some a) = refl

  component_of_pipeline-Returns :
      (k : ℕ) → Returns t (λ c. component_of t of_pipeline k ≡ some c) (component_of_pipeline k)
  component_of_pipeline-Returns k =
      Returns-bind (query (λ u. required (find_row (λ (p : PipelineOwner). p.id) k u.pipelines))) _
        (Returns-query {Q = λ p. find_row (λ (p : PipelineOwner). p.id) k t.pipelines ≡ some p} _
          (required-Holds (find_row (λ (p : PipelineOwner). p.id) k t.pipelines)))
        (λ p e. Returns-pure p.component_id (ap (map_option (λ q. q.component_id)) e))

  pub locate-Returns :
      (wired : Bool) (res : Resource) (k : ℕ)
      → Returns t (λ c. component_of t res k ≡ some c) (locate_component wired res k)
  locate-Returns wired of_component k = Returns-pure k refl
  locate-Returns true of_pipeline k = component_of_pipeline-Returns k
  locate-Returns false of_pipeline k = Returns-fail no_locator
  locate-Returns false of_run k = Returns-fail no_locator
  locate-Returns true of_run k =
      Returns-bind (query (λ u. required (find_row (λ (r : RunOwner). r.id) k u.runs))) _
        (Returns-query {Q = λ r. find_row (λ (r : RunOwner). r.id) k t.runs ≡ some r} _
          (required-Holds (find_row (λ (r : RunOwner). r.id) k t.runs)))
        (λ r e.
          Returns-weaken (component_of_pipeline r.pipeline_id) (λ c f. ap (owner_of_run t) e ∙ f)
            (component_of_pipeline-Returns r.pipeline_id))

  abbrev pub Passes : Type 0 → Answer → Type 0
  Passes P a = a ≡ next → P

  pub answer-Returns :
      (P : Type 0) (r : Result Bool)
      → Holds (λ b. b ≡ true → P) r
      → Returns t (Passes P) (answer_permission r)
  answer-Returns P (ok true) h = Returns-pure next (λ e. h refl)
  answer-Returns P (ok false) h = Returns-pure forbidden_403 (λ e. absurd (ground arith))
  answer-Returns P (err e) h = Returns-pure internal_500 (λ e. absurd (ground arith))
