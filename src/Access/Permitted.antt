-- ===== src/Access/Permitted.antt =====
-- The guard of the permissions, whatever statements the store refuses.
use software_distribution_pl.Access.Passing.{component_of, Passes, answer-Returns, locate-Returns}
use software_distribution_pl.Access.FailClosed.{has_permission-Returns}
use software_distribution_pl.Access.Grants.{is_granted}
use software_distribution_pl.Access.Tables.{AccessTables}
use software_distribution_pl.Access.Decisions.{has_permission}
use software_distribution_pl.Access.Guards.{
  locate_component, answer_permission, internal_500, next, locate_status, Requirement, Request,
  bad_request_400, not_found_404, check_permission, check_path, check_subject, require_permission,
  unauthorized_401,
}
use software_distribution_pl.Common.{
  ℕ, String, ◌≡◌, refl, Bool, true, Option, none, some, arith, Holds, Returns-pure, Returns, Result,
  ok, err, subst, Returns-attempt, pure, Error, World, not_found,
}

module _ (t : AccessTables) (now : ℕ) (wired : Bool) (req : Requirement) (r : Request) where
  -- A subject was there, the component was found, and the subject holds the permission on it.
  abbrev Permitted : Type 0
  Permitted =
      (subject : String) × (k : ℕ) × (c : ℕ) × (r.subject ≡ some subject)
      × (r.path_id ≡ some k)
      × (component_of t req.resource k ≡ some c)
      × (is_granted t now c subject r.groups req.permission ≡ true)

  permission-Returns : Returns t (Passes t Permitted) (require_permission now wired req r)
  unfolding require_permission
  permission-Returns = for_subject r.subject refl
    where
      refused : (e : Error) → Returns t (Passes t Permitted) (pure (locate_status e))
      refused not_found = Returns-pure not_found_404 (λ q. absurd (ground arith))
      refused e = Returns-pure internal_500 (λ q. absurd (ground arith))

      on_component :
          (subject : String) (k : ℕ)
          → r.subject ≡ some subject
          → r.path_id ≡ some k
          → (x : Result ℕ) → Holds (λ c. component_of t req.resource k ≡ some c) x
          → Returns t (Passes t Permitted) (check_permission now subject r.groups req.permission x)
      on_component subject k s e (err x) h = refused x
      on_component subject k s e (ok c) h =
          Returns-attempt (has_permission now c subject r.groups req.permission) answer_permission
            (has_permission-Returns t subject r.groups req.permission now c)
            (λ b g. answer-Returns t Permitted b (shown b g))
        where
          shown :
              (b : Result Bool)
              → Holds (λ b. b ≡ true → is_granted t now c subject r.groups req.permission ≡ true) b
              → Holds (λ b. b ≡ true → Permitted) b
          shown (ok b) g = λ q. (subject, k, c, s, e, h, g q)
          shown (err x) g = tt

      on_path :
          (subject : String)
          → r.subject ≡ some subject
          → (o : Option ℕ) → r.path_id ≡ o
          → Returns t (Passes t Permitted) (check_path now wired req r subject o)
      on_path subject s none e = Returns-pure bad_request_400 (λ q. absurd (ground arith))
      on_path subject s (some k) e =
          Returns-attempt (locate_component wired req.resource k)
            (check_permission now subject r.groups req.permission)
            (locate-Returns t wired req.resource k) (on_component subject k s e)

      for_subject :
          (o : Option String)
          → r.subject ≡ o
          → Returns t (Passes t Permitted) (check_subject now wired req r o)
      for_subject none s = Returns-pure unauthorized_401 (λ q. absurd (ground arith))
      for_subject (some subject) s = on_path subject s r.path_id refl

-- A request that RequirePermission lets pass, whatever statements the store refused, has a subject
-- and a resource id, the id leads to a component, and the subject holds the required permission on
-- that component.
pub require_permission_passes :
    (now : ℕ) (wired : Bool) (req : Requirement) (r : Request) (w : World AccessTables)
    → (require_permission now wired req r w).0 ≡ ok next
    → (subject : String) × (k : ℕ) × (c : ℕ) × (r.subject ≡ some subject)
      × (r.path_id ≡ some k)
      × (component_of w.tables req.resource k ≡ some c)
      × (is_granted w.tables now c subject r.groups req.permission ≡ true)
require_permission_passes now wired req r w e =
    subst (Holds (Passes w.tables (Permitted w.tables now wired req r))) e
      ((permission-Returns w.tables now wired req r).at w refl).1 refl
