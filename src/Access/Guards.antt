-- ===== src/Access/Guards.antt =====
-- internal/middleware/rbac.go and ownership.go: what a guard answers a request, `next` when it lets
-- the request pass. `path_id` is the parsed path parameter, `none` when it is missing or no uuid.
use software_distribution_pl.Access.Tables.{
  component_of_pipeline, component_of_run, orgs_by_slugs, Org, AccessTables,
}
use software_distribution_pl.Access.Decisions.{
  has_permission, has_platform_permission, allows_component,
}
use software_distribution_pl.Common.{
  ℕ, String, Bool, true, false, Option, none, some, List, [], ◌∷◌, if◌then◌else◌, ◌=ˢ◌, Action,
  ◌>>=◌, attempt, pure, fail, Error, Result, not_found, no_locator, ok, err,
}

pub data Answer : Type 0 where
  next : Answer
  bad_request_400 unauthorized_401 forbidden_403 not_found_404 internal_500 : Answer

pub data Resource : Type 0 where
  of_component of_pipeline of_run : Resource

pub record Requirement : Type 0 where
  pub resource : Resource
  pub permission : String

pub record Request : Type 0 where
  pub subject : Option String
  pub groups : List String
  pub orgs : List String
  pub path_id : Option ℕ

-- `wired` says whether there is a Locator.
abbrev pub locate_component : Bool → Resource → ℕ → Action AccessTables ℕ
locate_component wired of_component k = pure k
locate_component true of_pipeline k = component_of_pipeline k
locate_component false of_pipeline k = fail no_locator
locate_component true of_run k = component_of_run k
locate_component false of_run k = fail no_locator

abbrev pub locate_status : Error → Answer
locate_status not_found = not_found_404
locate_status e = internal_500

abbrev pub answer_permission : Result Bool → Action AccessTables Answer
answer_permission (ok true) = pure next
answer_permission (ok false) = pure forbidden_403
answer_permission (err e) = pure internal_500

abbrev pub check_permission :
    ℕ → String → List String → String → Result ℕ → Action AccessTables Answer
check_permission now subject groups permission (err e) = pure (locate_status e)
check_permission now subject groups permission (ok c) =
    attempt (has_permission now c subject groups permission) answer_permission

abbrev pub check_path :
    ℕ → Bool → Requirement → Request → String → Option ℕ → Action AccessTables Answer
check_path now wired req r subject none = pure bad_request_400
check_path now wired req r subject (some k) =
    attempt (locate_component wired req.resource k)
      (check_permission now subject r.groups req.permission)

abbrev pub check_subject :
    ℕ → Bool → Requirement → Request → Option String → Action AccessTables Answer
check_subject now wired req r none = pure unauthorized_401
check_subject now wired req r (some subject) = check_path now wired req r subject r.path_id

unfoldable pub require_permission : ℕ → Bool → Requirement → Request → Action AccessTables Answer
unfolding has_permission
require_permission now wired req r = check_subject now wired req r r.subject

abbrev pub check_platform_subject :
    ℕ → String → Request → Option String → Action AccessTables Answer
check_platform_subject now permission r none = pure unauthorized_401
check_platform_subject now permission r (some subject) =
    attempt (has_platform_permission now none subject r.groups permission) answer_permission

unfoldable pub require_platform_permission : ℕ → String → Request → Action AccessTables Answer
unfolding has_platform_permission
require_platform_permission now permission r = check_platform_subject now permission r r.subject

abbrev pub org_of : String → List Org → Option ℕ
org_of alias [] = none
org_of alias (o ∷ os) = if o.slug =ˢ alias then some o.id else org_of alias os

-- The known aliases; an unknown one is dropped.
abbrev pub known_orgs : List Org → List String → List ℕ
known_orgs os [] = []
known_orgs os (alias ∷ aliases) = elim (org_of alias os) [
  | none ↦ known_orgs os aliases
  | some k ↦ k ∷ known_orgs os aliases
]

-- `has_orgs` says whether there is a resolver.
abbrev pub resolve_org_ids : Bool → List String → Action AccessTables (List ℕ)
resolve_org_ids false aliases = pure []
resolve_org_ids true [] = pure []
resolve_org_ids true (a ∷ as_) =
    orgs_by_slugs (a ∷ as_) >>= λ found. pure (known_orgs found (a ∷ as_))

abbrev pub check_orgs : ℕ → Result (List ℕ) → Action AccessTables Answer
check_orgs c (err e) = pure internal_500
check_orgs c (ok orgs) = attempt (allows_component c orgs) answer_permission

abbrev pub check_located : Bool → Request → Result ℕ → Action AccessTables Answer
check_located has_orgs r (err e) = pure (locate_status e)
check_located has_orgs r (ok c) = attempt (resolve_org_ids has_orgs r.orgs) (check_orgs c)

abbrev pub check_owned_path :
    Bool → Bool → Requirement → Request → Option ℕ → Action AccessTables Answer
check_owned_path wired has_orgs req r none = pure bad_request_400
check_owned_path wired has_orgs req r (some k) =
    attempt (locate_component wired req.resource k) (check_located has_orgs r)

unfoldable pub require_resource_ownership :
    Bool → Bool → Requirement → Request → Action AccessTables Answer
unfolding allows_component
require_resource_ownership wired has_orgs req r = check_owned_path wired has_orgs req r r.path_id
