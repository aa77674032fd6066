-- ===== src/Access/Ownership.antt =====
-- The guard of the ownership of resources, whatever statements the store refuses.
use software_distribution_pl.Access.Passing.{component_of, Passes, answer-Returns, locate-Returns}
use software_distribution_pl.Access.Tables.{
  ResourceOwnership, AccessTables, contains, ownership_key, orgs_by_slugs, ownership_of,
}
use software_distribution_pl.Access.Decisions.{is_allowed, decide_ownership, allows_component}
use software_distribution_pl.Access.Guards.{
  locate_component, answer_permission, known_orgs, internal_500, next, resolve_org_ids,
  locate_status, check_orgs, check_located, check_owned_path, require_resource_ownership,
  Requirement, Request, bad_request_400, not_found_404,
}
use software_distribution_pl.Common.{
  ℕ, String, ◌≡◌, refl, ap, Bool, true, false, Option, none, some, List, [], ◌∷◌, arith, Holds,
  Returns-pure, Returns-query, Returns-bind, Returns, where_, any, find_row, Result, ok, err, sym,
  subst, Returns-attempt, attempt, pure, Error, World, not_found, required,
}

-- A component without a row of ownership, or one that belongs to an organization of the request.
abbrev pub is_open_to : List ℕ → Option ResourceOwnership → Bool
is_open_to orgs none = true
is_open_to orgs (some o) = any (is_allowed o) orgs

abbrev pub orgs_of : AccessTables → Bool → List String → List ℕ
orgs_of t false aliases = []
orgs_of t true [] = []
orgs_of t true (a ∷ as_) = known_orgs (where_ (λ o. contains (a ∷ as_) o.slug) t.orgs) (a ∷ as_)

module _ (t : AccessTables) where
  resolve_org_ids-Returns :
      (has_orgs : Bool) (aliases : List String)
      → Returns t (λ orgs. orgs ≡ orgs_of t has_orgs aliases) (resolve_org_ids has_orgs aliases)
  resolve_org_ids-Returns false aliases = Returns-pure [] refl
  resolve_org_ids-Returns true [] = Returns-pure [] refl
  resolve_org_ids-Returns true (a ∷ as_) =
      Returns-bind (orgs_by_slugs (a ∷ as_)) _
        (Returns-query {Q = λ os. os ≡ where_ (λ o. contains (a ∷ as_) o.slug) t.orgs} _ refl)
        (λ os e. Returns-pure (known_orgs os (a ∷ as_)) (ap (λ l. known_orgs l (a ∷ as_)) e))

  abbrev IsOpen : ℕ → List ℕ → Type 0
  IsOpen c orgs = is_open_to orgs (find_row ownership_key c t.ownerships) ≡ true

  -- A refused lookup of the row is not a missing row.
  allows_component-Returns :
      (c : ℕ) (orgs : List ℕ) → Returns t (λ b. b ≡ true → IsOpen c orgs) (allows_component c orgs)
  unfolding allows_component
  allows_component-Returns c orgs = record { at = λ w h. moved w.faults w.tables h }
    where
      answered :
          (fs : List Bool) (o : Option ResourceOwnership)
          → ((decide_ownership orgs (required o) (record { faults = fs; tables = t })).1.tables ≡ t)
            × Holds
                (λ b. b ≡ true → is_open_to orgs o ≡ true)
                (decide_ownership orgs (required o) (record { faults = fs; tables = t })).0
      answered fs none = (refl, λ q. refl)
      answered fs (some o) = (refl, λ q. q)

      read :
          (fs : List Bool)
          → ((attempt
                (ownership_of c)
                (decide_ownership orgs)
                (record { faults = fs; tables = t })).1.tables
              ≡ t)
            × Holds
                (λ b. b ≡ true → IsOpen c orgs)
                (attempt
                  (ownership_of c)
                  (decide_ownership orgs)
                  (record { faults = fs; tables = t })).0
      read [] = answered [] (find_row ownership_key c t.ownerships)
      read (true ∷ fs) = (refl, tt)
      read (false ∷ fs) = answered fs (find_row ownership_key c t.ownerships)

      moved :
          (fs : List Bool) (u : AccessTables)
          → u ≡ t
          → ((attempt
                (ownership_of c)
                (decide_ownership orgs)
                (record { faults = fs; tables = u })).1.tables
              ≡ t)
            × Holds
                (λ b. b ≡ true → IsOpen c orgs)
                (attempt
                  (ownership_of c)
                  (decide_ownership orgs)
                  (record { faults = fs; tables = u })).0
      moved fs u h =
          subst
            (λ u.
              ((attempt (ownership_of c) (decide_ownership orgs)
                  (record { faults = fs; tables = u })).1.tables
                ≡ t)
              × Holds (λ b. b ≡ true → IsOpen c orgs)
                  (attempt (ownership_of c) (decide_ownership orgs)
                    (record { faults = fs; tables = u })).0)
            (sym h) (read fs)

  -- The component was found, and it is open to the organizations of the request.
  abbrev Owned : Bool → Requirement → Request → Type 0
  Owned has_orgs req r =
      (k : ℕ) × (c : ℕ) × (r.path_id ≡ some k)
      × (component_of t req.resource k ≡ some c)
      × (is_open_to (orgs_of t has_orgs r.orgs) (find_row ownership_key c t.ownerships) ≡ true)

  ownership-Returns :
      (wired has_orgs : Bool) (req : Requirement) (r : Request)
      → Returns t
          (Passes t (Owned has_orgs req r))
          (require_resource_ownership wired has_orgs req r)
  unfolding require_resource_ownership
  ownership-Returns wired has_orgs req r = on_path r.path_id refl
    where
      refused : (e : Error) → Returns t (Passes t (Owned has_orgs req r)) (pure (locate_status e))
      refused not_found = Returns-pure not_found_404 (λ q. absurd (ground arith))
      refused e = Returns-pure internal_500 (λ q. absurd (ground arith))

      on_orgs :
          (k c : ℕ)
          → r.path_id ≡ some k
          → component_of t req.resource k ≡ some c
          → (x : Result (List ℕ)) → Holds (λ orgs. orgs ≡ orgs_of t has_orgs r.orgs) x
          → Returns t (Passes t (Owned has_orgs req r)) (check_orgs c x)
      on_orgs k c e f (err x) h = Returns-pure internal_500 (λ q. absurd (ground arith))
      on_orgs k c e f (ok orgs) h =
          Returns-attempt (allows_component c orgs) answer_permission
            (allows_component-Returns c orgs)
            (λ b g. answer-Returns t (Owned has_orgs req r) b (shown b g))
        where
          shown :
              (b : Result Bool)
              → Holds (λ b. b ≡ true → IsOpen c orgs) b
              → Holds (λ b. b ≡ true → Owned has_orgs req r) b
          shown (ok b) g = λ q. (
            k,
            c,
            e,
            f,
            subst (λ l. is_open_to l (find_row ownership_key c t.ownerships) ≡ true) h (g q),
          )
          shown (err x) g = tt

      on_component :
          (k : ℕ)
          → r.path_id ≡ some k
          → (x : Result ℕ) → Holds (λ c. component_of t req.resource k ≡ some c) x
          → Returns t (Passes t (Owned has_orgs req r)) (check_located has_orgs r x)
      on_component k e (err x) h = refused x
      on_component k e (ok c) h =
          Returns-attempt (resolve_org_ids has_orgs r.orgs) (check_orgs c)
            (resolve_org_ids-Returns has_orgs r.orgs) (on_orgs k c e h)

      on_path :
          (o : Option ℕ)
          → r.path_id ≡ o
          → Returns t (Passes t (Owned has_orgs req r)) (check_owned_path wired has_orgs req r o)
      on_path none e = Returns-pure bad_request_400 (λ q. absurd (ground arith))
      on_path (some k) e =
          Returns-attempt (locate_component wired req.resource k) (check_located has_orgs r)
            (locate-Returns t wired req.resource k) (on_component k e)

-- A request that RequireResourceOwnership lets pass, whatever statements the store refused, has a
-- resource id that leads to a component, and that component has no row of ownership or is allowed
-- to one of the known organizations of the request.
pub require_resource_ownership_passes :
    (wired has_orgs : Bool) (req : Requirement) (r : Request) (w : World AccessTables)
    → (require_resource_ownership wired has_orgs req r w).0 ≡ ok next
    → (k : ℕ) × (c : ℕ) × (r.path_id ≡ some k)
      × (component_of w.tables req.resource k ≡ some c)
      × (is_open_to
            (orgs_of w.tables has_orgs r.orgs)
            (find_row ownership_key c w.tables.ownerships)
          ≡ true)
require_resource_ownership_passes wired has_orgs req r w e =
    subst (Holds (Passes w.tables (Owned w.tables has_orgs req r))) e
      ((ownership-Returns w.tables wired has_orgs req r).at w refl).1 refl
