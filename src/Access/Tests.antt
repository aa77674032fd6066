-- ===== src/Access/Tests.antt =====
-- Sample requests against the guards.
use software_distribution_pl.Access.Passing.{component_of}
use software_distribution_pl.Access.Permission.{has_permission-eq}
use software_distribution_pl.Access.Tables.{ownership_key, AccessTables, user, group, component}
use software_distribution_pl.Access.FailClosed.{has_permission_granted}
use software_distribution_pl.Access.Decisions.{
  add_actions, owner_actions, add_bindings, resolve_component_actions, has_permission,
  allows_component,
}
use software_distribution_pl.Access.Grants.{is_granted}
use software_distribution_pl.Access.Guards.{
  require_permission, require_resource_ownership, Requirement, Request, forbidden_403, of_run,
}
use software_distribution_pl.Access.Permitted.{require_permission_passes}
use software_distribution_pl.Access.Ownership.{
  is_open_to, orgs_of, require_resource_ownership_passes,
}
use software_distribution_pl.Common.{
  ℕ, String, ◌≡◌, refl, true, false, Option, none, some, List, [], ◌∷◌, find_row, up, ok,
}

abbrev tables : AccessTables
tables = record {
  bindings =
      record {
        component_id = 1;
        subject_type = user;
        subject_id = "ann";
        component_role_id = some 4;
        expires_at = some 50;
      }
      ∷ record {
        component_id = 1;
        subject_type = group;
        subject_id = "/dev";
        component_role_id = some 4;
        expires_at = none;
      }
      ∷ [];
  platform_bindings = [];
  component_roles =
      record { id = 4; name = "editor"; actions = "run" ∷ "edit" ∷ "run" ∷ [] }
      ∷ record { id = 5; name = "component-admin"; actions = "run" ∷ "delete" ∷ [] }
      ∷ [];
  platform_roles = [];
  mappings = record { kind = component; role_id = 4; action = "view" } ∷ [];
  components = record { id = 1; owner_sub = some "olga"; owner_group = none } ∷ [];
  ownerships = record { resource_id = 1; owner_org = 30; allowed_orgs = 31 ∷ [] } ∷ [];
  pipelines = record { id = 7; component_id = 1 } ∷ [];
  runs = record { id = 70; pipeline_id = 7 } ∷ [];
  orgs = record { id = 31; slug = "blue" } ∷ record { id = 32; slug = "red" } ∷ [];
}

abbrev request : Option String → List String → List String → ℕ → Request
request subject groups orgs k = record {
  subject = subject;
  groups = groups;
  orgs = orgs;
  path_id = some k;
}

abbrev viewing : Requirement
viewing = record { resource = of_run; permission = "view" }

has_permission-eq_example :
    has_permission 60 1 "olga" [] "delete" (up tables)
    ≡ (ok (is_granted tables 60 1 "olga" [] "delete"), up tables)
has_permission-eq_example = has_permission-eq 60 1 "olga" [] "delete" tables

-- The user's grant has lapsed; the group's has not.
lapsed :
    (is_granted tables 60 1 "ann" [] "view" ≡ false)
    × (is_granted tables 60 1 "ann" ("/dev" ∷ []) "view" ≡ true)
unfolding find_row
lapsed = (refl, refl)

has_permission_granted_example : is_granted tables 60 1 "ann" ("/dev" ∷ []) "edit" ≡ true
unfolding has_permission resolve_component_actions add_bindings owner_actions add_actions find_row
has_permission_granted_example =
    has_permission_granted 60 1 "ann" ("/dev" ∷ []) "edit"
      (record { faults = false ∷ false ∷ true ∷ true ∷ []; tables = tables }) refl

require_permission_passes_example :
    (subject : String) × (k : ℕ) × (c : ℕ) × (some "ann" ≡ some subject)
    × (some 70 ≡ some k)
    × (component_of tables of_run k ≡ some c)
    × (is_granted tables 60 c subject ("/dev" ∷ []) "view" ≡ true)
unfolding require_permission has_permission resolve_component_actions add_bindings owner_actions
    add_actions find_row
require_permission_passes_example =
    require_permission_passes 60 true viewing (request (some "ann") ("/dev" ∷ []) [] 70) (up tables)
      refl

require_resource_ownership_passes_example :
    (k : ℕ) × (c : ℕ) × (some 70 ≡ some k)
    × (component_of tables of_run k ≡ some c)
    × (is_open_to (orgs_of tables true ("blue" ∷ [])) (find_row ownership_key c tables.ownerships)
        ≡ true)
unfolding require_resource_ownership allows_component find_row
require_resource_ownership_passes_example =
    require_resource_ownership_passes true true viewing (request (some "ann") [] ("blue" ∷ []) 70)
      (up tables) refl

outsider :
    (require_resource_ownership true true viewing
      (request (some "ann") [] ("red" ∷ []) 70)
      (up tables)).0
    ≡ ok forbidden_403
unfolding require_resource_ownership allows_component find_row
outsider = refl
