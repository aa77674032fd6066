-- ===== src/Access/Decisions.antt =====
-- internal/permission/service/binding.go and resource_ownership.go.
use software_distribution_pl.Access.Tables.{
  list_matching, list_platform_matching, component_role_by_id, platform_role_by_id,
  component_role_by_name, actions_for_role, component_by_id, ownership_of, ComponentRoleBinding,
  PlatformRoleBinding, Role, RoleKind, Component, ResourceOwnership, AccessTables, component,
  contains, platform,
}
use software_distribution_pl.Common.{
  ℕ, String, Bool, true, false, ◌||◌, Option, none, some, List, [], ◌∷◌, ◌++◌, if◌then◌else◌, ◌==◌,
  ◌=ˢ◌, any, Action, ◌>>=◌, attempt, pure, fail, Result, not_found, ok, err,
}

-- `add`: the actions that are not there yet, in order.
unfoldable pub add_actions : List String → List String → List String
add_actions actions [] = actions
add_actions actions (x ∷ xs) =
    add_actions (if contains actions x then actions else actions ++ x ∷ []) xs

abbrev pub actions_or_none : Result (List String) → List String
actions_or_none (ok acts) = acts
actions_or_none (err e) = []

-- An error of the lookup counts as no action.
abbrev pub mapped_actions : RoleKind → ℕ → Action AccessTables (List String)
mapped_actions kind role = attempt (actions_for_role kind role) λ r. pure (actions_or_none r)

abbrev pub is_owner : String → List String → Component → Bool
is_owner subject groups c =
    elim c.owner_sub [ none ↦ false | some s ↦ s =ˢ subject ]
    || elim c.owner_group [ none ↦ false | some g ↦ contains groups g ]

unfoldable pub owner_actions : ℕ → String → List String → Action AccessTables (List String)
owner_actions c subject groups = do
  row ← component_by_id c
  elim (is_owner subject groups row) [
    | false ↦ pure []
    | true ↦ component_role_by_name "component-admin" >>= λ admin. pure admin.actions
  ]

-- The actions of the roles of the bindings, on top of those that are there. A role that is not read
-- is passed over.
abbrev pub with_role :
    ℕ
    → List String
    → Result Role
    → (List String → Action AccessTables (List String))
    → Action AccessTables (List String)
with_role role actions (err e) next = next actions
with_role role actions (ok r) next = mapped_actions component role >>= λ mapped.
    next (add_actions (add_actions actions r.actions) mapped)

unfoldable pub add_bindings :
    List ComponentRoleBinding → List String → Action AccessTables (List String)
add_bindings [] actions = pure actions
add_bindings (b ∷ bs) actions = elim b.component_role_id [
  | none ↦ add_bindings bs actions
  | some role ↦ attempt (component_role_by_id role) λ r. with_role role actions r (add_bindings bs)
]

abbrev pub with_owner : List String → Result (List String) → List String
with_owner actions (ok acts) = add_actions actions acts
with_owner actions (err e) = actions

unfoldable pub resolve_component_actions :
    ℕ → ℕ → String → List String → Action AccessTables (List String)
unfolding add_bindings owner_actions add_actions
resolve_component_actions now c subject groups = do
  bindings ← list_matching now c subject groups
  actions ← add_bindings bindings []
  attempt (owner_actions c subject groups) λ r. pure (with_owner actions r)

unfoldable pub has_permission : ℕ → ℕ → String → List String → String → Action AccessTables Bool
unfolding resolve_component_actions
has_permission now c subject groups permission =
    resolve_component_actions now c subject groups >>= λ actions. pure (contains actions permission)

abbrev pub platform_role_grants :
    ℕ → String → Result Role → Action AccessTables Bool → Action AccessTables Bool
platform_role_grants role permission (err e) next = next
platform_role_grants role permission (ok r) next = elim (contains r.actions permission) [
  | true ↦ pure true
  | false ↦ mapped_actions platform role >>= λ mapped. elim (contains mapped permission) [
    | true ↦ pure true
    | false ↦ next
  ]
]

unfoldable pub any_platform_grant : List PlatformRoleBinding → String → Action AccessTables Bool
any_platform_grant [] permission = pure false
any_platform_grant (b ∷ bs) permission =
    attempt (platform_role_by_id b.platform_role_id)
      λ r. platform_role_grants b.platform_role_id permission r (any_platform_grant bs permission)

unfoldable pub has_platform_permission :
    ℕ → Option ℕ → String → List String → String → Action AccessTables Bool
unfolding any_platform_grant
has_platform_permission now org subject groups permission =
    list_platform_matching now org subject groups >>= λ bs. any_platform_grant bs permission

-- The nil id is no organization.
abbrev pub is_allowed : ResourceOwnership → ℕ → Bool
is_allowed o org =
    if org == 0 then false else (o.owner_org == org) || any (λ a. a == org) o.allowed_orgs

abbrev pub decide_ownership : List ℕ → Result ResourceOwnership → Action AccessTables Bool
decide_ownership orgs (ok row) = pure (any (is_allowed row) orgs)
decide_ownership orgs (err not_found) = pure true
decide_ownership orgs (err e) = fail e

unfoldable pub allows_component : ℕ → List ℕ → Action AccessTables Bool
allows_component c orgs = attempt (ownership_of c) (decide_ownership orgs)
