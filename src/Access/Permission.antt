-- ===== src/Access/Permission.antt =====
-- What HasPermission answers when the store does.
use software_distribution_pl.Access.Grants.{
  is_granted_to_owner, is_granted, contains-add_actions, add_bindings-eq, gathered,
  contains-gathered, is_granted_by_binding, matching-eq,
}
use software_distribution_pl.Access.Tables.{
  component_key, is_matching, head_row, Role, Component, AccessTables, contains,
  component_role_by_name,
}
use software_distribution_pl.Access.Decisions.{
  add_actions, is_owner, owner_actions, with_owner, resolve_component_actions, has_permission,
}
use software_distribution_pl.Common.{
  ℕ, String, ◌≡◌, refl, Bool, false, ◌&&◌, ◌||◌, Option, none, some, List, [], arith, ◌=ˢ◌, where_,
  find_row, up, ok, ◌∙◌, true, ap, Action, then_, ◌>>=◌, attempt_, attempt, pure, any, required,
}

-- The actions that the ownership adds.
abbrev owned_actions :
    AccessTables → String → List String → Option Component → List String → List String
owned_actions t subject groups none actions = actions
owned_actions t subject groups (some c) actions = elim (is_owner subject groups c) [
  | false ↦ actions
  | true ↦ elim (head_row (where_ (λ r. r.name =ˢ "component-admin") t.component_roles)) [
    | none ↦ actions
    | some admin ↦ add_actions actions admin.actions
  ]
]

module _ (t : AccessTables) (subject : String) (groups actions : List String) where
  admin-eq :
      (o : Option Role)
      → attempt_
          (then_ (required o, up t) (λ (admin : Role). pure admin.actions))
          (λ r. pure (with_owner actions r))
        ≡ (ok (elim o [ none ↦ actions | some admin ↦ add_actions actions admin.actions ]), up t)
  admin-eq none = refl
  admin-eq (some admin) = refl

  owner_decided :
      (b : Bool)
      → attempt_
          (elim b as (λ _. Action AccessTables (List String)) [
            | false ↦ pure []
            | true ↦ component_role_by_name "component-admin" >>= λ admin. pure admin.actions
          ]
            (up t))
          (λ r. pure (with_owner actions r))
        ≡ (
          ok (elim b [
            | false ↦ actions
            | true ↦ elim (head_row (where_ (λ r. r.name =ˢ "component-admin") t.component_roles)) [
              | none ↦ actions
              | some admin ↦ add_actions actions admin.actions
            ]
          ]),
          up t,
        )
  unfolding add_actions
  owner_decided false = refl
  owner_decided true =
      admin-eq (head_row (where_ (λ r. r.name =ˢ "component-admin") t.component_roles))

  owner-eq :
      (c : ℕ) (o : Option Component)
      → find_row component_key c t.components ≡ o
      → attempt (owner_actions c subject groups) (λ r. pure (with_owner actions r)) (up t)
        ≡ (ok (owned_actions t subject groups o actions), up t)
  unfolding owner_actions
  owner-eq c none e = rw e refl
  owner-eq c (some row) e = rw e (owner_decided (is_owner subject groups row))

  contains-owned :
      (p : String) (o : Option Component)
      → contains (owned_actions t subject groups o actions) p
        ≡ contains actions p || is_granted_to_owner t subject groups p o
  contains-owned p none = ground arith
  contains-owned p (some c) = decided (is_owner subject groups c)
    where
      named :
          (o : Option Role)
          → contains (elim o [ none ↦ actions | some admin ↦ add_actions actions admin.actions ]) p
            ≡ contains actions p || elim o [ none ↦ false | some admin ↦ contains admin.actions p ]
      named none = ground arith
      named (some admin) = contains-add_actions actions admin.actions p

      decided :
          (b : Bool)
          → contains
              (elim b [
                | false ↦ actions
                | true ↦
                    elim (head_row (where_ (λ r. r.name =ˢ "component-admin") t.component_roles)) [
                      | none ↦ actions
                      | some admin ↦ add_actions actions admin.actions
                    ]
              ])
              p
            ≡ contains actions p
              || (b
                  && elim (head_row (where_ (λ r. r.name =ˢ "component-admin") t.component_roles)) [
                    | none ↦ false
                    | some admin ↦ contains admin.actions p
                  ])
      decided false = ground arith
      decided true = named (head_row (where_ (λ r. r.name =ˢ "component-admin") t.component_roles))

-- When the statements succeed, HasPermission answers exactly whether the tables grant the
-- permission, by a matching binding in force whose role has the action itself or in the registry,
-- or by ownership, and changes nothing.
pub has_permission-eq :
    (now c : ℕ) (subject : String) (groups : List String) (permission : String) (t : AccessTables)
    → has_permission now c subject groups permission (up t)
      ≡ (ok (is_granted t now c subject groups permission), up t)
unfolding has_permission resolve_component_actions
has_permission-eq now c subject groups permission t =
    let bs = where_ (is_matching now c subject groups) t.bindings in
    let o = find_row component_key c t.components in
    ap
      (λ r.
        then_
          (then_ r
            (λ acts. attempt (owner_actions c subject groups) (λ x. pure (with_owner acts x))))
          (λ acts. pure (contains acts permission)))
      (add_bindings-eq t bs [])
    ∙ ap (λ r. then_ r (λ acts. pure (contains acts permission)))
        (owner-eq t subject groups (gathered t bs []) c o refl)
    ∙ ap (λ b. (ok b, up t))
        (contains-owned t subject groups (gathered t bs []) permission o
          ∙ ap (λ b. b || is_granted_to_owner t subject groups permission o)
              (contains-gathered t bs [] permission)
          ∙ ap
              (λ l.
                any (λ b. is_granted_by_binding t permission b.component_role_id) l
                || is_granted_to_owner t subject groups permission o)
              (matching-eq now c subject groups t.bindings))
