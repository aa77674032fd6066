-- ===== src/Access/Grants.antt =====
-- Who holds a permission, read off the tables, against the decisions of the service.
use software_distribution_pl.Access.Tables.{
  user, group, role_key, component_key, is_matching, head_row, is_mapped, ComponentRoleBinding,
  Role, RoleKind, Component, AccessTables, component, contains,
}
use software_distribution_pl.Access.Decisions.{add_actions, is_owner, with_role, add_bindings}
use software_distribution_pl.Common.{
  ℕ, String, ◌≡◌, refl, inl, inr, Bool, false, ◌&&◌, ◌||◌, Option, none, some, List, [], ◌∷◌, ◌++◌,
  map, arith, ◌=ˢ◌, Bool-cases, where_, any, find_row, up, ok, ◌∙◌, subst, ◌⊎◌, true, eq_iff, not,
  leb, ◌==◌, required,
}

abbrev pub mapped_list : AccessTables → RoleKind → ℕ → List String
mapped_list t kind role = map (λ m. m.action) (where_ (is_mapped kind role) t.mappings)

-- The role grants by its own actions or by the registered ones.
abbrev pub is_granted_by : AccessTables → RoleKind → ℕ → String → Option Role → Bool
is_granted_by t kind role permission none = false
is_granted_by t kind role permission (some r) =
    contains r.actions permission || contains (mapped_list t kind role) permission

abbrev pub is_granted_by_binding : AccessTables → String → Option ℕ → Bool
is_granted_by_binding t permission none = false
is_granted_by_binding t permission (some role) =
    is_granted_by t component role permission (find_row role_key role t.component_roles)

abbrev pub is_granted_to_owner :
    AccessTables → String → List String → String → Option Component → Bool
is_granted_to_owner t subject groups permission none = false
is_granted_to_owner t subject groups permission (some c) =
    is_owner subject groups c
    && elim (head_row (where_ (λ r. r.name =ˢ "component-admin") t.component_roles)) [
      | none ↦ false
      | some admin ↦ contains admin.actions permission
    ]

-- The binding is one of the component, for the subject or one of its groups, and has not lapsed.
abbrev pub is_applicable : ℕ → ℕ → String → List String → ComponentRoleBinding → Bool
is_applicable now c subject groups b =
    (b.component_id == c)
    && (elim b.expires_at [ none ↦ true | some t ↦ not (leb t now) ] && elim b.subject_type [
      | user ↦ b.subject_id =ˢ subject
      | group ↦ any (λ g. g =ˢ b.subject_id) groups
    ])

is_matching-eq :
    (now c : ℕ) (subject : String) (groups : List String) (b : ComponentRoleBinding)
    → is_matching now c subject groups b ≡ is_applicable now c subject groups b
is_matching-eq now c subject groups b = ground arith

pub matching-eq :
    (now c : ℕ) (subject : String) (groups : List String) (bs : List ComponentRoleBinding)
    → where_ (is_matching now c subject groups) bs ≡ where_ (is_applicable now c subject groups) bs
matching-eq now c subject groups [] = refl
matching-eq now c subject groups (b ∷ bs) =
    ground (arith, matching-eq now c subject groups bs, is_matching-eq now c subject groups b)

abbrev pub is_granted : AccessTables → ℕ → ℕ → String → List String → String → Bool
is_granted t now c subject groups permission =
    any (λ b. is_granted_by_binding t permission b.component_role_id)
      (where_ (is_applicable now c subject groups) t.bindings)
    || is_granted_to_owner t subject groups permission (find_row component_key c t.components)

contains-append :
    (xs ys : List String) (p : String) → contains (xs ++ ys) p ≡ contains xs p || contains ys p
contains-append [] ys p = refl
contains-append (x ∷ xs) ys p = ground (arith, contains-append xs ys p)

-- Collapsing duplicates loses nothing.
pub contains-add_actions :
    (actions xs : List String) (p : String)
    → contains (add_actions actions xs) p ≡ contains actions p || contains xs p
unfolding add_actions
contains-add_actions actions [] p = ground arith
contains-add_actions actions (x ∷ xs) p = elim (Bool-cases (contains actions x)) [
  | inl e ↦ rw e (contains-add_actions actions xs p ∙ known (Bool-cases (x =ˢ p)) e)
  | inr e ↦ rw e (
      ground
        (arith, contains-add_actions (actions ++ x ∷ []) xs p, contains-append actions (x ∷ []) p))
]
  where
    known :
        ((x =ˢ p) ≡ true) ⊎ ((x =ˢ p) ≡ false)
        → contains actions x ≡ true
        → contains actions p || contains xs p ≡ contains actions p || (x =ˢ p || contains xs p)
    known (inl q) e =
        let there : contains actions p ≡ true =
          subst (λ y. contains actions y ≡ true) ((eq_iff x p).0 q) e in
        ground (arith, there)
    known (inr q) e = ground (arith, q)

abbrev with_role_actions : AccessTables → ℕ → List String → Option Role → List String
with_role_actions t role actions none = actions
with_role_actions t role actions (some r) =
    add_actions (add_actions actions r.actions) (mapped_list t component role)

abbrev with_binding : AccessTables → List String → Option ℕ → List String
with_binding t actions none = actions
with_binding t actions (some role) =
    with_role_actions t role actions (find_row role_key role t.component_roles)

abbrev pub gathered : AccessTables → List ComponentRoleBinding → List String → List String
gathered t [] actions = actions
gathered t (b ∷ bs) actions = gathered t bs (with_binding t actions b.component_role_id)

module _ (t : AccessTables) (bs : List ComponentRoleBinding)
    (rest : (acts : List String)
      → add_bindings bs acts (up t) ≡ (ok (gathered t bs acts), up t)) where
  with_role-eq :
      (actions : List String) (role : ℕ) (o : Option Role)
      → with_role role actions (required o) (add_bindings bs) (up t)
        ≡ (ok (gathered t bs (with_role_actions t role actions o)), up t)
  with_role-eq actions role none = rest actions
  with_role-eq actions role (some r) =
      rest (add_actions (add_actions actions r.actions) (mapped_list t component role))

  add_binding-eq :
      (b : ComponentRoleBinding) (actions : List String) (o : Option ℕ)
      → b.component_role_id ≡ o
      → add_bindings (b ∷ bs) actions (up t) ≡ (ok (gathered t bs (with_binding t actions o)), up t)
  unfolding add_bindings
  add_binding-eq b actions none e = rw e (rest actions)
  add_binding-eq b actions (some role) e =
      rw e (with_role-eq actions role (find_row role_key role t.component_roles))

pub add_bindings-eq :
    (t : AccessTables) (bs : List ComponentRoleBinding) (actions : List String)
    → add_bindings bs actions (up t) ≡ (ok (gathered t bs actions), up t)
unfolding add_bindings
add_bindings-eq t [] actions = refl
add_bindings-eq t (b ∷ bs) actions =
    add_binding-eq t bs (add_bindings-eq t bs) b actions b.component_role_id refl

pub contains-gathered :
    (t : AccessTables) (bs : List ComponentRoleBinding) (actions : List String) (p : String)
    → contains (gathered t bs actions) p
      ≡ contains actions p || any (λ b. is_granted_by_binding t p b.component_role_id) bs
contains-gathered t [] actions p = ground arith
contains-gathered t (b ∷ bs) actions p = ground (
  arith,
  contains-gathered t bs (with_binding t actions b.component_role_id) p,
  step b.component_role_id,
)
  where
    roled :
        (role : ℕ) (o : Option Role)
        → contains (with_role_actions t role actions o) p
          ≡ contains actions p || is_granted_by t component role p o
    roled role none = ground arith
    roled role (some r) = ground (
      arith,
      contains-add_actions actions r.actions p,
      contains-add_actions (add_actions actions r.actions) (mapped_list t component role) p,
    )

    step :
        (o : Option ℕ)
        → contains (with_binding t actions o) p ≡ contains actions p || is_granted_by_binding t p o
    step none = ground arith
    step (some role) = roled role (find_row role_key role t.component_roles)
