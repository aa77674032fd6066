-- ===== src/Access/FailClosed.antt =====
-- A permission is answered only when it is held, whatever statements the store refuses.
use software_distribution_pl.Access.Tables.{
  role_key, component_role_by_id, actions_for_role, ComponentRoleBinding, Role, RoleKind,
  AccessTables, contains, component, component_key, is_matching, list_matching, head_row,
  component_role_by_name, component_by_id, Component,
}
use software_distribution_pl.Access.Decisions.{
  add_actions, actions_or_none, mapped_actions, with_role, add_bindings, is_owner, owner_actions,
  with_owner, resolve_component_actions, has_permission,
}
use software_distribution_pl.Access.Grants.{
  mapped_list, is_granted_by, is_granted_by_binding, contains-add_actions, is_granted_to_owner,
  is_granted, is_applicable, matching-eq,
}
use software_distribution_pl.Common.{
  ℕ, String, ◌≡◌, refl, true, ◌||◌, Option, none, some, List, [], ◌∷◌, arith, Holds, Returns-pure,
  Returns-query, Returns-bind, Returns-attempt, Returns-weaken, Returns, any, find_row, Action,
  attempt, pure, Result, ok, err, subst, Bool, false, ◌=ˢ◌, where_, ◌>>=◌, World, required,
}

abbrev IsRead : AccessTables → ℕ → Role → Type 0
IsRead t role r = find_row role_key role t.component_roles ≡ some r

-- The registered actions, or none when the lookup fails.
mapped_actions-Returns :
    (t : AccessTables) (kind : RoleKind) (role : ℕ) (p : String)
    → Returns t
        (λ ms. contains ms p ≡ true → contains (mapped_list t kind role) p ≡ true)
        (mapped_actions kind role)
mapped_actions-Returns t kind role p =
    Returns-attempt (actions_for_role kind role) _
      (Returns-query {Q = λ ms. contains ms p ≡ true → contains (mapped_list t kind role) p ≡ true}
        (λ u. ok (mapped_list u kind role)) (λ h. h))
      answered
  where
    answered :
        (r : Result (List String))
        → Holds (λ ms. contains ms p ≡ true → contains (mapped_list t kind role) p ≡ true) r
        → Returns t
            (λ ms. contains ms p ≡ true → contains (mapped_list t kind role) p ≡ true)
            (pure (actions_or_none r))
    answered (ok ms) h = Returns-pure ms h
    answered (err e) h = Returns-pure [] (λ q. ground arith)

module _ (t : AccessTables) (p : String) where
  -- Nothing is held beyond `actions` and what the bindings grant.
  abbrev IsBounded : List String → List ComponentRoleBinding → List String → Type 0
  IsBounded actions bs acts =
      contains acts p ≡ true
      → (contains actions p || any (λ b. is_granted_by_binding t p b.component_role_id) bs) ≡ true

  with_role-Returns :
      (bs : List ComponentRoleBinding) (actions : List String) (role : ℕ) (r : Result Role)
      → ((acts : List String) → Returns t (IsBounded acts bs) (add_bindings bs acts))
      → Holds (IsRead t role) r
      → Returns t
          (λ acts.
            contains acts p ≡ true
            → (contains actions p
                || (is_granted_by t component role p (find_row role_key role t.component_roles)
                    || any (λ b. is_granted_by_binding t p b.component_role_id) bs))
              ≡ true)
          (with_role role actions r (add_bindings bs))
  with_role-Returns bs actions role (err e) rest h =
      Returns-weaken _ (λ acts k q. ground (arith, k q)) (rest actions)
  with_role-Returns bs actions role (ok r) rest h =
      Returns-bind (mapped_actions component role) _ (mapped_actions-Returns t component role p)
        λ ms k.
          Returns-weaken _
            (λ acts g q. rw h (
              ground (
                arith,
                g q,
                k,
                contains-add_actions actions r.actions p,
                contains-add_actions (add_actions actions r.actions) ms p,
              )))
            (rest (add_actions (add_actions actions r.actions) ms))

  component_role_by_id-Returns : (role : ℕ) → Returns t (IsRead t role) (component_role_by_id role)
  component_role_by_id-Returns role =
      Returns-query _ (found (find_row role_key role t.component_roles) refl)
    where
      found :
          (o : Option Role)
          → find_row role_key role t.component_roles ≡ o
          → Holds (IsRead t role) (required o)
      found none e = tt
      found (some r) e = e

  add_bindings-Returns :
      (bs : List ComponentRoleBinding) (actions : List String)
      → Returns t (IsBounded actions bs) (add_bindings bs actions)
  unfolding add_bindings
  add_bindings-Returns [] actions = Returns-pure actions (λ q. ground (arith, q))
  add_bindings-Returns (b ∷ bs) actions = bound b.component_role_id (add_bindings-Returns bs)
    where
      bound :
          (o : Option ℕ)
          → ((acts : List String) → Returns t (IsBounded acts bs) (add_bindings bs acts))
          → Returns t
              (λ acts.
                contains acts p ≡ true
                → (contains actions p
                    || (is_granted_by_binding t p o
                        || any (λ b. is_granted_by_binding t p b.component_role_id) bs))
                  ≡ true)
              (elim o as (λ _. Action AccessTables (List String)) [
                | none ↦ add_bindings bs actions
                | some role ↦
                    attempt
                      (component_role_by_id role)
                      λ r. with_role role actions r (add_bindings bs)
              ])
      bound none rest = Returns-weaken _ (λ acts k q. ground (arith, k q)) (rest actions)
      bound (some role) rest =
          Returns-attempt (component_role_by_id role) _ (component_role_by_id-Returns role)
            (λ r h. with_role-Returns bs actions role r rest h)

module _ (t : AccessTables) (subject : String) (groups : List String) (p : String) where
  component_by_id-Returns :
      (c : ℕ)
      → Returns t (λ row. find_row component_key c t.components ≡ some row) (component_by_id c)
  component_by_id-Returns c = Returns-query _ (found (find_row component_key c t.components) refl)
    where
      found :
          (o : Option Component)
          → find_row component_key c t.components ≡ o
          → Holds (λ row. find_row component_key c t.components ≡ some row) (required o)
      found none e = tt
      found (some r) e = e

  abbrev admin_row : Option Role
  admin_row = head_row (where_ (λ r. r.name =ˢ "component-admin") t.component_roles)

  component_role_by_name-Returns :
      Returns t (λ admin. admin_row ≡ some admin) (component_role_by_name "component-admin")
  component_role_by_name-Returns = Returns-query _ (found admin_row refl)
    where
      found :
          (o : Option Role) → admin_row ≡ o → Holds (λ admin. admin_row ≡ some admin) (required o)
      found none e = tt
      found (some r) e = e

  abbrev OwnerBound : ℕ → List String → Type 0
  OwnerBound c acts =
      contains acts p ≡ true
      → is_granted_to_owner t subject groups p (find_row component_key c t.components) ≡ true

  owner_actions-Returns : (c : ℕ) → Returns t (OwnerBound c) (owner_actions c subject groups)
  unfolding owner_actions
  owner_actions-Returns c =
      Returns-bind (component_by_id c) _ (component_by_id-Returns c)
        λ row e. decided row e (is_owner subject groups row) refl
    where
      decided :
          (row : Component)
          → find_row component_key c t.components ≡ some row
          → (b : Bool) → is_owner subject groups row ≡ b
          → Returns t (OwnerBound c) (elim b as (λ _. Action AccessTables (List String)) [
            | false ↦ pure []
            | true ↦ component_role_by_name "component-admin" >>= λ admin. pure admin.actions
          ])
      decided row e false i = Returns-pure [] (λ q. ground arith)
      decided row e true i =
          Returns-bind (component_role_by_name "component-admin") _ component_role_by_name-Returns
            λ admin f. Returns-pure admin.actions (λ q. rw (e, i, f) q)

  resolve-Returns :
      (now c : ℕ)
      → Returns t
          (λ acts. contains acts p ≡ true → is_granted t now c subject groups p ≡ true)
          (resolve_component_actions now c subject groups)
  unfolding resolve_component_actions
  resolve-Returns now c =
      Returns-bind (list_matching now c subject groups) _
        (Returns-query {Q = λ bs. bs ≡ where_ (is_applicable now c subject groups) t.bindings}
          (λ u. ok (where_ (is_matching now c subject groups) u.bindings))
          (matching-eq now c subject groups t.bindings))
        λ bs e. Returns-bind (add_bindings bs []) _ (add_bindings-Returns t p bs []) λ actions k.
          Returns-attempt (owner_actions c subject groups) _ (owner_actions-Returns c)
            (owned bs e actions k)
    where
      owned :
          (bs : List ComponentRoleBinding)
          → bs ≡ where_ (is_applicable now c subject groups) t.bindings
          → (actions : List String)
          → (contains actions p ≡ true
              → any (λ b. is_granted_by_binding t p b.component_role_id) bs ≡ true)
          → (r : Result (List String)) → Holds (OwnerBound c) r
          → Returns t
              (λ acts. contains acts p ≡ true → is_granted t now c subject groups p ≡ true)
              (pure (with_owner actions r))
      owned bs e actions k (ok acts) h = Returns-pure _ (λ q.
          subst
            (λ l.
              (any (λ b. is_granted_by_binding t p b.component_role_id) l
                || is_granted_to_owner t subject groups p (find_row component_key c t.components))
              ≡ true)
            e (ground (arith, k, h, q, contains-add_actions actions acts p)))
      owned bs e actions k (err x) h = Returns-pure _ (λ q.
          subst
            (λ l.
              (any (λ b. is_granted_by_binding t p b.component_role_id) l
                || is_granted_to_owner t subject groups p (find_row component_key c t.components))
              ≡ true)
            e (ground (arith, k q)))

  pub has_permission-Returns :
      (now c : ℕ)
      → Returns t
          (λ b. b ≡ true → is_granted t now c subject groups p ≡ true)
          (has_permission now c subject groups p)
  unfolding has_permission
  has_permission-Returns now c =
      Returns-bind (resolve_component_actions now c subject groups) _ (resolve-Returns now c)
        λ acts k. Returns-pure (contains acts p) k

-- When HasPermission answers true, whatever statements the store refused, the subject holds the
-- permission by the tables: by the role of a binding of the component that matches the subject or
-- one of its groups and is in force, or as the owner by the component-admin role.
pub has_permission_granted :
    (now c : ℕ) (subject : String) (groups : List String) (permission : String)
    (w : World AccessTables)
    → (has_permission now c subject groups permission w).0 ≡ ok true
    → is_granted w.tables now c subject groups permission ≡ true
has_permission_granted now c subject groups permission w e =
    subst (Holds (λ b. b ≡ true → is_granted w.tables now c subject groups permission ≡ true)) e
      ((has_permission-Returns w.tables subject groups permission now c).at w refl).1 refl
