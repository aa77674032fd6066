-- ===== src/Access/Tables.antt =====
-- internal/permission/models and the queries of internal/permission/repository that an authorization
-- reads. A JSON column of actions is the list that it decodes to, [] when it does not.
use software_distribution_pl.Common.{
  ℕ, String, Bool, true, false, ◌&&◌, Option, none, some, List, [], ◌∷◌, map, ltb, ◌==◌, ◌=ˢ◌,
  where_, any, find_row, Action, query, ok, ◌>>=◌, pure, required,
}

pub data SubjectType : Type 0 where
  user group : SubjectType

pub record ComponentRoleBinding : Type 0 where
  pub component_id : ℕ
  pub subject_type : SubjectType
  pub subject_id : String
  pub component_role_id : Option ℕ
  pub expires_at : Option ℕ

pub record PlatformRoleBinding : Type 0 where
  pub org_id : Option ℕ
  pub subject_type : SubjectType
  pub subject_id : String
  pub platform_role_id : ℕ
  pub expires_at : Option ℕ

-- A component role or a platform role.
pub record Role : Type 0 where
  pub id : ℕ
  pub name : String
  pub actions : List String

pub data RoleKind : Type 0 where
  component platform : RoleKind

pub record RoleApiMapping : Type 0 where
  pub kind : RoleKind
  pub role_id : ℕ
  pub action : String

pub record Component : Type 0 where
  pub id : ℕ
  pub owner_sub : Option String
  pub owner_group : Option String

-- The only resource type that is consulted is the component.
pub record ResourceOwnership : Type 0 where
  pub resource_id : ℕ
  pub owner_org : ℕ
  pub allowed_orgs : List ℕ

-- The pipelines and the runs, as far as they say to whom they belong.
pub record PipelineOwner : Type 0 where
  pub id : ℕ
  pub component_id : ℕ

pub record RunOwner : Type 0 where
  pub id : ℕ
  pub pipeline_id : ℕ

pub record Org : Type 0 where
  pub id : ℕ
  pub slug : String

pub record AccessTables : Type 0 where
  pub bindings : List ComponentRoleBinding
  pub platform_bindings : List PlatformRoleBinding
  pub component_roles : List Role
  pub platform_roles : List Role
  pub mappings : List RoleApiMapping
  pub components : List Component
  pub ownerships : List ResourceOwnership
  pub pipelines : List PipelineOwner
  pub runs : List RunOwner
  pub orgs : List Org

abbrev pub role_key : Role → ℕ
role_key r = r.id

abbrev pub component_key : Component → ℕ
component_key c = c.id

abbrev pub ownership_key : ResourceOwnership → ℕ
ownership_key o = o.resource_id

abbrev pub contains : List String → String → Bool
contains haystack needle = any (λ h. h =ˢ needle) haystack

-- The user of that subject, or a group that the subject belongs to.
abbrev pub is_subject : String → List String → SubjectType → String → Bool
is_subject subject groups user who = who =ˢ subject
is_subject subject groups group who = contains groups who

-- expires_at IS NULL OR expires_at > now
abbrev pub is_in_force : ℕ → Option ℕ → Bool
is_in_force now none = true
is_in_force now (some t) = ltb now t

abbrev pub is_matching : ℕ → ℕ → String → List String → ComponentRoleBinding → Bool
is_matching now c subject groups b =
    (b.component_id == c)
    && (is_subject subject groups b.subject_type b.subject_id && is_in_force now b.expires_at)

abbrev pub list_matching :
    ℕ → ℕ → String → List String → Action AccessTables (List ComponentRoleBinding)
list_matching now c subject groups =
    query λ t. ok (where_ (is_matching now c subject groups) t.bindings)

-- A global binding, or one of the organization that is asked for.
abbrev pub is_in_org : Option ℕ → Option ℕ → Bool
is_in_org asked none = true
is_in_org none (some o) = false
is_in_org (some a) (some o) = o == a

abbrev pub is_platform_matching : ℕ → Option ℕ → String → List String → PlatformRoleBinding → Bool
is_platform_matching now org subject groups b =
    is_subject subject groups b.subject_type b.subject_id
    && (is_in_org org b.org_id && is_in_force now b.expires_at)

abbrev pub list_platform_matching :
    ℕ → Option ℕ → String → List String → Action AccessTables (List PlatformRoleBinding)
list_platform_matching now org subject groups =
    query λ t. ok (where_ (is_platform_matching now org subject groups) t.platform_bindings)

abbrev pub component_role_by_id : ℕ → Action AccessTables Role
component_role_by_id k = query λ t. required (find_row role_key k t.component_roles)

abbrev pub platform_role_by_id : ℕ → Action AccessTables Role
platform_role_by_id k = query λ t. required (find_row role_key k t.platform_roles)

abbrev pub head_row : {A : Type 0} → List A → Option A
head_row [] = none
head_row (x ∷ xs) = some x

abbrev pub component_role_by_name : String → Action AccessTables Role
component_role_by_name name =
    query λ t. required (head_row (where_ (λ r. r.name =ˢ name) t.component_roles))

abbrev pub kind_code : RoleKind → ℕ
kind_code component = 0
kind_code platform = 1

abbrev pub is_mapped : RoleKind → ℕ → RoleApiMapping → Bool
is_mapped kind role m = (kind_code m.kind == kind_code kind) && (m.role_id == role)

abbrev pub actions_for_role : RoleKind → ℕ → Action AccessTables (List String)
actions_for_role kind role =
    query λ t. ok (map (λ m. m.action) (where_ (is_mapped kind role) t.mappings))

abbrev pub component_by_id : ℕ → Action AccessTables Component
component_by_id k = query λ t. required (find_row component_key k t.components)

abbrev pub ownership_of : ℕ → Action AccessTables ResourceOwnership
ownership_of k = query λ t. required (find_row ownership_key k t.ownerships)

abbrev pub component_of_pipeline : ℕ → Action AccessTables ℕ
component_of_pipeline k =
    (query λ t. required (find_row (λ p. p.id) k t.pipelines)) >>= λ (p : PipelineOwner).
    pure p.component_id

abbrev pub component_of_run : ℕ → Action AccessTables ℕ
component_of_run k = (query λ t. required (find_row (λ r. r.id) k t.runs)) >>= λ (r : RunOwner).
    component_of_pipeline r.pipeline_id

-- IDsBySlugs, as the list of the pairs that it finds.
abbrev pub orgs_by_slugs : List String → Action AccessTables (List Org)
orgs_by_slugs slugs = query λ t. ok (where_ (λ o. contains slugs o.slug) t.orgs)
