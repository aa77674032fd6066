-- ===== src/Run/Params/Tiers.antt =====
-- The value of each parameter of a trigger, by the order of the tiers.
use software_distribution_pl.Run.Definitions.{PipelineDef}
use software_distribution_pl.Common.{
  String, Bool, false, Option, none, some, List, [], ◌∷◌, ◌=ˢ◌, if◌then◌else◌, ◌≡◌, refl, eq_iff,
  arith, any, ◌||◌, ℕ, ◌≢◌,
}
use software_distribution_pl.Run.Spec.{Param}
use software_distribution_pl.Run.Params.{
  put, param_value, decode_param_decls, add_param, add_params, component_tiers, trigger_params,
  VarSource, defaults,
}

-- The first value that is there.
abbrev pub or_else : Option String → Option String → Option String
or_else (some v) o = some v
or_else none o = o

abbrev pub is_named : String → Param → Bool
is_named k p = p.name =ˢ k

-- Every name occurs once.
abbrev pub Distinct : List Param → Type 0
Distinct [] = Unit
Distinct (p ∷ ps) = (any (is_named p.name) ps ≡ false) × Distinct ps

any-put :
    (k n v : String) (ps : List Param)
    → any (is_named k) (put n v ps) ≡ (any (is_named k) ps || (n =ˢ k))
unfolding put
any-put k n v [] = ground arith
any-put k n v (p ∷ ps) =
    ground (arith, any-put k n v ps, eq_iff p.name n, eq_iff p.name k, eq_iff n k)

put-Distinct : (n v : String) (ps : List Param) → Distinct ps → Distinct (put n v ps)
unfolding put
put-Distinct n v [] h = (refl, tt)
put-Distinct n v (p ∷ ps) h =
    ground (arith, put-Distinct n v ps h.1, any-put p.name n v ps, eq_iff p.name n, eq_iff n p.name)

param_value-absent :
    (k : String) (ps : List Param) → any (is_named k) ps ≡ false → param_value k ps ≡ none
unfolding param_value
param_value-absent k [] h = refl
param_value-absent k (p ∷ ps) h = ground (arith, param_value-absent k ps)

param_value-put :
    (k n v : String) (ps : List Param)
    → Distinct ps
    → param_value k (put n v ps) ≡ (if n =ˢ k then some v else param_value k ps)
unfolding param_value put
param_value-put k n v [] h = ground arith
param_value-put k n v (p ∷ ps) h = ground (
  arith,
  param_value-put k n v ps h.1,
  param_value-absent k ps,
  eq_iff p.name n,
  eq_iff p.name k,
  eq_iff n k,
)

add_param-Distinct : (n v : String) (ps : List Param) → Distinct ps → Distinct (add_param n v ps)
unfolding add_param
add_param-Distinct n v ps h = ground (arith, put-Distinct n v ps h)

add_params-Distinct : (ps out : List Param) → Distinct out → Distinct (add_params ps out)
unfolding add_params
add_params-Distinct [] out h = h
add_params-Distinct (p ∷ ps) out h =
    add_params-Distinct ps (add_param p.name p.value out) (add_param-Distinct p.name p.value out h)

param_value-add_param :
    (k n v : String) (ps : List Param)
    → k ≢ ""
    → Distinct ps
    → param_value k (add_param n v ps) ≡ (if n =ˢ k then some v else param_value k ps)
unfolding add_param
param_value-add_param k n v ps e h =
    ground (arith, e, param_value-put k n v ps h, eq_iff n k, eq_iff n "")

param_value-add_params :
    (k : String) (ps out : List Param)
    → k ≢ ""
    → Distinct out
    → param_value k (add_params ps out) ≡ or_else (param_value k ps) (param_value k out)
unfolding add_params param_value
param_value-add_params k [] out e h = refl
param_value-add_params k (p ∷ ps) out e h = ground (
  arith,
  param_value-add_params k ps (add_param p.name p.value out) e
      (add_param-Distinct p.name p.value out h),
  param_value-add_param k p.name p.value out e h,
)

-- What the tiers of a pipeline say of a name, the strongest first.
abbrev pub component_value : Option VarSource → ℕ → String → Option String
component_value none c k = none
component_value (some v) c k =
    or_else (param_value k (v.component_params c)) (param_value k (v.group_params c))

component_tiers-Distinct :
    (vars : Option VarSource) (c : ℕ) (out : List Param)
    → Distinct out
    → Distinct (component_tiers vars c out)
component_tiers-Distinct none c out h = h
component_tiers-Distinct (some v) c out h =
    add_params-Distinct (v.component_params c) (add_params (v.group_params c) out)
      (add_params-Distinct (v.group_params c) out h)

or_else-none : (o : Option String) → or_else o none ≡ o
or_else-none none = refl
or_else-none (some v) = refl

param_value-component_tiers :
    (k : String) (vars : Option VarSource) (c : ℕ) (out : List Param)
    → k ≢ ""
    → Distinct out
    → param_value k (component_tiers vars c out)
      ≡ or_else (component_value vars c k) (param_value k out)
param_value-component_tiers k none c out e h = refl
param_value-component_tiers k (some v) c out e h = ground (
  arith,
  param_value-add_params k (v.component_params c) (add_params (v.group_params c) out) e
      (add_params-Distinct (v.group_params c) out h),
  param_value-add_params k (v.group_params c) out e h,
)

-- The parameters of a trigger have names of their own, and each name has the value of the
-- strongest tier that gives one: the inputs, then the variables of the component, then those of
-- its groups, then the declared defaults.
pub trigger_params_tiers :
    (vars : Option VarSource) (p : PipelineDef) (inputs : List Param) (k : String)
    → k ≢ ""
    → Distinct (trigger_params vars p inputs)
      × (param_value k (trigger_params vars p inputs)
          ≡ or_else (param_value k inputs) (
              or_else
                (component_value vars p.component_id k)
                (param_value k (defaults (decode_param_decls p.params)))))
unfolding trigger_params param_value
trigger_params_tiers vars p inputs k e =
    let declared = defaults (decode_param_decls p.params) in
    let base = add_params declared [] in
    let base_ok : Distinct base = add_params-Distinct declared [] tt in
    let tiers = component_tiers vars p.component_id base in
    let tiers_ok : Distinct tiers = component_tiers-Distinct vars p.component_id base base_ok in
    (
      add_params-Distinct inputs tiers tiers_ok,
      cc (
        param_value-add_params k inputs tiers e tiers_ok,
        param_value-component_tiers k vars p.component_id base e base_ok,
        param_value-add_params k declared [] e tt,
        or_else-none (param_value k declared),
      ),
    )
