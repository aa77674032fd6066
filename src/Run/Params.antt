-- ===== src/Run/Params.antt =====
-- internal/run/service/pipeline_run_params.go: the parameters of a trigger, and the replacement of
-- `${KEY}` in the texts of a task. The variables of a component and of its groups come from the
-- interface VarSource of that file.
use Prim.Native.Char.{Char, code}
use Prim.Native.String.{◌++◌ as text_append}
pub mod Tiers
pub mod Replacement
use software_distribution_pl.Common.{
  ℕ, String, Bool, true, false, ◌&&◌, ◌||◌, Option, none, some, List, [], ◌∷◌, ◌++◌, map, leb, ◌==◌,
  ◌=ˢ◌, if◌then◌else◌, not,
}
use software_distribution_pl.Run.Spec.{Param, ReleaseSpec, ChartSource}
use software_distribution_pl.Run.Definitions.{Column, value, ParamDecl, PipelineDef}

pub record VarSource : Type 0 where
  pub component_params : ℕ → List Param
  pub group_params : ℕ → List Param

-- DecodeParamDecls: a body that is empty or does not decode declares nothing.
abbrev pub decode_param_decls : Column (List ParamDecl) → List ParamDecl
decode_param_decls (value ds) = ds
decode_param_decls _ = []

abbrev pub param : String → String → Param
param n v = record { name = n; value = v }

-- The value of a known name changes in place; a new name goes to the end.
unfoldable pub put : String → String → List Param → List Param
put n v [] = param n v ∷ []
put n v (p ∷ ps) = if p.name =ˢ n then param p.name v ∷ ps else p ∷ put n v ps

-- The closure `add`; a parameter without a name is dropped.
unfoldable pub add_param : String → String → List Param → List Param
unfolding put
add_param n v out = if n =ˢ "" then out else put n v out

unfoldable pub add_params : List Param → List Param → List Param
unfolding add_param
add_params [] out = out
add_params (p ∷ ps) out = add_params ps (add_param p.name p.value out)

-- The declared defaults; an empty default is none.
abbrev pub defaults : List ParamDecl → List Param
defaults [] = []
defaults (d ∷ ds) = if d.default =ˢ "" then defaults ds else param d.name d.default ∷ defaults ds

abbrev pub component_tiers : Option VarSource → ℕ → List Param → List Param
component_tiers none c out = out
component_tiers (some v) c out =
    add_params (v.component_params c) (add_params (v.group_params c) out)

unfoldable pub trigger_params : Option VarSource → PipelineDef → List Param → List Param
unfolding add_params
trigger_params vars p inputs =
    add_params inputs
      (component_tiers vars p.component_id (add_params (defaults (decode_param_decls p.params)) []))

-- The entry of a name in the map that paramsMap makes: the last value wins.
unfoldable pub param_value : String → List Param → Option String
param_value n [] = none
param_value n (p ∷ ps) = elim (param_value n ps) [
  | some v ↦ some v
  | none ↦ if p.name =ˢ n then some p.value else none
]

-- [A-Za-z_] and [A-Za-z0-9_].
abbrev pub is_letter : Char → Bool
is_letter c =
    (leb b'A' (code c) && leb (code c) b'Z')
    || (leb b'a' (code c) && leb (code c) b'z')
    || (code c == b'_')

abbrev pub is_key_char : Char → Bool
is_key_char c = is_letter c || (leb b'0' (code c) && leb (code c) b'9')

abbrev pub is_dollar : Char → Bool
is_dollar c = code c == b'$'

abbrev pub is_open : Char → Bool
is_open c = code c == b'{'

abbrev pub is_close : Char → Bool
is_close c = code c == b'}'

abbrev pub letter : Char → String
letter c = String.◌∷◌ c String.[]

-- A key as it stands in a text, without its closing brace.
abbrev pub opened : String → String
opened k = text_append "${" k

-- What a placeholder becomes: the value of its key, or itself.
abbrev pub replaced : List Param → String → String
replaced params k = elim (param_value k params) [ some v ↦ v | none ↦ text_append (opened k) "}" ]

-- How far the pattern has matched at the current position: not at all, the dollar, or the dollar,
-- the brace and a part of the key.
pub data Matched : Type 0 where
  nothing dollar : Matched
  key : String → Matched

-- May the key go on with this character?
abbrev pub extends : String → Char → Bool
extends k c = if k =ˢ "" then is_letter c else is_key_char c

-- ReplaceAllStringFunc with the pattern \$\{([A-Za-z_][A-Za-z0-9_]*)\}.
unfoldable pub replace_all : List Param → Matched → String → String
replace_all ps nothing String.[] = ""
replace_all ps dollar String.[] = "$"
replace_all ps (key k) String.[] = opened k
replace_all ps nothing (String.◌∷◌ c s) =
    let start = replace_all ps dollar s in
    let rest = replace_all ps nothing s in if is_dollar c then start else String.◌∷◌ c rest
replace_all ps dollar (String.◌∷◌ c s) =
    let braced = replace_all ps (key "") s in
    let start = replace_all ps dollar s in
    let rest = replace_all ps nothing s in
    if is_open c then braced else text_append "$" (if is_dollar c then start else String.◌∷◌ c rest)
replace_all ps (key k) (String.◌∷◌ c s) =
    let longer = replace_all ps (key (text_append k (letter c))) s in
    let start = replace_all ps dollar s in
    let rest = replace_all ps nothing s in
    if extends k c
    then longer
    else if is_close c && not (k =ˢ "")
    then text_append (replaced ps k) rest
    else text_append (opened k) (if is_dollar c then start else String.◌∷◌ c rest)

-- strings.Contains(s, "${").
abbrev pub follows_dollar : Bool → String → Bool
follows_dollar after String.[] = false
follows_dollar after (String.◌∷◌ c s) = (after && is_open c) || follows_dollar (is_dollar c) s

unfoldable pub substitute_params : List Param → String → String
unfolding replace_all
substitute_params [] s = s
substitute_params (p ∷ ps) s =
    if not (follows_dollar false s) then s else replace_all (p ∷ ps) nothing s

abbrev pub substitute_params_slice : List Param → List String → List String
substitute_params_slice params = map (substitute_params params)

abbrev pub substitute_version : List Param → ChartSource → ChartSource
substitute_version params c = record c { version = substitute_params params c.version }

abbrev map_some : {A : Type 0} → (A → A) → Option A → Option A
map_some f none = none
map_some f (some a) = some (f a)

unfoldable pub substitute_release_spec : List Param → ReleaseSpec → ReleaseSpec
substitute_release_spec [] rs = rs
substitute_release_spec (p ∷ ps) rs =
    let params = p ∷ ps in
    record rs {
      manifest = map_some (substitute_params params) rs.manifest;
      chart = map_some (substitute_version params) rs.chart;
      values = map (λ e. (e.0, substitute_params params e.1)) rs.values;
      target_namespace = substitute_params params rs.target_namespace;
    }
