-- ===== src/Run/Build/Layers.antt =====
-- The tasks of a run as the layers that the stages of its pipeline make.
use software_distribution_pl.Common.{
  ℕ, String, Option, none, some, List, [], ◌∷◌, ◌++◌, map, World, ok, ◌≡◌, refl, Holds, Returns,
  Returns-bind, Returns-pure, Returns-query, Returns-fail, subst, lift, if◌then◌else◌, ◌=ˢ◌, pure,
  fail, conflict, Holds-any, Holds-with_ok, Returns-lift, Returns-if, no_tasks,
}
use software_distribution_pl.Run.Spec.{TaskSpec, RunSpec, Param}
use software_distribution_pl.Run.Definitions.{Template, Stage}
use software_distribution_pl.Run.Tables.{Tables}
use software_distribution_pl.Run.Params.{VarSource, trigger_params}
use software_distribution_pl.Run.Build.{
  TriggerRequest, ComponentGuard, template_to_task_spec, build_tasks, build_stages, build_spec,
  predecessor, task_name, templates_of, stages_of, guard_lifecycle, decode_template, task_of,
  unless_empty,
}

-- The tasks of one stage stand for its templates in order. Each waits for the whole stage before
-- and, in a serial stage, for the task before it.
abbrev pub IsStage : Stage → List String → List String → List Template → List TaskSpec → Type 0
IsStage stage before names [] [] = Unit
IsStage stage before names [] (task ∷ tasks) = ⊥
IsStage stage before names (tpl ∷ tpls) [] = ⊥
IsStage stage before names (tpl ∷ tpls) (task ∷ tasks) =
    (task.name ≡ tpl.name)
    × (task.task_type ≡ tpl.task_type)
    × (task.stage ≡ stage.name)
    × (task.depends_on ≡ before ++ predecessor stage names)
    × IsStage stage before (names ++ task.name ∷ []) tpls tasks

-- The stages stand one behind the other, each waiting for the one before.
abbrev pub IsLayered : (ℕ → List Template) → List String → List Stage → List TaskSpec → Type 0
IsLayered templates before [] tasks = tasks ≡ []
IsLayered templates before (stage ∷ stages) tasks =
    (here : List TaskSpec) × (later : List TaskSpec) × (tasks ≡ here ++ later)
    × IsStage stage before [] (templates stage.id) here
    × IsLayered templates (map task_name here) stages later

-- What a template becomes before it is placed.
abbrev IsTask : Template → TaskSpec → Type 0
IsTask tpl task = (task.name ≡ tpl.name) × (task.task_type ≡ tpl.task_type) × (task.depends_on ≡ [])

template_to_task_spec-IsTask :
    (params : List Param) (tpl : Template) → Holds (IsTask tpl) (template_to_task_spec params tpl)
unfolding template_to_task_spec
template_to_task_spec-IsTask params tpl =
    Holds-with_ok (λ _. Unit) (IsTask tpl) (decode_template params tpl)
      (λ d. ok (task_of params tpl d)) (Holds-any (decode_template params tpl))
      λ d _. (refl, refl, refl)

build_tasks-IsStage :
    (params : List Param) (stage : Stage) (before names : List String) (tpls : List Template)
    → Holds (IsStage stage before names tpls) (build_tasks params stage before names tpls)
unfolding build_tasks
build_tasks-IsStage params stage before names [] = tt
build_tasks-IsStage params stage before names (tpl ∷ tpls) =
    Holds-with_ok (IsTask tpl) (IsStage stage before names (tpl ∷ tpls)) _ _
      (template_to_task_spec-IsTask params tpl)
      λ task same.
        Holds-with_ok (IsStage stage before (names ++ task.name ∷ []) tpls)
          (IsStage stage before names (tpl ∷ tpls)) _ _
          (build_tasks-IsStage params stage before (names ++ task.name ∷ []) tpls)
          λ rest h. (same.0, same.1, refl, rw same.2 refl, h)

build_stages-IsLayered :
    (t : Tables) (params : List Param) (before : List String) (stages : List Stage)
    → Returns t
        (IsLayered (λ k. templates_of k t) before stages)
        (build_stages params before stages)
unfolding build_stages
build_stages-IsLayered t params before [] = Returns-pure [] refl
build_stages-IsLayered t params before (stage ∷ stages) =
    Returns-bind {Q = λ tpls. tpls ≡ templates_of stage.id t} _ _ (Returns-query _ refl) λ tpls e.
      Returns-bind {Q = IsStage stage before [] tpls} _ _
        (Returns-lift (build_tasks params stage before [] tpls)
          (build_tasks-IsStage params stage before [] tpls))
        λ here h.
          Returns-bind {Q = IsLayered (λ k. templates_of k t) (map task_name here) stages} _ _
            (build_stages-IsLayered t params (map task_name here) stages)
            λ later l.
              Returns-pure (here ++ later)
                (here, later, refl, subst (λ x. IsStage stage before [] x here) e h, l)

guard_lifecycle-Returns :
    (t : Tables) (guard : Option ComponentGuard) (c : ℕ)
    → Returns t (λ _. Unit) (guard_lifecycle guard c)
guard_lifecycle-Returns t none c = Returns-pure tt tt
guard_lifecycle-Returns t (some g) c =
    Returns-bind {Q = λ _. Unit} (lift (g c))
      (λ lc. if lc =ˢ "deprecated" then fail conflict else pure tt)
      (Returns-lift (g c) (Holds-any (g c)))
      λ lc _.
        Returns-if (lc =ˢ "deprecated") (fail conflict) (pure tt) (Returns-fail conflict)
          (Returns-pure tt tt)

unless_empty-Returns :
    (t : Tables) (Q : RunSpec → Type 0) (tasks : List TaskSpec) (spec : RunSpec)
    → Q spec
    → Returns t Q (unless_empty tasks spec)
unless_empty-Returns t Q [] spec q = Returns-fail no_tasks
unless_empty-Returns t Q (x ∷ xs) spec q = Returns-pure spec q

abbrev pub Layered : ℕ → Tables → RunSpec → Type 0
Layered k t spec = IsLayered (λ s. templates_of s t) [] (stages_of k t) spec.tasks

-- What follows the lookup of the pipeline.
pub build_spec-Returns :
    (t : Tables) (guard : Option ComponentGuard) (vars : Option VarSource) (sa : String) (k : ℕ)
    (req : TriggerRequest)
    → Returns t (Layered k t) (build_spec guard vars sa k req)
unfolding build_spec
build_spec-Returns t guard vars sa k req =
    Returns-bind {Q = λ _. Unit} _ _ (Returns-query _ (Holds-any _)) λ p _.
      Returns-bind {Q = λ _. Unit} _ _ (guard_lifecycle-Returns t guard p.component_id) λ _ _.
        Returns-bind {Q = λ ss. ss ≡ stages_of k t} _ _ (Returns-query _ refl) λ stages e.
          Returns-bind _ _ (build_stages-IsLayered t (trigger_params vars p req.params) [] stages)
            λ tasks l.
              unless_empty-Returns t (Layered k t) tasks _
                (subst (λ ss. IsLayered (λ s. templates_of s t) [] ss tasks) e l)

-- Whatever statements the store refuses, a run that buildSpec returns has the tasks of the stages
-- in sequence and of their templates in display order, each waiting for all tasks of the stage
-- right before and, in a serial stage, for the task before it.
pub build_spec-IsLayered :
    (guard : Option ComponentGuard) (vars : Option VarSource) (sa : String) (k : ℕ)
    (req : TriggerRequest) (w : World Tables)
    → Holds (Layered k w.tables) (build_spec guard vars sa k req w).0
build_spec-IsLayered guard vars sa k req w =
    ((build_spec-Returns w.tables guard vars sa k req).at w refl).1
