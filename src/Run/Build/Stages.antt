-- ===== src/Run/Build/Stages.antt =====
-- internal/run/service/pipeline_run.go: the order and the dependencies of the tasks of a run, said of
-- the stored rows of its pipeline.
use software_distribution_pl.Run.Build.Layers.{IsStage, IsLayered, Layered, build_spec-IsLayered}
use software_distribution_pl.Run.Params.{VarSource}
use software_distribution_pl.Run.Build.{
  stages_of, templates_of, last_name, task_name, ComponentGuard, build_spec, TriggerRequest,
  predecessor,
}
use software_distribution_pl.Run.Definitions.{Stage, Template}
use software_distribution_pl.Run.Tables.{Tables}
use software_distribution_pl.Run.Spec.{TaskSpec, RunSpec}
use software_distribution_pl.Common.{
  ℕ, String, ◌≡◌, refl, ◌∙◌, subst, ◌≢◌, ◌⊎◌, inl, inr, Bool, true, false, Option, append-nil, List,
  [], ◌∷◌, ◌++◌, map, eq_iff, ◌==◌, ◌=ˢ◌, Bool-cases, Holds, Holds-weaken, sort_by-IsListing,
  IsListing, World,
}

-- A task of a serial stage waits for the one right before it too.
abbrev pub IsWaiting : Stage → List String → List String → List String → Type 0
IsWaiting stage before prior deps =
    ((stage.execution_mode ≡ "serial") × (deps ≡ before ++ prior))
    ⊎ ((stage.execution_mode ≢ "serial") × (deps ≡ before))

-- The tasks of one stage stand for its templates; `prior` is the task right before, if any.
abbrev pub InStage : Stage → List String → List String → List Template → List TaskSpec → Type 0
InStage stage before prior [] [] = Unit
InStage stage before prior [] (task ∷ tasks) = ⊥
InStage stage before prior (tpl ∷ tpls) [] = ⊥
InStage stage before prior (tpl ∷ tpls) (task ∷ tasks) =
    (task.name ≡ tpl.name)
    × (task.task_type ≡ tpl.task_type)
    × (task.stage ≡ stage.name)
    × IsWaiting stage before prior task.depends_on
    × InStage stage before (task.name ∷ []) tpls tasks

-- The stages stand one behind the other, each with its templates by display order.
abbrev pub InStages : List Template → List String → List Stage → List TaskSpec → Type 0
InStages table before [] tasks = tasks ≡ []
InStages table before (stage ∷ stages) tasks =
    (tpls : List Template) × (here : List TaskSpec) × (later : List TaskSpec) × (tasks
      ≡ here ++ later)
    × IsListing (λ x. x.display_order) (λ x. x.stage_id == stage.id) table tpls
    × InStage stage before [] tpls here
    × InStages table (map (λ x. x.name) here) stages later

-- The stages of the pipeline by sequence.
abbrev pub IsStaged : ℕ → Tables → RunSpec → Type 0
IsStaged k t spec =
    (stages : List Stage) × IsListing (λ s. s.sequence) (λ s. s.pipeline_id == k)
      t.definitions.stages stages
    × InStages t.definitions.templates [] stages spec.tasks

last_name-append : (ns : List String) (n : String) → last_name (ns ++ n ∷ []) ≡ n ∷ []
last_name-append [] n = refl
last_name-append (m ∷ []) n = refl
last_name-append (m ∷ l ∷ ns) n = last_name-append (l ∷ ns) n

predecessor-IsWaiting :
    (stage : Stage) (before names deps : List String)
    → deps ≡ before ++ predecessor stage names
    → IsWaiting stage before (last_name names) deps
predecessor-IsWaiting stage before names deps e =
    elim (Bool-cases (stage.execution_mode =ˢ "serial")) [
      | inl s ↦ inl ((eq_iff stage.execution_mode "serial").0 s, e ∙ rw s refl)
      | inr p ↦ inr (
        (λ q. absurd (true_false ((eq_iff stage.execution_mode "serial").1 q) p)),
        e ∙ rw (p, append-nil before) refl,
      )
    ]
  where
    true_false : {b : Bool} → b ≡ true → b ≡ false → ⊥
    true_false q r = cc

IsStage-InStage :
    (stage : Stage) (before names : List String) (tpls : List Template) (tasks : List TaskSpec)
    → IsStage stage before names tpls tasks
    → InStage stage before (last_name names) tpls tasks
IsStage-InStage stage before names [] [] h = tt
IsStage-InStage stage before names [] (x ∷ xs) h = absurd h
IsStage-InStage stage before names (y ∷ ys) [] h = absurd h
IsStage-InStage stage before names (y ∷ ys) (x ∷ xs) (name, kind, at, deps, h) = (
  name,
  kind,
  at,
  predecessor-IsWaiting stage before names x.depends_on deps,
  subst (λ p. InStage stage before p ys xs) (last_name-append names x.name)
      (IsStage-InStage stage before (names ++ x.name ∷ []) ys xs h),
)

IsLayered-InStages :
    (t : Tables) (before : List String) (stages : List Stage) (tasks : List TaskSpec)
    → IsLayered (λ s. templates_of s t) before stages tasks
    → InStages t.definitions.templates before stages tasks
IsLayered-InStages t before [] tasks h = h
IsLayered-InStages t before (s ∷ ss) tasks (here, later, e, st, l) = (
  templates_of s.id t,
  here,
  later,
  e,
  sort_by-IsListing (λ x. x.display_order) (λ x. x.stage_id == s.id) t.definitions.templates,
  IsStage-InStage s before [] (templates_of s.id t) here st,
  IsLayered-InStages t (map task_name here) ss later l,
)

-- Whatever statements the store refuses, the tasks of a run that buildSpec returns are, for some
-- list of the stored stages of the pipeline by rising sequence and for each of them some list of
-- its stored templates by rising display order, one task for each template with its name and type,
-- which waits for all tasks of the stage right before and, if the stage is serial and the task is
-- not its first, for the task before it, and for no other.
pub build_spec-IsStaged :
    (guard : Option ComponentGuard) (vars : Option VarSource) (sa : String) (k : ℕ)
    (req : TriggerRequest) (w : World Tables)
    → Holds (IsStaged k w.tables) (build_spec guard vars sa k req w).0
build_spec-IsStaged guard vars sa k req w =
    Holds-weaken (Layered k w.tables) (IsStaged k w.tables) (build_spec guard vars sa k req w).0
      (λ spec l. (
        stages_of k w.tables,
        sort_by-IsListing (λ s. s.sequence) (λ s. s.pipeline_id == k) w.tables.definitions.stages,
        IsLayered-InStages w.tables [] (stages_of k w.tables) spec.tasks l,
      ))
      (build_spec-IsLayered guard vars sa k req w)
