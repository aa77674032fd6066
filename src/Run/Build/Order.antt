-- ===== src/Run/Build/Order.antt =====
-- The dependencies of a run point backwards.
use software_distribution_pl.Common.{
  ℕ, String, Bool, true, false, Option, List, [], ◌∷◌, ◌++◌, map, World, ◌≡◌, Holds, All,
  All-append, any, ◌=ˢ◌, arith, append_assoc, append-nil, eq_refl, if◌then◌else◌, Holds-weaken,
}
use software_distribution_pl.Run.Spec.{TaskSpec}
use software_distribution_pl.Run.Definitions.{Template, Stage}
use software_distribution_pl.Run.Tables.{Tables}
use software_distribution_pl.Run.Params.{VarSource}
use software_distribution_pl.Run.Build.{
  TriggerRequest, ComponentGuard, build_spec, predecessor, last_name, task_name, stages_of,
  templates_of,
}
use software_distribution_pl.Run.Build.Layers.{IsStage, IsLayered, Layered, build_spec-IsLayered}

abbrev pub Known : List String → String → Type 0
Known seen d = any (λ n. n =ˢ d) seen ≡ true

-- Each dependency is the name of a task before it.
abbrev pub IsOrdered : List String → List TaskSpec → Type 0
IsOrdered seen [] = Unit
IsOrdered seen (task ∷ tasks) =
    All (Known seen) task.depends_on × IsOrdered (task.name ∷ seen) tasks

Known-cons : (n : String) (seen : List String) (d : String) → Known seen d → Known (n ∷ seen) d
Known-cons n seen d h = ground arith

All-Known-cons :
    (n : String) (seen : List String) (ds : List String)
    → All (Known seen) ds
    → All (Known (n ∷ seen)) ds
All-Known-cons n seen [] h = tt
All-Known-cons n seen (d ∷ ds) h = (Known-cons n seen d h.0, All-Known-cons n seen ds h.1)

Known-self : (n : String) (seen : List String) → Known (n ∷ seen) n
Known-self n seen = ground (arith, eq_refl n)

last_name-All : (P : String → Type 0) (ns : List String) → All P ns → All P (last_name ns)
last_name-All P [] h = tt
last_name-All P (n ∷ []) h = h
last_name-All P (n ∷ m ∷ ns) h = last_name-All P (m ∷ ns) h.1

predecessor-All :
    (P : String → Type 0) (stage : Stage) (ns : List String)
    → All P ns
    → All P (predecessor stage ns)
predecessor-All P stage ns h = keep (stage.execution_mode =ˢ "serial")
  where
    keep : (b : Bool) → All P (if b then last_name ns else [])
    keep true = last_name-All P ns h
    keep false = tt

-- The tasks of one stage, and then what stands behind them.
IsStage-IsOrdered :
    (stage : Stage) (before names seen : List String) (tpls : List Template)
    (tasks later : List TaskSpec)
    → IsStage stage before names tpls tasks
    → All (Known seen) before
    → All (Known seen) names
    → ((more : List String)
        → All (Known more) (names ++ map task_name tasks)
        → IsOrdered more later)
    → IsOrdered seen (tasks ++ later)
IsStage-IsOrdered stage before names seen [] [] later h b n k = k seen (rw append-nil n)
IsStage-IsOrdered stage before names seen [] (x ∷ xs) later h b n k = absurd h
IsStage-IsOrdered stage before names seen (y ∷ ys) [] later h b n k = absurd h
IsStage-IsOrdered stage before names seen (y ∷ ys) (task ∷ tasks) later (_, _, _, deps, h) b n k = (
  rw deps (
      All-append (Known seen) before (predecessor stage names) b
        (predecessor-All (Known seen) stage names n)),
  IsStage-IsOrdered stage before (names ++ task.name ∷ []) (task.name ∷ seen) ys tasks later h
      (All-Known-cons task.name seen before b)
      (All-append (Known (task.name ∷ seen)) names (task.name ∷ [])
        (All-Known-cons task.name seen names n) (Known-self task.name seen, tt))
      (λ more m. k more (rw append_assoc at m)),
)

IsLayered-IsOrdered :
    (templates : ℕ → List Template) (before seen : List String) (stages : List Stage)
    (tasks : List TaskSpec)
    → All (Known seen) before
    → IsLayered templates before stages tasks
    → IsOrdered seen tasks
IsLayered-IsOrdered templates before seen [] tasks b h = rw h tt
IsLayered-IsOrdered templates before seen (stage ∷ stages) tasks b (here, later, e, s, l) = rw e (
    IsStage-IsOrdered stage before [] seen (templates stage.id) here later s b tt
      (λ more m. IsLayered-IsOrdered templates (map task_name here) more stages later m l))

-- Whatever statements the store refuses, every dependency in a run that buildSpec returns is the
-- name of a task before it in the list.
pub build_spec-IsOrdered :
    (guard : Option ComponentGuard) (vars : Option VarSource) (sa : String) (k : ℕ)
    (req : TriggerRequest) (w : World Tables)
    → Holds (λ spec. IsOrdered [] spec.tasks) (build_spec guard vars sa k req w).0
build_spec-IsOrdered guard vars sa k req w =
    Holds-weaken (Layered k w.tables) (λ spec. IsOrdered [] spec.tasks)
      (build_spec guard vars sa k req w).0
      (λ spec l.
        IsLayered-IsOrdered (λ s. templates_of s w.tables) [] [] (stages_of k w.tables) spec.tasks
          tt l)
      (build_spec-IsLayered guard vars sa k req w)
