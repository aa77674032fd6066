-- ===== src/Run/Status/Aside.antt =====
-- internal/run/service/pipeline_run.go: what a status update does beside the rows of the run and of
-- its tasks (messages, artifacts and rollouts) leaves the rows of runs and tasks.
use software_distribution_pl.Run.Creation.Seeds.{get_task_run, send}
use software_distribution_pl.Run.Status.{
  announce_end, upsert_for, save_rollout_of, TaskSummary, Sinks, tell, is_terminal,
}
use software_distribution_pl.Run.Definitions.{Stage}
use software_distribution_pl.Run.Tables.{
  TaskPhase, PipelineRun, TaskRun, RolloutRun, Message, Tables,
}
use software_distribution_pl.Run.Produced.{
  is_succeeded, template_keys, or_next_keys, find_keys, produces_for_task, hand_over,
  register_produced,
}
use software_distribution_pl.Run.Rollouts.{
  is_rollout_of, with_upsert, upsert_snapshot, RolloutSummary,
}
use software_distribution_pl.Common.{
  ℕ, ◌≤◌, String, ◌≡◌, refl, ◌∙◌, Bool, ◌&&◌, ◌||◌, not, Option, none, some, List, [], ◌∷◌, arith,
  find_where, Moves-pure, Moves-statement, Moves-if, Moves-regardless, Moves-bind, Moves-attempt,
  Moves, IsPreorder, Action, regardless, pure, query, Result, ok, err,
}
use software_distribution_pl.Run.Build.{get_pipeline, list_stages, list_templates}

pub record IsAside (t u : Tables) : Type 0 where
  pub same_runs : u.runs ≡ t.runs
  pub same_tasks : u.task_runs ≡ t.task_runs
  pub grows : t.next_id ≤ u.next_id

pub IsAside-IsPreorder : IsPreorder IsAside
IsAside-IsPreorder = record {
  same = λ t. record { same_runs = refl; same_tasks = refl; grows = omega arith };
  both = λ t u v a b. record {
    same_runs = b.same_runs ∙ a.same_runs;
    same_tasks = b.same_tasks ∙ a.same_tasks;
    grows = omega (arith, a.grows, b.grows);
  };
}

stays : (t : Tables) → IsAside t t
stays t = IsAside-IsPreorder.same t

read-IsAside : {A : Type 0} (g : Tables → Result A) → Moves IsAside (query g)
read-IsAside g = Moves-statement IsAside-IsPreorder (λ t. (g t, t)) stays

send-IsAside : (m : Message) → Moves IsAside (send m)
send-IsAside m = record {
  at = λ w. (record { same_runs = refl; same_tasks = refl; grows = omega arith }, λ e. e);
}

tell-IsAside : (b : Bool) (m : Message) → Moves IsAside (tell b m)
tell-IsAside b m = Moves-if b (send m) (pure tt) (send-IsAside m) (Moves-pure IsAside-IsPreorder tt)

module _ (s : Sinks) (now : ℕ) (run : PipelineRun) where
  pub announce_end-IsAside : Moves IsAside (announce_end s run)
  unfolding announce_end
  announce_end-IsAside =
      Moves-bind IsAside-IsPreorder (tell (s.has_finished_hook && is_terminal run.phase) _) _
        (tell-IsAside _ _) λ _. tell-IsAside _ _

  find_keys-IsAside : (name : String) (ss : List Stage) → Moves IsAside (find_keys name ss)
  unfolding find_keys
  find_keys-IsAside name [] = Moves-pure IsAside-IsPreorder []
  find_keys-IsAside name (x ∷ ss) =
      Moves-bind IsAside-IsPreorder (list_templates x.id) _ (read-IsAside _)
        λ tpls. either (template_keys name tpls) (find_keys-IsAside name ss)
    where
      either :
          (o : Option (Result (List String)))
          → Moves IsAside (find_keys name ss)
          → Moves IsAside (or_next_keys o (find_keys name ss))
      either none rest = rest
      either (some a) rest = record { at = λ w. (stays w.tables, λ e. e) }

  hand_over-IsAside :
      (task : ℕ) (name : String) (ks : List String)
      → Moves IsAside (hand_over s.short_id run task name ks)
  hand_over-IsAside task name [] = Moves-pure IsAside-IsPreorder tt
  hand_over-IsAside task name (x ∷ ks) =
      Moves-bind IsAside-IsPreorder (get_pipeline run.pipeline_id) _ (read-IsAside _) λ p. record {
        at = λ w. (record { same_runs = refl; same_tasks = refl; grows = omega arith }, λ e. e);
      }

  register_produced-IsAside :
      (name : String) (phase : TaskPhase)
      → Moves IsAside (register_produced s.has_registry s.short_id run name phase)
  unfolding register_produced produces_for_task
  register_produced-IsAside name phase =
      Moves-if (not s.has_registry || not (is_succeeded phase)) _ _
        (Moves-pure IsAside-IsPreorder tt)
        (Moves-bind IsAside-IsPreorder (get_task_run run.id name) _ (read-IsAside _) λ tr.
          Moves-bind IsAside-IsPreorder (produces_for_task run.pipeline_id name) _
            (Moves-bind IsAside-IsPreorder (list_stages run.pipeline_id) _ (read-IsAside _)
              λ stages. find_keys-IsAside name stages)
            λ keys. hand_over-IsAside tr.id name keys)

  with_upsert-IsAside :
      (task : ℕ) (x : RolloutSummary) (t : Tables) (o : Option RolloutRun)
      → IsAside t (with_upsert task x now t o)
  with_upsert-IsAside task x t none = record {
    same_runs = refl;
    same_tasks = refl;
    grows = omega arith;
  }
  with_upsert-IsAside task x t (some r) = record {
    same_runs = refl;
    same_tasks = refl;
    grows = omega arith;
  }

  save_rollout_of-IsAside :
      (b : Bool) (name : String) (o : Option RolloutSummary)
      → Moves IsAside (save_rollout_of b now run.id name o)
  unfolding save_rollout_of upsert_snapshot
  save_rollout_of-IsAside b name none = Moves-pure IsAside-IsPreorder tt
  save_rollout_of-IsAside b name (some x) =
      Moves-if b _ _
        (Moves-attempt IsAside-IsPreorder (get_task_run run.id name) _ (read-IsAside _) upserted)
        (Moves-pure IsAside-IsPreorder tt)
    where
      upserted : (f : Result TaskRun) → Moves IsAside (upsert_for now x f)
      upserted (err e) = Moves-pure IsAside-IsPreorder tt
      upserted (ok z) =
          Moves-regardless IsAside-IsPreorder (upsert_snapshot z.id x now) (pure tt)
            (Moves-statement IsAside-IsPreorder _
              λ t. with_upsert-IsAside z.id x t (find_where (is_rollout_of z.id) t.rollouts))
            (Moves-pure IsAside-IsPreorder tt)

  -- What follows the status of one task.
  abbrev pub after_task : TaskSummary → Action Tables (Unit {0})
  after_task u =
      regardless (register_produced s.has_registry s.short_id run u.name u.phase)
        (save_rollout_of s.has_rollouts now run.id u.name u.rollout)

  pub after_task-IsAside : (u : TaskSummary) → Moves IsAside (after_task u)
  after_task-IsAside u =
      Moves-regardless IsAside-IsPreorder
        (register_produced s.has_registry s.short_id run u.name u.phase) _
        (register_produced-IsAside u.name u.phase)
        (save_rollout_of-IsAside s.has_rollouts u.name u.rollout)
