-- ===== src/Pipeline/Versions/History.antt =====
-- What publishing and rolling back leave of the recorded versions and of the pipeline's row, whatever
-- statements the store refuses.
use mathlib.Core.Option.{some-injective}
use software_distribution_pl.Pipeline.Snapshot.{
  Pipeline, PipelineStage, TaskTemplate, SnapshotTask, SnapshotStage, Snapshot,
}
use software_distribution_pl.Pipeline.Versions.{
  a_stage, get_pipeline, list_by_pipeline_id, list_by_stage_id, create_stage, create_template,
  delete_templates, delete_stage, load_templates, current_snapshot, clear_stages, clear_structure,
  create_tasks, unless_same, get_version, PipelineVersion, Catalog, record_version, rollback,
  materialize, publish, materialized, latest, found, pipeline_key, update_pipeline, readable,
  version_after, rolled_back, required,
}
use software_distribution_pl.Common.{
  ℕ, String, Bool, Option, List, [], ◌∷◌, ◌==◌, Keeps-pure, Keeps-fail, Keeps-statement, Keeps-if,
  Keeps-elim, Keeps-bind, Keeps-attempt, Keeps, attempt, query, Result, not_found, bad_request, ok,
  err, ◌+◌, ◌≤◌, ◌≡◌, sym, ap, ◌∙◌, true, some, append_assoc, append-nil, ◌++◌, Keeps-read,
  find_row, lift, World, refl, false, none, arith, if◌then◌else◌, map_option, find_row-key,
  find_row-save,
}

-- What the three writes of the service keep, Publish and Rollback keep.
module _ {Body : Type 0} (marshal : Snapshot → Body) (decode : Body → Option Snapshot)
    (same_body : Body → Body → Bool) (P : Catalog Body → Type 0)
    (structures : (t : Catalog Body) (stages : List PipelineStage) (templates : List TaskTemplate)
        (n : ℕ)
      → P t
      → P (record t { stages = stages; templates = templates; next_id = n }))
    (records : (k : ℕ) (body : Body) (who : String) → Keeps P (record_version k body who)) where
  reads : {A : Type 0} (f : Catalog Body → Result A) → Keeps P (query f)
  reads f = Keeps-statement _ (λ t h. h)

  load_templates-Keeps : (ss : List PipelineStage) → Keeps P (load_templates ss)
  unfolding load_templates
  load_templates-Keeps [] = Keeps-pure _
  load_templates-Keeps (s ∷ ss) =
      Keeps-bind (list_by_stage_id s.id) _ (reads _)
        λ ts. Keeps-bind (load_templates ss) _ (load_templates-Keeps ss) (λ rest. Keeps-pure _)

  current_snapshot-Keeps : (k : ℕ) → Keeps P (current_snapshot k)
  unfolding current_snapshot
  current_snapshot-Keeps k = Keeps-bind (get_pipeline k) _ (reads _) λ p.
      Keeps-bind (list_by_pipeline_id k) _ (reads _) λ stages.
        Keeps-bind (load_templates stages) _ (load_templates-Keeps stages)
          (λ by_stage. Keeps-pure _)

  clear_stages-Keeps : (ss : List PipelineStage) → Keeps P (clear_stages ss)
  unfolding clear_stages
  clear_stages-Keeps [] = Keeps-pure tt
  clear_stages-Keeps (s ∷ ss) =
      Keeps-bind (delete_templates s.id) _ (Keeps-statement _ (λ t h. structures t _ _ _ h)) λ _.
        Keeps-bind (delete_stage s.id) _ (Keeps-statement _ (λ t h. structures t _ _ _ h))
          λ _. clear_stages-Keeps ss

  create_tasks-Keeps : (stage : ℕ) (ts : List SnapshotTask) → Keeps P (create_tasks stage ts)
  unfolding create_tasks
  create_tasks-Keeps stage [] = Keeps-pure tt
  create_tasks-Keeps stage (x ∷ xs) =
      Keeps-bind (create_template (materialized stage x)) _
        (Keeps-statement _ (λ t h. structures t _ _ _ h)) (λ _. create_tasks-Keeps stage xs)

  materialize-Keeps : (k : ℕ) (ss : List SnapshotStage) → Keeps P (materialize k ss)
  unfolding materialize
  materialize-Keeps k [] = Keeps-pure tt
  materialize-Keeps k (s ∷ ss) =
      Keeps-bind (create_stage (a_stage k s)) _ (Keeps-statement _ (λ t h. structures t _ _ _ h))
        λ stage.
          Keeps-bind (create_tasks stage.id s.tasks) _ (create_tasks-Keeps stage.id s.tasks)
            (λ _. materialize-Keeps k ss)

  pub publish-Keeps : (k : ℕ) (who : String) → Keeps P (publish marshal decode same_body k who)
  unfolding publish
  publish-Keeps k who = Keeps-bind (current_snapshot k) _ (current_snapshot-Keeps k) λ snap.
      Keeps-attempt (latest k) (unless_same marshal decode same_body k (marshal snap) who) (reads _)
        (noted (marshal snap))
    where
      noted :
          (body : Body) (r : Result (PipelineVersion Body))
          → Keeps P (unless_same marshal decode same_body k body who r)
      noted body (ok v) =
          Keeps-elim (same_body v.snapshot body) _ _ (Keeps-pure tt) (records k body who)
      noted body (err not_found) = records k body who
      noted body (err e) = Keeps-fail e

  pub rollback-Keeps :
      (k n : ℕ) (who : String) → Keeps P (rollback marshal decode same_body k n who)
  unfolding rollback clear_structure
  rollback-Keeps k n who =
      Keeps-bind (get_version k n) _ (Keeps-if (n == 0) _ _ (Keeps-fail bad_request) (reads _))
        λ target.
          Keeps-bind (lift (readable (decode target.snapshot))) _ (record { at = λ w h. h })
            λ snap.
              Keeps-bind (attempt (get_pipeline k) found) _
                (Keeps-attempt (get_pipeline k) found (reads _) looked_up)
                λ _.
                  Keeps-bind (clear_structure k) _
                    (Keeps-bind (list_by_pipeline_id k) _ (reads _) clear_stages-Keeps)
                    λ _.
                      Keeps-bind (materialize k snap.stages) _ (materialize-Keeps k snap.stages)
                        λ _.
                          Keeps-bind (publish marshal decode same_body k who) _
                            (publish-Keeps k who)
                            λ _.
                              Keeps-attempt (get_pipeline k) _ (reads _)
                                (λ r. Keeps-pure (rolled_back k n snap.stages (version_after r)))
    where
      looked_up : (r : Result Pipeline) → Keeps P (found r)
      looked_up (ok p) = Keeps-pure tt
      looked_up (err e) = Keeps-fail not_found

-- The versions recorded before stand first.
abbrev Extends : {B : Type 0} → List (PipelineVersion B) → Catalog B → Type 0
Extends {B} old t = (rest : List (PipelineVersion B)) × (t.versions ≡ old ++ rest)

record_version-Extends :
    {B : Type 0} (old : List (PipelineVersion B)) (k : ℕ) (body : B) (who : String)
    → Keeps (Extends old) (record_version k body who)
record_version-Extends {B} old k body who =
    Keeps-bind (get_pipeline k) _ (Keeps-statement _ (λ t h. h)) λ p.
      Keeps-bind (update_pipeline (record p { version = p.version + 1 })) _
        (Keeps-statement _ (λ t h. h))
        (λ _. Keeps-statement _ (λ t (rest, e).
          grown
            (record { pipeline_id = k; version = p.version + 1; snapshot = body; created_by = who })
            t.versions rest e))
  where
    grown :
        (v : PipelineVersion B) (vs rest : List (PipelineVersion B))
        → vs ≡ old ++ rest
        → (more : List (PipelineVersion B)) × (vs ++ v ∷ [] ≡ old ++ more)
    grown v vs rest e = (rest ++ v ∷ [], ap (λ us. us ++ v ∷ []) e ∙ append_assoc old rest (v ∷ []))

-- Rollback, whatever statements the store refuses and whether it succeeds or not, leaves the
-- recorded versions as they were and in order, and adds versions behind them only.
pub rollback_appends :
    {Body : Type 0} (marshal : Snapshot → Body) (decode : Body → Option Snapshot)
    (same_body : Body → Body → Bool) (k n : ℕ) (who : String) (w : World (Catalog Body))
    → (rest : List (PipelineVersion Body)) × ((rollback marshal decode same_body k n who
          w).1.tables.versions
        ≡ w.tables.versions ++ rest)
rollback_appends marshal decode same_body k n who w =
    Keeps.at
      (rollback-Keeps marshal decode same_body (Extends w.tables.versions)
        (λ t stages templates m h. h) (record_version-Extends w.tables.versions) k n who)
      w ([], sym (append-nil w.tables.versions))

-- The row of a pipeline still says what it said of it, at a version that is not older.
abbrev SaysOf : Pipeline → Pipeline → Type 0
SaysOf o x =
    (x.name ≡ o.name)
    × (x.kind ≡ o.kind)
    × (x.description ≡ o.description)
    × (x.params ≡ o.params)
    × (o.version ≤ x.version)

abbrev Described : {B : Type 0} → ℕ → Pipeline → Catalog B → Type 0
Described i o t = (x : Pipeline) × (find_row pipeline_key i t.pipelines ≡ some x) × SaysOf o x

update_pipeline-Described :
    {B : Type 0} (i : ℕ) (o p : Pipeline)
    → ((p.id == i) ≡ true → SaysOf o p)
    → Keeps {T = Catalog B} (Described i o) (update_pipeline p)
update_pipeline-Described i o p h = Keeps-statement _ λ t (x, e, s). (
  if x.id == p.id then p else x,
  find_row-save pipeline_key p i t.pipelines ∙ ap (map_option _) e,
  kept (x.id == p.id) x s (λ b. h (ground (arith, b, find_row-key pipeline_key i t.pipelines e))),
)
  where
    kept :
        (b : Bool) (x : Pipeline)
        → SaysOf o x
        → (b ≡ true → SaysOf o p)
        → SaysOf o (if b then p else x)
    kept true x s g = g refl
    kept false x s g = s

required_ok : {A : Type 0} (o : Option A) (a : A) → required o ≡ ok a → o ≡ some a
required_ok none a e = ground arith
required_ok (some b) a e = ground arith

-- The row that is read is the row of i when it has that id.
read_says :
    (i k : ℕ) (o p x : Pipeline) (ps : List Pipeline)
    → required (find_row pipeline_key k ps) ≡ ok p
    → find_row pipeline_key i ps ≡ some x
    → SaysOf o x
    → (p.id == i) ≡ true
    → SaysOf o (record p { version = p.version + 1 })
read_says i k o p x ps r e s b =
    let f = required_ok (find_row pipeline_key k ps) p r in
    let at_k : k ≡ i = ground (arith, find_row-key pipeline_key k ps f, b) in
    let at_i : some p ≡ some x = sym f ∙ ap (λ n. find_row pipeline_key n ps) at_k ∙ e in
    let same : p ≡ x = some-injective p x at_i in
    (
      ap (λ y. y.name) same ∙ s.0,
      ap (λ y. y.kind) same ∙ s.1,
      ap (λ y. y.description) same ∙ s.2,
      ap (λ y. y.params) same ∙ s.3,
      omega (arith, s.4, ap (λ y. y.version) same),
    )

record_version-Described :
    {B : Type 0} (i : ℕ) (o : Pipeline) (k : ℕ) (body : B) (who : String)
    → Keeps (Described i o) (record_version k body who)
record_version-Described i o k body who = Keeps-read _ _ λ p w e (x, f, s).
    Keeps.at
      (Keeps-bind (update_pipeline (record p { version = p.version + 1 })) _
        (update_pipeline-Described i o (record p { version = p.version + 1 })
          (read_says i k o p x w.tables.pipelines e f s))
        (λ _. Keeps-statement _ (λ t h. h)))
      w (x, f, s)

-- Rollback of any pipeline, whatever statements the store refuses, leaves in the row of every
-- pipeline the name, the kind, the description and the declared parameters, and does not lower the
-- version number.
pub rollback_keeps_row :
    {Body : Type 0} (marshal : Snapshot → Body) (decode : Body → Option Snapshot)
    (same_body : Body → Body → Bool) (k n : ℕ) (who : String) (w : World (Catalog Body)) (i : ℕ)
    (p : Pipeline)
    → find_row pipeline_key i w.tables.pipelines ≡ some p
    → (x : Pipeline) × (find_row pipeline_key i
          (rollback marshal decode same_body k n who w).1.tables.pipelines
        ≡ some x)
      × ((x.name ≡ p.name)
          × (x.kind ≡ p.kind)
          × (x.description ≡ p.description)
          × (x.params ≡ p.params)
          × (p.version ≤ x.version))
rollback_keeps_row marshal decode same_body k n who w i p e =
    Keeps.at
      (rollback-Keeps marshal decode same_body (Described i p) (λ t stages templates m h. h)
        (record_version-Described i p) k n who)
      w (p, e, (refl, refl, refl, refl, omega arith))
