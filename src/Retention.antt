-- ===== src/Retention.antt =====
-- internal/retention/retention.go: one pass of the collector of old audit logs, runs and artifact
-- versions. A limit without an order takes the first rows of the table. A run that is collected is
-- deleted with its task rows; the tables are cut to the columns that the collector reads.
pub mod Runs
pub mod Versions
pub mod Newest
mod Tests
use software_distribution_pl.Run.Approval.{nanos}
use software_distribution_pl.Run.Tables.{Phase}
use software_distribution_pl.Common.{
  ℕ, ◌-◌, ◌*◌, Bool, true, false, ◌&&◌, not, Option, none, some, List, [], ◌∷◌, map, if◌then◌else◌,
  ltb, leb, ◌==◌, where_, count_where, any, sort_by, Action, regardless, attempt, pure, query,
  execute, Result, ok, err, take,
}

pub record AuditLog : Type 0 where
  pub id : ℕ
  pub created_at : ℕ

pub record OldRun : Type 0 where
  pub id : ℕ
  pub phase : Phase
  pub completion_time : Option ℕ
  pub updated_at : ℕ

pub record OldTask : Type 0 where
  pub id : ℕ
  pub pipeline_run_id : ℕ

pub record ArtifactVersion : Type 0 where
  pub id : ℕ
  pub component_id : ℕ
  pub created_at : ℕ

pub record History : Type 0 where
  pub audit_logs : List AuditLog
  pub runs : List OldRun
  pub task_runs : List OldTask
  pub artifacts : List ArtifactVersion

-- A threshold of 0 is off; the code takes a negative one as 0.
pub record RetentionGc : Type 0 where
  pub audit_log_days : ℕ
  pub run_log_days : ℕ
  pub artifact_versions : ℕ
  pub batch : ℕ

abbrev pub default_batch : ℕ
default_batch = 1000

abbrev pub new_retention_gc : ℕ → ℕ → ℕ → ℕ → RetentionGc
new_retention_gc audit_days run_days versions batch = record {
  audit_log_days = audit_days;
  run_log_days = run_days;
  artifact_versions = versions;
  batch = if batch == 0 then default_batch else batch;
}

abbrev pub is_disabled : RetentionGc → Bool
is_disabled g = (g.audit_log_days == 0) && ((g.run_log_days == 0) && (g.artifact_versions == 0))

-- now.AddDate(0, 0, -days), in UTC.
abbrev pub cutoff : ℕ → ℕ → ℕ
cutoff now days = now - days * (86400 * nanos)

-- The terminal phases of the collector: Succeeded, Failed, and the texts Error and Canceled, which
-- no constant has; they are `other 0` and `other 1`.
abbrev pub is_final : Phase → Bool
is_final Phase.succeeded = true
is_final Phase.failed = true
is_final (Phase.other n) = ltb n 2
is_final _ = false

abbrev pub is_older : ℕ → OldRun → Bool
is_older t r = elim r.completion_time [ some c ↦ ltb c t | none ↦ ltb r.updated_at t ]

abbrev pub is_collected : ℕ → OldRun → Bool
is_collected t r = is_final r.phase && is_older t r

abbrev pub old_run_id : OldRun → ℕ
old_run_id r = r.id

abbrev pub is_any : List ℕ → ℕ → Bool
is_any ks k = any (λ j. j == k) ks

-- The rows of a table without those of some keys.
abbrev pub without {ℓ} : {A : Type ℓ} → (A → ℕ) → List ℕ → List A → List A
without key ks rs = where_ (λ r. not (is_any ks (key r))) rs

abbrev pub collect_audit : ℕ → ℕ → Action History (Unit {0})
collect_audit t batch = execute λ h. record h {
  audit_logs =
      without (λ a. a.id)
        (map (λ a. a.id) (take batch (where_ (λ a. ltb a.created_at t) h.audit_logs))) h.audit_logs;
}

-- A query whose error is dropped finds no run.
abbrev pub find_old : ℕ → ℕ → Action History (List ℕ)
find_old t batch = query λ h. ok (map old_run_id (take batch (where_ (is_collected t) h.runs)))

abbrev pub delete_tasks : List ℕ → Action History (Unit {0})
delete_tasks ks =
    execute λ h. record h { task_runs = without (λ x. x.pipeline_run_id) ks h.task_runs }

-- The foreign key of task_runs deletes the task rows of a run with it.
abbrev pub delete_runs : List ℕ → Action History (Unit {0})
delete_runs ks = execute λ h. record h {
  runs = without old_run_id ks h.runs;
  task_runs = without (λ x. x.pipeline_run_id) ks h.task_runs;
}

abbrev pub delete_found : Result (List ℕ) → Action History (Unit {0})
delete_found (err e) = pure tt
delete_found (ok []) = pure tt
delete_found (ok (k ∷ ks)) =
    regardless (delete_tasks (k ∷ ks)) (regardless (delete_runs (k ∷ ks)) (pure tt))

unfoldable pub collect_runs : ℕ → ℕ → Action History (Unit {0})
collect_runs t batch = attempt (find_old t batch) delete_found

abbrev pub is_newer : ArtifactVersion → ArtifactVersion → Bool
is_newer a b = ltb b.created_at a.created_at

abbrev pub is_of_component : ℕ → ArtifactVersion → Bool
is_of_component c a = a.component_id == c

-- The rows behind `n` rows of their component, where `before` are the rows already passed.
unfoldable pub beyond : ℕ → List ArtifactVersion → List ArtifactVersion → List ℕ
beyond n before [] = []
beyond n before (a ∷ rows) =
    let rest = beyond n (a ∷ before) rows in
    if leb n (count_where (is_of_component a.component_id) before) then a.id ∷ rest else rest

unfoldable pub collect_artifacts : ℕ → Action History (Unit {0})
unfolding beyond sort_by
collect_artifacts n = execute λ h. record h {
  artifacts = without (λ a. a.id) (beyond n [] (sort_by is_newer h.artifacts)) h.artifacts;
}

abbrev pub if_on : ℕ → Action History (Unit {0}) → Action History (Unit {0})
if_on n m = if n == 0 then pure tt else m

-- Every error is logged and dropped.
unfoldable pub collect_once : RetentionGc → ℕ → Action History (Unit {0})
unfolding collect_runs collect_artifacts
collect_once g now =
    regardless (if_on g.audit_log_days (collect_audit (cutoff now g.audit_log_days) g.batch)) (
      regardless (if_on g.run_log_days (collect_runs (cutoff now g.run_log_days) g.batch))
        (regardless (if_on g.artifact_versions (collect_artifacts g.artifact_versions)) (pure tt)))
