-- ===== src/Artifact/Gc.antt =====
-- internal/artifact/service/gc.go, RunOnce, with the statements of repository/artifact.go. `deleter`
-- says what the object store answers when the object of a key is deleted, `none` for no error; there
-- is no deleter when object storage is not configured. `removed` lists the keys whose object is gone.
pub mod Report
pub mod Kept
use software_distribution_pl.Common.{
  ℕ, zero, suc, ◌+◌, String, Bool, false, not, Option, none, some, List, [], ◌∷◌, ◌++◌,
  if◌then◌else◌, ltb, ◌==◌, length, where_, sort_by, update_where, Action, ◌>>=◌, regardless,
  attempt, pure, query, execute, Error, Result, ok, err, take,
}

pub data CleanupState : Type 0 where
  active pending_deletion : CleanupState

pub record Artifact : Type 0 where
  pub id : ℕ
  pub storage_key : String
  pub expires_at : Option ℕ
  pub cleanup_state : CleanupState

pub record Store : Type 0 where
  pub artifacts : List Artifact
  pub removed : List String

pub record GcReport : Type 0 where
  pub scanned : ℕ
  pub deleted : ℕ
  pub objects_failed : ℕ
  pub rows_failed : ℕ
  pub pending_sample : List String

abbrev pub ObjectDeleter : Type 0
ObjectDeleter = String → Option Error

abbrev pub artifact_key : Artifact → ℕ
artifact_key a = a.id

-- expires_at IS NOT NULL AND expires_at < now
abbrev pub is_expired : ℕ → Artifact → Bool
is_expired now a = elim a.expires_at [ none ↦ false | some t ↦ ltb t now ]

abbrev pub expiry : Artifact → ℕ
expiry a = elim a.expires_at [ none ↦ 0 | some t ↦ t ]

-- A limit of 0 is none.
abbrev pub limited : {A : Type 0} → ℕ → List A → List A
limited limit xs = if limit == 0 then xs else take limit xs

abbrev pub find_expired : ℕ → ℕ → Action Store (List Artifact)
find_expired now limit = query λ t. ok (
    limited limit
      (sort_by (λ a b. ltb (expiry a) (expiry b)) (where_ (is_expired now) t.artifacts)))

abbrev pub mark_cleanup_pending : ℕ → Action Store (Unit {0})
mark_cleanup_pending k = execute λ t. record t {
  artifacts =
      update_where (λ a. a.id == k) (λ a. record a { cleanup_state = pending_deletion })
        t.artifacts;
}

abbrev pub delete_row : ℕ → Action Store (Unit {0})
delete_row k = execute λ t. record t { artifacts = where_ (λ a. not (a.id == k)) t.artifacts }

-- The object store is not the database: no statement.
abbrev pub note_removed : Option ObjectDeleter → String → Action Store (Unit {0})
note_removed none key w = (ok tt, w)
note_removed (some d) key w =
    (ok tt, record w { tables = record w.tables { removed = w.tables.removed ++ key ∷ [] } })

abbrev pub delete_object : Option ObjectDeleter → String → Option Error
delete_object none key = none
delete_object (some d) key = d key

abbrev pub max_gc_sample : ℕ
max_gc_sample = 20

abbrev pub with_object_failed : String → GcReport → GcReport
with_object_failed key r = record r {
  objects_failed = r.objects_failed + 1;
  pending_sample =
      if ltb (length r.pending_sample) max_gc_sample
      then r.pending_sample ++ key ∷ []
      else r.pending_sample;
}

abbrev pub with_row : Result (Unit {0}) → GcReport → GcReport
with_row (ok x) r = record r { deleted = r.deleted + 1 }
with_row (err e) r = record r { rows_failed = r.rows_failed + 1 }

abbrev pub collect_object :
    Option ObjectDeleter → Option Error → Artifact → GcReport → Action Store GcReport
collect_object d (some e) a r =
    regardless (mark_cleanup_pending a.id) (pure (with_object_failed a.storage_key r))
collect_object d none a r =
    note_removed d a.storage_key >>= λ _. attempt (delete_row a.id) λ x. pure (with_row x r)

unfoldable pub collect_all : Option ObjectDeleter → List Artifact → GcReport → Action Store GcReport
collect_all d [] r = pure r
collect_all d (a ∷ as_) r =
    collect_object d (delete_object d a.storage_key) a r >>= λ s. collect_all d as_ s

unfoldable pub run_once : Option ObjectDeleter → ℕ → ℕ → Action Store GcReport
unfolding collect_all take sort_by
run_once d batch now = do
  rows ← find_expired now batch
  collect_all d rows (record {
    scanned = length rows;
    deleted = 0;
    objects_failed = 0;
    rows_failed = 0;
    pending_sample = [];
  })
