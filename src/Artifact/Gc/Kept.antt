-- ===== src/Artifact/Gc/Kept.antt =====
-- The rows that a pass of the collector does not touch, whatever the stores refuse.
use software_distribution_pl.Artifact.Gc.{
  ObjectDeleter, artifact_key, mark_cleanup_pending, delete_row, note_removed, delete_object,
  with_row, collect_object, collect_all, Artifact, Store, GcReport, pending_deletion, is_expired,
  run_once, limited, expiry,
}
use software_distribution_pl.Common.{
  ℕ, ◌≡◌, refl, ap, ◌∙◌, inl, inr, Bool, true, false, not, Option, none, some, List, [], ◌∷◌, arith,
  if◌then◌else◌, ◌==◌, Bool-cases, Keeps-pure, Keeps-statement, Keeps-bind, Keeps-regardless,
  Keeps-attempt, Keeps, where_, map_option, find_row, find_row-update_where, find_row-key, pure,
  Error, ltb, length, sort_by, keep, IsKeyed, find_row-where_, IsKeyed-where_, find_row-sort_by,
  World, take, find_row-take,
}

abbrev row_of : ℕ → Store → Option Artifact
row_of i t = find_row artifact_key i t.artifacts

abbrev IsThere : ℕ → Artifact → Store → Type 0
IsThere i a t = row_of i t ≡ some a

find_row-delete :
    (i k : ℕ) (rs : List Artifact)
    → (k == i) ≡ false
    → find_row artifact_key i (where_ (λ a. not (a.id == k)) rs) ≡ find_row artifact_key i rs
unfolding find_row
find_row-delete i k [] h = refl
find_row-delete i k (r ∷ rs) h = ground (arith, find_row-delete i k rs h, h)

delete_row-IsThere :
    (i k : ℕ) (a : Artifact) → (k == i) ≡ false → Keeps (IsThere i a) (delete_row k)
delete_row-IsThere i k a h = Keeps-statement _ (λ t e. find_row-delete i k t.artifacts h ∙ e)

mark-IsThere :
    (i k : ℕ) (a : Artifact) → (k == i) ≡ false → Keeps (IsThere i a) (mark_cleanup_pending k)
mark-IsThere i k a h = Keeps-statement _ λ t e.
    let mine : a.id ≡ i = find_row-key artifact_key i t.artifacts e in
    let other : (a.id == k) ≡ false = ground (arith, h, mine) in
    find_row-update_where artifact_key (λ x. x.id == k)
      (λ x. record x { cleanup_state = pending_deletion }) (λ _. refl) i t.artifacts
    ∙ ap (map_option (λ x. if x.id == k then record x { cleanup_state = pending_deletion } else x))
        e
    ∙ rw other refl

collect_object-IsThere :
    (d : Option ObjectDeleter) (o : Option Error) (i : ℕ) (a x : Artifact) (r : GcReport)
    → (x.id == i) ≡ false
    → Keeps (IsThere i a) (collect_object d o x r)
collect_object-IsThere d (some e) i a x r h =
    Keeps-regardless (mark_cleanup_pending x.id) _ (mark-IsThere i x.id a h) (Keeps-pure _)
collect_object-IsThere none none i a x r h =
    Keeps-bind (note_removed none x.storage_key) _ (record { at = λ w k. k })
      λ _.
        Keeps-attempt (delete_row x.id) (λ s. pure (with_row s r)) (delete_row-IsThere i x.id a h)
          (λ s. Keeps-pure (with_row s r))
collect_object-IsThere (some d) none i a x r h =
    Keeps-bind (note_removed (some d) x.storage_key) _ (record { at = λ w k. k })
      λ _.
        Keeps-attempt (delete_row x.id) (λ s. pure (with_row s r)) (delete_row-IsThere i x.id a h)
          (λ s. Keeps-pure (with_row s r))

none_of :
    (i : ℕ) (x : Artifact) (xs : List Artifact)
    → find_row artifact_key i (x ∷ xs) ≡ none
    → ((x.id == i) ≡ false) × (find_row artifact_key i xs ≡ none)
unfolding find_row
none_of i x xs h = elim (Bool-cases (x.id == i)) [
  | inl e ↦ absurd (ground (arith, h, e))
  | inr e ↦ (e, ground (arith, h, e))
]

collect_all-IsThere :
    (d : Option ObjectDeleter) (i : ℕ) (a : Artifact) (xs : List Artifact) (r : GcReport)
    → find_row artifact_key i xs ≡ none
    → Keeps (IsThere i a) (collect_all d xs r)
unfolding collect_all
collect_all-IsThere d i a [] r h = Keeps-pure r
collect_all-IsThere d i a (x ∷ xs) r h =
    Keeps-bind (collect_object d (delete_object d x.storage_key) x r) _
      (collect_object-IsThere d (delete_object d x.storage_key) i a x r (none_of i x xs h).0)
      (λ s. collect_all-IsThere d i a xs s (none_of i x xs h).1)

limited-none :
    (i limit : ℕ) (b : Bool) (xs : List Artifact)
    → find_row artifact_key i xs ≡ none
    → find_row artifact_key i (if b then xs else take limit xs) ≡ none
limited-none i limit true xs h = h
limited-none i limit false xs h = find_row-take artifact_key i limit xs h

-- The rows that a pass looks at.
abbrev looked_at : ℕ → ℕ → Store → List Artifact
looked_at batch now t =
    limited batch (sort_by (λ a b. ltb (expiry a) (expiry b)) (where_ (is_expired now) t.artifacts))

not_looked_at :
    (batch now i : ℕ) (a : Artifact) (t : Store)
    → IsKeyed artifact_key t.artifacts
    → row_of i t ≡ some a
    → is_expired now a ≡ false
    → find_row artifact_key i (looked_at batch now t) ≡ none
not_looked_at batch now i a t u e h = limited-none i batch (batch == 0) _ (
    find_row-sort_by artifact_key (λ a b. ltb (expiry a) (expiry b)) i
      (where_ (is_expired now) t.artifacts)
      (IsKeyed-where_ artifact_key (is_expired now) t.artifacts u)
    ∙ find_row-where_ artifact_key (is_expired now) i t.artifacts u
    ∙ ap (keep (is_expired now)) e
    ∙ rw h refl)

-- When the ids of the artifacts are unique, an artifact that has no expiry, or has not expired,
-- has the same row after a pass of the collector, whatever the store of rows and the object store
-- refuse.
pub run_once_keeps :
    (d : Option ObjectDeleter) (batch now i : ℕ) (a : Artifact) (w : World Store)
    → IsKeyed artifact_key w.tables.artifacts
    → find_row artifact_key i w.tables.artifacts ≡ some a
    → is_expired now a ≡ false
    → find_row artifact_key i (run_once d batch now w).1.tables.artifacts ≡ some a
unfolding run_once
run_once_keeps d batch now i a w u e h = read w.faults w.tables u e
  where
    started : List Artifact → GcReport
    started rows = record {
      scanned = length rows;
      deleted = 0;
      objects_failed = 0;
      rows_failed = 0;
      pending_sample = [];
    }

    collected :
        (t : Store) (fs : List Bool)
        → IsKeyed artifact_key t.artifacts
        → row_of i t ≡ some a
        → row_of i
            (collect_all d
              (looked_at batch now t)
              (started (looked_at batch now t))
              (record { faults = fs; tables = t })).1.tables
          ≡ some a
    collected t fs u e =
        Keeps.at
          (collect_all-IsThere d i a (looked_at batch now t) (started (looked_at batch now t))
            (not_looked_at batch now i a t u e h))
          (record { faults = fs; tables = t }) e

    read :
        (fs : List Bool) (t : Store)
        → IsKeyed artifact_key t.artifacts
        → row_of i t ≡ some a
        → row_of i (run_once d batch now (record { faults = fs; tables = t })).1.tables ≡ some a
    read [] t u e = collected t [] u e
    read (true ∷ fs) t u e = e
    read (false ∷ fs) t u e = collected t fs u e
