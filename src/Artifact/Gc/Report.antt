-- ===== src/Artifact/Gc/Report.antt =====
-- The report of a pass of the collector, whatever the stores refuse.
use software_distribution_pl.Artifact.Gc.{
  ObjectDeleter, delete_row, note_removed, delete_object, with_object_failed, with_row,
  collect_object, collect_all, run_once, Artifact, Store, GcReport,
}
use software_distribution_pl.Common.{
  ℕ, ◌+◌, ◌≤◌, String, ◌≡◌, refl, ap, ◌∙◌, inl, inr, Bool, true, false, Option, none, some, List,
  [], ◌∷◌, arith, ltb, ltb→lt, Bool-cases, length, length-append, up, then_, Error, Result, World,
  ok, err, sym, subst,
}

abbrev handled : GcReport → ℕ
handled r = r.deleted + (r.objects_failed + r.rows_failed)

-- The call returns a report that accounts for n more rows.
abbrev Reports : GcReport → ℕ → Result GcReport → Type 0
Reports r n out =
    (s : GcReport) × (out ≡ ok s)
    × (handled s ≡ handled r + n)
    × (s.scanned ≡ r.scanned)
    × (length s.pending_sample ≤ 20)

with_object_failed-Reports :
    (key : String) (r : GcReport)
    → length r.pending_sample ≤ 20
    → length (with_object_failed key r).pending_sample ≤ 20
with_object_failed-Reports key r h = elim (Bool-cases (ltb (length r.pending_sample) 20)) [
  | inl e ↦ rw e (
      omega
        (arith, length-append r.pending_sample (key ∷ []), ltb→lt (length r.pending_sample) 20 e))
  | inr e ↦ rw e h
]

with_row-Reports :
    (x : Result (Unit {0})) (r : GcReport)
    → length r.pending_sample ≤ 20
    → Reports r 1 (ok (with_row x r))
with_row-Reports (ok x) r h = (with_row (ok x) r, refl, omega arith, refl, h)
with_row-Reports (err e) r h = (with_row (err e) r, refl, omega arith, refl, h)

collect_object-Reports :
    (d : Option ObjectDeleter) (o : Option Error) (a : Artifact) (r : GcReport) (w : World Store)
    → length r.pending_sample ≤ 20
    → Reports r 1 (collect_object d o a r w).0
collect_object-Reports d (some e) a r w h = (
  with_object_failed a.storage_key r,
  refl,
  omega arith,
  refl,
  with_object_failed-Reports a.storage_key r h,
)
collect_object-Reports none none a r w h = with_row-Reports (delete_row a.id w).0 r h
collect_object-Reports (some d) none a r w h =
    with_row-Reports (delete_row a.id (note_removed (some d) a.storage_key w).1).0 r h

collect_all-Reports :
    (d : Option ObjectDeleter) (rows : List Artifact) (r : GcReport) (w : World Store)
    → length r.pending_sample ≤ 20
    → Reports r (length rows) (collect_all d rows r w).0
unfolding collect_all
collect_all-Reports d [] r w h = (r, refl, omega arith, refl, h)
collect_all-Reports d (a ∷ as_) r w h =
    let (s, e, n, same, few) = collect_object-Reports d (delete_object d a.storage_key) a r w h in
    let m = collect_object d (delete_object d a.storage_key) a r in
    let (u, f, k, again, left) = collect_all-Reports d as_ s (m w).1 few in
    (
      u,
      ap (λ x. (then_ (x, (m w).1) (collect_all d as_)).0) e ∙ f,
      omega (arith, n, k),
      again ∙ same,
      left,
    )

-- When a pass of the collector returns a report, whatever the store of rows and the object store
-- refuse, the deleted rows, the rows kept for their object and the rows whose deletion failed add
-- up to the rows scanned, and the sample names at most 20 keys.
pub run_once_accounts :
    (d : Option ObjectDeleter) (batch now : ℕ) (w : World Store) (r : GcReport)
    → (run_once d batch now w).0 ≡ ok r
    → (r.deleted + (r.objects_failed + r.rows_failed) ≡ r.scanned) × (length r.pending_sample ≤ 20)
unfolding run_once
run_once_accounts d batch now w r e = read w.faults w.tables r e
  where
    started : (rows : List Artifact) → GcReport
    started rows = record {
      scanned = length rows;
      deleted = 0;
      objects_failed = 0;
      rows_failed = 0;
      pending_sample = [];
    }

    accounted :
        (rows : List Artifact) (v : World Store) (r : GcReport)
        → (collect_all d rows (started rows) v).0 ≡ ok r
        → (r.deleted + (r.objects_failed + r.rows_failed) ≡ r.scanned)
          × (length r.pending_sample ≤ 20)
    accounted rows v r e =
        let (s, f, n, same, few) = collect_all-Reports d rows (started rows) v (omega arith) in
        let returned : ok s ≡ ok r = sym f ∙ e in
        let report : s ≡ r = cc in
        subst
          (λ x.
            (x.deleted + (x.objects_failed + x.rows_failed) ≡ x.scanned)
            × (length x.pending_sample ≤ 20))
          report (omega (arith, n, same), few)

    read :
        (fs : List Bool) (t : Store) (r : GcReport)
        → (run_once d batch now (record { faults = fs; tables = t })).0 ≡ ok r
        → (r.deleted + (r.objects_failed + r.rows_failed) ≡ r.scanned)
          × (length r.pending_sample ≤ 20)
    read [] t r e = accounted _ (up t) r e
    read (true ∷ fs) t r e = absurd (ground arith)
    read (false ∷ fs) t r e = accounted _ (record { faults = fs; tables = t }) r e
