-- ===== src/Retention/Versions.antt =====
-- internal/retention/retention.go: how many versions of a component a pass of the collector keeps.
use software_distribution_pl.Retention.{
  is_any, is_of_component, ArtifactVersion, beyond, without, collect_once, History, RetentionGc,
  collect_audit, find_old, delete_tasks, delete_runs, delete_found, collect_runs, collect_artifacts,
  if_on, cutoff, is_newer,
}
use software_distribution_pl.Common.{
  ℕ, ◌-◌, min, ◌≡◌, refl, inl, inr, false, none, List, [], ◌∷◌, arith, leb, Bool-cases, count_where,
  find_row, IsKeyed, ◌+◌, ◌<◌, ◌∙◌, Bool, true, if◌then◌else◌, ◌==◌, ==_self, up, ap, Result, ok,
  err, ==_iff, sym, ◌&&◌, not, sort_by, count_where-sort_by, IsKeyed-sort_by, moved, Moves-pure,
  Moves-statement, Moves-if, Moves-regardless, Moves-attempt, Moves, IsPreorder, regardless,
  count_where-where_,
}

abbrev pub artifact_id : ArtifactVersion → ℕ
artifact_id a = a.id

-- A row that is not in the list is not among the rows behind.
pub is_any-beyond :
    (n i : ℕ) (before xs : List ArtifactVersion)
    → find_row artifact_id i xs ≡ none
    → is_any (beyond n before xs) i ≡ false
unfolding beyond find_row
is_any-beyond n i before [] h = refl
is_any-beyond n i before (x ∷ xs) h = ground (arith, is_any-beyond n i (x ∷ before) xs)

without-missing :
    (k : ℕ) (ks : List ℕ) (xs : List ArtifactVersion)
    → find_row artifact_id k xs ≡ none
    → without artifact_id (k ∷ ks) xs ≡ without artifact_id ks xs
unfolding find_row
without-missing k ks [] h = refl
without-missing k ks (x ∷ xs) h = ground (arith, without-missing k ks xs)

abbrev versions_held : ℕ → List ArtifactVersion → ℕ
versions_held c xs = count_where (is_of_component c) xs

-- What the first row adds to the rows that stay.
count-first :
    (c : ℕ) (is_behind : Bool) (x : ArtifactVersion) (ks : List ℕ) (xs : List ArtifactVersion)
    → find_row artifact_id x.id xs ≡ none
    → is_any ks x.id ≡ false
    → versions_held c (without artifact_id (if is_behind then x.id ∷ ks else ks) (x ∷ xs))
      ≡ (if is_behind then 0 else if x.component_id == c then 1 else 0)
        + versions_held c (without artifact_id ks xs)
count-first c true x ks xs h out = rw (==_self x.id, without-missing x.id ks xs h) (omega arith)
count-first c false x ks xs h out = rw out refl

with_own :
    (n k m r : ℕ) → r ≡ min (n - (1 + k)) m → (if leb n k then 0 else 1) + r ≡ min (n - k) (1 + m)
with_own n k m r e = ground (arith, e)

with_other :
    (b : Bool) (n k m r : ℕ)
    → r ≡ min (n - (0 + k)) m
    → (if b then 0 else 0) + r ≡ min (n - k) (0 + m)
with_other true n k m r e = omega (arith, e)
with_other false n k m r e = omega (arith, e)

count-beyond :
    (n c : ℕ) (before xs : List ArtifactVersion)
    → IsKeyed artifact_id xs
    → versions_held c (without artifact_id (beyond n before xs) xs)
      ≡ min (n - versions_held c before) (versions_held c xs)
unfolding beyond
count-beyond n c before [] u = omega arith
count-beyond n c before (x ∷ xs) u =
    let ks = beyond n (x ∷ before) xs in
    let is_behind = leb n (versions_held x.component_id before) in
    let rest = count-beyond n c (x ∷ before) xs u.1 in
    count-first c is_behind x ks xs u.0 (is_any-beyond n x.id (x ∷ before) xs u.0)
    ∙ elim (Bool-cases (x.component_id == c)) [
      | inl same ↦
          let to : versions_held x.component_id before ≡ versions_held c before =
            ap (λ d. versions_held d before) ((==_iff x.component_id c).0 same) in
          rw (same, to)
            (with_own n (versions_held c before) (versions_held c xs) _ (rest ∙ rw same refl))
      | inr other ↦ rw other (
          with_other is_behind n (versions_held c before) (versions_held c xs) _
            (rest ∙ rw other refl))
    ]

-- The artifacts that are left.
abbrev pub left : ℕ → List ArtifactVersion → List ArtifactVersion
left n as_ = without artifact_id (beyond n [] (sort_by is_newer as_)) as_

count-left :
    (n c : ℕ) (as_ : List ArtifactVersion)
    → IsKeyed artifact_id as_
    → versions_held c (left n as_) ≡ min n (versions_held c as_)
count-left n c as_ u =
    let sorted = sort_by is_newer as_ in
    let ks = beyond n [] sorted in
    let stays = λ (a : ArtifactVersion). not (is_any ks a.id) in
    let same : versions_held c sorted ≡ versions_held c as_ =
      count_where-sort_by is_newer (is_of_component c) as_ in
    count_where-where_ (is_of_component c) stays as_
    ∙ sym (count_where-sort_by is_newer (λ a. stays a && is_of_component c a) as_)
    ∙ sym (count_where-where_ (is_of_component c) stays sorted)
    ∙ count-beyond n c [] sorted (IsKeyed-sort_by artifact_id is_newer as_ u)
    ∙ omega (arith, same)

-- The steps before that of the artifacts.
abbrev Same : History → History → Type 0
Same h h' = h'.artifacts ≡ h.artifacts

Same-IsPreorder : IsPreorder Same
Same-IsPreorder = record { same = λ h. refl; both = λ h h' h'' p q. q ∙ p }

collect_audit-Same : (t n : ℕ) → Moves Same (collect_audit t n)
collect_audit-Same t n = Moves-statement Same-IsPreorder _ λ h. refl

collect_runs-Same : (t n : ℕ) → Moves Same (collect_runs t n)
unfolding collect_runs
collect_runs-Same t n =
    Moves-attempt Same-IsPreorder (find_old t n) delete_found
      (Moves-statement Same-IsPreorder _ λ h. refl) found
  where
    found : (r : Result (List ℕ)) → Moves Same (delete_found r)
    found (err e) = Moves-pure Same-IsPreorder tt
    found (ok []) = Moves-pure Same-IsPreorder tt
    found (ok (k ∷ ks)) =
        Moves-regardless Same-IsPreorder (delete_tasks (k ∷ ks)) _
          (Moves-statement Same-IsPreorder _ λ h. refl)
          (Moves-regardless Same-IsPreorder (delete_runs (k ∷ ks)) _
            (Moves-statement Same-IsPreorder _ λ h. refl) (Moves-pure Same-IsPreorder tt))

pub collect_once-left :
    (g : RetentionGc) (now : ℕ) (h : History)
    → 0 < g.artifact_versions
    → (collect_once g now (up h)).1.tables.artifacts ≡ left g.artifact_versions h.artifacts
unfolding collect_once collect_artifacts
collect_once-left g now h on =
    let audit = if_on g.audit_log_days (collect_audit (cutoff now g.audit_log_days) g.batch) in
    let runs = if_on g.run_log_days (collect_runs (cutoff now g.run_log_days) g.batch) in
    let versions = if_on g.artifact_versions (collect_artifacts g.artifact_versions) in
    let off : (g.artifact_versions == 0) ≡ false = ground (arith, on) in
    let (e, same) = moved (regardless audit runs) h (
      Moves-regardless Same-IsPreorder audit runs
        (Moves-if (g.audit_log_days == 0) _ _ (Moves-pure Same-IsPreorder tt)
          (collect_audit-Same (cutoff now g.audit_log_days) g.batch))
        (Moves-if (g.run_log_days == 0) _ _ (Moves-pure Same-IsPreorder tt)
          (collect_runs-Same (cutoff now g.run_log_days) g.batch))) in
    ap (λ w. (versions w).1.tables.artifacts) e ∙ rw off (ap (left g.artifact_versions) same)

-- When the statements succeed, the ids of the artifacts are unique and the threshold of versions
-- is on, a pass of the collector leaves each component as many artifacts as it had, or the
-- threshold if that is less.
pub collect_once_counts :
    (g : RetentionGc) (now c : ℕ) (h : History)
    → IsKeyed artifact_id h.artifacts
    → 0 < g.artifact_versions
    → versions_held c (collect_once g now (up h)).1.tables.artifacts
      ≡ min g.artifact_versions (versions_held c h.artifacts)
collect_once_counts g now c h u on =
    rw (collect_once-left g now h on) (count-left g.artifact_versions c h.artifacts u)
