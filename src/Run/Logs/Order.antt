-- ===== src/Run/Logs/Order.antt =====
-- internal/run/service/pipeline_run.go: the log of a run is what its runner streamed, in order.
use software_distribution_pl.Run.Status.{is_named}
use software_distribution_pl.Run.Tables.{PipelineRun, Tables, TaskRunLog}
use software_distribution_pl.Run.Logs.{
  logs_of, LogChunk, bucket, record_log_chunk, log_found, log_row, is_logged_before, is_log_of,
}
use software_distribution_pl.Common.{
  ℕ, String, ◌≡◌, sym, Bool, false, ◌&&◌, Option, none, some, append-nil, List, [], ◌∷◌, ◌++◌, map,
  ◌==◌, ◌=ˢ◌, where_, find_where, up, refl, inl, inr, if◌then◌else◌, Bool-cases, required, ◌∙◌,
  append_assoc, subst, ◌≤◌, ◌<◌, ap, true, arith, sort_by-last, All, All-append, All-where_,
  sort_by, where_-append,
}

-- A chunk with the target that sends it, its time, and the id that the database draws for its row.
pub record Streamed : Type 0 where
  pub target : ℕ
  pub at : ℕ
  pub drawn : ℕ
  pub chunk : LogChunk

-- The tables after some chunks, in a store that answers.
unfoldable pub run_chunks : List Streamed → Tables → Tables
run_chunks [] t = t
run_chunks (x ∷ xs) t =
    run_chunks xs (record_log_chunk x.drawn x.at x.target x.chunk (up t)).1.tables

-- Each chunk has a later time than the one before it.
abbrev pub Rise : ℕ → List Streamed → Type 0
Rise last [] = Unit
Rise last (x ∷ xs) = (last < x.at) × Rise x.at xs

abbrev pub is_of : ℕ → String → Option PipelineRun → LogChunk → Bool
is_of run name none c = false
is_of run name (some r) c = (r.id == run) && (bucket c.task_name =ˢ name)

-- The chunk names a run on its target that has this id, and the task, if it names one.
abbrev pub belongs : List PipelineRun → ℕ → String → Streamed → Bool
belongs rs run name x =
    is_of run name (find_where (is_named x.chunk.pipeline_run_name x.target) rs) x.chunk

abbrev chunks_of : ℕ → String → Tables → List String
chunks_of run name t = map (λ l. l.chunk) (logs_of run name t.logs)

-- The rows are no later than a time.
abbrev Until : ℕ → List TaskRunLog → Type 0
Until last ls = All (λ l. l.created_at ≤ last) ls

Until-later : (a b : ℕ) (ls : List TaskRunLog) → a < b → Until a ls → Until b ls
Until-later a b [] l h = tt
Until-later a b (x ∷ ls) l h = (omega (arith, l, h.0), Until-later a b ls l h.1)

is_last :
    (y : TaskRunLog) (last : ℕ) (ls : List TaskRunLog)
    → last < y.created_at
    → Until last ls
    → All (λ x. is_logged_before y x ≡ false) ls
is_last y last [] l h = tt
is_last y last (x ∷ ls) l h = (ground (arith, l, h.0), is_last y last ls l h.1)

where_-last :
    (p : TaskRunLog → Bool) (ls : List TaskRunLog) (l : TaskRunLog)
    → p l ≡ true
    → where_ p (ls ++ l ∷ []) ≡ where_ p ls ++ l ∷ []
where_-last p [] l h = rw h refl
where_-last p (x ∷ ls) l h = elim (Bool-cases (p x)) [
  | inl e ↦ rw (e, where_-last p ls l h) refl
  | inr e ↦ rw e (where_-last p ls l h)
]

chunks-last :
    (ls : List TaskRunLog) (l : TaskRunLog)
    → map (λ l. l.chunk) (ls ++ l ∷ []) ≡ map (λ l. l.chunk) ls ++ l.chunk ∷ []
chunks-last [] l = refl
chunks-last (x ∷ ls) l = ap (λ rest. x.chunk ∷ rest) (chunks-last ls l)

logs-append :
    (run : ℕ) (name : String) (last : ℕ) (ls : List TaskRunLog) (l : TaskRunLog)
    → last < l.created_at
    → Until last ls
    → map (λ l. l.chunk) (logs_of run name (ls ++ l ∷ []))
      ≡ map (λ l. l.chunk) (logs_of run name ls)
        ++ (if is_log_of run name l then l.chunk ∷ [] else [])
logs-append run name last ls l late until =
    let p = is_log_of run name in
    let newest : All (λ x. is_logged_before l x ≡ false) (where_ p ls) =
      is_last l last (where_ p ls) late (All-where_ (λ x. x.created_at ≤ last) p ls until) in
    elim (Bool-cases (p l)) [
      | inl e ↦ rw e (
          ap (λ rs. map (λ l. l.chunk) (sort_by is_logged_before rs)) (where_-last p ls l e)
          ∙ (ap (map (λ l. l.chunk)) (sort_by-last is_logged_before l (where_ p ls) newest)
              ∙ chunks-last (logs_of run name ls) l))
      | inr e ↦ rw e (
          ap (λ rs. map (λ l. l.chunk) (sort_by is_logged_before rs)) (where_-append p ls l e)
          ∙ sym (append-nil (map (λ l. l.chunk) (logs_of run name ls))))
    ]

-- What one chunk adds.
log_found_lem :
    (run : ℕ) (name : String) (last : ℕ) (x : Streamed) (t : Tables) (o : Option PipelineRun)
    → last < x.at
    → Until last t.logs
    → (chunks_of run name (log_found x.drawn x.at x.chunk (required o) (up t)).1.tables
        ≡ chunks_of run name t ++ (if is_of run name o x.chunk then x.chunk.chunk ∷ [] else []))
      × (((log_found x.drawn x.at x.chunk (required o) (up t)).1.tables.runs ≡ t.runs)
          × Until x.at (log_found x.drawn x.at x.chunk (required o) (up t)).1.tables.logs)
log_found_lem run name last x t none late until =
    (sym (append-nil (chunks_of run name t)), (refl, Until-later last x.at t.logs late until))
log_found_lem run name last x t (some r) late until =
    let row = log_row x.drawn x.at r.id x.chunk in
    (
      logs-append run name last t.logs row late until,
      (
        refl,
        All-append (λ l. l.created_at ≤ x.at) t.logs (row ∷ [])
            (Until-later last x.at t.logs late until) (omega arith, tt),
      ),
    )

-- When the statements succeed and the chunks from the runners have rising times, all later than
-- the stored rows, the chunks that ListByRunTask returns for a run and a task afterwards, by
-- created_at and id, are the old ones followed by those whose name and target find that run and
-- whose task is that one, in their order; a chunk without a task counts for the bucket of the run.
pub get_logs-run_chunks :
    (run : ℕ) (name : String) (last : ℕ) (xs : List Streamed) (t : Tables)
    → All (λ l. l.created_at ≤ last) t.logs
    → Rise last xs
    → map (λ l. l.chunk) (logs_of run name (run_chunks xs t).logs)
      ≡ map (λ l. l.chunk) (logs_of run name t.logs)
        ++ map (λ x. x.chunk.chunk) (where_ (belongs t.runs run name) xs)
unfolding run_chunks record_log_chunk
get_logs-run_chunks run name last [] t until rise = sym (append-nil (chunks_of run name t))
get_logs-run_chunks run name last (x ∷ xs) t until rise =
    let o = find_where (is_named x.chunk.pipeline_run_name x.target) t.runs in
    let t' = (log_found x.drawn x.at x.chunk (required o) (up t)).1.tables in
    let (first, (kept, until')) = log_found_lem run name last x t o rise.0 until in
    let rest : chunks_of run name (run_chunks xs t')
        ≡ chunks_of run name t' ++ map (λ x. x.chunk.chunk) (where_ (belongs t.runs run name) xs) =
      subst
        (λ rs.
          chunks_of run name (run_chunks xs t')
          ≡ chunks_of run name t' ++ map (λ x. x.chunk.chunk) (where_ (belongs rs run name) xs))
        kept (get_logs-run_chunks run name x.at xs t' until' rise.1) in
    elim (Bool-cases (is_of run name o x.chunk)) [
      | inl e ↦ rw e (
          rest
          ∙ rw first (
              rw e (
                append_assoc (chunks_of run name t) (x.chunk.chunk ∷ [])
                  (map (λ x. x.chunk.chunk) (where_ (belongs t.runs run name) xs)))))
      | inr e ↦ rw e (rest ∙ rw first (rw e (rw (append-nil (chunks_of run name t)) refl)))
    ]
