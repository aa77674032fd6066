-- ===== src/Run/Delivery/Rows.antt =====
-- What tryDeliver does to the rows of the queue, in a world whose statements succeed.
use software_distribution_pl.Common.{
  Bool-cases, leb, Option, none, some, ℕ, ◌+◌, ◌≡◌, refl, ap, ◌∙◌, inl, inr, arith, true, false,
  Error, ok, err, up, find_row, find_row-update_where, update_where, update_where_none, count_keyed,
  hits, find_row-key, IsKeyed, map_option, ◌==◌, if◌then◌else◌, Option-cases, Result, subst, sym,
}
use software_distribution_pl.Run.Spec.{Apply}
use software_distribution_pl.Run.Tables.{decode, DispatchJob, Tables, job_id}
use software_distribution_pl.Run.Jobs.{is_claimable, claims, claimed, sent, postponed, retired}
use software_distribution_pl.Run.Delivery.Backoff.{retry_at, max_dispatch_attempts}
use software_distribution_pl.Run.Delivery.Attempt.{
  after_push, Dispatcher, push, try_deliver, after_failure,
}

-- The specification: what one delivery makes of a row.
abbrev pub refused : ℕ → Error → DispatchJob → DispatchJob
refused now e j =
    if leb max_dispatch_attempts (j.attempts + 1)
    then retired e (claimed j)
    else postponed e (retry_at now (j.attempts + 1)) (claimed j)

abbrev pub settled_push : ℕ → DispatchJob → Option Error → DispatchJob
settled_push now j none = sent (claimed j)
settled_push now j (some e) = refused now e j

abbrev pub settled : Dispatcher → ℕ → DispatchJob → Result Apply → DispatchJob
settled d now j (err e) = retired e (claimed j)
settled d now j (ok apply) = settled_push now j (d j.target_id apply)

abbrev pub attempted : Dispatcher → ℕ → DispatchJob → DispatchJob
attempted d now j = if is_claimable j.state then settled d now j (decode j.payload) else j

abbrev pub job_of : ℕ → Tables → Option DispatchJob
job_of i t = find_row job_id i t.jobs

abbrev claim : ℕ → Tables → Tables
claim k t = record t { jobs = update_where (claims k) claimed t.jobs }

-- The row that the claim made, by the row that was read.
job_of-claim :
    (t : Tables) (k i : ℕ)
    → job_of i (claim k t) ≡ map_option (λ j. if claims k j then claimed j else j) (job_of i t)
job_of-claim t k i = find_row-update_where job_id (claims k) claimed (λ r. refl) i t.jobs

claim_idle :
    (t : Tables) (k : ℕ)
    → IsKeyed job_id t.jobs
    → hits job_id (λ j. is_claimable j.state) (job_of k t) ≡ 0
    → claim k t ≡ t
claim_idle t k u h =
    ap (λ js. record t { jobs = js })
      (update_where_none (claims k) claimed t.jobs
        (count_keyed job_id (λ j. is_claimable j.state) k t.jobs u ∙ h))

try_deliver_missing :
    (d : Dispatcher) (now k : ℕ) (t : Tables)
    → job_of k t ≡ none
    → (try_deliver d now k (up t)).1.tables ≡ t
unfolding try_deliver
try_deliver_missing d now k t e = ground arith

try_deliver_idle :
    (d : Dispatcher) (now k : ℕ) (t : Tables) (j : DispatchJob)
    → IsKeyed job_id t.jobs
    → job_of k t ≡ some j
    → is_claimable j.state ≡ false
    → (try_deliver d now k (up t)).1.tables ≡ t
unfolding try_deliver
try_deliver_idle d now k t j u e c =
    ground (arith, claim_idle t k u, count_keyed job_id (λ j. is_claimable j.state) k t.jobs u)

try_deliver_claimed :
    (d : Dispatcher) (now k : ℕ) (t : Tables) (j : DispatchJob)
    → IsKeyed job_id t.jobs
    → job_of k t ≡ some j
    → is_claimable j.state ≡ true
    → try_deliver d now k (up t) ≡ push d now j (decode j.payload) (up (claim k t))
unfolding try_deliver
try_deliver_claimed d now k t j u e c =
    ground (arith, count_keyed job_id (λ j. is_claimable j.state) k t.jobs u)

-- An UPDATE of the row with id k, seen at the row with id i.
job_of-set :
    (k i : ℕ) (f : DispatchJob → DispatchJob) (t : Tables)
    → ((j : DispatchJob) → (f j).id ≡ j.id)
    → job_of i (record t { jobs = update_where (λ j. j.id == k) f t.jobs })
      ≡ map_option (λ j. if j.id == k then f j else j) (job_of i t)
job_of-set k i f t same = find_row-update_where job_id (λ j. j.id == k) f same i t.jobs

-- A claim followed by a write to the same row.
claim_then_set :
    (g : DispatchJob → DispatchJob) (i : ℕ) (t : Tables) (j : DispatchJob)
    → ((x : DispatchJob) → (g x).id ≡ x.id)
    → is_claimable j.state ≡ true
    → job_of j.id t ≡ some j
    → find_row job_id i (update_where (λ x. x.id == j.id) g (claim j.id t).jobs)
      ≡ (if j.id == i then some (g (claimed j)) else job_of i t)
claim_then_set g i t j same c e = elim (Option-cases (job_of i t)) [
  | inl q ↦ ground (arith, job_of-set j.id i g (claim j.id t) same, job_of-claim t j.id i, q)
  | inr (x, q) ↦ ground (
    arith,
    job_of-set j.id i g (claim j.id t) same,
    job_of-claim t j.id i,
    q,
    find_row-key job_id i {r = x} t.jobs q,
  )
]

after_push-row :
    (now i : ℕ) (t : Tables) (j : DispatchJob) (o : Option Error)
    → is_claimable j.state ≡ true
    → job_of j.id t ≡ some j
    → job_of i (after_push now j o (up (claim j.id t))).1.tables
      ≡ (if j.id == i then some (settled_push now j o) else job_of i t)
unfolding after_push
after_push-row now i t j none c e = claim_then_set sent i t j (λ _. refl) c e
after_push-row now i t j (some x) c e =
    elim (Bool-cases (leb max_dispatch_attempts (j.attempts + 1))) [
      | inl b ↦ rw (b, after_failure) (claim_then_set (retired x) i t j (λ _. refl) c e)
      | inr b ↦ rw (b, after_failure) (claim_then_set (postponed x _) i t j (λ _. refl) c e)
    ]

push-row :
    (d : Dispatcher) (now i : ℕ) (t : Tables) (j : DispatchJob) (r : Result Apply)
    → is_claimable j.state ≡ true
    → job_of j.id t ≡ some j
    → job_of i (push d now j r (up (claim j.id t))).1.tables
      ≡ (if j.id == i then some (settled d now j r) else job_of i t)
unfolding push
push-row d now i t j (err x) c e = claim_then_set (retired x) i t j (λ _. refl) c e
push-row d now i t j (ok a) c e = after_push-row now i t j (d j.target_id a) c e

claimed-row :
    (d : Dispatcher) (now i : ℕ) (t : Tables) (j : DispatchJob)
    → IsKeyed job_id t.jobs
    → is_claimable j.state ≡ true
    → job_of j.id t ≡ some j
    → job_of i (try_deliver d now j.id (up t)).1.tables
      ≡ (if j.id == i then some (settled d now j (decode j.payload)) else job_of i t)
claimed-row d now i t j u c e =
    rw (try_deliver_claimed d now j.id t j u e c) (push-row d now i t j (decode j.payload) c e)

-- In a world whose statements succeed and a table whose job ids are unique, tryDeliver rewrites
-- the row of its job as the specification attempted says (dispatched, postponed, retired, or
-- unchanged when it cannot be claimed), and rewrites no other row.
pub job_of-try_deliver :
    (d : Dispatcher) (now k i : ℕ) (t : Tables)
    → IsKeyed job_id t.jobs
    → job_of i (try_deliver d now k (up t)).1.tables
      ≡ (if k == i then map_option (attempted d now) (job_of i t) else job_of i t)
job_of-try_deliver d now k i t u = elim (Option-cases (job_of k t)) [
  | inl e ↦ rw (try_deliver_missing d now k t e) (ground (arith, e))
  | inr (j, e) ↦ elim (Bool-cases (is_claimable j.state)) [
    | inl c ↦
        let same : j.id ≡ k = find_row-key job_id k {r = j} t.jobs e in
        let e' : job_of j.id t ≡ some j = subst (λ m. job_of m t ≡ some j) (sym same) e in
        ground (arith, claimed-row d now i t j u c e', e', e, c, same)
    | inr c ↦ rw (try_deliver_idle d now k t j u e c) (ground (arith, e, c))
  ]
]
