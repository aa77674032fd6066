-- ===== src/Run/Creation/Targets.antt =====
-- The choice of targets: selectTarget and the lookups of triggerFanout in
-- internal/run/service/pipeline_run.go, and what internal/run/service/production_guard.go asks about.
use software_distribution_pl.Run.Status.Untouched.{P}
use software_distribution_pl.Run.Rows.{take_}
use software_distribution_pl.Common.{
  ℕ, Option, none, some, List, [], ◌∷◌, Result, ok, err, ◌≡◌, refl, ap, All, Holds, Returns,
  Returns-bind, Returns-pure, Returns-fail, Returns-query, Returns-if, Holds-any, find_row,
  find_row-key, required, pure, fail, no_target, target_offline, Returns-elim, zero, suc, ◌≢◌,
  find_row-All, Action,
}
use software_distribution_pl.Run.Definitions.{Target}
use software_distribution_pl.Run.Tables.{Tables}
use software_distribution_pl.Run.Creation.{
  targets_of, check_targets, select_target, first_online, list_targets, get_target, target_key,
  production_guard_targets,
}

-- The targets that a request may come to.
abbrev pub IsRequested : List ℕ → Option ℕ → List ℕ → Type 0
IsRequested [] none ts = (k : ℕ) × (ts ≡ k ∷ [])
IsRequested [] (some k) ts = ts ≡ k ∷ []
IsRequested (k ∷ ks) one ts = ts ≡ k ∷ ks

check_targets-Returns : (t : Tables) (ks : List ℕ) → Returns t (λ _. Unit) (check_targets ks)
unfolding check_targets
check_targets-Returns t [] = Returns-pure tt tt
check_targets-Returns t (k ∷ ks) =
    Returns-bind {Q = λ _. Unit} (get_target k) (λ _. check_targets ks)
      (Returns-query (λ u. required (find_row target_key k u.definitions.targets)) (Holds-any _))
      λ _ _. check_targets-Returns t ks

first_online-Returns : (t : Tables) (xs : List Target) → Returns t (λ _. Unit) (first_online xs)
first_online-Returns t [] = Returns-fail no_target
first_online-Returns t (x ∷ xs) =
    Returns-elim x.is_online (pure x.id) (first_online xs) (Returns-pure x.id tt)
      (first_online-Returns t xs)

-- The target that a request names is the one that is found.
get_target-Returns : (t : Tables) (k : ℕ) → Returns t (λ tg. tg.id ≡ k) (get_target k)
get_target-Returns t k = Returns-query _ (named (find_row target_key k t.definitions.targets) refl)
  where
    named :
        (o : Option Target)
        → find_row target_key k t.definitions.targets ≡ o
        → Holds (λ tg. tg.id ≡ k) (required o)
    named none e = tt
    named (some x) e = find_row-key target_key k {r = x} t.definitions.targets e

pub targets_of-Returns :
    (t : Tables) (ids : List ℕ) (one : Option ℕ)
    → Returns t (IsRequested ids one) (targets_of ids one)
unfolding select_target
targets_of-Returns t [] none =
    Returns-bind {Q = λ _. Unit} _ _
      (Returns-bind {Q = λ _. Unit} list_targets first_online (Returns-query _ tt)
        λ xs _. first_online-Returns t xs)
      λ k _. Returns-pure (k ∷ []) (k, refl)
targets_of-Returns t [] (some k) =
    Returns-bind {Q = λ x. x ≡ k} _ _
      (Returns-bind _ _ (get_target-Returns t k) λ tg e.
        Returns-if tg.is_online (pure tg.id) (fail target_offline) (Returns-pure tg.id e)
          (Returns-fail target_offline))
      λ x e. Returns-pure (x ∷ []) (ap (λ y. y ∷ []) e)
targets_of-Returns t (k ∷ ks) one =
    Returns-bind {Q = λ _. Unit} (check_targets (k ∷ ks)) (λ _. pure (k ∷ ks))
      (check_targets-Returns t (k ∷ ks)) λ _ _. Returns-pure (k ∷ ks) refl

-- No target has the nil id.
abbrev pub IsNamed : Tables → Type 0
IsNamed t = All (λ x. target_key x ≢ 0) t.definitions.targets

All-take_ : {A : Type 0} (P : A → Type 0) (n : ℕ) (xs : List A) → All P xs → All P (take_ n xs)
All-take_ P zero xs h = tt
All-take_ P (suc n) [] h = tt
All-take_ P (suc n) (x ∷ xs) h = (h.0, All-take_ P n xs h.1)

first_online-named :
    (t : Tables) (xs : List Target)
    → All (λ x. target_key x ≢ 0) xs
    → Returns t (λ k. k ≢ 0) (first_online xs)
first_online-named t [] h = Returns-fail no_target
first_online-named t (x ∷ xs) h =
    Returns-elim x.is_online (pure x.id) (first_online xs) (Returns-pure x.id h.0)
      (first_online-named t xs h.1)

get_target-named : (t : Tables) (k : ℕ) → IsNamed t → Returns t (λ tg. tg.id ≢ 0) (get_target k)
get_target-named t k h = Returns-query _ (named (find_row target_key k t.definitions.targets) refl)
  where
    named :
        (o : Option Target)
        → find_row target_key k t.definitions.targets ≡ o
        → Holds (λ tg. tg.id ≢ 0) (required o)
    named none e = tt
    named (some x) e =
        (find_row-All target_key (λ y. y.id ≢ 0) k {r = x} t.definitions.targets h e).0

-- A target that is chosen is one that the guard asks about.
single_guarded : (k : ℕ) → k ≢ 0 → production_guard_targets [] (k ∷ []) ≡ k ∷ []
single_guarded zero h = absurd (h refl)
single_guarded (suc n) h = refl

pub targets_of-guarded :
    (t : Tables) (ids : List ℕ) (one : Option ℕ)
    → IsNamed t
    → Returns t (λ ts. production_guard_targets ids ts ≡ ts) (targets_of ids one)
unfolding select_target
targets_of-guarded t [] none h =
    Returns-bind {Q = λ k. k ≢ 0} _ _
      (Returns-bind {Q = All (λ x. target_key x ≢ 0)} list_targets first_online
        (Returns-query _ (All-take_ (λ x. target_key x ≢ 0) 100 t.definitions.targets h))
        λ xs named. first_online-named t xs named)
      λ k named. Returns-pure (k ∷ []) (single_guarded k named)
targets_of-guarded t [] (some k) h =
    Returns-bind {Q = λ k. k ≢ 0} _ _
      (Returns-bind _ _ (get_target-named t k h) λ tg named.
        Returns-if tg.is_online (pure tg.id) (fail target_offline) (Returns-pure tg.id named)
          (Returns-fail target_offline))
      λ k named. Returns-pure (k ∷ []) (single_guarded k named)
targets_of-guarded t (k ∷ ks) one h =
    Returns-bind {Q = λ _. Unit} (check_targets (k ∷ ks)) (λ _. pure (k ∷ ks))
      (check_targets-Returns t (k ∷ ks)) λ _ _. Returns-pure (k ∷ ks) refl

pub Returns-both :
    {A : Type 0} (t : Tables) (P Q : A → Type 0) (m : Action Tables A)
    → Returns t P m
    → Returns t Q m
    → Returns t (λ a. P a × Q a) m
Returns-both {A} t P Q m p q = record {
  at = λ w e. ((p.at w e).0, both (m w).0 (p.at w e).1 (q.at w e).1);
}
  where
    both : (r : Result A) → Holds P r → Holds Q r → Holds (λ a. P a × Q a) r
    both (ok a) x y = (x, y)
    both (err e) x y = tt
