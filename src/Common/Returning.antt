-- ===== src/Common/Returning.antt =====
-- Calls that only read, and what their answers satisfy whichever statements the store refuses.
use software_distribution_pl.Common.Tests.{if◌then◌else◌}
use mathlib.Core.Path.{refl, ◌≡◌, sym, subst}
use mathlib.Core.Bool.{Bool, true, false}
use mathlib.Core.List.{List, [], ◌∷◌}
use software_distribution_pl.Common.Keeping.{Keeps}
use software_distribution_pl.Common.Statements.{
  Error, Result, ok, err, World, Action, then_, ◌>>=◌, attempt, attempt_, pure, fail, query,
  statement_, with_ok, lift,
}

abbrev pub Holds : {A : Type 0} → (A → Type 0) → Result A → Type 0
Holds Q (ok a) = Q a
Holds Q (err e) = Unit

pub Holds-any : {A : Type 0} (r : Result A) → Holds (λ _. Unit) r
Holds-any (ok a) = tt
Holds-any (err e) = tt

pub Holds-weaken :
    {A : Type 0} (P Q : A → Type 0) (r : Result A) → ((a : A) → P a → Q a) → Holds P r → Holds Q r
Holds-weaken P Q (ok a) f h = f a h
Holds-weaken P Q (err e) f h = tt

pub Holds-with_ok :
    {A B : Type 0} (P : A → Type 0) (Q : B → Type 0) (r : Result A) (f : A → Result B)
    → Holds P r
    → ((a : A) → P a → Holds Q (f a))
    → Holds Q (with_ok r f)
Holds-with_ok P Q (ok a) f p k = k a p
Holds-with_ok P Q (err e) f p k = tt

-- On the tables `t` the call changes nothing, and a value that it returns satisfies `Q`.
pub record Returns {T A : Type 0} (t : T) (Q : A → Type 0) (m : Action T A) : Type 0 where
  pub at : (w : World T) → w.tables ≡ t → ((m w).1.tables ≡ t) × Holds Q (m w).0

module _ {T A : Type 0} {t : T} {Q : A → Type 0} where
  pub Returns-pure : (a : A) → Q a → Returns t Q (pure a)
  Returns-pure a q = record { at = λ w h. (h, q) }

  pub Returns-fail : (e : Error) → Returns t Q (fail e)
  Returns-fail e = record { at = λ w h. (h, tt) }

  pub Returns-lift : (r : Result A) → Holds Q r → Returns t Q (lift r)
  Returns-lift r q = record { at = λ w h. (h, q) }

  pub Returns-if :
      (b : Bool) (m n : Action T A)
      → Returns t Q m
      → Returns t Q n
      → Returns t Q (if b then m else n)
  Returns-if true m n km kn = km
  Returns-if false m n km kn = kn

  pub Returns-elim :
      (b : Bool) (m n : Action T A)
      → Returns t Q m
      → Returns t Q n
      → Returns t Q (elim b [ true ↦ m | false ↦ n ])
  Returns-elim true m n km kn = km
  Returns-elim false m n km kn = kn

  pub Returns-query : (g : T → Result A) → Holds Q (g t) → Returns t Q (query g)
  Returns-query g q = record { at = λ w h. read w.faults w.tables h }
    where
      read :
          (fs : List Bool) (u : T)
          → u ≡ t
          → ((statement_ fs (λ v. (g v, v)) u).1.tables ≡ t)
            × Holds Q (statement_ fs (λ v. (g v, v)) u).0
      read [] u h = (h, subst (λ v. Holds Q (g v)) (sym h) q)
      read (true ∷ fs) u h = (h, tt)
      read (false ∷ fs) u h = (h, subst (λ v. Holds Q (g v)) (sym h) q)

module _ {T A B : Type 0} {t : T} {Q : A → Type 0} {R : B → Type 0} where
  pub Returns-bind :
      (m : Action T A) (f : A → Action T B)
      → Returns t Q m
      → ((a : A) → Q a → Returns t R (f a))
      → Returns t R (m >>= f)
  Returns-bind m f km kf = record { at = λ w h. next (m w).0 (m w).1 (km.at w h) }
    where
      next :
          (r : Result A) (w : World T)
          → (w.tables ≡ t) × Holds Q r
          → ((then_ (r, w) f).1.tables ≡ t) × Holds R (then_ (r, w) f).0
      next (ok a) w (h, q) = (kf a q).at w h
      next (err e) w (h, q) = (h, tt)

  pub Returns-attempt :
      (m : Action T A) (k : Result A → Action T B)
      → Returns t Q m
      → ((r : Result A) → Holds Q r → Returns t R (k r))
      → Returns t R (attempt m k)
  Returns-attempt m k km kk = record { at = λ w h. next (m w).0 (m w).1 (km.at w h) }
    where
      next :
          (r : Result A) (w : World T)
          → (w.tables ≡ t) × Holds Q r
          → ((attempt_ (r, w) k).1.tables ≡ t) × Holds R (attempt_ (r, w) k).0
      next r w (h, q) = (kk r q).at w h

module _ {T A : Type 0} {t : T} {Q R : A → Type 0} where
  pub Returns-weaken : (m : Action T A) → ((a : A) → Q a → R a) → Returns t Q m → Returns t R m
  Returns-weaken m f k = record { at = λ w h. ((k.at w h).0, weaken (m w).0 (k.at w h).1) }
    where
      weaken : (r : Result A) → Holds Q r → Holds R r
      weaken (ok a) q = f a q
      weaken (err e) q = tt

-- A call that only reads keeps everything.
pub Keeps-Returns :
    {T A : Type 0} {P : T → Type 0} {Q : T → A → Type 0} (m : Action T A)
    → ((t : T) → Returns t (Q t) m)
    → Keeps P m
Keeps-Returns {P} m k = record { at = λ w u. subst P (sym ((k w.tables).at w refl).0) u }
