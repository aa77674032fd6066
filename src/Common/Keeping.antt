-- ===== src/Common/Keeping.antt =====
-- Invariants of actions under any failures of the store, with one rule for each way to build an
-- action.
use mathlib.Core.Path.{◌≡◌, refl}
use software_distribution_pl.Common.Tests.{if◌then◌else◌}
use mathlib.Core.List.{List, [], ◌∷◌}
use mathlib.Core.Bool.{Bool, true, false}
use software_distribution_pl.Common.Statements.{
  statement_, then_, Error, Result, ok, err, World, Action, ◌>>=◌, pure, fail, statement,
  regardless, attempt, query, store_failed,
}

-- `m` keeps `P`, whichever of its statements the store refuses.
pub record Keeps {T A : Type 0} (P : T → Type 0) (m : Action T A) : Type 0 where
  pub at : (w : World T) → P w.tables → P (m w).1.tables

module _ {T A : Type 0} {P : T → Type 0} where
  pub Keeps-pure : (a : A) → Keeps P (pure a)
  Keeps-pure a = record { at = λ w h. h }

  pub Keeps-fail : (e : Error) → Keeps P (fail {A = A} e)
  Keeps-fail e = record { at = λ w h. h }

  statement_-Keeps :
      (f : T → Result A × T)
      → ((t : T) → P t → P (f t).1)
      → (fs : List Bool) (t : T) → P t
      → P (statement_ fs f t).1.tables
  statement_-Keeps f k [] t h = k t h
  statement_-Keeps f k (true ∷ fs) t h = h
  statement_-Keeps f k (false ∷ fs) t h = k t h

  pub Keeps-statement : (f : T → Result A × T) → ((t : T) → P t → P (f t).1) → Keeps P (statement f)
  Keeps-statement f k = record { at = λ w h. statement_-Keeps f k w.faults w.tables h }

  pub Keeps-if :
      (b : Bool) (m n : Action T A) → Keeps P m → Keeps P n → Keeps P (if b then m else n)
  Keeps-if true m n km kn = km
  Keeps-if false m n km kn = kn

  pub Keeps-elim :
      (b : Bool) (m n : Action T A)
      → Keeps P m
      → Keeps P n
      → Keeps P (elim b [ true ↦ m | false ↦ n ])
  Keeps-elim true m n km kn = km
  Keeps-elim false m n km kn = kn

  -- The branches may use the outcome of the test.
  pub Keeps-guarded :
      (b : Bool) (m n : Action T A)
      → (b ≡ true → Keeps P m)
      → (b ≡ false → Keeps P n)
      → Keeps P (elim b [ true ↦ m | false ↦ n ])
  Keeps-guarded true m n km kn = km refl
  Keeps-guarded false m n km kn = kn refl

module _ {T A B : Type 0} {P : T → Type 0} where
  then_-Keeps :
      (f : A → Action T B) (r : Result A) (w : World T)
      → ((a : A) → Keeps P (f a))
      → P w.tables
      → P (then_ (r, w) f).1.tables
  then_-Keeps f (ok a) w k h = (k a).at w h
  then_-Keeps f (err e) w k h = h

  pub Keeps-bind :
      (m : Action T A) (f : A → Action T B)
      → Keeps P m
      → ((a : A) → Keeps P (f a))
      → Keeps P (m >>= f)
  Keeps-bind m f km kf = record { at = λ w h. then_-Keeps f (m w).0 (m w).1 kf (km.at w h) }

  pub Keeps-regardless :
      (m : Action T A) (k : Action T B) → Keeps P m → Keeps P k → Keeps P (regardless m k)
  Keeps-regardless m k km kk = record { at = λ w h. kk.at (m w).1 (km.at w h) }

  pub Keeps-attempt :
      (m : Action T A) (k : Result A → Action T B)
      → Keeps P m
      → ((r : Result A) → Keeps P (k r))
      → Keeps P (attempt m k)
  Keeps-attempt m k km kk = record { at = λ w h. (kk (m w).0).at (m w).1 (km.at w h) }

pub Keeps-outcome :
    {T A B : Type 0} {P : T → Type 0} (r : Result A) (f : A → Action T B) (g : Error → Action T B)
    → ((a : A) → Keeps P (f a))
    → ((e : Error) → Keeps P (g e))
    → Keeps P (elim r [ ok a ↦ f a | err e ↦ g e ])
Keeps-outcome (ok a) f g kf kg = kf a
Keeps-outcome (err e) f g kf kg = kg e

-- A read whose continuation may use what was read.
pub Keeps-read :
    {T A B : Type 0} {P : T → Type 0} (g : T → Result A) (f : A → Action T B)
    → ((a : A) (w : World T) → g w.tables ≡ ok a → P w.tables → P (f a w).1.tables)
    → Keeps P (query g >>= f)
Keeps-read {T} {A} {B} {P} g f k = record { at = λ w h. read w.faults w.tables h }
  where
    answered :
        (fs : List Bool) (t : T) (r : Result A)
        → g t ≡ r
        → P t
        → P (then_ (r, record { faults = fs; tables = t }) f).1.tables
    answered fs t (ok a) e h = k a (record { faults = fs; tables = t }) e h
    answered fs t (err x) e h = h

    read :
        (fs : List Bool) (t : T)
        → P t
        → P ((query g >>= f) (record { faults = fs; tables = t })).1.tables
    read [] t h = answered [] t (g t) refl h
    read (true ∷ fs) t h = h
    read (false ∷ fs) t h = answered fs t (g t) refl h

-- A read whose error the continuation looks at.
pub Keeps-attempt_read :
    {T A B : Type 0} {P : T → Type 0} (g : T → Result A) (k : Result A → Action T B)
    → ((a : A) (w : World T) → g w.tables ≡ ok a → P w.tables → P (k (ok a) w).1.tables)
    → ((e : Error) → Keeps P (k (err e)))
    → Keeps P (attempt (query g) k)
Keeps-attempt_read {T} {A} {B} {P} g k kf ke = record { at = λ w h. read w.faults w.tables h }
  where
    answered :
        (fs : List Bool) (t : T) (r : Result A)
        → g t ≡ r
        → P t
        → P (k r (record { faults = fs; tables = t })).1.tables
    answered fs t (ok a) e h = kf a (record { faults = fs; tables = t }) e h
    answered fs t (err x) e h = (ke x).at (record { faults = fs; tables = t }) h

    read :
        (fs : List Bool) (t : T)
        → P t
        → P (attempt (query g) k (record { faults = fs; tables = t })).1.tables
    read [] t h = answered [] t (g t) refl h
    read (true ∷ fs) t h = (ke store_failed).at (record { faults = fs; tables = t }) h
    read (false ∷ fs) t h = answered fs t (g t) refl h

-- A statement that may run or not.
pub statement-either :
    {T A : Type 0} (P : T → Type 0) (f : T → Result A × T) (w : World T)
    → P w.tables
    → P (f w.tables).1
    → P (statement f w).1.tables
statement-either {T} {A} P f w h k = either w.faults w.tables h k
  where
    either : (fs : List Bool) (t : T) → P t → P (f t).1 → P (statement_ fs f t).1.tables
    either [] t h k = k
    either (true ∷ fs) t h k = h
    either (false ∷ fs) t h k = k

-- What holds after the first call and is kept by the rest.
pub Keeps-from :
    {T A B : Type 0} {P : T → Type 0} (m : Action T A) (f : A → Action T B) (w : World T)
    → P (m w).1.tables
    → ((a : A) → Keeps P (f a))
    → P ((m >>= f) w).1.tables
Keeps-from {T} {A} {B} {P} m f w h k = next (m w).0 (m w).1 h
  where
    next : (r : Result A) (v : World T) → P v.tables → P (then_ (r, v) f).1.tables
    next (ok a) v h = (k a).at v h
    next (err e) v h = h

pub bind_assoc :
    {T A B C : Type 0} (m : Action T A) (f : A → Action T B) (g : B → Action T C) (w : World T)
    → ((m >>= f) >>= g) w ≡ (m >>= (λ a. f a >>= g)) w
bind_assoc {T} {A} {B} {C} m f g w = next (m w).0 (m w).1
  where
    next :
        (r : Result A) (v : World T)
        → then_ (then_ (r, v) f) g ≡ then_ (r, v) (λ a u. then_ (f a u) g)
    next (ok a) v = refl
    next (err e) v = refl

-- What follows a statement may use what the statement returned.
module _ {T A B : Type 0} {P : T → Type 0} (f : T → Result A × T) (g : A → Action T B)
    (kept : (t : T) → P t → P (f t).1)
    (next : (t : T) (a : A) → P t → (f t).0 ≡ ok a → Keeps P (g a)) where
  after_result :
      (fs : List Bool) (t : T) (r : Result A)
      → P t
      → (f t).0 ≡ r
      → P (then_ (r, record { faults = fs; tables = (f t).1 }) g).1.tables
  after_result fs t (ok a) h e = (next t a h e).at _ (kept t h)
  after_result fs t (err x) h e = kept t h

  after_statement : (fs : List Bool) (t : T) → P t → P (then_ (statement_ fs f t) g).1.tables
  after_statement [] t h = after_result [] t (f t).0 h refl
  after_statement (true ∷ fs) t h = h
  after_statement (false ∷ fs) t h = after_result fs t (f t).0 h refl

  pub Keeps-result : Keeps P (statement f >>= g)
  Keeps-result = record { at = λ w h. after_statement w.faults w.tables h }

pub ruleset keeping = (Keeps-pure, Keeps-fail, Keeps-if, Keeps-elim, Keeps-bind, Keeps-regardless)
