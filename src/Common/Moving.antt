-- ===== src/Common/Moving.antt =====
-- What actions do to the tables, as a relation between the tables before and after, under any
-- failures of the store; a store that answers goes on answering.
use mathlib.Core.Path.{◌≡◌, refl, ap}
use software_distribution_pl.Common.Tests.{if◌then◌else◌}
use mathlib.Core.Bool.{Bool, true, false}
use mathlib.Core.List.{List, [], ◌∷◌}
use software_distribution_pl.Common.Keeping.{Keeps}
use software_distribution_pl.Common.Statements.{
  statement_, then_, Result, ok, err, World, up, Action, ◌>>=◌, pure, statement, regardless,
  attempt,
}

pub record Moves {T A : Type 0} (R : T → T → Type 0) (m : Action T A) : Type 0 where
  pub at : (w : World T) → R w.tables (m w).1.tables × (w.faults ≡ [] → (m w).1.faults ≡ [])

-- A relation for the tables after no call, and after one call and another.
pub record IsPreorder {T : Type 0} (R : T → T → Type 0) : Type 0 where
  pub same : (t : T) → R t t
  pub both : (t u v : T) → R t u → R u v → R t v

module _ {T A : Type 0} {R : T → T → Type 0} (o : IsPreorder R) where
  pub Moves-pure : (a : A) → Moves R (pure a)
  Moves-pure a = record { at = λ w. (o.same w.tables, λ e. e) }

  statement_-moved :
      (f : T → Result A × T)
      → ((t : T) → R t (f t).1)
      → (fs : List Bool) (t : T)
      → R t (statement_ fs f t).1.tables × (fs ≡ [] → (statement_ fs f t).1.faults ≡ [])
  statement_-moved f k [] t = (k t, λ e. refl)
  statement_-moved f k (true ∷ fs) t = (o.same t, λ e. absurd (cc))
  statement_-moved f k (false ∷ fs) t = (k t, λ e. absurd (cc))

  pub Moves-statement : (f : T → Result A × T) → ((t : T) → R t (f t).1) → Moves R (statement f)
  Moves-statement f k = record { at = λ w. statement_-moved f k w.faults w.tables }

module _ {T A : Type 0} {R : T → T → Type 0} where
  pub Moves-if :
      (b : Bool) (m n : Action T A) → Moves R m → Moves R n → Moves R (if b then m else n)
  Moves-if true m n km kn = km
  Moves-if false m n km kn = kn

  -- What a move keeps.
  pub Keeps-moved :
      {P : T → Type 0} (m : Action T A) → ((t u : T) → R t u → P t → P u) → Moves R m → Keeps P m
  Keeps-moved m closed k = record { at = λ w h. closed w.tables (m w).1.tables (k.at w).0 h }

  -- The world after a call to a store that answers.
  pub moved :
      (m : Action T A) (t : T)
      → Moves R m
      → ((m (up t)).1 ≡ up (m (up t)).1.tables) × R t (m (up t)).1.tables
  moved m t k = (
    ap (λ fs. record { faults = fs; tables = (m (up t)).1.tables }) ((k.at (up t)).1 refl),
    (k.at (up t)).0,
  )

module _ {T A B : Type 0} {R : T → T → Type 0} (o : IsPreorder R) where
  pub Moves-regardless :
      (m : Action T A) (k : Action T B) → Moves R m → Moves R k → Moves R (regardless m k)
  Moves-regardless m k km kk = record {
    at = λ w. (
      o.both w.tables (m w).1.tables (k (m w).1).1.tables (km.at w).0 (kk.at (m w).1).0,
      λ e. (kk.at (m w).1).1 ((km.at w).1 e),
    );
  }

  pub Moves-bind :
      (m : Action T A) (f : A → Action T B)
      → Moves R m
      → ((a : A) → Moves R (f a))
      → Moves R (m >>= f)
  Moves-bind m f km kf = record { at = λ w. next w (m w).0 (m w).1 (km.at w) }
    where
      next :
          (w : World T) (r : Result A) (v : World T)
          → R w.tables v.tables × (w.faults ≡ [] → v.faults ≡ [])
          → R w.tables (then_ (r, v) f).1.tables × (w.faults ≡ [] → (then_ (r, v) f).1.faults ≡ [])
      next w (ok a) v h = (
        o.both w.tables v.tables (f a v).1.tables h.0 ((kf a).at v).0,
        λ e. ((kf a).at v).1 (h.1 e),
      )
      next w (err x) v h = h

  pub Moves-attempt :
      (m : Action T A) (k : Result A → Action T B)
      → Moves R m
      → ((r : Result A) → Moves R (k r))
      → Moves R (attempt m k)
  Moves-attempt m k km kk = record {
    at = λ w.
        let n = kk (m w).0 in
        (
          o.both w.tables (m w).1.tables (k (m w).0 (m w).1).1.tables (km.at w).0 (n.at (m w).1).0,
          λ e. (n.at (m w).1).1 ((km.at w).1 e),
        );
  }
