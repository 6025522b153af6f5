-- ===== src/Prelude/Exec/Moves.antt =====
-- How an action moves the state, returning or failing: a relation between before and after that is
-- reflexive and transitive, with one rule for each way to build an action.
use mathlib.Core.Bool.{Bool, true, false}
use aegis_private_browser.Prelude.Tests.{if◌then◌else◌}
use aegis_private_browser.Prelude.Results.{Result, ok, err}
use aegis_private_browser.Prelude.Exec.{
  Exec, pure, raise, lift, gets, ignore, attempt, continue, ◌>>=◌,
}
use aegis_private_browser.Prelude.Exec.Triple.{Keeps, Post}

pub record IsPreorder {S : Type 0} (R : S → S → Type 0) : Type 0 where
  pub same : (s : S) → R s s
  pub trans : (s t u : S) → R s t → R t u → R s u

pub record Moves {S E A : Type 0} (R : S → S → Type 0) (m : Exec S E A) : Type 0 where
  pub at : (s : S) → R s (m s).1

module _ {S : Type 0} {R : S → S → Type 0} (order : IsPreorder R) where
  module _ {E A : Type 0} where
    pub Moves-pure : (a : A) → Moves R (pure {E = E} a)
    unfolding pure
    Moves-pure a = record { at = order.same }

    pub Moves-raise : (e : E) → Moves R (raise {A = A} e)
    unfolding raise
    Moves-raise e = record { at = order.same }

    pub Moves-lift : (r : Result A E) → Moves R (lift r)
    unfolding lift
    Moves-lift r = record { at = order.same }

    pub Moves-gets : (f : S → A) → Moves R (gets {E = E} f)
    unfolding gets
    Moves-gets f = record { at = order.same }

  module _ {E A B : Type 0} where
    continue_moves :
        (r : Result A E) (s t : S) (f : A → Exec S E B)
        → R s t
        → ((a : A) → Moves R (f a))
        → R s (continue r f t).1
    continue_moves (ok a) s t f h k = order.trans s t (f a t).1 h ((k a).at t)
    continue_moves (err e) s t f h k = h

    pub Moves-bind :
        (m : Exec S E A) (f : A → Exec S E B)
        → Moves R m
        → ((a : A) → Moves R (f a))
        → Moves R (m >>= f)
    unfolding ◌>>=◌
    Moves-bind m f km kf = record { at = λ s. continue_moves (m s).0 s (m s).1 f (km.at s) kf }

module _ {S E A : Type 0} {R : S → S → Type 0} where
  pub Moves-ignore : (m : Exec S E A) → Moves R m → Moves R (ignore m)
  unfolding ignore
  Moves-ignore m k = record { at = k.at }

  pub Moves-attempt : (m : Exec S E A) → Moves R m → Moves R (attempt m)
  unfolding attempt
  Moves-attempt m k = record { at = k.at }

  pub Moves-if :
      (b : Bool) (m n : Exec S E A) → Moves R m → Moves R n → Moves R (if b then m else n)
  Moves-if true m n km kn = km
  Moves-if false m n km kn = kn

  -- What the relation carries over is kept.
  pub Moves-Keeps :
      {P : S → Type 0} (m : Exec S E A) → Moves R m → ((s t : S) → R s t → P s → P t) → Keeps P m
  Moves-Keeps {P} m k carry = record {
    at = λ s h. either (m s).0 (m s).1 (carry s (m s).1 (k.at s) h);
  }
    where
      either : (r : Result A E) (t : S) → P t → Post (λ _. P) (λ _. P) r t
      either (ok a) t h = h
      either (err e) t h = h
