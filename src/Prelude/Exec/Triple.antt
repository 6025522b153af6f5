-- ===== src/Prelude/Exec/Triple.antt =====
-- What an action makes true, when it returns and when it fails, with one rule for each way to
-- build an action.
use mathlib.Core.Path.{◌≡◌, refl}
use mathlib.Core.Bool.{Bool, true, false}
use aegis_private_browser.Prelude.Tests.{if◌then◌else◌}
use aegis_private_browser.Prelude.Results.{Result, ok, err}
use aegis_private_browser.Prelude.Exec.{
  Exec, pure, raise, lift, gets, ignore, attempt, continue, ◌>>=◌,
}

abbrev pub Post : {S E A : Type 0} → (A → S → Type 0) → (E → S → Type 0) → Result A E → S → Type 0
Post Q X (ok a) s = Q a s
Post Q X (err e) s = X e s

pub record Triple {S E A : Type 0} (P : S → Type 0) (m : Exec S E A) (Q : A → S → Type 0)
    (X : E → S → Type 0) : Type 0 where
  pub at : (s : S) → P s → Post Q X (m s).0 (m s).1

module _ {S E A : Type 0} {P : S → Type 0} {Q : A → S → Type 0} {X : E → S → Type 0} where
  pub Triple-pure : (a : A) → ((s : S) → P s → Q a s) → Triple P (pure a) Q X
  unfolding pure
  Triple-pure a h = record { at = h }

  pub Triple-raise : (e : E) → ((s : S) → P s → X e s) → Triple P (raise e) Q X
  unfolding raise
  Triple-raise e h = record { at = h }

  pub Triple-lift :
      (r : Result A E)
      → ((a : A) → r ≡ ok a → (s : S) → P s → Q a s)
      → ((e : E) → r ≡ err e → (s : S) → P s → X e s)
      → Triple P (lift r) Q X
  unfolding lift
  Triple-lift (ok a) h k = record { at = h a refl }
  Triple-lift (err e) h k = record { at = k e refl }

  pub Triple-gets : (f : S → A) → ((s : S) → P s → Q (f s) s) → Triple P (gets f) Q X
  unfolding gets
  Triple-gets f h = record { at = h }

  pub Triple-if :
      (b : Bool) (m n : Exec S E A)
      → (b ≡ true → Triple P m Q X)
      → (b ≡ false → Triple P n Q X)
      → Triple P (if b then m else n) Q X
  Triple-if true m n km kn = km refl
  Triple-if false m n km kn = kn refl

module _ {S E A : Type 0} {P : S → Type 0} {Q : S → Type 0} {X : E → S → Type 0} where
  pub Triple-ignore :
      (m : Exec S E A) → Triple P m (λ _. Q) (λ _. Q) → Triple P (ignore m) (λ _. Q) X
  unfolding ignore
  Triple-ignore m k = record { at = λ s h. merge (m s).0 (m s).1 (k.at s h) }
    where
      merge : (r : Result A E) (s : S) → Post (λ _. Q) (λ _. Q) r s → Q s
      merge (ok a) s h = h
      merge (err e) s h = h

module _ {S E A : Type 0} {P : S → Type 0} {Q : Result A E → S → Type 0} {X : E → S → Type 0} where
  pub Triple-attempt :
      (m : Exec S E A) → Triple P m (λ a. Q (ok a)) (λ e. Q (err e)) → Triple P (attempt m) Q X
  unfolding attempt
  Triple-attempt m k = record { at = λ s h. merge (m s).0 (m s).1 (k.at s h) }
    where
      merge : (r : Result A E) (s : S) → Post (λ a. Q (ok a)) (λ e. Q (err e)) r s → Q r s
      merge (ok a) s h = h
      merge (err e) s h = h

module _ {S E A B : Type 0} {Q : A → S → Type 0} {R : B → S → Type 0} {X : E → S → Type 0} where
  continue-Post :
      (r : Result A E) (s : S) (f : A → Exec S E B)
      → Post Q X r s
      → ((a : A) → Triple (Q a) (f a) R X)
      → Post R X (continue r f s).0 (continue r f s).1
  continue-Post (ok a) s f h k = (k a).at s h
  continue-Post (err e) s f h k = h

  pub Triple-bind :
      {P : S → Type 0} (m : Exec S E A) (f : A → Exec S E B)
      → Triple P m Q X
      → ((a : A) → Triple (Q a) (f a) R X)
      → Triple P (m >>= f) R X
  unfolding ◌>>=◌
  Triple-bind m f km kf = record { at = λ s h. continue-Post (m s).0 (m s).1 f (km.at s h) kf }

-- An invariant: it holds after the action, whether it returns or fails.
abbrev pub Keeps : {S E A : Type 0} → (S → Type 0) → Exec S E A → Type 0
Keeps P m = Triple P m (λ _. P) (λ _. P)

module _ {S E A : Type 0} {P P' : S → Type 0} {Q Q' : A → S → Type 0} {X X' : E → S → Type 0} where
  pub Triple-both :
      (m : Exec S E A)
      → Triple P m Q X
      → Triple P' m Q' X'
      → Triple (λ s. P s × P' s) m (λ a s. Q a s × Q' a s) (λ e s. X e s × X' e s)
  Triple-both m k l = record { at = λ s h. both (m s).0 (m s).1 (k.at s h.0) (l.at s h.1) }
    where
      both :
          (r : Result A E) (s : S)
          → Post Q X r s
          → Post Q' X' r s
          → Post (λ a s. Q a s × Q' a s) (λ e s. X e s × X' e s) r s
      both (ok a) s h k = (h, k)
      both (err e) s h k = (h, k)

module _ {S E A : Type 0} {P P' : S → Type 0} {Q Q' : A → S → Type 0} {X X' : E → S → Type 0} where
  pub Triple-weaken :
      (m : Exec S E A)
      → Triple P' m Q' X'
      → ((s : S) → P s → P' s)
      → ((a : A) (s : S) → Q' a s → Q a s)
      → ((e : E) (s : S) → X' e s → X e s)
      → Triple P m Q X
  Triple-weaken m k before after failed = record {
    at = λ s h. relax (m s).0 (m s).1 (k.at s (before s h));
  }
    where
      relax : (r : Result A E) (s : S) → Post Q' X' r s → Post Q X r s
      relax (ok a) s h = after a s h
      relax (err e) s h = failed e s h

module _ {S E A : Type 0} {P Q : S → Type 0} where
  -- What holds in the state that an action leaves, whether it returned or failed.
  pub Triple-final : (m : Exec S E A) (s : S) → Triple P m (λ _. Q) (λ _. Q) → P s → Q (m s).1
  Triple-final m s k h = either (m s).0 (m s).1 (k.at s h)
    where
      either : (r : Result A E) (t : S) → Post (λ _. Q) (λ _. Q) r t → Q t
      either (ok a) t h = h
      either (err e) t h = h

module _ {S E A : Type 0} {P : S → Type 0} {Q : A → S → Type 0} {X : E → S → Type 0} where
  -- What does not speak of the state is carried along.
  pub Triple-frame :
      (C : Type 0) (m : Exec S E A)
      → Triple P m Q X
      → Triple (λ s. P s × C) m (λ a s. Q a s × C) (λ e s. X e s × C)
  Triple-frame C m k = record { at = λ s h. with_frame (m s).0 (m s).1 h.1 (k.at s h.0) }
    where
      with_frame :
          (r : Result A E) (s : S)
          → C
          → Post Q X r s
          → Post (λ a s. Q a s × C) (λ e s. X e s × C) r s
      with_frame (ok a) s c h = (h, c)
      with_frame (err e) s c h = (h, c)

module _ {S E A : Type 0} {P : S → Type 0} {Q : A → S → Type 0} {X : E → S → Type 0} where
  -- What holds under a condition.
  pub Triple-given :
      (C : Type 0) (m : Exec S E A)
      → (C → Triple P m Q X)
      → Triple P m (λ a s. C → Q a s) (λ e s. C → X e s)
  Triple-given C m k = record { at = λ s h. given (m s).0 (m s).1 (λ c. (k c).at s h) }
    where
      given :
          (r : Result A E) (s : S)
          → (C → Post Q X r s)
          → Post (λ a s. C → Q a s) (λ e s. C → X e s) r s
      given (ok a) s h = h
      given (err e) s h = h

module _ {S E A : Type 0} {P : S → Type 0} where
  -- Nothing is asked.
  pub Triple-any : (m : Exec S E A) → Triple P m (λ _ _. Unit {0}) (λ _ _. Unit {0})
  Triple-any m = record { at = λ s h. either (m s).0 (m s).1 }
    where
      either : (r : Result A E) (t : S) → Post (λ _ _. Unit {0}) (λ _ _. Unit {0}) r t
      either (ok a) t = tt
      either (err e) t = tt
