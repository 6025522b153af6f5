-- ===== src/Prelude/Exec.antt =====
-- Methods that change an object and may fail: what was written before a failure stays written.
pub mod Triple
pub mod Moves
use mathlib.Core.Path.{◌≡◌, refl}
use aegis_private_browser.Prelude.Results.{Result, ok, err}

abbrev pub Exec : Type 0 → Type 0 → Type 0 → Type 0
Exec S E A = S → Result A E × S

module _ {S E A : Type 0} where
  unfoldable pub pure : A → Exec S E A
  pure a s = (ok a, s)

  unfoldable pub raise : E → Exec S E A
  raise e s = (err e, s)

  -- `?` on a value that no state was needed for.
  unfoldable pub lift : Result A E → Exec S E A
  lift r s = (r, s)

  unfoldable pub gets : (S → A) → Exec S E A
  gets f s = (ok (f s), s)

  -- `let _ = e`: the result is dropped, a failure too.
  unfoldable pub ignore : Exec S E A → Exec S E (Unit {0})
  ignore m s = (ok tt, (m s).1)

module _ {S E A : Type 0} where
  -- `match e { … }`: the result as a value, a failure too.
  unfoldable pub attempt : Exec S E A → Exec S E (Result A E)
  attempt m s = (ok (m s).0, (m s).1)

module _ {S E A B : Type 0} where
  abbrev pub continue : Result A E → (A → Exec S E B) → Exec S E B
  continue (ok a) f s = f a s
  continue (err e) f s = (err e, s)

  infixl 5 ◌>>=◌ ◌>>◌
  -- opening this opens the actions above too
  unfoldable pub ◌>>=◌ : Exec S E A → (A → Exec S E B) → Exec S E B
  unfolding pure raise lift gets ignore attempt
  ◌>>=◌ m f s = let (r, s') = m s in continue r f s'

  abbrev pub ◌>>◌ : Exec S E A → Exec S E B → Exec S E B
  m >> n = m >>= λ _. n
