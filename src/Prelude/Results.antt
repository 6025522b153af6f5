-- ===== src/Prelude/Results.antt =====
-- Rust's `Result`, with `?` as a bind.

pub data Result (A E : Type 0) : Type 0 where
  ok : A → Result A E
  err : E → Result A E

module _ {A B E : Type 0} where
  infixl 5 ◌>>=◌
  abbrev pub ◌>>=◌ : Result A E → (A → Result B E) → Result B E
  ok a >>= f = f a
  err e >>= f = err e
