-- ===== src/Ipc/Frame/Bytes.antt =====
-- Big-endian numbers and exact reads.
use aegis_private_browser.Prelude.{
  ◌≡◌, refl, ap, ℕ, zero, suc, ◌+◌, ◌*◌, ◌/◌, ◌%◌, ◌<◌, Option, none, some, List, [], ◌∷◌, ◌++◌,
  length, arith,
}

-- `u32::to_be_bytes`
abbrev pub to_be_bytes : ℕ → List ℕ
to_be_bytes n = (n / 16777216 % 256) ∷ (n / 65536 % 256) ∷ (n / 256 % 256) ∷ (n % 256) ∷ []

-- `u32::from_be_bytes`, of the four bytes of a header.
abbrev pub from_be_bytes : List ℕ → ℕ
from_be_bytes (a ∷ b ∷ c ∷ d ∷ []) = ((a * 256 + b) * 256 + c) * 256 + d
from_be_bytes _ = 0

abbrev push : ℕ → Option (List ℕ × List ℕ) → Option (List ℕ × List ℕ)
push b none = none
push b (some (front, rest)) = some (b ∷ front, rest)

-- `read_exact`: the first `n` bytes and the rest, when there are that many.
unfoldable pub split_at : ℕ → List ℕ → Option (List ℕ × List ℕ)
split_at zero bytes = some ([], bytes)
split_at (suc n) [] = none
split_at (suc n) (b ∷ bytes) = push b (split_at n bytes)

pub from_be_bytes-to_be_bytes : (n : ℕ) → n < 4294967296 → from_be_bytes (to_be_bytes n) ≡ n
from_be_bytes-to_be_bytes n h = omega arith

pub split_at-append :
    (front rest : List ℕ) → split_at (length front) (front ++ rest) ≡ some (front, rest)
unfolding split_at
split_at-append [] rest = refl
split_at-append (b ∷ front) rest = ap (push b) (split_at-append front rest)

pub split_at-short : (n : ℕ) (bytes : List ℕ) → length bytes < n → split_at n bytes ≡ none
unfolding split_at
split_at-short zero bytes h = absurd (omega (arith, h))
split_at-short (suc n) [] h = refl
split_at-short (suc n) (b ∷ bytes) h = ap (push b) (split_at-short n bytes (omega (arith, h)))
