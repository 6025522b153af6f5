-- ===== src/Prelude/Decimal/Reading.antt =====
-- A number that is printed in decimal reads back.
use Prim.Native.Char.{code}
use Prim.Native.String.{String}
use Prim.Native.Nat.{ℕ, zero, suc, ◌+◌, ◌-◌, ◌*◌, ◌/◌, ◌%◌, ◌≤◌, ◌<◌}
use mathlib.Core.Path.{◌≡◌, refl, ap, ◌∙◌, subst}
use mathlib.Core.Logic.{inl, inr}
use mathlib.Core.Bool.{Bool, true, false, ◌&&◌}
use mathlib.Core.Option.{Option, none, some}
use native.Mathlib.Omega.{arith}
use text.Mathlib.TextLemmas.{nil-append, cons-append}
use aegis_private_browser.Prelude.Tests.{ltb, leb, Bool-cases}
use aegis_private_browser.Prelude.Text.{◌+s◌, every, every-append, is_empty}
use aegis_private_browser.Prelude.Decimal.{digits, digit_text, parse_uint, show}

abbrev from_there : String → Option ℕ → Option ℕ
from_there t none = none
from_there t (some m) = digits m t

digits-append : (n : ℕ) (s t : String) → digits n (s +s t) ≡ from_there t (digits n s)
unfolding digits
digits-append n String.[] t = rw (nil-append t) refl
digits-append n (String.◌∷◌ c s) t =
    ground (arith, cons-append c s t, digits-append (n * 10 + (code c - 48)) s t)

abbrev pub is_digit : ℕ → Bool
is_digit c = leb 48 c && leb c 57

-- A property of the ten digits.
by_digit :
    (P : ℕ → Type 0) (d : ℕ)
    → d < 10
    → P 0 × P 1 × P 2 × P 3 × P 4 × P 5 × P 6 × P 7 × P 8 × P 9
    → P d
by_digit P zero h p = p.0
by_digit P (suc zero) h p = p.1
by_digit P (suc (suc zero)) h p = p.2
by_digit P (suc (suc (suc zero))) h p = p.3
by_digit P (suc (suc (suc (suc zero)))) h p = p.4
by_digit P (suc (suc (suc (suc (suc zero))))) h p = p.5
by_digit P (suc (suc (suc (suc (suc (suc zero)))))) h p = p.6
by_digit P (suc (suc (suc (suc (suc (suc (suc zero))))))) h p = p.7
by_digit P (suc (suc (suc (suc (suc (suc (suc (suc zero)))))))) h p = p.8
by_digit P (suc (suc (suc (suc (suc (suc (suc (suc (suc zero))))))))) h p = p.9
by_digit P (suc (suc (suc (suc (suc (suc (suc (suc (suc (suc d)))))))))) h p = absurd (omega arith)

digits-digit_text : (a d : ℕ) → d < 10 → digits a (digit_text d) ≡ some (a * 10 + d)
unfolding digits
digits-digit_text a d h =
    by_digit (λ d. digits a (digit_text d) ≡ some (a * 10 + d)) d h
      (refl, refl, refl, refl, refl, refl, refl, refl, refl, refl)

every-digit_text : (d : ℕ) → d < 10 → every is_digit (digit_text d) ≡ true
every-digit_text d h =
    by_digit (λ d. every is_digit (digit_text d) ≡ true) d h
      (refl, refl, refl, refl, refl, refl, refl, refl, refl, refl)

abbrev pub power : ℕ → ℕ
power zero = 1
power (suc k) = 10 * power k

-- What is printed has digits only.
pub every-show : (k n : ℕ) → every is_digit (show k n) ≡ true
unfolding show
every-show zero n = refl
every-show (suc k) n = elim (Bool-cases (ltb n 10)) [
  | inl small ↦ rw small (every-digit_text n (ground arith))
  | inr large ↦ rw large (
      rw (every-append is_digit (show k (n / 10)) (digit_text (n % 10)))
        (rw (every-show k (n / 10)) (every-digit_text (n % 10) (omega arith))))
]

digits-show : (k n : ℕ) → n < power k → digits 0 (show k n) ≡ some n
unfolding show digits
digits-show zero n h =
    let none_left : 0 ≡ n = omega arith in subst (λ m. digits 0 "" ≡ some m) none_left refl
digits-show (suc k) n h = elim (Bool-cases (ltb n 10)) [
  | inl small ↦ rw small (digits-digit_text 0 n (ground arith) ∙ ap some (omega arith))
  | inr large ↦ rw large (
      digits-append 0 (show k (n / 10)) (digit_text (n % 10))
      ∙ ap (from_there (digit_text (n % 10))) (digits-show k (n / 10) (omega arith))
      ∙ digits-digit_text (n / 10) (n % 10) (omega arith)
      ∙ ap some (omega arith))
]

is_empty-append : (s t : String) → is_empty (s +s t) ≡ (is_empty s && is_empty t)
is_empty-append String.[] t = rw (nil-append t) refl
is_empty-append (String.◌∷◌ c s) t = rw (cons-append c s t) refl

is_empty-digit_text : (d : ℕ) → d < 10 → is_empty (digit_text d) ≡ false
is_empty-digit_text d h =
    by_digit (λ d. is_empty (digit_text d) ≡ false) d h
      (refl, refl, refl, refl, refl, refl, refl, refl, refl, refl)

-- Something is printed.
is_empty-show : (k n : ℕ) → is_empty (show (suc k) n) ≡ false
unfolding show
is_empty-show k n = elim (Bool-cases (ltb n 10)) [
  | inl small ↦ rw small (is_empty-digit_text n (ground arith))
  | inr large ↦ rw large (
      ground (
        arith,
        is_empty-append (show k (n / 10)) (digit_text (n % 10)),
        is_empty-digit_text (n % 10) (omega arith),
      ))
]

parse_uint-digits :
    (max n : ℕ) (s : String)
    → every is_digit s ≡ true
    → is_empty s ≡ false
    → digits 0 s ≡ some n
    → n ≤ max
    → parse_uint max s ≡ some n
unfolding parse_uint
parse_uint-digits max n String.[] all filled read fits = cc
parse_uint-digits max n (String.◌∷◌ c s) all filled read fits = ground arith

-- A number that fits its type reads back from what is printed.
pub parse_uint-show :
    (max k n : ℕ) → n < power (suc k) → n ≤ max → parse_uint max (show (suc k) n) ≡ some n
parse_uint-show max k n h fits =
    parse_uint-digits max n (show (suc k) n) (every-show (suc k) n) (is_empty-show k n)
      (digits-show (suc k) n h) fits
