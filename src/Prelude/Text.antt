-- ===== src/Prelude/Text.antt =====
-- What the program uses of `str`: trimming, ASCII lower case, splitting at a character.
use Prim.Native.Char.{code, Char, char, IsScalar}
use Prim.Native.String
use Prim.Native.String.{String}
use Prim.Native.Nat.{ℕ, zero, suc, ◌+◌, ◌<◌, compare, Ordering}
use mathlib.Core.Logic.{dite}
use native.Mathlib.Decide.{dec_lt}
use mathlib.Core.Path.{◌≡◌, refl}
use mathlib.Core.Bool.{Bool, true, false, not, ◌&&◌, ◌||◌}
use mathlib.Core.Option.{Option, none, some}
use mathlib.Core.List.{List, [], ◌∷◌}
use native.Mathlib.Omega.{arith}
use text.Mathlib.TextLemmas.{nil-append, cons-append}
use aegis_private_browser.Prelude.Tests.{leb, ◌==◌, if◌then◌else◌}

infixr 65 ◌+s◌
abbrev pub ◌+s◌ : String → String → String
a +s b = String.◌++◌ a b

-- `char::is_whitespace`: the code points of the Unicode property White_Space.
abbrev pub is_whitespace : ℕ → Bool
is_whitespace c =
    (leb 9 c && leb c 13)
    || (c == 0x20)
    || (c == 0x85)
    || (c == 0xa0)
    || (c == 0x1680)
    || (leb 0x2000 c && leb c 0x200a)
    || (leb 0x2028 c && leb c 0x2029)
    || (c == 0x202f)
    || (c == 0x205f)
    || (c == 0x3000)

abbrev pub is_empty : String → Bool
is_empty String.[] = true
is_empty (String.◌∷◌ _ _) = false

unfoldable pub trim_start : String → String
trim_start String.[] = String.[]
trim_start (String.◌∷◌ c s) =
    let rest = trim_start s in if is_whitespace (code c) then rest else String.◌∷◌ c s

unfoldable pub trim_end : String → String
trim_end String.[] = String.[]
trim_end (String.◌∷◌ c s) =
    let rest = trim_end s in
    if is_whitespace (code c) && is_empty rest then String.[] else String.◌∷◌ c rest

unfoldable pub trim : String → String
unfolding trim_start trim_end
trim s = trim_end (trim_start s)

-- `str::split_once` at a character, given by its code point.
unfoldable pub split_once : ℕ → String → Option (String × String)
split_once at String.[] = none
split_once at (String.◌∷◌ c s) =
    let rest = split_once at s in
    if code c == at
    then some (String.[], s)
    else elim rest [ none ↦ none | some (a, b) ↦ some (String.◌∷◌ c a, b) ]

-- `str::splitn`
unfoldable pub splitn : ℕ → ℕ → String → List String
unfolding split_once
splitn zero at s = []
splitn (suc zero) at s = s ∷ []
splitn (suc (suc n)) at s = elim (split_once at s) [
  | none ↦ s ∷ []
  | some (a, b) ↦ a ∷ splitn (suc n) at b
]

-- Whether every character's code point passes.
abbrev pub every : (ℕ → Bool) → String → Bool
every p String.[] = true
every p (String.◌∷◌ c s) = p (code c) && every p s

abbrev pub is_dark : ℕ → Bool
is_dark c = not (is_whitespace c)

trim_start-dark : (s : String) → every is_dark s ≡ true → trim_start s ≡ s
unfolding trim_start
trim_start-dark String.[] h = refl
trim_start-dark (String.◌∷◌ c s) h = ground arith

trim_end-dark : (s : String) → every is_dark s ≡ true → trim_end s ≡ s
unfolding trim_end
trim_end-dark String.[] h = refl
trim_end-dark (String.◌∷◌ c s) h = ground (arith, trim_end-dark s)

-- A text without whitespace is its own trimming.
pub trim-dark : (s : String) → every is_dark s ≡ true → trim s ≡ s
unfolding trim
trim-dark s h = ground (arith, trim_start-dark s h, trim_end-dark s h)

pub every-append : (p : ℕ → Bool) (s t : String) → every p (s +s t) ≡ (every p s && every p t)
every-append p String.[] t = rw (nil-append t) refl
every-append p (String.◌∷◌ c s) t = ground (arith, cons-append c s t, every-append p s t)

pub every-imp :
    (p q : ℕ → Bool)
    → ((c : ℕ) → p c ≡ true → q c ≡ true)
    → (s : String) → every p s ≡ true
    → every q s ≡ true
every-imp p q h String.[] e = refl
every-imp p q h (String.◌∷◌ c s) e = ground (arith, h (code c), every-imp p q h s)

-- A split at the first separator finds the text before it.
pub split_once-append :
    (at : ℕ) (s : String) (c : Char) (t : String)
    → every (λ d. not (d == at)) s ≡ true
    → code c ≡ at
    → split_once at (s +s String.◌∷◌ c t) ≡ some (s, t)
unfolding split_once
split_once-append at String.[] c t h e = ground (arith, nil-append (String.◌∷◌ c t))
split_once-append at (String.◌∷◌ d s) c t h e =
    ground (arith, cons-append d s (String.◌∷◌ c t), split_once-append at s c t)

pub ascii-IsScalar : (n : ℕ) → n < 123 → IsScalar n
ascii-IsScalar n h = let e : compare n 55296 ≡ Ordering.lt = ground arith in rw e tt

-- `char::to_ascii_lowercase`
unfoldable pub lower_char : Char → Char
unfolding dec_lt
lower_char (char n s) =
    dite (dec_lt n 91)
      (λ (h : n < 91).
        if leb 65 n then char (n + 32) (ascii-IsScalar (n + 32) (omega arith)) else char n s)
      (λ _. char n s)

-- `str::to_ascii_lowercase`
unfoldable pub to_ascii_lowercase : String → String
unfolding lower_char
to_ascii_lowercase String.[] = String.[]
to_ascii_lowercase (String.◌∷◌ c s) = String.◌∷◌ (lower_char c) (to_ascii_lowercase s)

lower_test : to_ascii_lowercase "AbZ[9" ≡ "abz[9"
unfolding to_ascii_lowercase ascii-IsScalar
lower_test = refl
