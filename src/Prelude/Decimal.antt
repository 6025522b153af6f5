-- ===== src/Prelude/Decimal.antt =====
-- `str::parse` for the unsigned integers.
pub mod Reading
use Prim.Native.Char.{code}
use Prim.Native.String
use Prim.Native.String.{String}
use Prim.Native.Nat.{ℕ, zero, suc, ◌+◌, ◌-◌, ◌*◌, ◌/◌, ◌%◌, ◌≤◌}
use mathlib.Core.Path.{◌≡◌, refl}
use mathlib.Core.Bool.{◌&&◌}
use mathlib.Core.Option.{Option, none, some}
use native.Mathlib.Omega.{arith}
use aegis_private_browser.Prelude.Tests.{ltb, leb, ◌==◌, if◌then◌else◌}

-- The value of a run of digits. The source stops at the first overflow; a longer run only has a
-- larger value, so one comparison at the end gives the same answer.
unfoldable pub digits : ℕ → String → Option ℕ
digits n String.[] = some n
digits n (String.◌∷◌ c s) =
    let d = code c in
    let rest = digits (n * 10 + (d - 48)) s in if leb 48 d && leb d 57 then rest else none

abbrev pub at_most : ℕ → Option ℕ → Option ℕ
at_most max none = none
at_most max (some n) = if leb n max then some n else none

-- A text with no digit is refused.
abbrev pub unsigned : ℕ → String → Option ℕ
unsigned max String.[] = none
unsigned max s = at_most max (digits 0 s)

-- `s.parse::<uN>()`, where `max` is `uN::MAX`: a leading `+` is accepted.
unfoldable pub parse_uint : ℕ → String → Option ℕ
unfolding digits
parse_uint max String.[] = none
parse_uint max (String.◌∷◌ c s) =
    if code c == b'+' then unsigned max s else at_most max (digits 0 (String.◌∷◌ c s))

abbrev pub digit_text : ℕ → String
digit_text n =
    if n == 0
    then "0"
    else if n == 1
    then "1"
    else if n == 2
    then "2"
    else if n == 3
    then "3"
    else if n == 4
    then "4"
    else if n == 5
    then "5"
    else if n == 6
    then "6"
    else if n == 7
    then "7"
    else if n == 8
    then "8"
    else "9"

-- `Display` of a number with at most `k` digits.
unfoldable pub show : ℕ → ℕ → String
show zero n = ""
show (suc k) n =
    let front = show k (n / 10) in
    if ltb n 10 then digit_text n else String.◌++◌ front (digit_text (n % 10))

show_tests : (show 5 0 ≡ "0") × (show 5 65535 ≡ "65535") × (show 5 1080 ≡ "1080")
unfolding show
show_tests = (refl, refl, refl)

unsigned-le : (max : ℕ) (s : String) (n : ℕ) → unsigned max s ≡ some n → n ≤ max
unsigned-le max String.[] n h = ground arith
unsigned-le max (String.◌∷◌ c s) n h = ground arith

-- A number that was parsed fits its type.
pub parse_uint-le : (max : ℕ) (s : String) (n : ℕ) → parse_uint max s ≡ some n → n ≤ max
unfolding parse_uint
parse_uint-le max String.[] n h = ground arith
parse_uint-le max (String.◌∷◌ c s) n h = ground (arith, unsigned-le max s n)

parse_uint_tests :
    (parse_uint 255 "255" ≡ some 255)
    × (parse_uint 255 "256" ≡ none)
    × (parse_uint 255 "+7" ≡ some 7)
    × (parse_uint 255 "+" ≡ none)
    × (parse_uint 255 "1x" ≡ none)
unfolding parse_uint
parse_uint_tests = (refl, refl, refl, refl, refl)
