-- ===== src/Core/Update/Printed.antt =====
-- A version that is printed reads back.
use text.Mathlib.TextLemmas.{cons-append, nil-append}
use aegis_private_browser.Prelude.{
  ◌≡◌, refl, ap, ◌∙◌, ℕ, ◌≤◌, true, not, ◌==◌, some, List, [], ◌∷◌, String, ok, arith,
}
use aegis_private_browser.Prelude.Decimal.{show}
use aegis_private_browser.Prelude.Decimal.Reading.{is_digit, every-show, parse_uint-show}
use aegis_private_browser.Prelude.Text.{
  trim, ◌+s◌, every, every-append, every-imp, is_dark, trim-dark, split_once-append, splitn,
  split_once,
}
use aegis_private_browser.Core.Update.{Version, u32_max, display, dotted, next, from_str}

-- Each component fits a `u32`.
pub record IsWide (v : Version) : Type 0 where
  pub major_fits : v.major ≤ u32_max
  pub minor_fits : v.minor ≤ u32_max
  pub patch_fits : v.patch ≤ u32_max

abbrev Numeral : String → Type 0
Numeral s = every is_digit s ≡ true

dark : (s : String) → Numeral s → every is_dark s ≡ true
dark s h = every-imp is_digit is_dark (λ c d. ground arith) s h

undotted : (s : String) → Numeral s → every (λ c. not (c == b'.')) s ≡ true
undotted s h = every-imp is_digit (λ c. not (c == b'.')) (λ c d. ground arith) s h

after_dot : (s t : String) → Numeral s → split_once b'.' (s +s "." +s t) ≡ some (s, t)
after_dot s t h =
    ap (λ r. split_once b'.' (s +s r)) (cons-append "." "" t ∙ ap (String.◌∷◌ ".") (nil-append t))
    ∙ split_once-append b'.' s "." t (undotted s h) refl

module _ (a b c : String) (na : Numeral a) (nb : Numeral b) (nc : Numeral c) where
  dark-dotted : every is_dark (dotted a b c) ≡ true
  dark-dotted = ground (
    arith,
    every-append is_dark a ("." +s b +s "." +s c),
    every-append is_dark "." (b +s "." +s c),
    every-append is_dark b ("." +s c),
    every-append is_dark "." c,
    dark a na,
    dark b nb,
    dark c nc,
  )

  splitn-dotted : splitn 3 b'.' (dotted a b c) ≡ a ∷ b ∷ c ∷ []
  unfolding splitn
  splitn-dotted = ground (arith, after_dot a (b +s "." +s c) na, after_dot b c nb)

next-show : (n : ℕ) (rest : List String) → n ≤ u32_max → next (show 10 n ∷ rest) ≡ ok (n, rest)
unfolding next
next-show n rest h = ground (arith, parse_uint-show u32_max 9 n (omega arith) h)

trim-display : (v : Version) → trim (display v) ≡ display v
unfolding display
trim-display v = trim-dark (display v) (
    dark-dotted (show 10 v.major) (show 10 v.minor) (show 10 v.patch) (every-show 10 v.major)
      (every-show 10 v.minor) (every-show 10 v.patch))

splitn-display :
    (v : Version)
    → splitn 3 b'.' (display v) ≡ show 10 v.major ∷ show 10 v.minor ∷ show 10 v.patch ∷ []
unfolding display
splitn-display v =
    splitn-dotted (show 10 v.major) (show 10 v.minor) (show 10 v.patch) (every-show 10 v.major)
      (every-show 10 v.minor) (every-show 10 v.patch)

-- A version whose components fit a `u32` is read back from what is displayed.
pub from_str-display : (v : Version) → IsWide v → from_str (display v) ≡ ok v
unfolding from_str
from_str-display v wide = rw (trim-display v) (
    rw (splitn-display v) (
      ground (
        arith,
        next-show v.major (show 10 v.minor ∷ show 10 v.patch ∷ []) wide.major_fits,
        next-show v.minor (show 10 v.patch ∷ []) wide.minor_fits,
        next-show v.patch [] wide.patch_fits,
      )))
