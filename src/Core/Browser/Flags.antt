-- ===== src/Core/Browser/Flags.antt =====
-- What a command line that was found safe contains.
use Prim.Native.String
use text.Mathlib.TextEquality.{eq_iff, starts_with_iff}
use text.Mathlib.TextBridge.{IsPrefix}
use aegis_private_browser.Prelude.{
  ◌≡◌, refl, ◌↔◌, ◌⊎◌, Bool, true, List, [], ◌∷◌, String, ok, All, arith,
}
use aegis_private_browser.Core.Browser.{
  BackendPolicyBundle, forbidden, is_forbidden, assert_safe, assert_safe_args,
}

-- The flag itself, or the flag with a value.
abbrev pub Sets : String → String → Type 0
Sets flag arg = (arg ≡ flag) ⊎ IsPrefix (String.◌++◌ flag "=") arg

abbrev pub SetsOneOf : List String → String → Type 0
SetsOneOf [] arg = ⊥
SetsOneOf (flag ∷ more) arg = Sets flag arg ⊎ SetsOneOf more arg

abbrev pub IsSafeArg : Bool → String → Type 0
IsSafeArg production arg =
    (¬ SetsOneOf forbidden arg) × (production ≡ true → ¬ IsPrefix "--remote-debugging" arg)

is_forbidden_sound :
    (flags : List String) (arg : String) → is_forbidden flags arg ≡ true → SetsOneOf flags arg
unfolding is_forbidden
is_forbidden_sound [] arg h = cc
is_forbidden_sound (flag ∷ more) arg h = ground (
  arith,
  eq_iff arg flag,
  starts_with_iff arg (String.◌++◌ flag "="),
  is_forbidden_sound more arg,
)

is_forbidden_complete :
    (flags : List String) (arg : String) → SetsOneOf flags arg → is_forbidden flags arg ≡ true
unfolding is_forbidden
is_forbidden_complete [] arg h = elim h [ ]
is_forbidden_complete (flag ∷ more) arg h = ground (
  arith,
  eq_iff arg flag,
  starts_with_iff arg (String.◌++◌ flag "="),
  is_forbidden_complete more arg,
)

assert_safe_args_iff :
    (production : Bool) (args : List String)
    → (assert_safe_args production args ≡ ok tt) ↔ All (IsSafeArg production) args
unfolding assert_safe_args
assert_safe_args_iff production [] = (λ _. tt, λ _. refl)
assert_safe_args_iff production (arg ∷ more) = ground (
  arith,
  is_forbidden_sound forbidden arg,
  is_forbidden_complete forbidden arg,
  starts_with_iff arg "--remote-debugging",
  assert_safe_args_iff production more,
)

-- A bundle is found safe exactly when none of its arguments sets a forbidden flag, and none enables
-- remote debugging in a production build.
pub assert_safe-eq-ok_iff :
    (bundle : BackendPolicyBundle) (production : Bool)
    → (assert_safe bundle production ≡ ok tt) ↔ All (IsSafeArg production) bundle.command_line
unfolding assert_safe
assert_safe-eq-ok_iff bundle production = assert_safe_args_iff production bundle.command_line
