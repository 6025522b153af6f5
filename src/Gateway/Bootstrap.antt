-- ===== src/Gateway/Bootstrap.antt =====
-- `parse_tor_bootstrap` of crates/gateway-controller/src/lib.rs
use Prim.Native.String
use text.Mathlib.Text.{starts_with}
use aegis_private_browser.Prelude.{
  ◌≡◌, ◌≢◌, ◌↔◌, refl, ℕ, zero, suc, ◌≤◌, ◌==◌, leb, Bool, false, not, ◌&&◌, arith, Option, none,
  some, List, [], ◌∷◌, String, if◌then◌else◌,
}
use aegis_private_browser.Prelude.Decimal.{parse_uint}
use aegis_private_browser.Core.Gateway.{TunnelState, TunnelStatus}
use aegis_private_browser.Prelude.Text.{is_whitespace}
use Prim.Native.Char.{code}

abbrev starts_word : String → Bool
starts_word String.[] = false
starts_word (String.◌∷◌ c s) = not (is_whitespace (code c))

abbrev push : String → List String → List String
push c [] = c ∷ []
push c (word ∷ words) = String.◌++◌ c word ∷ words

-- `.split_whitespace()`
unfoldable pub words : String → List String
words String.[] = []
words (String.◌∷◌ c s) =
    let rest = words s in
    if is_whitespace (code c)
    then rest
    else if starts_word s
    then push (String.◌∷◌ c String.[]) rest
    else String.◌∷◌ c String.[] ∷ rest

abbrev drop : ℕ → String → String
drop zero s = s
drop (suc n) String.[] = String.[]
drop (suc n) (String.◌∷◌ c s) = drop n s

-- `PROGRESS=NN` or a bare number, as a `u8`.
abbrev token_value : String → Option ℕ
token_value token = parse_uint 255 (if starts_with token "PROGRESS=" then drop 9 token else token)

abbrev or_else : Option ℕ → Option ℕ → Option ℕ
or_else none other = other
or_else (some n) other = some n

-- `find_map`: the first token that is a number.
unfoldable pub first_value : List String → Option ℕ
unfolding parse_uint
first_value [] = none
first_value (token ∷ tokens) = or_else (token_value token) (first_value tokens)

abbrev percent_of : Option ℕ → ℕ
percent_of none = 0
percent_of (some n) = if leb n 100 then n else 100

abbrev tunnel_state : ℕ → TunnelState
tunnel_state percent =
    if percent == 100
    then TunnelState.up
    else if leb 1 percent && leb percent 99
    then TunnelState.connecting
    else TunnelState.down

abbrev status_at : ℕ → TunnelStatus
status_at percent = record {
  state = tunnel_state percent;
  bootstrap_percent = some percent;
  detail = none;
}

unfoldable pub parse_tor_bootstrap : String → TunnelStatus
unfolding words first_value
parse_tor_bootstrap stdout = status_at (percent_of (first_value (words stdout)))

parse_tests :
    ((parse_tor_bootstrap "100").state ≡ TunnelState.up)
    × ((parse_tor_bootstrap "NOTICE BOOTSTRAP PROGRESS=85 TAG=x").state ≡ TunnelState.connecting)
    × ((parse_tor_bootstrap "  ").state ≡ TunnelState.down)
    × ((parse_tor_bootstrap "250-status PROGRESS=100").state ≡ TunnelState.up)
unfolding parse_tor_bootstrap
parse_tests = (refl, refl, refl, refl)

percent_of-le : (o : Option ℕ) → percent_of o ≤ 100
percent_of-le none = omega arith
percent_of-le (some n) = ground arith

-- The percentage is at most 100, and the tunnel counts as up exactly at 100, as connecting exactly
-- from 1 to 99 and as down exactly at 0; it never counts as failed.
pub parse_tor_bootstrap_lem :
    (stdout : String)
    → (percent : ℕ) × ((parse_tor_bootstrap stdout).bootstrap_percent ≡ some percent)
      × (percent ≤ 100)
      × (((parse_tor_bootstrap stdout).state ≡ TunnelState.up) ↔ (percent ≡ 100))
      × (((parse_tor_bootstrap stdout).state ≡ TunnelState.connecting)
          ↔ ((1 ≤ percent) × (percent ≤ 99)))
      × (((parse_tor_bootstrap stdout).state ≡ TunnelState.down) ↔ (percent ≡ 0))
      × ((parse_tor_bootstrap stdout).state ≢ TunnelState.failed)
unfolding parse_tor_bootstrap
parse_tor_bootstrap_lem stdout =
    at (percent_of (first_value (words stdout))) (percent_of-le (first_value (words stdout)))
  where
    at :
        (n : ℕ)
        → n ≤ 100
        → (percent : ℕ) × ((status_at n).bootstrap_percent ≡ some percent)
          × (percent ≤ 100)
          × (((status_at n).state ≡ TunnelState.up) ↔ (percent ≡ 100))
          × (((status_at n).state ≡ TunnelState.connecting) ↔ ((1 ≤ percent) × (percent ≤ 99)))
          × (((status_at n).state ≡ TunnelState.down) ↔ (percent ≡ 0))
          × ((status_at n).state ≢ TunnelState.failed)
    at n h = (n, refl, h, ground arith, ground arith, ground arith, ground arith)
