-- ===== src/Store/Token.antt =====
-- The lock token of crates/profile-store/src/store.rs as text and as bytes.
use Prim.Native.Char.{code}
use aegis_private_browser.Prelude.{
  ℕ, zero, suc, ◌+◌, ◌/◌, ◌%◌, ltb, ◌==◌, Bool, true, false, ◌&&◌, List, [], ◌∷◌, ◌++◌, String,
  if◌then◌else◌,
}
use aegis_private_browser.Prelude.Text.{◌+s◌}
use aegis_private_browser.Store.Tree.{Bytes}

-- `str::as_bytes` is UTF-8.
abbrev utf8 : ℕ → Bytes
utf8 c =
    if ltb c 0x80
    then c ∷ []
    else if ltb c 0x800
    then (0xc0 + c / 64) ∷ (0x80 + c % 64) ∷ []
    else if ltb c 0x10000
    then (0xe0 + c / 4096) ∷ (0x80 + c / 64 % 64) ∷ (0x80 + c % 64) ∷ []
    else (0xf0 + c / 262144) ∷ (0x80 + c / 4096 % 64) ∷ (0x80 + c / 64 % 64) ∷ (0x80 + c % 64) ∷ []

unfoldable pub as_bytes : String → Bytes
as_bytes String.[] = []
as_bytes (String.◌∷◌ c s) = utf8 (code c) ++ as_bytes s

unfoldable pub bytes_eq : Bytes → Bytes → Bool
bytes_eq [] [] = true
bytes_eq [] (b ∷ y) = false
bytes_eq (a ∷ x) [] = false
bytes_eq (a ∷ x) (b ∷ y) = a == b && bytes_eq x y

abbrev digit_at : ℕ → String → String
digit_at n String.[] = ""
digit_at zero (String.◌∷◌ c s) = String.◌∷◌ c ""
digit_at (suc n) (String.◌∷◌ c s) = digit_at n s

abbrev hex_digit : ℕ → String
hex_digit n = digit_at n "0123456789abcdef"

-- The random bytes in lower-case hexadecimal, two digits each.
unfoldable pub new_token : List ℕ → String
new_token [] = ""
new_token (b ∷ more) = hex_digit (b / 16) +s hex_digit (b % 16) +s new_token more
