-- ===== src/Update/Transport.antt =====
-- The transports of crates/update-client/src/lib.rs: FileTransport, MockTransport, UreqTransport.
use Prim.Native.Char.{code}
use text.Mathlib.Text.{starts_with}
use aegis_private_browser.Prelude.{
  ◌≡◌, refl, ℕ, zero, suc, ◌<◌, ◌≤◌, ◌==◌, ltb, leb, length, Bool, true, not, ◌&&◌, ◌||◌, Option,
  none, some, List, [], ◌∷◌, ◌++◌, String, string_eq, Bool-cases, inl, inr, all, lookup, insert,
  remove, Result, ok, err, if◌then◌else◌, arith,
}
use aegis_private_browser.Prelude.Text.{◌+s◌, is_empty}
use aegis_private_browser.Core.Error.{Error}
use aegis_private_browser.Files.FilePath.{FilePath, path, join, is_parent_dir, without_dot, is_nil}
use aegis_private_browser.Update.Host.{Bytes}

abbrev pub inside : List String → Bool
inside parts = all (λ s. not (is_parent_dir s)) parts

-- `FileTransport::resolve`
unfoldable pub resolve : FilePath → String → Result FilePath Error
unfolding join
resolve base location =
    if (path location).absolute
    then err Error.system
    else if not (inside (path location).parts)
    then err Error.system
    else ok (join base (path location))

-- `FileTransport::fetch`, where `read` is what the disk has.
unfoldable pub file_fetch : (FilePath → Option Bytes) → FilePath → String → Result Bytes Error
unfolding resolve
file_fetch read base location = elim (resolve base location) [
  | err e ↦ err e
  | ok p ↦ elim (read p) [ none ↦ err Error.system | some bytes ↦ ok bytes ]
]

-- `MockTransport`: `with`, `insert`, `remove` and `fetch`.
abbrev pub MockTransport : Type 0
MockTransport = List (String × Bytes)

abbrev pub serve : String → Bytes → MockTransport → MockTransport
serve location bytes entries = insert location bytes entries

abbrev pub withdraw : String → MockTransport → MockTransport
withdraw location entries = remove location entries

abbrev or_system : Option Bytes → Result Bytes Error
or_system none = err Error.system
or_system (some bytes) = ok bytes

unfoldable pub mock_fetch : MockTransport → String → Result Bytes Error
mock_fetch entries location = or_system (lookup location entries)

unfoldable pub trim_slashes_start : String → String
trim_slashes_start String.[] = String.[]
trim_slashes_start (String.◌∷◌ c s) =
    let rest = trim_slashes_start s in if code c == b'/' then rest else String.◌∷◌ c s

unfoldable pub trim_slashes_end : String → String
trim_slashes_end String.[] = String.[]
trim_slashes_end (String.◌∷◌ c s) =
    let rest = trim_slashes_end s in
    if (code c == b'/') && is_empty rest then String.[] else String.◌∷◌ c rest

-- `UreqTransport::resolve_url`
unfoldable pub resolve_url : String → String → String
unfolding trim_slashes_start trim_slashes_end
resolve_url base location =
    if starts_with location "http://" || starts_with location "https://"
    then location
    else trim_slashes_end base +s "/" +s trim_slashes_start location

abbrev pub u64_max : ℕ
u64_max = 18446744073709551615

abbrev pub default_max_bytes : ℕ
default_max_bytes = 536870912

-- `Read::take`, then `read_to_end`
unfoldable pub take : {A : Type 0} → ℕ → List A → List A
take zero xs = []
take (suc n) [] = []
take (suc n) (x ∷ xs) = x ∷ take n xs

abbrev saturating_succ : ℕ → ℕ
saturating_succ n = if ltb n u64_max then suc n else u64_max

-- The body of a response, with the cap on its size.
unfoldable pub read_body : ℕ → Bytes → Result Bytes Error
unfolding take
read_body max_bytes body =
    if ltb max_bytes (length (take (saturating_succ max_bytes) body))
    then err Error.system
    else ok (take (saturating_succ max_bytes) body)

inside-without_dot : (parts : List String) → inside parts ≡ true → inside (without_dot parts) ≡ true
inside-without_dot [] h = refl
inside-without_dot (s ∷ more) h = ground arith

-- A resolved location lies under the base: the base's components, and then components none of which
-- is `..`.
pub resolve-inside :
    (base : FilePath) (location : String) (p : FilePath)
    → resolve base location ≡ ok p
    → (p.absolute ≡ base.absolute)
      × ((rest : List String) × (p.parts ≡ base.parts ++ rest) × (inside rest ≡ true))
unfolding resolve
resolve-inside base location p h = elim (Bool-cases (not base.absolute && is_nil base.parts)) [
  | inl empty ↦ (ground arith, ((path location).parts, ground arith, ground arith))
  | inr filled ↦ (
    ground arith,
    (
      without_dot (path location).parts,
      ground arith,
      ground (arith, inside-without_dot (path location).parts),
    ),
  )
]

length-take : {A : Type 0} (n : ℕ) (xs : List A) → n ≤ length xs → length (take n xs) ≡ n
unfolding take
length-take zero xs h = refl
length-take (suc n) [] h = absurd (omega arith)
length-take (suc n) (x ∷ xs) h = omega (arith, length-take n xs (omega arith))

take_all : {A : Type 0} (n : ℕ) (xs : List A) → length xs ≤ n → take n xs ≡ xs
unfolding take
take_all zero [] h = refl
take_all zero (x ∷ xs) h = absurd (omega arith)
take_all (suc n) [] h = refl
take_all (suc n) (x ∷ xs) h = ground (arith, take_all n xs)

-- Below the largest cap, a body is answered whole when it is no longer than the cap, and refused
-- when it is longer: none is cut short.
pub read_body_lem :
    (max_bytes : ℕ) (body : Bytes)
    → max_bytes < u64_max
    → read_body max_bytes body ≡ (if leb (length body) max_bytes then ok body else err Error.system)
unfolding read_body
read_body_lem max_bytes body h = elim (Bool-cases (leb (length body) max_bytes)) [
  | inl short ↦ ground (arith, take_all (suc max_bytes) body)
  | inr long ↦ ground (arith, length-take (suc max_bytes) body)
]
