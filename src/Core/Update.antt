-- ===== src/Core/Update.antt =====
-- crates/aegis-core/src/update.rs
pub mod Order
pub mod Printed
use aegis_private_browser.Prelude.{
  ℕ, suc, ◌==◌, ltb, Bool, Option, none, some, List, [], ◌∷◌, String, Result, ok, err,
  if◌then◌else◌, ◌>>=◌,
}
use aegis_private_browser.Prelude.Decimal.{parse_uint, show}
use aegis_private_browser.Prelude.Text.{◌+s◌, trim, splitn}
use aegis_private_browser.Core.Error.{Error}

pub record Version : Type 0 where
  pub major : ℕ
  pub minor : ℕ
  pub patch : ℕ

abbrev pub u32_max : ℕ
u32_max = 4294967295

-- The derived `Ord` compares the fields in their order.
unfoldable pub is_newer_than : Version → Version → Bool
is_newer_than v w =
    if v.major == w.major
    then (if v.minor == w.minor then ltb w.patch v.patch else ltb w.minor v.minor)
    else ltb w.major v.major

abbrev pub dotted : String → String → String → String
dotted a b c = a +s "." +s b +s "." +s c

-- `Display`. A `u32` has at most ten digits.
unfoldable pub display : Version → String
display v = dotted (show 10 v.major) (show 10 v.minor) (show 10 v.patch)

-- The closure `next`: one component, and the components that are left.
unfoldable pub next : List String → Result (ℕ × List String) Error
unfolding parse_uint
next [] = err Error.config
next (s ∷ rest) = elim (parse_uint u32_max s) [ none ↦ err Error.config | some n ↦ ok (n, rest) ]

unfoldable pub from_str : String → Result Version Error
from_str s = next (splitn 3 b'.' (trim s)) >>= λ a.
    next a.1 >>= λ b. next b.1 >>= λ c. ok (record { major = a.0; minor = b.0; patch = c.0 })

pub data ArtifactKind : Type 0 where
  gateway_image browser_image app_package : ArtifactKind

pub record Artifact : Type 0 where
  pub kind : ArtifactKind
  pub location : String
  pub sha256 : String
  pub size : ℕ

pub data UpdateKind : Type 0 where
  full delta : UpdateKind

pub record UpdateManifest : Type 0 where
  pub schema : ℕ
  pub version : Version
  pub delta_base : Option Version
  pub kind : UpdateKind
  pub artifacts : List Artifact
  pub sbom : Option String
  pub signature : String

pub record VerifiedArtifact : Type 0 where
  pub version : Version
  pub artifacts : List Artifact

pub data ApplyOutcome : Type 0 where
  applied rolled_back : ApplyOutcome

pub record VersionInfo : Type 0 where
  pub current : Version
