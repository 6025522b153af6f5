-- ===== src/Core/Profile.antt =====
-- crates/aegis-core/src/profile.rs. Times are plain numbers.
use Prim.Native.Char.{code}
use aegis_private_browser.Prelude.{
  ◌≡◌, ◌↔◌, ℕ, Bool, true, false, not, ◌&&◌, Option, none, some, String, if◌then◌else◌, Result, ok,
  err, arith,
}
use aegis_private_browser.Prelude.Text.{is_whitespace}
use aegis_private_browser.Core.Error.{Error}
use aegis_private_browser.Core.Browser.{BrowserBackendId}
use aegis_private_browser.Core.Config.{IsolationLevel}
use aegis_private_browser.Core.Fingerprint
use aegis_private_browser.Core.Fingerprint.{ProtectionLevel, FingerprintPolicy, policy}
use aegis_private_browser.Core.Network.{NetworkConfig, default_network}
use aegis_private_browser.Core.Permissions.{PermissionPolicy, secure_default}

pub data ProfileType : Type 0 where
  ephemeral persistent : ProfileType

abbrev pub is_ephemeral : ProfileType → Bool
is_ephemeral ProfileType.ephemeral = true
is_ephemeral ProfileType.persistent = false

pub record ProfileSpec : Type 0 where
  pub name : String
  pub kind : ProfileType
  pub network : NetworkConfig
  pub protection : ProtectionLevel
  pub isolation : IsolationLevel
  pub browser : BrowserBackendId
  pub fingerprint : Option FingerprintPolicy
  pub permissions : PermissionPolicy

unfoldable pub ephemeral_spec : String → ProfileSpec
unfolding default_network
ephemeral_spec name = record {
  name = name;
  kind = ProfileType.ephemeral;
  network = default_network;
  protection = ProtectionLevel.balanced;
  isolation = IsolationLevel.full_vm;
  browser = BrowserBackendId.chromium;
  fingerprint = none;
  permissions = secure_default;
}

unfoldable pub resolved_fingerprint : ProfileSpec → FingerprintPolicy
unfolding policy
resolved_fingerprint s = elim s.fingerprint [ some p ↦ p | none ↦ policy s.protection ]

-- `.trim().is_empty()`
unfoldable pub is_blank : String → Bool
is_blank String.[] = true
is_blank (String.◌∷◌ c s) = is_whitespace (code c) && is_blank s

unfoldable pub validate : ProfileSpec → Result (Unit {0}) Error
unfolding is_blank
validate s =
    if is_blank s.name
    then err Error.config
    else elim (Fingerprint.validate (policy s.protection)) [
      | some reason ↦ err Error.config
      | none ↦ ok tt
    ]

pub record Profile : Type 0 where
  pub id : ℕ
  pub spec : ProfileSpec
  pub created_at : ℕ
  pub last_launched : Option ℕ
  pub storage : ℕ
  pub locked : Bool

abbrev pub can_open : Profile → Bool
can_open p = not p.locked

pub record ProfilePatch : Type 0 where
  pub name : Option String
  pub network : Option NetworkConfig
  pub protection : Option ProtectionLevel
  pub permissions : Option PermissionPolicy

abbrev is_none {ℓ} : {A : Type ℓ} → Option A → Bool
is_none none = true
is_none (some _) = false

abbrev pub is_empty : ProfilePatch → Bool
is_empty p = is_none p.name && is_none p.network && is_none p.protection && is_none p.permissions

-- The spec of a profile validates exactly when its name is not blank: the policy of a protection
-- level is always sane, and an explicit fingerprint policy is not looked at.
pub validate-eq-ok_iff : (s : ProfileSpec) → (validate s ≡ ok tt) ↔ (is_blank s.name ≡ false)
unfolding validate
validate-eq-ok_iff s = ground (arith, Fingerprint.validate-policy s.protection)
