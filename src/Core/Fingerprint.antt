-- ===== src/Core/Fingerprint.antt =====
-- crates/aegis-core/src/fingerprint.rs
use aegis_private_browser.Prelude.{
  ◌≡◌, ℕ, Bool, true, false, not, ◌&&◌, Option, none, some, String, if◌then◌else◌, arith,
}

pub data ProtectionLevel : Type 0 where
  balanced strict : ProtectionLevel

pub data WebGlMode : Type 0 where
  virtual_backend restricted disabled : WebGlMode

pub data CanvasMode : Type 0 where
  passthrough limited : CanvasMode

pub data LetterboxMode : Type 0 where
  off on : LetterboxMode

pub data FontPolicy : Type 0 where
  standard_set : FontPolicy

pub record FingerprintPolicy : Type 0 where
  pub level : ProtectionLevel
  pub webgl : WebGlMode
  pub webgpu_enabled : Bool
  pub canvas : CanvasMode
  pub letterbox : LetterboxMode
  pub fonts : FontPolicy
  pub timer_coarsening_us : ℕ
  pub limit_media_device_enumeration : Bool
  pub hardware_concurrency : Option ℕ
  pub disable_battery_api : Bool
  pub disable_sensor_apis : Bool
  pub block_device_apis : Bool
  pub timezone : Option String
  pub primary_language : String

abbrev pub balanced_policy : FingerprintPolicy
balanced_policy = record {
  level = ProtectionLevel.balanced;
  webgl = WebGlMode.virtual_backend;
  webgpu_enabled = false;
  canvas = CanvasMode.passthrough;
  letterbox = LetterboxMode.off;
  fonts = FontPolicy.standard_set;
  timer_coarsening_us = 100;
  limit_media_device_enumeration = true;
  hardware_concurrency = some 4;
  disable_battery_api = true;
  disable_sensor_apis = true;
  block_device_apis = true;
  timezone = some "UTC";
  primary_language = "en-US";
}

abbrev pub strict_policy : FingerprintPolicy
strict_policy = record {
  level = ProtectionLevel.strict;
  webgl = WebGlMode.disabled;
  webgpu_enabled = false;
  canvas = CanvasMode.limited;
  letterbox = LetterboxMode.on;
  fonts = FontPolicy.standard_set;
  timer_coarsening_us = 100000;
  limit_media_device_enumeration = true;
  hardware_concurrency = some 2;
  disable_battery_api = true;
  disable_sensor_apis = true;
  block_device_apis = true;
  timezone = some "UTC";
  primary_language = "en-US";
}

abbrev pub compatibility_policy : FingerprintPolicy
compatibility_policy = record {
  level = ProtectionLevel.balanced;
  webgl = WebGlMode.virtual_backend;
  webgpu_enabled = false;
  canvas = CanvasMode.passthrough;
  letterbox = LetterboxMode.off;
  fonts = FontPolicy.standard_set;
  timer_coarsening_us = 20;
  limit_media_device_enumeration = true;
  hardware_concurrency = some 8;
  disable_battery_api = true;
  disable_sensor_apis = true;
  block_device_apis = true;
  timezone = some "UTC";
  primary_language = "en-US";
}

abbrev pub paranoid_policy : FingerprintPolicy
paranoid_policy = record {
  level = ProtectionLevel.strict;
  webgl = WebGlMode.disabled;
  webgpu_enabled = false;
  canvas = CanvasMode.limited;
  letterbox = LetterboxMode.on;
  fonts = FontPolicy.standard_set;
  timer_coarsening_us = 100000;
  limit_media_device_enumeration = true;
  hardware_concurrency = some 2;
  disable_battery_api = true;
  disable_sensor_apis = true;
  block_device_apis = true;
  timezone = some "UTC";
  primary_language = "en-US";
}

unfoldable pub policy : ProtectionLevel → FingerprintPolicy
policy ProtectionLevel.balanced = balanced_policy
policy ProtectionLevel.strict = strict_policy

abbrev pub is_strict : ProtectionLevel → Bool
is_strict ProtectionLevel.strict = true
is_strict ProtectionLevel.balanced = false

abbrev pub is_disabled : WebGlMode → Bool
is_disabled WebGlMode.disabled = true
is_disabled _ = false

abbrev pub is_virtual_backend : WebGlMode → Bool
is_virtual_backend WebGlMode.virtual_backend = true
is_virtual_backend _ = false

unfoldable pub validate : FingerprintPolicy → Option String
validate p =
    if not p.block_device_apis
    then some "Bluetooth/USB/Serial/HID/MIDI must be blocked"
    else if is_strict p.level && p.webgpu_enabled
    then some "WebGPU must be disabled in Strict mode"
    else if is_strict p.level && not (is_disabled p.webgl)
    then (if is_virtual_backend p.webgl
        then some "Strict mode must not expose a full WebGL backend"
        else none)
    else none

pub data SafetyPreset : Type 0 where
  compatibility balanced strict paranoid : SafetyPreset

unfoldable pub preset_policy : SafetyPreset → FingerprintPolicy
preset_policy SafetyPreset.compatibility = compatibility_policy
preset_policy SafetyPreset.balanced = balanced_policy
preset_policy SafetyPreset.strict = strict_policy
preset_policy SafetyPreset.paranoid = paranoid_policy

unfoldable pub preset_protection_level : SafetyPreset → ProtectionLevel
preset_protection_level SafetyPreset.compatibility = ProtectionLevel.balanced
preset_protection_level SafetyPreset.balanced = ProtectionLevel.balanced
preset_protection_level SafetyPreset.strict = ProtectionLevel.strict
preset_protection_level SafetyPreset.paranoid = ProtectionLevel.strict

pub validate-policy : (l : ProtectionLevel) → validate (policy l) ≡ none
unfolding validate policy
validate-policy l = ground arith
