-- ===== src/Tests/CoreExamples.antt =====
-- The core types' theorems at concrete inputs.
use aegis_private_browser.Prelude.{
  arith, ◌≡◌, ◌≢◌, ◌↔◌, ◌⊎◌, refl, true, false, none, [], ◌∷◌, All, ok, lookup,
}
use aegis_private_browser.Core.Browser.{BackendPolicyBundle, BrowserBackendId, assert_safe}
use aegis_private_browser.Core.Browser.Flags.{IsSafeArg, assert_safe-eq-ok_iff}
use aegis_private_browser.Core.Fingerprint
use aegis_private_browser.Core.Fingerprint.{SafetyPreset, preset_policy, preset_protection_level}
use aegis_private_browser.Core.Permissions
use aegis_private_browser.Core.Permissions.{
  Feature, PermissionPolicy, PermissionState, secure_default, effective, granted_state,
  clear_grants, is_hard_blocked,
}
use aegis_private_browser.Core.Permissions.Grants.{
  grant_all, hard_blocked_stays, effective-clear_grants,
}
use aegis_private_browser.Core.Preflight.Checks.{CheckId}
use aegis_private_browser.Core.Preflight.Checklist.{
  ProtectionStatus, passed, all_passed, status, permits_browsing, failures,
}
use aegis_private_browser.Core.Preflight.Checklist.Verdict.{
  permits_browsing_iff, status_cases, failures-eq-nil_iff,
}
use aegis_private_browser.Core.Profile
use aegis_private_browser.Core.Profile.{ProfileSpec, ephemeral_spec, is_blank}
use aegis_private_browser.Core.Session.{SessionState, can_transition_to}
use aegis_private_browser.Core.Session.Lifecycle.{
  Chain, here, next, Passes, Chain-preflight, Chain-ended,
}
use aegis_private_browser.Core.Vm
use aegis_private_browser.Core.Vm.{IsolationPolicy, hardened}
use aegis_private_browser.Tests.Sample.{all_pass}

permits_browsing_iff_example :
    (permits_browsing all_pass ≡ true) ↔ ((id : CheckId) → passed all_pass id ≡ true)
permits_browsing_iff_example = permits_browsing_iff all_pass

status_cases_example :
    ((status all_pass ≡ ProtectionStatus.none) ↔ (
      (passed all_pass CheckId.gateway_ready ≡ false)
      ⊎ (passed all_pass CheckId.tunnel_ready ≡ false)))
    × ((status all_pass ≡ ProtectionStatus.unsafe) ↔ (
        (passed all_pass CheckId.gateway_ready ≡ true)
        × (passed all_pass CheckId.tunnel_ready ≡ true)
        × (all_passed all_pass ≡ false)))
    × (status all_pass ≢ ProtectionStatus.partial)
status_cases_example = status_cases all_pass

failures-eq-nil_iff_example : (failures all_pass ≡ []) ↔ (permits_browsing all_pass ≡ true)
failures-eq-nil_iff_example = failures-eq-nil_iff all_pass

to_preflight :
    Chain SessionState.gateway_starting
      (SessionState.preflight ∷ SessionState.browsing ∷ [])
      SessionState.browsing
unfolding can_transition_to
to_preflight = next refl (next refl here)

Chain-preflight_example :
    Passes SessionState.preflight (SessionState.preflight ∷ SessionState.browsing ∷ [])
Chain-preflight_example = Chain-preflight to_preflight refl

to_destroyed :
    Chain SessionState.failed
      (SessionState.closing ∷ SessionState.destroyed ∷ [])
      SessionState.destroyed
unfolding can_transition_to
to_destroyed = next refl (next refl here)

Chain-ended_example : SessionState.destroyed ≢ SessionState.browsing
Chain-ended_example = Chain-ended to_destroyed refl

abbrev unsafe_bundle : BackendPolicyBundle
unsafe_bundle = record {
  backend = BrowserBackendId.chromium;
  managed_policies = [];
  command_line = "--incognito" ∷ "--no-sandbox" ∷ [];
  preferences = [];
}

assert_safe-eq-ok_iff_example :
    (assert_safe unsafe_bundle true ≡ ok tt) ↔ All (IsSafeArg true) unsafe_bundle.command_line
assert_safe-eq-ok_iff_example = assert_safe-eq-ok_iff unsafe_bundle true

abbrev with_camera : PermissionPolicy
with_camera = record secure_default {
  overrides = ("https://a.example", (Feature.camera, granted_state Feature.camera) ∷ []) ∷ [];
}

usb_is_blocked : is_hard_blocked Feature.usb ≡ true
unfolding is_hard_blocked
usb_is_blocked = refl

hard_blocked_stays_example :
    effective
      (grant_all
        (("https://a.example", Feature.usb) ∷ ("https://a.example", Feature.camera) ∷ [])
        secure_default)
      "https://a.example"
      Feature.usb
    ≡ PermissionState.block
hard_blocked_stays_example =
    hard_blocked_stays
      (("https://a.example", Feature.usb) ∷ ("https://a.example", Feature.camera) ∷ [])
      "https://a.example" Feature.usb usb_is_blocked

effective-clear_grants_example :
    effective
      (clear_grants (
        grant_all
          (("https://a.example", Feature.camera) ∷ ("https://b.example", Feature.usb) ∷ [])
          with_camera))
      "https://a.example"
      Feature.camera
    ≡ PermissionState.block
unfolding lookup
effective-clear_grants_example =
    effective-clear_grants
      (("https://a.example", Feature.camera) ∷ ("https://b.example", Feature.usb) ∷ []) with_camera
      "https://a.example" Feature.camera

abbrev without_tpm : IsolationPolicy
without_tpm = record hardened { no_shared_clipboard = false }

Vm_validate_example : (Vm.validate without_tpm ≡ none) ↔ (without_tpm ≡ hardened)
Vm_validate_example = Vm.validate-eq-none_iff without_tpm

Profile_validate_example :
    (Profile.validate (ephemeral_spec "  ") ≡ ok tt) ↔ (is_blank (ephemeral_spec "  ").name ≡ false)
Profile_validate_example = Profile.validate-eq-ok_iff (ephemeral_spec "  ")

-- Every preset yields a policy that validates, at the level that the preset names.
presets_test :
    (s : SafetyPreset)
    → (Fingerprint.validate (preset_policy s) ≡ none)
      × ((preset_policy s).level ≡ preset_protection_level s)
unfolding preset_policy preset_protection_level Fingerprint.validate
presets_test s = ground arith
