-- ===== src/Core/Preflight/Checklist/Verdict.antt =====
-- What the checklist's verdict says of the single checks.
use aegis_private_browser.Prelude.{◌≡◌, ◌≢◌, ◌↔◌, ◌⊎◌, true, false, [], arith}
use aegis_private_browser.Core.Preflight.Checks.{CheckId}
use aegis_private_browser.Core.Preflight.Checklist.{
  ProtectionStatus, ConnectivityChecklist, passed, all_passed, failures, status, permits_browsing,
}

-- Browsing is permitted exactly when every one of the six checks has a first report that passed.
pub permits_browsing_iff :
    (c : ConnectivityChecklist)
    → (permits_browsing c ≡ true) ↔ ((id : CheckId) → passed c id ≡ true)
unfolding permits_browsing
permits_browsing_iff c = (
  λ h. elim [
    | CheckId.gateway_ready ↦ ground arith
    | CheckId.tunnel_ready ↦ ground arith
    | CheckId.dns_route_verified ↦ ground arith
    | CheckId.public_ip_observed ↦ ground arith
    | CheckId.webrtc_policy_loaded ↦ ground arith
    | CheckId.ipv6_policy_verified ↦ ground arith
  ],
  λ h. ground (
    arith,
    h CheckId.gateway_ready,
    h CheckId.tunnel_ready,
    h CheckId.dns_route_verified,
    h CheckId.public_ip_observed,
    h CheckId.webrtc_policy_loaded,
    h CheckId.ipv6_policy_verified,
  ),
)

-- The verdict is `none` exactly when the gateway or the tunnel did not pass, `unsafe` exactly when
-- both passed and another check did not, and never `partial`.
pub status_cases :
    (c : ConnectivityChecklist)
    → ((status c ≡ ProtectionStatus.none)
        ↔ ((passed c CheckId.gateway_ready ≡ false) ⊎ (passed c CheckId.tunnel_ready ≡ false)))
      × ((status c ≡ ProtectionStatus.unsafe) ↔ (
          (passed c CheckId.gateway_ready ≡ true)
          × (passed c CheckId.tunnel_ready ≡ true)
          × (all_passed c ≡ false)))
      × (status c ≢ ProtectionStatus.partial)
unfolding status
status_cases c = ground arith

-- The list of failures is empty exactly when browsing is permitted.
pub failures-eq-nil_iff :
    (c : ConnectivityChecklist) → (failures c ≡ []) ↔ (permits_browsing c ≡ true)
unfolding failures permits_browsing
failures-eq-nil_iff c = ground arith
