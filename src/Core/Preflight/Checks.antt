-- ===== src/Core/Preflight/Checks.antt =====
-- `CheckId` and `CheckOutcome` of crates/aegis-core/src/preflight.rs
use aegis_private_browser.Prelude.{◌≡◌, ◌↔◌, Bool, true, false, List, [], ◌∷◌, String, arith}

pub data CheckId : Type 0 where
  gateway_ready tunnel_ready dns_route_verified public_ip_observed : CheckId
  webrtc_policy_loaded ipv6_policy_verified : CheckId

-- `CheckId::all`, in execution order.
abbrev pub all_checks : List CheckId
all_checks =
    CheckId.gateway_ready ∷ CheckId.tunnel_ready ∷ CheckId.dns_route_verified
    ∷ CheckId.public_ip_observed ∷ CheckId.webrtc_policy_loaded ∷ CheckId.ipv6_policy_verified ∷ []

-- The derived `PartialEq`.
abbrev pub eq : CheckId → CheckId → Bool
eq CheckId.gateway_ready CheckId.gateway_ready = true
eq CheckId.tunnel_ready CheckId.tunnel_ready = true
eq CheckId.dns_route_verified CheckId.dns_route_verified = true
eq CheckId.public_ip_observed CheckId.public_ip_observed = true
eq CheckId.webrtc_policy_loaded CheckId.webrtc_policy_loaded = true
eq CheckId.ipv6_policy_verified CheckId.ipv6_policy_verified = true
eq _ _ = false

pub eq_iff : (a b : CheckId) → (eq a b ≡ true) ↔ (a ≡ b)
eq_iff a b = ground arith

unfoldable pub as_str : CheckId → String
as_str CheckId.gateway_ready = "gateway_ready"
as_str CheckId.tunnel_ready = "tunnel_ready"
as_str CheckId.dns_route_verified = "dns_route_verified"
as_str CheckId.public_ip_observed = "public_ip_observed"
as_str CheckId.webrtc_policy_loaded = "webrtc_policy_loaded"
as_str CheckId.ipv6_policy_verified = "ipv6_policy_verified"

pub data CheckOutcome : Type 0 where
  pass fail skipped : CheckOutcome

abbrev pub is_pass : CheckOutcome → Bool
is_pass CheckOutcome.pass = true
is_pass _ = false
