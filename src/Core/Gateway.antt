-- ===== src/Core/Gateway.antt =====
-- crates/aegis-core/src/gateway.rs
use aegis_private_browser.Prelude.{
  ◌≡◌, ◌↔◌, ℕ, Bool, true, false, not, ◌&&◌, Option, none, some, String, if◌then◌else◌, arith,
}
use aegis_private_browser.Core.Network.{NetworkMode, DnsPolicy, Ipv6Policy}

pub record GatewayConfig : Type 0 where
  pub mode : NetworkMode
  pub dns : DnsPolicy
  pub ipv6 : Ipv6Policy
  pub downstream_cidr : String
  pub gateway_address : String

pub data DefaultPolicy : Type 0 where
  drop accept : DefaultPolicy

abbrev pub is_drop : DefaultPolicy → Bool
is_drop DefaultPolicy.drop = true
is_drop DefaultPolicy.accept = false

pub record FirewallPolicy : Type 0 where
  pub default_policy : DefaultPolicy
  pub redirect_dns_to : Option ℕ
  pub redirect_tcp_to : Option ℕ
  pub block_direct_udp : Bool
  pub ipv6 : Ipv6Policy
  pub reject_host_initiated : Bool

-- The DNSPort and the TransPort of Tor; other modes have no redirect.
abbrev pub redirects : NetworkMode → Option ℕ × Option ℕ
redirects (NetworkMode.tor _) = (some 5353, some 9040)
redirects _ = (none, none)

unfoldable pub fail_closed : GatewayConfig → FirewallPolicy
fail_closed cfg = record {
  default_policy = DefaultPolicy.drop;
  redirect_dns_to = (redirects cfg.mode).0;
  redirect_tcp_to = (redirects cfg.mode).1;
  block_direct_udp = true;
  ipv6 = cfg.ipv6;
  reject_host_initiated = true;
}

-- The reason why a policy may leak, if there is one.
unfoldable pub validate : FirewallPolicy → Option String
validate p =
    if not (is_drop p.default_policy)
    then some "firewall default policy must be Drop"
    else if not p.block_direct_udp
    then some "direct UDP must be blocked"
    else if not p.reject_host_initiated
    then some "host-initiated traffic must be rejected"
    else none

pub data TunnelState : Type 0 where
  down connecting up failed : TunnelState

abbrev pub is_up : TunnelState → Bool
is_up TunnelState.up = true
is_up _ = false

pub record TunnelStatus : Type 0 where
  pub state : TunnelState
  pub bootstrap_percent : Option ℕ
  pub detail : Option String

abbrev pub tunnel_up : TunnelStatus
tunnel_up = record { state = TunnelState.up; bootstrap_percent = some 100; detail = none }

pub data KillSwitchState : Type 0 where
  armed engaged : KillSwitchState

abbrev pub allows_traffic : KillSwitchState → Bool
allows_traffic KillSwitchState.armed = true
allows_traffic KillSwitchState.engaged = false

pub record GatewayHealth : Type 0 where
  pub gateway_up : Bool
  pub firewall_applied : Bool
  pub tunnel : TunnelStatus
  pub killswitch : KillSwitchState

unfoldable pub is_ready : GatewayHealth → Bool
is_ready h =
    h.gateway_up && (h.firewall_applied && (is_up h.tunnel.state && allows_traffic h.killswitch))

-- A policy validates exactly when it drops by default, blocks direct UDP and rejects traffic that
-- the host initiates.
pub validate-eq-none_iff :
    (p : FirewallPolicy)
    → (validate p ≡ none) ↔ (
        (p.default_policy ≡ DefaultPolicy.drop)
        × (p.block_direct_udp ≡ true)
        × (p.reject_host_initiated ≡ true))
unfolding validate
validate-eq-none_iff p = ground arith

pub validate-fail_closed : (cfg : GatewayConfig) → validate (fail_closed cfg) ≡ none
unfolding validate fail_closed
validate-fail_closed cfg = ground arith
