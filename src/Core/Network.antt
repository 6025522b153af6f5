-- ===== src/Core/Network.antt =====
-- crates/aegis-core/src/network.rs. `CredentialRef` is its identifier; ports are plain numbers.
use aegis_private_browser.Prelude.{
  ℕ, Bool, true, false, Option, none, List, [], String, if◌then◌else◌,
}

pub record TorConfig : Type 0 where
  pub use_bridges : Bool
  pub bridges : List String
  pub exit_country : Option String

pub data VpnProtocol : Type 0 where
  wire_guard open_vpn : VpnProtocol

pub record VpnConfig : Type 0 where
  pub protocol : VpnProtocol
  pub endpoint : String
  pub credentials_ref : String
  pub dns_servers : List String

pub data ProxyProtocol : Type 0 where
  socks5 http_connect : ProxyProtocol

pub record ProxyConfig : Type 0 where
  pub protocol : ProxyProtocol
  pub host : String
  pub port : ℕ
  pub credentials_ref : Option String
  pub remote_dns : Bool

pub data NetworkMode : Type 0 where
  tor : TorConfig → NetworkMode
  vpn : VpnConfig → NetworkMode
  proxy : ProxyConfig → NetworkMode

unfoldable pub label : NetworkMode → String
label (NetworkMode.tor _) = "Tor"
label (NetworkMode.vpn _) = "VPN"
label (NetworkMode.proxy _) = "Proxy"

pub data DnsMode : Type 0 where
  tor_dns_port tunnel_dns proxy_remote static_dns : DnsMode

pub record DnsPolicy : Type 0 where
  pub mode : DnsMode
  pub servers : List String
  pub block_plain_dns : Bool

abbrev pub tor_dns : DnsPolicy
tor_dns = record { mode = DnsMode.tor_dns_port; servers = []; block_plain_dns = true }

pub data Ipv6Policy : Type 0 where
  block route_through_tunnel : Ipv6Policy

unfoldable pub default_dns_policy : NetworkMode → DnsPolicy
default_dns_policy (NetworkMode.tor _) = tor_dns
default_dns_policy (NetworkMode.vpn cfg) = record {
  mode = DnsMode.tunnel_dns;
  servers = cfg.dns_servers;
  block_plain_dns = true;
}
default_dns_policy (NetworkMode.proxy cfg) =
    if cfg.remote_dns
    then record { mode = DnsMode.proxy_remote; servers = []; block_plain_dns = true }
    else record { mode = DnsMode.proxy_remote; servers = []; block_plain_dns = true }

pub record NetworkConfig : Type 0 where
  pub mode : NetworkMode
  pub dns : DnsPolicy
  pub ipv6 : Ipv6Policy

unfoldable pub from_mode : NetworkMode → NetworkConfig
unfolding default_dns_policy
from_mode mode = record { mode = mode; dns = default_dns_policy mode; ipv6 = Ipv6Policy.block }

abbrev pub default_tor : TorConfig
default_tor = record { use_bridges = false; bridges = []; exit_country = none }

unfoldable pub default_network : NetworkConfig
unfolding from_mode
default_network = from_mode (NetworkMode.tor default_tor)
