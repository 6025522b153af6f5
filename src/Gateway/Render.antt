-- ===== src/Gateway/Render.antt =====
-- crates/gateway-controller/src/render.rs: the rulesets as text, a list of lines joined.
use aegis_private_browser.Prelude.{
  ℕ, Bool, Option, none, some, List, [], ◌∷◌, ◌++◌, String, if◌then◌else◌,
}
use aegis_private_browser.Prelude.Text.{◌+s◌}
use aegis_private_browser.Prelude.Decimal.{show}
use aegis_private_browser.Core.Gateway.{GatewayConfig, FirewallPolicy}
use aegis_private_browser.Core.Network.{Ipv6Policy}

unfoldable pub unlines : List String → String
unlines [] = ""
unlines (line ∷ lines) = line +s "\n" +s unlines lines

-- A `u16` has at most five digits.
abbrev port : ℕ → String
port n = show 5 n

abbrev opening : List String
opening = "add table inet aegis" ∷ "delete table inet aegis" ∷ "table inet aegis {" ∷ []

abbrev redirect_dns : String → Option ℕ → List String
redirect_dns cidr none = []
redirect_dns cidr (some p) =
    ("\t\tip saddr " +s cidr +s " udp dport 53 redirect to :" +s port p)
    ∷ ("\t\tip saddr " +s cidr +s " tcp dport 53 redirect to :" +s port p)
    ∷ []

abbrev redirect_tcp : String → Option ℕ → List String
redirect_tcp cidr none = []
redirect_tcp cidr (some p) =
    ("\t\tip saddr " +s cidr +s " tcp flags syn tcp dport != 53 redirect to :" +s port p) ∷ []

abbrev prerouting : FirewallPolicy → String → List String
prerouting p cidr =
    ("\tchain prerouting {" ∷ "\t\ttype nat hook prerouting priority dstnat; policy accept;" ∷ [])
    ++ redirect_dns cidr p.redirect_dns_to
    ++ redirect_tcp cidr p.redirect_tcp_to
    ++ ("\t}" ∷ [])

abbrev accept_dns : String → Option ℕ → List String
accept_dns cidr none = []
accept_dns cidr (some p) =
    ("\t\tip saddr " +s cidr +s " udp dport " +s port p +s " accept")
    ∷ ("\t\tip saddr " +s cidr +s " tcp dport " +s port p +s " accept")
    ∷ []

abbrev accept_tcp : String → Option ℕ → List String
accept_tcp cidr none = []
accept_tcp cidr (some p) = ("\t\tip saddr " +s cidr +s " tcp dport " +s port p +s " accept") ∷ []

abbrev reject_host : Bool → List String
reject_host reject =
    if reject
    then "\t\t# reject host-initiated traffic (mgmt channel is a local unix socket)"
      ∷ "\t\tmeta nfproto ipv4 reject with icmp type admin-prohibited" ∷ []
    else []

abbrev input_chain : FirewallPolicy → String → List String
input_chain p cidr =
    ("\tchain input {" ∷ "\t\ttype filter hook input priority filter; policy drop;"
      ∷ "\t\tct state established,related accept" ∷ "\t\tiif \"lo\" accept" ∷ [])
    ++ accept_dns cidr p.redirect_dns_to
    ++ accept_tcp cidr p.redirect_tcp_to
    ++ reject_host p.reject_host_initiated
    ++ ("\t}" ∷ [])

abbrev forward_ipv6 : Ipv6Policy → List String
forward_ipv6 Ipv6Policy.block =
    "\t\t# IPv6 fully blocked at the gateway (no v6 leaks)" ∷ "\t\tmeta nfproto ipv6 drop" ∷ []
forward_ipv6 Ipv6Policy.route_through_tunnel =
    "\t\t# IPv6 routed through the tunnel (tunnel supports v6)"
    ∷ "\t\tip6 saddr fe80::/10 ip6 daddr fe80::/10 accept" ∷ []

abbrev drop_udp : String → Bool → List String
drop_udp cidr drop =
    if drop
    then "\t\t# drop direct UDP (only tunnel-carried UDP is permitted)"
      ∷ ("\t\tip saddr " +s cidr +s " meta l4proto udp drop")
      ∷ []
    else []

abbrev forward_chain : FirewallPolicy → String → List String
forward_chain p cidr =
    ("\tchain forward {" ∷ "\t\ttype filter hook forward priority filter; policy drop;"
      ∷ "\t\tct state established,related accept" ∷ [])
    ++ forward_ipv6 p.ipv6
    ++ drop_udp cidr p.block_direct_udp
    ++ ("\t\t# only the downstream browser subnet may reach the tunnel"
        ∷ ("\t\tip saddr " +s cidr +s " accept")
        ∷ "\t}"
        ∷ [])

abbrev output_ipv6 : Ipv6Policy → List String
output_ipv6 Ipv6Policy.block = "\t\tmeta nfproto ipv6 drop" ∷ []
output_ipv6 Ipv6Policy.route_through_tunnel = []

abbrev output_chain : FirewallPolicy → List String
output_chain p =
    ("\tchain output {" ∷ "\t\ttype filter hook output priority filter; policy drop;"
      ∷ "\t\tct state established,related accept" ∷ "\t\toif \"lo\" accept" ∷ [])
    ++ output_ipv6 p.ipv6
    ++ ("\t\tmeta nfproto ipv4 ct state new accept" ∷ "\t}" ∷ [])

unfoldable pub render_nftables : FirewallPolicy → GatewayConfig → String
unfolding unlines show
render_nftables p cfg = unlines (
    ("#!/usr/sbin/nft -f" ∷ "# Aegis Gateway fail-closed ruleset (spec §5). Generated; do not edit."
      ∷ [])
    ++ opening
    ++ prerouting p cfg.downstream_cidr
    ++ input_chain p cfg.downstream_cidr
    ++ forward_chain p cfg.downstream_cidr
    ++ output_chain p
    ++ ("}" ∷ []))

abbrev drop_chain : String → List String
drop_chain hook =
    ("\tchain " +s hook +s " {")
    ∷ ("\t\ttype filter hook " +s hook +s " priority filter; policy drop;")
    ∷ "\t}"
    ∷ []

unfoldable pub render_killswitch : String
unfolding unlines
render_killswitch = unlines (
    ("#!/usr/sbin/nft -f" ∷ "# Aegis kill switch: total block. All chains drop, no exceptions."
      ∷ [])
    ++ opening
    ++ drop_chain "input"
    ++ drop_chain "forward"
    ++ drop_chain "output"
    ++ ("}" ∷ []))
