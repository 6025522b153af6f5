-- ===== src/Gateway/Controller.antt =====
-- `NftGatewayController` of crates/gateway-controller/src/lib.rs. A poisoned mutex does not occur.
use aegis_private_browser.Prelude.{
  Bool, true, false, ◌&&◌, Option, none, some, [], ◌∷◌, String, Result, ok, err, if◌then◌else◌,
}
use aegis_private_browser.Prelude.Exec.{Exec, pure, raise, lift, gets, ignore, attempt, ◌>>=◌, ◌>>◌}
use aegis_private_browser.Core.Error.{Error}
use aegis_private_browser.Core.Gateway.{
  GatewayConfig, FirewallPolicy, validate, TunnelState, TunnelStatus, tunnel_up, KillSwitchState,
  allows_traffic, GatewayHealth,
}
use aegis_private_browser.Core.Network.{NetworkMode, VpnProtocol}
use aegis_private_browser.Gateway.Bootstrap.{parse_tor_bootstrap}
use aegis_private_browser.Gateway.Render.{render_nftables, render_killswitch}
use aegis_private_browser.Gateway.Runner.{
  Command, command, with_stdin, CommandOutput, success, History, Runner,
}

-- The guarded `State`, with the history of the commands that were run.
pub record Controller : Type 0 where
  pub config : Option GatewayConfig
  pub firewall : Option FirewallPolicy
  pub firewall_applied : Bool
  pub killswitch : KillSwitchState
  pub ran : History

abbrev pub new : Controller
new = record {
  config = none;
  firewall = none;
  firewall_applied = false;
  killswitch = KillSwitchState.armed;
  ran = [];
}

abbrev pub Action : Type 0 → Type 0
Action A = Exec Controller Error A

unfoldable pub run : Runner → Command → Action CommandOutput
run runner c s = (runner s.ran c, record s { ran = (c, runner s.ran c) ∷ s.ran })

unfoldable pub change : (Controller → Controller) → Action (Unit {0})
change f s = (ok tt, f s)

abbrev pub expect_success : CommandOutput → Action (Unit {0})
expect_success out = if success out then pure tt else raise Error.system

abbrev pub nft : String → Command
nft rules = with_stdin (command "nft" ("-f" ∷ "-" ∷ [])) rules

unfoldable pub load_ruleset : Runner → String → Action (Unit {0})
load_ruleset runner rules = run runner (nft rules) >>= expect_success

abbrev pub cut : Controller → Controller
cut s = record s { killswitch = KillSwitchState.engaged; firewall_applied = false }

unfoldable pub fail_closed : Runner → Error → Action Error
fail_closed runner e = do ignore (load_ruleset runner render_killswitch); change cut; pure e

-- `return Err(self.fail_closed(e).await)`
abbrev pub fail : {A : Type 0} → Runner → Error → Action A
fail runner e = fail_closed runner e >>= raise

abbrev pub backend_unit : NetworkMode → String
backend_unit (NetworkMode.tor _) = "tor@default"
backend_unit (NetworkMode.vpn cfg) = elim cfg.protocol [
  | VpnProtocol.wire_guard ↦ "wg-quick@aegis"
  | VpnProtocol.open_vpn ↦ "openvpn@aegis"
]
backend_unit (NetworkMode.proxy _) = "aegis-proxy"

unfoldable pub start_backend : Runner → GatewayConfig → Action (Unit {0})
start_backend runner cfg =
    run runner (command "systemctl" ("restart" ∷ backend_unit cfg.mode ∷ [])) >>= expect_success

abbrev pub probe_failed : String → TunnelStatus
probe_failed detail = record {
  state = TunnelState.failed;
  bootstrap_percent = none;
  detail = some detail;
}

abbrev pub tor_status : CommandOutput → TunnelStatus
tor_status out =
    if success out
    then parse_tor_bootstrap out.stdout
    else probe_failed "tor bootstrap probe failed"

abbrev pub tunnel_probe_status : CommandOutput → TunnelStatus
tunnel_probe_status out =
    if success out then tunnel_up else probe_failed "tunnel probe reported failure"

unfoldable pub probe_status : Runner → NetworkMode → Action TunnelStatus
probe_status runner (NetworkMode.tor _) = do
  out ← run runner (command "tor-bootstrap" ("--status" ∷ []))
  pure (tor_status out)
probe_status runner _ = do
  out ← run runner (command "tunnel-probe" ("--check" ∷ []))
  pure (tunnel_probe_status out)

abbrev pub configured : Runner → GatewayConfig → Result (Unit {0}) Error → Action (Unit {0})
configured runner cfg (err e) = fail runner e
configured runner cfg (ok _) = change (λ s. record s { config = some cfg })

unfoldable pub configure : Runner → GatewayConfig → Action (Unit {0})
unfolding start_backend fail_closed
configure runner cfg = attempt (start_backend runner cfg) >>= configured runner cfg

-- What follows a load of the normal rules: the switch is armed, or traffic is cut.
abbrev pub armed : Runner → FirewallPolicy → Result (Unit {0}) Error → Action (Unit {0})
armed runner policy (err e) = fail runner e
armed runner policy (ok _) = change (λ s. record s {
  firewall = some policy;
  firewall_applied = true;
  killswitch = KillSwitchState.armed;
})

abbrev pub arm : Runner → FirewallPolicy → GatewayConfig → Action (Unit {0})
arm runner policy cfg =
    attempt (load_ruleset runner (render_nftables policy cfg)) >>= armed runner policy

abbrev pub arm_with : Runner → FirewallPolicy → Option GatewayConfig → Action (Unit {0})
arm_with runner policy none = raise Error.precondition
arm_with runner policy (some cfg) = arm runner policy cfg

unfoldable pub apply_firewall : Runner → FirewallPolicy → Action (Unit {0})
unfolding load_ruleset fail_closed
apply_firewall runner policy = elim (validate policy) [
  | some reason ↦ raise Error.config
  | none ↦ do cfg ← gets (λ s. s.config); arm_with runner policy cfg
]

abbrev pub is_failed : TunnelState → Bool
is_failed TunnelState.failed = true
is_failed _ = false

-- A tunnel that has failed is cut, and its status is answered all the same.
abbrev pub watched : Runner → Result TunnelStatus Error → Action TunnelStatus
watched runner (err e) = fail runner e
watched runner (ok status) =
    if is_failed status.state
    then (ignore (fail_closed runner Error.network_containment) >> pure status)
    else pure status

abbrev pub watch : Runner → Option GatewayConfig → Action TunnelStatus
watch runner none = raise Error.precondition
watch runner (some cfg) = attempt (probe_status runner cfg.mode) >>= watched runner

unfoldable pub tunnel_status : Runner → Action TunnelStatus
unfolding probe_status fail_closed
tunnel_status runner = gets (λ s. s.config) >>= watch runner

unfoldable pub engage_killswitch : Runner → Action (Unit {0})
unfolding load_ruleset
engage_killswitch runner = do
  result ← attempt (load_ruleset runner render_killswitch)
  change cut
  lift result

-- The stored policy is validated again.
abbrev pub rearm : Runner → Option GatewayConfig → Option FirewallPolicy → Action (Unit {0})
rearm runner none policy = raise Error.precondition
rearm runner (some cfg) none = raise Error.precondition
rearm runner (some cfg) (some policy) = elim (validate policy) [
  | some reason ↦ fail runner Error.config
  | none ↦ do
    loaded ← attempt (load_ruleset runner (render_nftables policy cfg))
    elim loaded [
      | err e ↦ fail runner e
      | ok _ ↦
          change (λ s. record s { killswitch = KillSwitchState.armed; firewall_applied = true })
    ]
]

unfoldable pub release_killswitch : Runner → Action (Unit {0})
unfolding load_ruleset fail_closed
release_killswitch runner = do s ← gets (λ s. s); rearm runner s.config s.firewall

abbrev pub or_probe_errored : Result TunnelStatus Error → TunnelStatus
or_probe_errored (ok status) = status
or_probe_errored (err e) = probe_failed "status probe errored"

abbrev pub health_status : Runner → Option GatewayConfig → Action TunnelStatus
health_status runner none =
    pure (record {
      state = TunnelState.down;
      bootstrap_percent = none;
      detail = some "not configured";
    })
health_status runner (some cfg) = do
  probed ← attempt (probe_status runner cfg.mode)
  pure (or_probe_errored probed)

abbrev pub is_some : Option GatewayConfig → Bool
is_some none = false
is_some (some _) = true

unfoldable pub health : Runner → Action GatewayHealth
unfolding probe_status
health runner = do
  s ← gets (λ s. s)
  tunnel ← health_status runner s.config
  pure (record {
    gateway_up = is_some s.config && allows_traffic s.killswitch;
    firewall_applied = s.firewall_applied;
    tunnel = tunnel;
    killswitch = s.killswitch;
  })
