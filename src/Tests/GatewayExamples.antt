-- ===== src/Tests/GatewayExamples.antt =====
-- The gateway controller's theorems at concrete inputs.
use aegis_private_browser.Prelude.{
  ◌≡◌, ◌≢◌, ◌↔◌, ◌⊎◌, refl, ℕ, ◌≤◌, true, none, some, str_eq, ok, err, if◌then◌else◌,
}
use aegis_private_browser.Prelude.Exec.{◌>>=◌}
use aegis_private_browser.Core.Error.{Error}
use aegis_private_browser.Core.Gateway
use aegis_private_browser.Core.Gateway.{
  GatewayConfig, FirewallPolicy, validate, GatewayHealth, KillSwitchState, TunnelState, is_ready,
  tunnel_up,
}
use aegis_private_browser.Core.Network.{NetworkMode, default_tor, tor_dns, Ipv6Policy}
use aegis_private_browser.Gateway.Bootstrap.{parse_tor_bootstrap, parse_tor_bootstrap_lem}
use aegis_private_browser.Gateway.Controller.{
  Controller, new, health, configure, apply_firewall, run, change,
}
use aegis_private_browser.Gateway.Loaded.{loaded, IsSound, IsCut}
use aegis_private_browser.Gateway.Loaded.Reachable.{
  Operation, perform, Reachable, initially, performed, controller-IsSound, error_cuts,
  ready_is_loaded,
}
use aegis_private_browser.Gateway.Render.{render_nftables}
use aegis_private_browser.Gateway.Runner.{Runner}

abbrev tor_config : GatewayConfig
tor_config = record {
  mode = NetworkMode.tor default_tor;
  dns = tor_dns;
  ipv6 = Ipv6Policy.block;
  downstream_cidr = "10.152.152.0/24";
  gateway_address = "10.152.152.1";
}

-- Every command succeeds, and Tor is bootstrapped.
abbrev healthy : Runner
healthy = λ l c. ok (record { code = some 0; stdout = "100"; stderr = "" })

-- nft refuses every ruleset.
abbrev without_nft : Runner
without_nft = λ l c. ok (record {
  code = if str_eq c.program "nft" then some 1 else some 0;
  stdout = "100";
  stderr = "";
})

abbrev configured : Runner → Controller
configured runner = (perform runner (Operation.configures tor_config) new).1

abbrev applied : Controller
applied =
    (perform healthy (Operation.applies (Gateway.fail_closed tor_config)) (configured healthy)).1

applied-Reachable : Reachable healthy applied
applied-Reachable = performed _ (performed _ initially)

controller-IsSound_example : IsSound applied
controller-IsSound_example = controller-IsSound healthy applied applied-Reachable

abbrev refused : Controller
refused =
    (perform without_nft (Operation.applies (Gateway.fail_closed tor_config))
      (configured without_nft)).1

refused_test :
    (perform without_nft
      (Operation.applies (Gateway.fail_closed tor_config))
      (configured without_nft)).0
    ≡ err Error.system
unfolding perform apply_firewall validate Gateway.fail_closed ◌>>=◌ configure run change
refused_test = refl

error_cuts_example : (refused ≡ configured without_nft) ⊎ IsCut refused
error_cuts_example =
    error_cuts without_nft (configured without_nft)
      (Operation.applies (Gateway.fail_closed tor_config)) Error.system (performed _ initially)
      refused_test

abbrev ready : GatewayHealth
ready = record {
  gateway_up = true;
  firewall_applied = true;
  tunnel = tunnel_up;
  killswitch = KillSwitchState.armed;
}

ready_test : (health healthy applied).0 ≡ ok ready
unfolding perform apply_firewall validate Gateway.fail_closed ◌>>=◌ configure run change health
    parse_tor_bootstrap
ready_test = refl

is_ready_test : is_ready ready ≡ true
unfolding is_ready
is_ready_test = refl

ready_is_loaded_example :
    (p : FirewallPolicy) × ((cfg : GatewayConfig) × (validate p ≡ none)
      × (loaded applied.ran ≡ some (render_nftables p cfg)))
ready_is_loaded_example =
    ready_is_loaded healthy applied ready applied-Reachable ready_test is_ready_test

parse_tor_bootstrap_example :
    (percent : ℕ) × ((parse_tor_bootstrap "PROGRESS=42").bootstrap_percent ≡ some percent)
    × (percent ≤ 100)
    × (((parse_tor_bootstrap "PROGRESS=42").state ≡ TunnelState.up) ↔ (percent ≡ 100))
    × (((parse_tor_bootstrap "PROGRESS=42").state ≡ TunnelState.connecting)
        ↔ ((1 ≤ percent) × (percent ≤ 99)))
    × (((parse_tor_bootstrap "PROGRESS=42").state ≡ TunnelState.down) ↔ (percent ≡ 0))
    × ((parse_tor_bootstrap "PROGRESS=42").state ≢ TunnelState.failed)
parse_tor_bootstrap_example = parse_tor_bootstrap_lem "PROGRESS=42"
