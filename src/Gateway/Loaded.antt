-- ===== src/Gateway/Loaded.antt =====
-- What the kernel has loaded, read off the history of commands, against what the controller's state
-- says.
pub mod Cutting
pub mod Operations
pub mod Switching
pub mod Reachable
use aegis_private_browser.Prelude.{
  ◌≡◌, refl, Bool, true, false, ◌&&◌, Option, none, some, List, [], ◌∷◌, String, str_eq, Result, ok,
  err, if◌then◌else◌,
}
use aegis_private_browser.Core.Gateway.{
  GatewayConfig, FirewallPolicy, validate, KillSwitchState, GatewayHealth,
}
use aegis_private_browser.Gateway.Controller.{Controller}
use aegis_private_browser.Gateway.Render.{render_nftables}
use aegis_private_browser.Gateway.Runner.{Command, CommandOutput, success, History}

-- The ruleset that nft accepted last, if any.
unfoldable pub loaded : History → Option String
loaded [] = none
loaded ((c, err e) ∷ before) = loaded before
loaded ((c, ok out) ∷ before) =
    let earlier = loaded before in
    if str_eq c.program "nft" && success out then c.stdin else earlier

-- A stored policy validates.
abbrev pub StoresValid : Controller → Type 0
StoresValid s = (p : FirewallPolicy) → s.firewall ≡ some p → validate p ≡ none

-- While the state says that a firewall is applied, the switch is armed and the ruleset that the
-- kernel accepted last is the rendering of the stored policy.
abbrev pub IsApplied : Controller → Type 0
IsApplied s =
    s.firewall_applied ≡ true
    → (p : FirewallPolicy) × ((cfg : GatewayConfig) × (s.firewall ≡ some p)
        × (s.killswitch ≡ KillSwitchState.armed)
        × (loaded s.ran ≡ some (render_nftables p cfg)))

abbrev pub IsSound : Controller → Type 0
IsSound s = StoresValid s × IsApplied s

abbrev pub IsCut : Controller → Type 0
IsCut s = (s.killswitch ≡ KillSwitchState.engaged) × (s.firewall_applied ≡ false)
