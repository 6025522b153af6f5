-- ===== src/Daemon/Trace.antt =====
-- The calls that the orchestrator makes, as a trace: when a launch was allowed.
pub mod Quiet
pub mod Steps
pub mod Ending
pub mod Launches
pub mod Driving
pub mod Hosting
pub mod Operations
use aegis_private_browser.Prelude.{
  ◌≡◌, ◌⊎◌, ℕ, Bool, true, false, List, [], ◌∷◌, String, Result, ok, err,
}
use aegis_private_browser.Core.Browser.{BrowserLaunchRequest, BackendPolicyBundle, assert_safe}
use aegis_private_browser.Core.Preflight.Checklist.{permits_browsing}
use aegis_private_browser.Daemon.Calls.{Backend, Call}
use aegis_private_browser.Daemon.HostProxy.{HostProxy, parse}

-- The call is a preflight run for the session whose checklist permits browsing.
abbrev pub Permits : ℕ → Call → Type 0
Permits id (Call.run_preflight ctx (ok c)) = (ctx.session ≡ id) × (permits_browsing c ≡ true)
Permits id _ = ⊥

-- The call is a probe that found the proxy of this endpoint listening.
abbrev pub Reaches : String → Call → Type 0
Reaches endpoint (Call.proxy_reachable host port (ok true)) =
    (p : HostProxy) × (parse endpoint ≡ ok p) × (p.probe_host ≡ host) × (p.probe_port ≡ port)
Reaches endpoint _ = ⊥

abbrev pub Some : (Call → Type 0) → List Call → Type 0
Some P [] = ⊥
Some P (c ∷ l) = P c ⊎ Some P l

-- What must have been called before a launch: for the guest the session's preflight, for the host
-- the probe of the proxy that the browser is pointed at.
abbrev pub Allowed : Backend → BrowserLaunchRequest → List Call → Type 0
Allowed Backend.guest req l = Some (Permits req.session) l
Allowed Backend.host_chromium req l = Some (Reaches req.proxy_endpoint) l
Allowed Backend.host_firefox req l = Some (Reaches req.proxy_endpoint) l

abbrev pub LaunchIsSafe : Call → List Call → Type 0
LaunchIsSafe (Call.launch backend req bundle r) l =
    Allowed backend req l × (req.production ≡ true) × (assert_safe bundle true ≡ ok tt)
LaunchIsSafe _ l = Unit

-- Every launch in the trace was allowed by the calls before it.
abbrev pub IsSafe : List Call → Type 0
IsSafe [] = Unit
IsSafe (c ∷ l) = LaunchIsSafe c l × IsSafe l
