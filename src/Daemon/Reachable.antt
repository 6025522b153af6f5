-- ===== src/Daemon/Reachable.antt =====
-- The states that the orchestrator of crates/aegis-daemon/src/orchestrator.rs comes to: any
-- sequence of its operations, from an empty table.
pub mod Launching
use aegis_private_browser.Prelude.{ℕ}
use aegis_private_browser.Core.Config.{AppConfig, Enforcement}
use aegis_private_browser.Daemon.Calls.{Capabilities}
use aegis_private_browser.Daemon.State.{Orchestrator}
use aegis_private_browser.Daemon.Sessions.{
  new, start_session, stop_session, set_enforcement, browser_liveness, gateway_health,
}

-- Whatever an operation answers, an error too, the next one goes on from the state it left.
pub data Reachable (caps : Capabilities) (config : AppConfig) : Orchestrator → Type 0 where
  initially : Reachable caps config (new config)
  started :
      {s : Orchestrator} (profile : ℕ)
      → Reachable caps config s
      → Reachable caps config (start_session caps config profile s).1
  stopped :
      {s : Orchestrator} (session : ℕ)
      → Reachable caps config s
      → Reachable caps config (stop_session caps session s).1
  enforced :
      {s : Orchestrator} (e : Enforcement)
      → Reachable caps config s
      → Reachable caps config (set_enforcement e s).1
  probed :
      {s : Orchestrator} (session : ℕ)
      → Reachable caps config s
      → Reachable caps config (browser_liveness caps session s).1
  examined :
      {s : Orchestrator} → Reachable caps config s → Reachable caps config (gateway_health caps s).1
