-- ===== src/Daemon/Reachable/Launching.antt =====
-- Launches in the states that the orchestrator comes to.
use aegis_private_browser.Prelude.Exec.Triple.{Triple-final}
use aegis_private_browser.Core.Config.{AppConfig}
use aegis_private_browser.Daemon.Calls.{Capabilities}
use aegis_private_browser.Daemon.State.{Orchestrator}
use aegis_private_browser.Daemon.Trace.{IsSafe}
use aegis_private_browser.Daemon.Trace.Quiet.{Grows-IsSafe}
use aegis_private_browser.Daemon.Trace.Operations.{
  start_session-Safe, stop_session-IsQuiet, set_enforcement-IsQuiet, browser_liveness-IsQuiet,
  gateway_health-IsQuiet,
}
use aegis_private_browser.Daemon.Reachable.{
  Reachable, initially, started, stopped, enforced, probed, examined,
}

-- In every state that a sequence of the orchestrator's operations comes to from an empty table,
-- whatever the capabilities answer: each launch in the trace asked for production mode and had a
-- bundle that `assert_safe` accepts, and before it, for the guest backend, a preflight run for the
-- launch's own session had answered a checklist that permits browsing, and, for the host backends,
-- a probe of the very proxy that the launch points the browser at had found it listening.
pub launches_allowed :
    (caps : Capabilities) (config : AppConfig) (s : Orchestrator)
    → Reachable caps config s
    → IsSafe s.log
launches_allowed caps config _ initially = tt
launches_allowed caps config _ (started {s} profile r) =
    Triple-final _ s (start_session-Safe caps config profile) (launches_allowed caps config s r)
launches_allowed caps config _ (stopped {s} id r) =
    Grows-IsSafe ((stop_session-IsQuiet caps id).at s) (launches_allowed caps config s r)
launches_allowed caps config _ (enforced {s} e r) =
    Grows-IsSafe ((set_enforcement-IsQuiet e).at s) (launches_allowed caps config s r)
launches_allowed caps config _ (probed {s} id r) =
    Grows-IsSafe ((browser_liveness-IsQuiet caps id).at s) (launches_allowed caps config s r)
launches_allowed caps config _ (examined {s} r) =
    Grows-IsSafe ((gateway_health-IsQuiet caps).at s) (launches_allowed caps config s r)
