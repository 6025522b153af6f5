-- ===== src/Daemon/StartHost.antt =====
-- `drive_start_host` of crates/aegis-daemon/src/orchestrator.rs: the reduced host-process path.
use aegis_private_browser.Prelude.{ℕ, true, Option, map, String, nat_eq, if◌then◌else◌}
use aegis_private_browser.Prelude.Exec.{pure, raise, lift, ◌>>=◌, ◌>>◌}
use aegis_private_browser.Core.Error.{Error}
use aegis_private_browser.Core.Browser.{BrowserLaunchRequest}
use aegis_private_browser.Core.Config.{AppConfig, RenderMode}
use aegis_private_browser.Core.Events.{Severity, EventKind}
use aegis_private_browser.Core.Fingerprint.{policy}
use aegis_private_browser.Core.Preflight.Checks.{CheckId, all_checks}
use aegis_private_browser.Core.Preflight.Report
use aegis_private_browser.Core.Preflight.Report.{CheckReport}
use aegis_private_browser.Core.Preflight.Checklist
use aegis_private_browser.Core.Preflight.Checklist.{ProtectionStatus}
use aegis_private_browser.Core.Profile.{Profile, is_ephemeral}
use aegis_private_browser.Core.Session.{SessionState, SessionSummary}
use aegis_private_browser.Daemon.Calls.{Call, Capabilities}
use aegis_private_browser.Daemon.State.{
  SessionMode, SessionEntry, Action, ask, audit, about, update,
}
use aegis_private_browser.Daemon.HostProxy.{HostProxy, host_proxy_endpoint}
use aegis_private_browser.Daemon.Orchestrator.{transition, host_backend_for, join}
use aegis_private_browser.Daemon.Start.{launch_browser, finish}

abbrev pub host_report : CheckId → CheckReport
host_report CheckId.tunnel_ready =
    Report.pass CheckId.tunnel_ready
      "host proxy endpoint reached; VM tunnel isolation is not available"
host_report CheckId.gateway_ready =
    Report.skipped CheckId.gateway_ready "host-process mode has no dedicated gateway VM"
host_report id = Report.skipped id "not measured by the reduced host-process preflight"

abbrev pub reduced : SessionEntry → SessionEntry
reduced e = record e {
  protection = ProtectionStatus.partial;
  checklist = Option.some (Checklist.new (map host_report all_checks));
}

abbrev pub user_data_dir : Capabilities → AppConfig → Profile → String
user_data_dir caps c p = join (join c.paths.runtime_dir "host-profiles") (caps.profile_text p.id)

abbrev pub host_mode : Capabilities → AppConfig → Profile → SessionMode
host_mode caps c p =
    SessionMode.host_process (user_data_dir caps c p) (is_ephemeral p.spec.kind) p.spec.browser

unfoldable pub host_launch_request :
    Capabilities → AppConfig → ℕ → Profile → HostProxy → BrowserLaunchRequest
host_launch_request caps c id p proxy = record {
  session = id;
  profile = p.id;
  user_data_dir = user_data_dir caps c p;
  fingerprint = policy p.spec.protection;
  permissions = p.spec.permissions;
  proxy_endpoint = proxy.endpoint;
  render_mode = RenderMode.software;
  production = true;
}

-- The reduced preflight: the three transitions, and a probe of the proxy that must be answered.
unfoldable pub probe_proxy : Capabilities → ℕ → Profile → HostProxy → Action (Unit {0})
probe_proxy caps id p proxy = do
  transition caps id SessionState.provisioning
  transition caps id SessionState.gateway_starting
  transition caps id SessionState.preflight
  reachable ←
      ask (λ l. caps.proxy_reachable l proxy.probe_host proxy.probe_port)
        (Call.proxy_reachable proxy.probe_host proxy.probe_port)
  if reachable then pure tt else raise Error.network_containment
  audit caps (about id p.id Severity.info (EventKind.preflight_check "host_proxy_reachable" "pass"))

unfoldable pub drive_start_host : Capabilities → AppConfig → ℕ → Profile → Action SessionSummary
unfolding probe_proxy launch_browser finish
drive_start_host caps config id p = do
  backend ← lift (host_backend_for caps p.spec.browser)
  proxy ← lift (host_proxy_endpoint caps.host_proxy_variable p.spec.network.mode)
  probe_proxy caps id p proxy
  update id reduced
  update id (λ e. record e { mode = host_mode caps config p })
  launch_browser caps id backend (host_launch_request caps config id p proxy)
  audit caps (
      about id p.id Severity.warning (
        EventKind.session_state
          "host-process browsing (reduced protection: host process (reduced))"))
  finish caps id p
