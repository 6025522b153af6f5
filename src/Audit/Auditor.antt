-- ===== src/Audit/Auditor.antt =====
-- `Auditor` of crates/network-audit/src/lib.rs. A `Probe` holds the answers of one run, in which
-- each of its methods is called at most once.
use Prim.Native.String
use aegis_private_browser.Prelude.{
  Bool, true, false, not, ◌&&◌, Option, none, some, [], ◌∷◌, String, str_eq, Result, ok, err,
  if◌then◌else◌,
}
use aegis_private_browser.Core.Error
use aegis_private_browser.Core.Error.{Error}
use aegis_private_browser.Core.FailureClass.{class_name}
use aegis_private_browser.Core.Preflight.Checks.{CheckId}
use aegis_private_browser.Core.Preflight.Report
use aegis_private_browser.Core.Preflight.Report.{CheckReport}
use aegis_private_browser.Core.Preflight.Checklist
use aegis_private_browser.Core.Preflight.Checklist.{ConnectivityChecklist, IpObservation}
use aegis_private_browser.Daemon.Calls.{PreflightContext}

pub record Probe : Type 0 where
  pub gateway_reachable : PreflightContext → Result Bool Error
  pub tunnel_up : PreflightContext → Result Bool Error
  pub dns_route_ok : PreflightContext → Result Bool Error
  pub ipv6_blocked : PreflightContext → Result Bool Error
  pub observe_public_ip : PreflightContext → Result (Option IpObservation) Error

abbrev pub boolean_report : CheckId → Result Bool Error → String → String → CheckReport
boolean_report id (ok true) on_true on_false = Report.pass id on_true
boolean_report id (ok false) on_true on_false = Report.fail id on_false
boolean_report id (err e) on_true on_false = Report.fail id (
    String.◌++◌ "probe could not verify this guarantee ("
      (String.◌++◌ (class_name (Error.class e)) ")"))

abbrev pub check_gateway : Probe → PreflightContext → CheckReport
check_gateway probe ctx =
    boolean_report CheckId.gateway_ready (probe.gateway_reachable ctx)
      "gateway VM is reachable on the management channel" "gateway VM is not reachable"

abbrev pub check_tunnel : Probe → PreflightContext → CheckReport
check_tunnel probe ctx =
    boolean_report CheckId.tunnel_ready (probe.tunnel_up ctx) "outbound tunnel is established"
      "outbound tunnel is not established"

abbrev pub check_dns : Probe → PreflightContext → CheckReport
check_dns probe ctx =
    boolean_report CheckId.dns_route_verified (probe.dns_route_ok ctx)
      "DNS resolves only through the intended route"
      "DNS route unverified — possible leak outside the tunnel"

abbrev pub check_webrtc : PreflightContext → CheckReport
check_webrtc ctx =
    if ctx.webrtc_policy_installed
    then Report.pass CheckId.webrtc_policy_loaded
        "WebRTC policy blocking non-proxied UDP is installed"
    else Report.fail CheckId.webrtc_policy_loaded
        "WebRTC policy is not installed — host interface could leak via WebRTC"

abbrev pub check_ipv6 : Probe → PreflightContext → CheckReport
check_ipv6 probe ctx =
    boolean_report CheckId.ipv6_policy_verified (probe.ipv6_blocked ctx)
      "IPv6 policy is verified in effect" "IPv6 policy is not verified — possible v6 leak"

abbrev pub matches_host : Option String → IpObservation → Bool
matches_host none obs = false
matches_host (some host) obs = str_eq host obs.ip

abbrev pub observed_report : Option String → IpObservation → CheckReport
observed_report host obs =
    if obs.via_tunnel && (obs.differs_from_host && not (matches_host host obs))
    then Report.pass CheckId.public_ip_observed
        "public IP observed through the tunnel and differs from host"
    else if not obs.via_tunnel
    then Report.fail CheckId.public_ip_observed "public IP was not observed through the tunnel"
    else Report.fail CheckId.public_ip_observed
        "observed public IP matches the host — traffic escaped the tunnel"

abbrev pub public_ip_report :
    Option String → Result (Option IpObservation) Error → CheckReport × Option IpObservation
public_ip_report host (ok (some obs)) = (observed_report host obs, some obs)
public_ip_report host (ok none) = (
  Report.fail CheckId.public_ip_observed "no public IP could be observed from inside the session",
  none,
)
public_ip_report host (err e) = (
  Report.fail CheckId.public_ip_observed (
      String.◌++◌ "public IP could not be observed ("
        (String.◌++◌ (class_name (Error.class e)) ")")),
  none,
)

abbrev pub check_public_ip : Probe → PreflightContext → CheckReport × Option IpObservation
check_public_ip probe ctx = public_ip_report ctx.host_public_ip (probe.observe_public_ip ctx)

unfoldable pub run_preflight : Probe → PreflightContext → Result ConnectivityChecklist Error
run_preflight probe ctx =
    let (public_ip, observed_ip) = check_public_ip probe ctx in
    ok
      (record (Checklist.new (
        check_gateway probe ctx
        ∷ check_tunnel probe ctx
        ∷ check_dns probe ctx
        ∷ public_ip
        ∷ check_webrtc ctx
        ∷ check_ipv6 probe ctx
        ∷ [])) { observed_ip = observed_ip })

unfoldable pub run_check : Probe → CheckId → PreflightContext → Result CheckReport Error
run_check probe CheckId.gateway_ready ctx = ok (check_gateway probe ctx)
run_check probe CheckId.tunnel_ready ctx = ok (check_tunnel probe ctx)
run_check probe CheckId.dns_route_verified ctx = ok (check_dns probe ctx)
run_check probe CheckId.public_ip_observed ctx = ok (check_public_ip probe ctx).0
run_check probe CheckId.webrtc_policy_loaded ctx = ok (check_webrtc ctx)
run_check probe CheckId.ipv6_policy_verified ctx = ok (check_ipv6 probe ctx)
