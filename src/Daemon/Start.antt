-- ===== src/Daemon/Start.antt =====
-- `drive_start` of crates/aegis-daemon/src/orchestrator.rs: the full-VM path.
use aegis_private_browser.Prelude.{
  ℕ, true, Option, none, some, List, [], ◌∷◌, String, Result, ok, err, lookup, nat_eq,
  if◌then◌else◌,
}
use aegis_private_browser.Prelude.Exec.{pure, raise, lift, gets, ignore, ◌>>=◌, ◌>>◌}
use aegis_private_browser.Core.Error.{Error}
use aegis_private_browser.Core.Browser.{BrowserLaunchRequest, assert_safe}
use aegis_private_browser.Core.Config.{AppConfig}
use aegis_private_browser.Core.Events.{Severity, EventKind}
use aegis_private_browser.Core.Gateway
use aegis_private_browser.Core.Gateway.{GatewayConfig}
use aegis_private_browser.Core.Network.{label}
use aegis_private_browser.Core.Preflight.Checks.{CheckOutcome, as_str, is_pass}
use aegis_private_browser.Core.Preflight.Report.{CheckReport}
use aegis_private_browser.Core.Preflight.Checklist.{
  IpObservation, ConnectivityChecklist, status, permits_browsing,
}
use aegis_private_browser.Core.Profile.{Profile}
use aegis_private_browser.Core.Session.{SessionState, SessionSummary}
use aegis_private_browser.Core.Vm.{VmRole, VmHandle}
use aegis_private_browser.Daemon.Calls.{Backend, Call, Capabilities, PreflightContext}
use aegis_private_browser.Daemon.State.{SessionEntry, Action, ask, audit, about, update, summary}
use aegis_private_browser.Daemon.Orchestrator.{
  transition, provision_request, gateway_config, browser_launch_request, set_vm, set_browser_handle,
}

-- Provision one machine and note its id in the session's entry.
unfoldable pub provision_vm : Capabilities → AppConfig → ℕ → VmRole → Action VmHandle
provision_vm caps config id role = do
  instance_id ← gets (λ s. caps.new_instance_id s.log)
  let req = provision_request caps config role instance_id
  handle ← ask (λ l. caps.provision l req) (Call.provision req)
  set_vm id role handle.id
  pure handle

abbrev pub outcome_name : CheckOutcome → String
outcome_name CheckOutcome.pass = "pass"
outcome_name CheckOutcome.fail = "fail"
outcome_name CheckOutcome.skipped = "skipped"

abbrev pub report_severity : CheckOutcome → Severity
report_severity o = if is_pass o then Severity.info else Severity.warning

unfoldable pub audit_reports : Capabilities → ℕ → ℕ → List CheckReport → Action (Unit {0})
audit_reports caps id profile [] = pure tt
audit_reports caps id profile (r ∷ more) =
    audit caps (
      about id profile (report_severity r.outcome)
        (EventKind.preflight_check (as_str r.id) (outcome_name r.outcome)))
    >> audit_reports caps id profile more

abbrev pub preflight_context : ℕ → GatewayConfig → PreflightContext
preflight_context id gw = record {
  session = id;
  gateway_address = gw.gateway_address;
  mode_label = label gw.mode;
  dns = gw.dns;
  ipv6 = gw.ipv6;
  webrtc_policy_installed = true;
  host_public_ip = none;
}

abbrev pub observed_text : Option IpObservation → Option String
observed_text none = none
observed_text (some o) = some o.ip

abbrev pub with_checklist : ConnectivityChecklist → SessionEntry → SessionEntry
with_checklist c e = record e {
  protection = status c;
  public_ip = observed_text c.observed_ip;
  checklist = some c;
}

-- Steps 2 to 5: both machines, the gateway with its firewall, and the preflight checklist.
unfoldable pub prepare : Capabilities → AppConfig → ℕ → Profile → Action ConnectivityChecklist
unfolding provision_vm audit_reports
prepare caps config id p = do
  transition caps id SessionState.provisioning
  gw ← provision_vm caps config id VmRole.gateway
  br ← provision_vm caps config id VmRole.browser
  transition caps id SessionState.gateway_starting
  let cfg = gateway_config p.spec.network
  ask (λ l. caps.configure l cfg) (Call.configure cfg)
  ask (λ l. caps.apply_firewall l (Gateway.fail_closed cfg))
      (Call.apply_firewall (Gateway.fail_closed cfg))
  ask (λ l. caps.start l gw.id) (Call.start gw.id)
  ask (λ l. caps.start l br.id) (Call.start br.id)
  transition caps id SessionState.preflight
  checklist ←
      ask (λ l. caps.run_preflight l (preflight_context id cfg))
        (Call.run_preflight (preflight_context id cfg))
  audit_reports caps id p.id checklist.reports
  update id (with_checklist checklist)
  pure checklist

-- Step 7: render the policy, assert that it is safe, launch, and note the handle; a browser that
-- is not alive is a failure. It is the same for the guest and for the host backends.
unfoldable pub launch_browser :
    Capabilities → ℕ → Backend → BrowserLaunchRequest → Action (Unit {0})
launch_browser caps id backend req = do
  bundle ← ask (λ l. caps.render_policy l backend req) (Call.render_policy backend req)
  lift (assert_safe bundle req.production)
  handle ← ask (λ l. caps.launch l backend req bundle) (Call.launch backend req bundle)
  set_browser_handle id handle
  alive ← ask (λ l. caps.is_running l backend handle) (Call.is_running backend handle)
  if alive then transition caps id SessionState.browsing else raise Error.system

abbrev pub found_summary : ℕ → Option SessionEntry → Result SessionSummary Error
found_summary id none = err Error.internal
found_summary id (some e) = ok (summary id e)

-- The launch time on the profile, best effort, and the summary.
unfoldable pub finish : Capabilities → ℕ → Profile → Action SessionSummary
finish caps id p = do
  ignore (ask (λ l. caps.touch_launch l p.id) (Call.touch_launch p.id))
  found ← gets (λ s. lookup id s.sessions)
  lift (found_summary id found)

unfoldable pub drive_start : Capabilities → AppConfig → ℕ → Profile → Action SessionSummary
unfolding prepare launch_browser finish
drive_start caps config id p = do
  checklist ← prepare caps config id p
  if permits_browsing checklist then pure tt else raise Error.network_containment
  launch_browser caps id Backend.guest (browser_launch_request id p (gateway_config p.spec.network))
  finish caps id p
