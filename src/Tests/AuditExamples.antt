-- ===== src/Tests/AuditExamples.antt =====
-- The auditor's theorems at a concrete input.
use aegis_private_browser.Prelude.{◌≡◌, ◌↔◌, true, some, ok}
use aegis_private_browser.Core.Network.{Ipv6Policy, tor_dns}
use aegis_private_browser.Core.Preflight.Checklist.{ConnectivityChecklist, permits_browsing, report}
use aegis_private_browser.Audit.Auditor.{Probe, run_preflight, run_check}
use aegis_private_browser.Audit.Measured.{IsMeasured, run_preflight_lem}
use aegis_private_browser.Audit.Single.{run_check-report}
use aegis_private_browser.Core.Preflight.Checks.{CheckId}
use aegis_private_browser.Core.Preflight.Report.{CheckReport}
use aegis_private_browser.Daemon.Calls.{PreflightContext}

abbrev probing : Probe
probing = record {
  gateway_reachable = λ ctx. ok true;
  tunnel_up = λ ctx. ok true;
  dns_route_ok = λ ctx. ok true;
  ipv6_blocked = λ ctx. ok true;
  observe_public_ip = λ ctx.
      ok (some (record { ip = "198.51.100.7"; via_tunnel = true; differs_from_host = true }));
}

-- The host's address is the observed one.
abbrev escaped : PreflightContext
escaped = record {
  session = 3;
  gateway_address = "10.152.152.1";
  mode_label = "Tor";
  dns = tor_dns;
  ipv6 = Ipv6Policy.block;
  webrtc_policy_installed = true;
  host_public_ip = some "198.51.100.7";
}

run_preflight_example :
    (c : ConnectivityChecklist) × (run_preflight probing escaped ≡ ok c)
    × ((permits_browsing c ≡ true) ↔ IsMeasured probing escaped)
run_preflight_example = run_preflight_lem probing escaped

run_check-report_example :
    (c : ConnectivityChecklist) × ((r : CheckReport) × (run_preflight probing escaped ≡ ok c)
      × (run_check probing CheckId.public_ip_observed escaped ≡ ok r)
      × (report c CheckId.public_ip_observed ≡ some r))
run_check-report_example = run_check-report probing escaped CheckId.public_ip_observed
