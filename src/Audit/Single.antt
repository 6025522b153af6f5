-- ===== src/Audit/Single.antt =====
-- A single check answers what a whole run reports on it.
use aegis_private_browser.Prelude.{◌≡◌, refl, Option, some, ok}
use aegis_private_browser.Core.Preflight.Checks.{CheckId}
use aegis_private_browser.Core.Preflight.Report.{CheckReport}
use aegis_private_browser.Core.Preflight.Checklist.{ConnectivityChecklist, IpObservation, report}
use aegis_private_browser.Audit.Auditor.{
  Probe, check_gateway, check_tunnel, check_dns, check_webrtc, check_ipv6, check_public_ip,
  run_preflight, run_check,
}
use aegis_private_browser.Audit.Measured.{
  listing, named, boolean_report_lem, webrtc_lem, public_ip_lem,
}
use aegis_private_browser.Daemon.Calls.{PreflightContext}

abbrev pick :
    CheckId
    → CheckReport
    → CheckReport
    → CheckReport
    → CheckReport
    → CheckReport
    → CheckReport
    → CheckReport
pick CheckId.gateway_ready a b c d e f = a
pick CheckId.tunnel_ready a b c d e f = b
pick CheckId.dns_route_verified a b c d e f = c
pick CheckId.public_ip_observed a b c d e f = d
pick CheckId.webrtc_policy_loaded a b c d e f = e
pick CheckId.ipv6_policy_verified a b c d e f = f

named-pick :
    (id : CheckId) (a b c d e f : CheckReport) (ip : Option IpObservation)
    → report
        (listing
          (named a CheckId.gateway_ready)
          (named b CheckId.tunnel_ready)
          (named c CheckId.dns_route_verified)
          (named d CheckId.public_ip_observed)
          (named e CheckId.webrtc_policy_loaded)
          (named f CheckId.ipv6_policy_verified)
          ip)
        id
      ≡ some (
          pick id
            (named a CheckId.gateway_ready)
            (named b CheckId.tunnel_ready)
            (named c CheckId.dns_route_verified)
            (named d CheckId.public_ip_observed)
            (named e CheckId.webrtc_policy_loaded)
            (named f CheckId.ipv6_policy_verified))
unfolding report
named-pick CheckId.gateway_ready a b c d e f ip = refl
named-pick CheckId.tunnel_ready a b c d e f ip = refl
named-pick CheckId.dns_route_verified a b c d e f ip = refl
named-pick CheckId.public_ip_observed a b c d e f ip = refl
named-pick CheckId.webrtc_policy_loaded a b c d e f ip = refl
named-pick CheckId.ipv6_policy_verified a b c d e f ip = refl

listing-pick :
    (id : CheckId) (a b c d e f : CheckReport) (ip : Option IpObservation)
    → a.id ≡ CheckId.gateway_ready
    → b.id ≡ CheckId.tunnel_ready
    → c.id ≡ CheckId.dns_route_verified
    → d.id ≡ CheckId.public_ip_observed
    → e.id ≡ CheckId.webrtc_policy_loaded
    → f.id ≡ CheckId.ipv6_policy_verified
    → report (listing a b c d e f ip) id ≡ some (pick id a b c d e f)
listing-pick id a b c d e f ip ha hb hc hd he hf =
    coe 1 0
      (i.
        report
          (listing (named a (ha i)) (named b (hb i)) (named c (hc i)) (named d (hd i))
            (named e (he i)) (named f (hf i)) ip)
          id
        ≡ some (
            pick id (named a (ha i)) (named b (hb i)) (named c (hc i)) (named d (hd i))
              (named e (he i)) (named f (hf i))))
      (named-pick id a b c d e f ip)

-- For each of the six checks, running it alone answers the report that a whole preflight run with
-- the same answers of the probe holds on it.
pub run_check-report :
    (probe : Probe) (ctx : PreflightContext) (id : CheckId)
    → (c : ConnectivityChecklist) × ((r : CheckReport) × (run_preflight probe ctx ≡ ok c)
        × (run_check probe id ctx ≡ ok r)
        × (report c id ≡ some r))
unfolding run_preflight run_check
run_check-report probe ctx id = (_, (_, refl, single id, found))
  where
    found :
        report
          (listing
            (check_gateway probe ctx)
            (check_tunnel probe ctx)
            (check_dns probe ctx)
            (check_public_ip probe ctx).0
            (check_webrtc ctx)
            (check_ipv6 probe ctx)
            (check_public_ip probe ctx).1)
          id
        ≡ some (
            pick id
              (check_gateway probe ctx)
              (check_tunnel probe ctx)
              (check_dns probe ctx)
              (check_public_ip probe ctx).0
              (check_webrtc ctx)
              (check_ipv6 probe ctx))
    found =
        listing-pick id _ _ _ _ _ _ _
          (boolean_report_lem CheckId.gateway_ready (probe.gateway_reachable ctx) _ _).0
          (boolean_report_lem CheckId.tunnel_ready (probe.tunnel_up ctx) _ _).0
          (boolean_report_lem CheckId.dns_route_verified (probe.dns_route_ok ctx) _ _).0
          (public_ip_lem ctx.host_public_ip (probe.observe_public_ip ctx)).0 (webrtc_lem ctx).0
          (boolean_report_lem CheckId.ipv6_policy_verified (probe.ipv6_blocked ctx) _ _).0

    single :
        (id : CheckId)
        → run_check probe id ctx
          ≡ ok (
              pick id
                (check_gateway probe ctx)
                (check_tunnel probe ctx)
                (check_dns probe ctx)
                (check_public_ip probe ctx).0
                (check_webrtc ctx)
                (check_ipv6 probe ctx))
    single CheckId.gateway_ready = refl
    single CheckId.tunnel_ready = refl
    single CheckId.dns_route_verified = refl
    single CheckId.public_ip_observed = refl
    single CheckId.webrtc_policy_loaded = refl
    single CheckId.ipv6_policy_verified = refl
