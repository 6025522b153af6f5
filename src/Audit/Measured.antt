-- ===== src/Audit/Measured.antt =====
-- What a checklist that permits browsing says of the probe's answers.
use aegis_private_browser.Prelude.{
  ◌≡◌, ◌≢◌, ◌↔◌, refl, sym, ap, ◌∙◌, subst, Bool, true, false, Option, none, some, [], ◌∷◌, String,
  eq_iff, Result, ok, err, arith,
}
use aegis_private_browser.Core.Error.{Error}
use aegis_private_browser.Core.Preflight.Checks.{CheckId, CheckOutcome, is_pass}
use aegis_private_browser.Core.Preflight.Report.{CheckReport}
use aegis_private_browser.Core.Preflight.Checklist.{
  ConnectivityChecklist, IpObservation, permits_browsing, status, all_passed, report,
}
use aegis_private_browser.Audit.Auditor.{
  Probe, boolean_report, check_gateway, check_tunnel, check_dns, check_webrtc, check_ipv6,
  check_public_ip, public_ip_report, observed_report, matches_host, run_preflight,
}
use aegis_private_browser.Daemon.Calls.{PreflightContext}

-- The public address was observed through the tunnel, and it is not the host's.
abbrev pub IsTunnelled : Option String → Result (Option IpObservation) Error → Type 0
IsTunnelled host r =
    (obs : IpObservation) × (r ≡ ok (some obs))
    × (obs.via_tunnel ≡ true)
    × (obs.differs_from_host ≡ true)
    × (host ≢ some obs.ip)

-- Every guarantee was measured.
abbrev pub IsMeasured : Probe → PreflightContext → Type 0
IsMeasured probe ctx =
    (probe.gateway_reachable ctx ≡ ok true)
    × (probe.tunnel_up ctx ≡ ok true)
    × (probe.dns_route_ok ctx ≡ ok true)
    × IsTunnelled ctx.host_public_ip (probe.observe_public_ip ctx)
    × (ctx.webrtc_policy_installed ≡ true)
    × (probe.ipv6_blocked ctx ≡ ok true)

six_reports :
    (o1 o2 o3 o4 o5 o6 : CheckOutcome) (d1 d2 d3 d4 d5 d6 : String) (ip : Option IpObservation)
    → (permits_browsing (record {
      reports =
          record { id = CheckId.gateway_ready; outcome = o1; detail = d1 }
          ∷ record { id = CheckId.tunnel_ready; outcome = o2; detail = d2 }
          ∷ record { id = CheckId.dns_route_verified; outcome = o3; detail = d3 }
          ∷ record { id = CheckId.public_ip_observed; outcome = o4; detail = d4 }
          ∷ record { id = CheckId.webrtc_policy_loaded; outcome = o5; detail = d5 }
          ∷ record { id = CheckId.ipv6_policy_verified; outcome = o6; detail = d6 }
          ∷ [];
      observed_ip = ip;
    })
        ≡ true)
      ↔ ((is_pass o1 ≡ true)
          × (is_pass o2 ≡ true)
          × (is_pass o3 ≡ true)
          × (is_pass o4 ≡ true)
          × (is_pass o5 ≡ true)
          × (is_pass o6 ≡ true))
unfolding permits_browsing status all_passed report
six_reports o1 o2 o3 o4 o5 o6 d1 d2 d3 d4 d5 d6 ip = ground arith

pub boolean_report_lem :
    (id : CheckId) (r : Result Bool Error) (on_true on_false : String)
    → ((boolean_report id r on_true on_false).id ≡ id)
      × ((is_pass (boolean_report id r on_true on_false).outcome ≡ true) ↔ (r ≡ ok true))
boolean_report_lem id r on_true on_false = ground arith

pub webrtc_lem :
    (ctx : PreflightContext)
    → ((check_webrtc ctx).id ≡ CheckId.webrtc_policy_loaded)
      × ((is_pass (check_webrtc ctx).outcome ≡ true) ↔ (ctx.webrtc_policy_installed ≡ true))
webrtc_lem ctx = ground arith

matches_host_iff :
    (host : Option String) (obs : IpObservation)
    → (matches_host host obs ≡ false) ↔ (host ≢ some obs.ip)
matches_host_iff none obs = ground arith
matches_host_iff (some h) obs = ground (arith, eq_iff h obs.ip)

observed_lem :
    (host : Option String) (obs : IpObservation)
    → ((observed_report host obs).id ≡ CheckId.public_ip_observed)
      × ((is_pass (observed_report host obs).outcome ≡ true) ↔ (
          (obs.via_tunnel ≡ true)
          × (obs.differs_from_host ≡ true)
          × (matches_host host obs ≡ false)))
observed_lem host obs = ground arith

pub public_ip_lem :
    (host : Option String) (r : Result (Option IpObservation) Error)
    → ((public_ip_report host r).0.id ≡ CheckId.public_ip_observed)
      × ((is_pass (public_ip_report host r).0.outcome ≡ true) ↔ IsTunnelled host r)
public_ip_lem host (ok (some obs)) =
    let (id, passes) = observed_lem host obs in
    (
      id,
      (
        λ h.
            let (via, differs, elsewhere) = passes.0 h in
            (obs, refl, via, differs, (matches_host_iff host obs).0 elsewhere),
        λ h. passes.1 (tunnelled h),
      ),
    )
  where
    tunnelled :
        IsTunnelled host (ok (some obs))
        → (obs.via_tunnel ≡ true) × (obs.differs_from_host ≡ true) × (matches_host host obs ≡ false)
    tunnelled (o, e, via, differs, elsewhere) =
        let same : o ≡ obs = cc e in
        (
          ap (λ (x : IpObservation). x.via_tunnel) (sym same) ∙ via,
          ap (λ (x : IpObservation). x.differs_from_host) (sym same) ∙ differs,
          ap (matches_host host) (sym same) ∙ (matches_host_iff host o).1 elsewhere,
        )
public_ip_lem host (ok none) = (refl, (λ h. cc, λ h. cc))
public_ip_lem host (err e) = (refl, (λ h. cc, λ h. cc))

abbrev pub listing :
    CheckReport
    → CheckReport
    → CheckReport
    → CheckReport
    → CheckReport
    → CheckReport
    → Option IpObservation
    → ConnectivityChecklist
listing a b c d e f ip = record { reports = a ∷ b ∷ c ∷ d ∷ e ∷ f ∷ []; observed_ip = ip }

abbrev pub named : CheckReport → CheckId → CheckReport
named r id = record { id = id; outcome = r.outcome; detail = r.detail }

-- A listing of reports on the six checks, in their order.
listing_lem :
    (a b c d e f : CheckReport) (ip : Option IpObservation)
    → a.id ≡ CheckId.gateway_ready
    → b.id ≡ CheckId.tunnel_ready
    → c.id ≡ CheckId.dns_route_verified
    → d.id ≡ CheckId.public_ip_observed
    → e.id ≡ CheckId.webrtc_policy_loaded
    → f.id ≡ CheckId.ipv6_policy_verified
    → (permits_browsing (listing a b c d e f ip) ≡ true) ↔ (
        (is_pass a.outcome ≡ true)
        × (is_pass b.outcome ≡ true)
        × (is_pass c.outcome ≡ true)
        × (is_pass d.outcome ≡ true)
        × (is_pass e.outcome ≡ true)
        × (is_pass f.outcome ≡ true))
listing_lem a b c d e f ip ha hb hc hd he hf =
    subst
      (λ l. (permits_browsing l ≡ true) ↔ (
        (is_pass a.outcome ≡ true)
        × (is_pass b.outcome ≡ true)
        × (is_pass c.outcome ≡ true)
        × (is_pass d.outcome ≡ true)
        × (is_pass e.outcome ≡ true)
        × (is_pass f.outcome ≡ true)))
      (sym (λ i.
        listing (named a (ha i)) (named b (hb i)) (named c (hc i)) (named d (hd i)) (named e (he i))
          (named f (hf i)) ip))
      (six_reports a.outcome b.outcome c.outcome d.outcome e.outcome f.outcome a.detail b.detail
        c.detail d.detail e.detail f.detail ip)

-- A preflight run always answers a checklist, and that checklist permits browsing exactly when the
-- gateway, the tunnel, the DNS route and the IPv6 policy were each measured and found in order (an
-- error of the probe is a failure), the WebRTC policy is installed, and a public address was
-- observed through the tunnel that the probe says differs from the host's and that is not the
-- host's known address.
pub run_preflight_lem :
    (probe : Probe) (ctx : PreflightContext)
    → (c : ConnectivityChecklist) × (run_preflight probe ctx ≡ ok c)
      × ((permits_browsing c ≡ true) ↔ IsMeasured probe ctx)
unfolding run_preflight
run_preflight_lem probe ctx =
    let gateway = boolean_report_lem CheckId.gateway_ready (probe.gateway_reachable ctx) _ _ in
    let tunnel = boolean_report_lem CheckId.tunnel_ready (probe.tunnel_up ctx) _ _ in
    let dns = boolean_report_lem CheckId.dns_route_verified (probe.dns_route_ok ctx) _ _ in
    let address = public_ip_lem ctx.host_public_ip (probe.observe_public_ip ctx) in
    let webrtc = webrtc_lem ctx in
    let ipv6 = boolean_report_lem CheckId.ipv6_policy_verified (probe.ipv6_blocked ctx) _ _ in
    let verdict =
      listing_lem (check_gateway probe ctx) (check_tunnel probe ctx) (check_dns probe ctx)
        (check_public_ip probe ctx).0 (check_webrtc ctx) (check_ipv6 probe ctx)
        (check_public_ip probe ctx).1 gateway.0 tunnel.0 dns.0 address.0 webrtc.0 ipv6.0 in
    (
      _,
      refl,
      (
        λ h.
            let (g, t, d, p, w, v) = verdict.0 h in
            (gateway.1.0 g, tunnel.1.0 t, dns.1.0 d, address.1.0 p, webrtc.1.0 w, ipv6.1.0 v),
        λ h.
            let (g, t, d, p, w, v) = h in
            verdict.1
              (gateway.1.1 g, tunnel.1.1 t, dns.1.1 d, address.1.1 p, webrtc.1.1 w, ipv6.1.1 v),
      ),
    )
