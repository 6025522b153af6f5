-- ===== src/Daemon/Trace/Hosting.antt =====
-- Driving a session as a host process keeps the trace safe.
use aegis_private_browser.Prelude.{
  arith, ◌≡◌, refl, inl, ℕ, Bool, true, false, ◌∷◌, String, Result, ok, err,
}
use aegis_private_browser.Prelude.Exec.{◌>>◌}
use aegis_private_browser.Prelude.Exec.Triple.{
  Triple, Post, Keeps, Triple-bind, Triple-pure, Triple-lift, Triple-raise, Triple-if,
  Triple-weaken,
}
use aegis_private_browser.Prelude.Exec.Moves.{Moves-Keeps}
use aegis_private_browser.Core.Error.{Error}
use aegis_private_browser.Core.Config.{AppConfig}
use aegis_private_browser.Core.Profile.{Profile}
use aegis_private_browser.Daemon.Calls.{Backend, Call, Capabilities}
use aegis_private_browser.Daemon.HostProxy.{
  HostProxy, host_proxy_endpoint, host_proxy_endpoint-parse, parse,
}
use aegis_private_browser.Daemon.State.{Orchestrator, Action, ask, audit, about, update}
use aegis_private_browser.Daemon.Orchestrator.{host_backend_for}
use aegis_private_browser.Daemon.Start.{launch_browser, finish}
use aegis_private_browser.Daemon.StartHost.{
  probe_proxy, drive_start_host, host_launch_request, host_mode, reduced,
}
use aegis_private_browser.Daemon.Trace.{Reaches, Some}
use aegis_private_browser.Daemon.Trace.Quiet.{Grows-IsSafe, Grows-Some, IsQuiet}
use aegis_private_browser.Daemon.Trace.Steps.{
  audit-IsQuiet, transition-IsQuiet, update-IsQuiet, finish-IsQuiet,
}
use aegis_private_browser.Daemon.Trace.Launches.{Safe, quiet-Safe, Ready, launch_browser-Safe}
use aegis_private_browser.Core.Events.{Severity, EventKind}
use aegis_private_browser.Daemon.Trace.Driving.{skip}

probe-Reaches :
    (caps : Capabilities) (proxy : HostProxy)
    → parse proxy.endpoint ≡ ok proxy
    → Triple Safe
        (ask
          (λ l. caps.proxy_reachable l proxy.probe_host proxy.probe_port)
          (Call.proxy_reachable proxy.probe_host proxy.probe_port))
        (λ reachable s. Safe s × (reachable ≡ true → Some (Reaches proxy.endpoint) s.log))
        (λ _. Safe)
unfolding ask
probe-Reaches caps proxy e = record {
  at = λ s h. either s h (caps.proxy_reachable s.log proxy.probe_host proxy.probe_port);
}
  where
    either :
        (s : Orchestrator)
        → Safe s
        → (r : Result Bool Error)
        → Post
            (λ reachable t. Safe t × (reachable ≡ true → Some (Reaches proxy.endpoint) t.log))
            (λ _. Safe)
            r
            (record s { log = Call.proxy_reachable proxy.probe_host proxy.probe_port r ∷ s.log })
    either s h (ok true) = ((tt, h), λ _. inl (proxy, e, refl, refl))
    either s h (ok false) = ((tt, h), λ f. cc)
    either s h (err e') = (tt, h)

abbrev Reached : String → Orchestrator → Type 0
Reached endpoint s = Safe s × Some (Reaches endpoint) s.log

quiet-Reached :
    {A : Type 0} (endpoint : String) (m : Action A)
    → IsQuiet m
    → Triple (Reached endpoint) m (λ _. Reached endpoint) (λ _. Safe)
quiet-Reached endpoint m q =
    Triple-weaken m
      (Moves-Keeps m q (λ s t g h. (Grows-IsSafe g h.0, Grows-Some (Reaches endpoint) g h.1)))
      (λ s h. h) (λ a s h. h) (λ e s h. h.0)

probe_proxy-Reached :
    (caps : Capabilities) (id : ℕ) (p : Profile) (proxy : HostProxy)
    → parse proxy.endpoint ≡ ok proxy
    → Triple Safe (probe_proxy caps id p proxy) (λ _. Reached proxy.endpoint) (λ _. Safe)
unfolding probe_proxy
probe_proxy-Reached caps id p proxy e = skip (transition-IsQuiet caps id _) λ _.
    skip (transition-IsQuiet caps id _) λ _. skip (transition-IsQuiet caps id _) λ _.
      Triple-bind _ _ (probe-Reaches caps proxy e) λ reachable.
        Triple-bind {Q = λ _. Reached proxy.endpoint} _ _
          (Triple-if reachable _ _ (λ found. Triple-pure tt (λ s h. (h.0, h.1 found)))
            (λ _. Triple-raise _ (λ s h. h.0)))
          λ _. quiet-Reached proxy.endpoint _ (audit-IsQuiet caps _)

host-Ready :
    (caps : Capabilities) (config : AppConfig) (id : ℕ) (p : Profile) (proxy : HostProxy)
    (backend : Backend)
    → host_backend_for caps p.spec.browser ≡ ok backend
    → (s : Orchestrator) → Reached proxy.endpoint s
    → Ready backend (host_launch_request caps config id p proxy) s
unfolding host_backend_for host_launch_request
host-Ready caps config id p proxy Backend.guest e s h = absurd (ground arith)
host-Ready caps config id p proxy Backend.host_chromium e s h = h
host-Ready caps config id p proxy Backend.host_firefox e s h = h

request_production :
    (caps : Capabilities) (config : AppConfig) (id : ℕ) (p : Profile) (proxy : HostProxy)
    → (host_launch_request caps config id p proxy).production ≡ true
unfolding host_launch_request
request_production caps config id p proxy = refl

-- What follows when a backend was located and the proxy was resolved.
driven_by :
    (caps : Capabilities) (config : AppConfig) (id : ℕ) (p : Profile) (backend : Backend)
    (proxy : HostProxy)
    → host_backend_for caps p.spec.browser ≡ ok backend
    → host_proxy_endpoint caps.host_proxy_variable p.spec.network.mode ≡ ok proxy
    → Keeps Safe (do
      probe_proxy caps id p proxy
      update id reduced
      update id (λ e. record e { mode = host_mode caps config p })
      launch_browser caps id backend (host_launch_request caps config id p proxy)
      audit caps (
          about id p.id Severity.warning (
            EventKind.session_state
              "host-process browsing (reduced protection: host process (reduced))"))
      finish caps id p)
driven_by caps config id p backend proxy found resolved =
    Triple-bind _ _
      (probe_proxy-Reached caps id p proxy (host_proxy_endpoint-parse _ _ proxy resolved))
      λ _. Triple-bind _ _ (quiet-Reached proxy.endpoint _ (update-IsQuiet id _)) λ _.
        Triple-bind _ _ (quiet-Reached proxy.endpoint _ (update-IsQuiet id _)) λ _.
          Triple-bind _ _
            (Triple-weaken _
              (launch_browser-Safe caps id backend _ (request_production caps config id p proxy))
              (λ s h. host-Ready caps config id p proxy backend found s h) (λ a s h. h)
              (λ e s h. h))
            λ _. skip (audit-IsQuiet caps _) λ _. quiet-Safe _ (finish-IsQuiet caps id p)

pub drive_start_host-Safe :
    (caps : Capabilities) (config : AppConfig) (id : ℕ) (p : Profile)
    → Keeps Safe (drive_start_host caps config id p)
unfolding drive_start_host
drive_start_host-Safe caps config id p =
    Triple-bind {Q = λ b s. Safe s × (host_backend_for caps p.spec.browser ≡ ok b)} _ _
      (Triple-lift _ (λ b e s h. (h, e)) (λ _ _ s h. h))
      λ backend.
        Triple-bind
          {Q = λ proxy s.
            Safe s
            × (host_backend_for caps p.spec.browser ≡ ok backend)
            × (host_proxy_endpoint caps.host_proxy_variable p.spec.network.mode ≡ ok proxy)}
          _ _ (Triple-lift _ (λ b e s h. (h.0, h.1, e)) (λ _ _ s h. h.0))
          λ proxy. record {
            at = λ s h. (driven_by caps config id p backend proxy h.1 h.2).at s h.0;
          }
