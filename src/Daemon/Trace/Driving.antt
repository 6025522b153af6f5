-- ===== src/Daemon/Trace/Driving.antt =====
-- Driving a session on the two machines keeps the trace safe.
use aegis_private_browser.Prelude.{◌≡◌, refl, inl, ℕ, true, ◌∷◌, Result, ok, err}
use aegis_private_browser.Prelude.Exec.{◌>>=◌}
use aegis_private_browser.Prelude.Exec.Triple.{
  Triple, Post, Keeps, Triple-bind, Triple-pure, Triple-raise, Triple-if, Triple-weaken,
}
use aegis_private_browser.Prelude.Exec.Moves.{Moves-Keeps}
use aegis_private_browser.Core.Error.{Error}
use aegis_private_browser.Core.Config.{AppConfig}
use aegis_private_browser.Core.Gateway.{GatewayConfig}
use aegis_private_browser.Core.Preflight.Checklist.{ConnectivityChecklist, permits_browsing}
use aegis_private_browser.Core.Profile.{Profile}
use aegis_private_browser.Daemon.Calls.{Backend, Call, Capabilities}
use aegis_private_browser.Daemon.State.{Orchestrator, Action, ask}
use aegis_private_browser.Daemon.Orchestrator.{gateway_config, browser_launch_request}
use aegis_private_browser.Daemon.Start.{prepare, drive_start, preflight_context}
use aegis_private_browser.Daemon.Trace.{Permits, Some}
use aegis_private_browser.Daemon.Trace.Quiet.{Grows-IsSafe, Grows-Some, IsQuiet, ask-IsQuiet}
use aegis_private_browser.Daemon.Trace.Steps.{
  transition-IsQuiet, provision_vm-IsQuiet, audit_reports-IsQuiet, update-IsQuiet, finish-IsQuiet,
}
use aegis_private_browser.Daemon.Trace.Launches.{Safe, quiet-Safe, Ready, launch_browser-Safe}

-- A step that launches nothing goes before what keeps the trace safe.
module _ {A B : Type 0} {Q : B → Orchestrator → Type 0} where
  pub skip :
      {m : Action A} {f : A → Action B}
      → IsQuiet m
      → ((a : A) → Triple Safe (f a) Q (λ _. Safe))
      → Triple Safe (m >>= f) Q (λ _. Safe)
  skip {m} {f} q k = Triple-bind m f (quiet-Safe m q) k

-- The trace is safe, and a checklist that permits browsing stands in it as this session's preflight.
abbrev Vouched : ℕ → ConnectivityChecklist → Orchestrator → Type 0
Vouched id c s = Safe s × (permits_browsing c ≡ true → Some (Permits id) s.log)

quiet-Vouched :
    {A : Type 0} (id : ℕ) (c : ConnectivityChecklist) (m : Action A)
    → IsQuiet m
    → Triple (Vouched id c) m (λ _. Vouched id c) (λ _. Safe)
quiet-Vouched id c m q =
    Triple-weaken m
      (Moves-Keeps m q (λ s t g h. (Grows-IsSafe g h.0, λ e. Grows-Some (Permits id) g (h.1 e))))
      (λ s h. h) (λ a s h. h) (λ e s h. h.0)

preflight-Vouched :
    (caps : Capabilities) (id : ℕ) (cfg : GatewayConfig)
    → Triple Safe
        (ask
          (λ l. caps.run_preflight l (preflight_context id cfg))
          (Call.run_preflight (preflight_context id cfg)))
        (Vouched id)
        (λ _. Safe)
unfolding ask
preflight-Vouched caps id cfg = record {
  at = λ s h. either s h (caps.run_preflight s.log (preflight_context id cfg));
}
  where
    either :
        (s : Orchestrator)
        → Safe s
        → (r : Result ConnectivityChecklist Error)
        → Post
            (Vouched id)
            (λ _. Safe)
            r
            (record s { log = Call.run_preflight (preflight_context id cfg) r ∷ s.log })
    either s h (ok c) = ((tt, h), λ e. inl (refl, e))
    either s h (err e) = (tt, h)

prepare-Vouched :
    (caps : Capabilities) (config : AppConfig) (id : ℕ) (p : Profile)
    → Triple Safe (prepare caps config id p) (Vouched id) (λ _. Safe)
unfolding prepare
prepare-Vouched caps config id p = skip (transition-IsQuiet caps id _) λ _.
    skip (provision_vm-IsQuiet caps config id _) λ gw.
      skip (provision_vm-IsQuiet caps config id _) λ br. skip (transition-IsQuiet caps id _) λ _.
        skip (ask-IsQuiet _ _ (λ _. refl)) λ _. skip (ask-IsQuiet _ _ (λ _. refl)) λ _.
          skip (ask-IsQuiet _ _ (λ _. refl)) λ _. skip (ask-IsQuiet _ _ (λ _. refl)) λ _.
            skip (transition-IsQuiet caps id _) λ _.
              Triple-bind _ _ (preflight-Vouched caps id (gateway_config p.spec.network)) λ c.
                Triple-bind _ _ (quiet-Vouched id c _ (audit_reports-IsQuiet caps id _ _)) λ _.
                  Triple-bind _ _ (quiet-Vouched id c _ (update-IsQuiet id _))
                    λ _. Triple-pure c (λ s h. h)

pub drive_start-Safe :
    (caps : Capabilities) (config : AppConfig) (id : ℕ) (p : Profile)
    → Keeps Safe (drive_start caps config id p)
unfolding drive_start browser_launch_request
drive_start-Safe caps config id p = Triple-bind _ _ (prepare-Vouched caps config id p) λ c.
    Triple-bind
      {Q = λ _. Ready Backend.guest (browser_launch_request id p (gateway_config p.spec.network))} _
      _
      (Triple-if (permits_browsing c) _ _ (λ e. Triple-pure tt (λ s h. (h.0, h.1 e)))
        (λ _. Triple-raise _ (λ s h. h.0)))
      λ _.
        Triple-bind _ _ (launch_browser-Safe caps id Backend.guest _ refl)
          λ _. quiet-Safe _ (finish-IsQuiet caps id p)
