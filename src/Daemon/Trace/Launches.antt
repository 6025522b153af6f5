-- ===== src/Daemon/Trace/Launches.antt =====
-- Every browser that the orchestrator launches was allowed by the calls before.
use aegis_private_browser.Prelude.{
  ◌≡◌, refl, sym, ◌∙◌, ap, ℕ, true, List, Result, ok, err, if◌then◌else◌,
}
use aegis_private_browser.Prelude.Exec.{raise, ◌>>=◌, ◌>>◌}
use aegis_private_browser.Prelude.Exec.Triple.{
  Triple, Post, Keeps, Triple-bind, Triple-lift, Triple-weaken,
}
use aegis_private_browser.Prelude.Exec.Moves.{Moves-Keeps, Moves-if}
use aegis_private_browser.Core.Error.{Error}
use aegis_private_browser.Core.Browser.{
  BrowserHandle, BrowserLaunchRequest, BackendPolicyBundle, assert_safe,
}
use aegis_private_browser.Core.Session.{SessionState}
use aegis_private_browser.Daemon.Orchestrator.{set_browser_handle, transition}
use aegis_private_browser.Daemon.Calls.{Backend, Call, Capabilities}
use aegis_private_browser.Daemon.State.{Orchestrator, Action, ask}
use aegis_private_browser.Daemon.Start.{launch_browser}
use aegis_private_browser.Daemon.Trace.{Allowed, IsSafe}
use aegis_private_browser.Daemon.Trace.Quiet.{
  Grows, Grows-IsSafe, Grows-Some, IsQuiet, raise-IsQuiet, ask-IsQuiet, bind-IsQuiet,
}
use aegis_private_browser.Daemon.Trace.Steps.{transition-IsQuiet, set_browser_handle-IsQuiet}

abbrev pub Safe : Orchestrator → Type 0
Safe s = IsSafe s.log

pub quiet-Safe : {A : Type 0} (m : Action A) → IsQuiet m → Keeps Safe m
quiet-Safe m q = Moves-Keeps m q (λ s t. Grows-IsSafe)

-- The trace is safe and allows this launch.
abbrev pub Ready : Backend → BrowserLaunchRequest → Orchestrator → Type 0
Ready backend req s = IsSafe s.log × Allowed backend req s.log

Grows-Allowed :
    (backend : Backend) (req : BrowserLaunchRequest) {l k : List Call}
    → Grows l k
    → Allowed backend req l
    → Allowed backend req k
Grows-Allowed Backend.guest req g a = Grows-Some _ g a
Grows-Allowed Backend.host_chromium req g a = Grows-Some _ g a
Grows-Allowed Backend.host_firefox req g a = Grows-Some _ g a

quiet-Ready :
    {A : Type 0} (backend : Backend) (req : BrowserLaunchRequest) (m : Action A)
    → IsQuiet m
    → Keeps (Ready backend req) m
quiet-Ready backend req m q =
    Moves-Keeps m q (λ s t g h. (Grows-IsSafe g h.0, Grows-Allowed backend req g h.1))

launched :
    (caps : Capabilities) (backend : Backend) (req : BrowserLaunchRequest)
    (bundle : BackendPolicyBundle) (a : Unit {0})
    → req.production ≡ true
    → Triple
        (λ s. Ready backend req s × (assert_safe bundle req.production ≡ ok a))
        (ask (λ l. caps.launch l backend req bundle) (Call.launch backend req bundle))
        (λ _. Safe)
        (λ _. Safe)
unfolding ask
launched caps backend req bundle tt production = record {
  at = λ s h.
      either _ (caps.launch s.log backend req bundle)
        ((h.0.1, production, ap (assert_safe bundle) (sym production) ∙ h.1), h.0.0);
}
  where
    either :
        (t : Orchestrator) (r : Result BrowserHandle Error)
        → Safe t
        → Post (λ _. Safe) (λ _. Safe) r t
    either t (ok a) h = h
    either t (err e) h = h

after_launch :
    (caps : Capabilities) (id : ℕ) (backend : Backend) (handle : BrowserHandle)
    → IsQuiet {A = Unit {0}} (do
      set_browser_handle id handle
      alive ← ask (λ l. caps.is_running l backend handle) (Call.is_running backend handle)
      if alive then transition caps id SessionState.browsing else raise Error.system)
after_launch caps id backend handle = bind-IsQuiet _ _ (set_browser_handle-IsQuiet id handle) λ _.
    bind-IsQuiet _ _ (ask-IsQuiet _ _ (λ _. refl))
      λ alive. Moves-if alive _ _ (transition-IsQuiet caps id _) (raise-IsQuiet _)

after_assert :
    (caps : Capabilities) (id : ℕ) (backend : Backend) (req : BrowserLaunchRequest)
    (bundle : BackendPolicyBundle) (a : Unit {0})
    → req.production ≡ true
    → Triple
        (λ s. Ready backend req s × (assert_safe bundle req.production ≡ ok a))
        (do
          handle ← ask (λ l. caps.launch l backend req bundle) (Call.launch backend req bundle)
          set_browser_handle id handle
          alive ← ask (λ l. caps.is_running l backend handle) (Call.is_running backend handle)
          if alive then transition caps id SessionState.browsing else raise Error.system)
        (λ (_ : Unit {0}). Safe)
        (λ _. Safe)
after_assert caps id backend req bundle a production =
    Triple-bind _ _ (launched caps backend req bundle a production)
      λ handle. quiet-Safe _ (after_launch caps id backend handle)

pub launch_browser-Safe :
    (caps : Capabilities) (id : ℕ) (backend : Backend) (req : BrowserLaunchRequest)
    → req.production ≡ true
    → Triple (Ready backend req) (launch_browser caps id backend req) (λ _. Safe) (λ _. Safe)
unfolding launch_browser
launch_browser-Safe caps id backend req production =
    Triple-bind _ _
      (Triple-weaken _ (quiet-Ready backend req _ (ask-IsQuiet _ _ (λ _. refl))) (λ s h. h)
        (λ a s h. h) (λ e s h. h.0))
      λ bundle.
        Triple-bind {Q = λ a s. Ready backend req s × (assert_safe bundle req.production ≡ ok a)} _
          _ (Triple-lift _ (λ _ e s h. (h, e)) (λ _ _ s h. h.0))
          λ a. after_assert caps id backend req bundle a production
