-- ===== src/Daemon/Trace/Operations.antt =====
-- The public operations of the orchestrator, in any order, keep the trace safe.
use aegis_private_browser.Prelude.{
  refl, ℕ, Bool, true, false, Option, none, some, Result, ok, err, nat_eq,
}
use aegis_private_browser.Prelude.Exec.Triple.{Keeps, Triple-bind, Triple-attempt, Triple-if}
use aegis_private_browser.Prelude.Exec.Moves.{Moves-ignore, Moves-attempt}
use aegis_private_browser.Core.Error.{Error}
use aegis_private_browser.Core.Config.{AppConfig, Enforcement}
use aegis_private_browser.Core.Profile.{Profile}
use aegis_private_browser.Core.Session.{SessionSummary}
use aegis_private_browser.Core.Browser.{BrowserHandle}
use aegis_private_browser.Daemon.Teardown.{backend_of}
use aegis_private_browser.Daemon.Calls.{Backend, Capabilities, ProfileLease}
use aegis_private_browser.Daemon.State.{SessionEntry}
use aegis_private_browser.Daemon.Sessions.{
  acquire, run_session, start_session, stop_session, set_enforcement, register, drive, or_fail,
  key_or_release, browser_liveness, gateway_health, liveness, liveness_found,
}
use aegis_private_browser.Daemon.Trace.Quiet.{
  IsQuiet, same, pure-IsQuiet, raise-IsQuiet, lift-IsQuiet, gets-IsQuiet, ask-IsQuiet, bind-IsQuiet,
}
use aegis_private_browser.Daemon.Trace.Steps.{
  audit-IsQuiet, transition-IsQuiet, fail_closed-IsQuiet,
}
use aegis_private_browser.Daemon.Trace.Ending.{teardown-IsQuiet}
use aegis_private_browser.Daemon.Trace.Launches.{Safe, quiet-Safe}
use aegis_private_browser.Daemon.Trace.Driving.{skip, drive_start-Safe}
use aegis_private_browser.Daemon.Trace.Hosting.{drive_start_host-Safe}

drive-Safe :
    (caps : Capabilities) (config : AppConfig) (host : Bool) (id : ℕ) (p : Profile)
    → Keeps Safe (drive caps config host id p)
unfolding drive
drive-Safe caps config host id p =
    Triple-if host _ _ (λ _. drive_start_host-Safe caps config id p)
      (λ _. drive_start-Safe caps config id p)

or_fail-IsQuiet :
    (caps : Capabilities) (id : ℕ) (r : Result SessionSummary Error) → IsQuiet (or_fail caps id r)
or_fail-IsQuiet caps id (ok found) = pure-IsQuiet found
or_fail-IsQuiet caps id (err e) =
    bind-IsQuiet _ _ (fail_closed-IsQuiet caps _ e)
      λ e'. bind-IsQuiet _ _ (teardown-IsQuiet caps id true) λ _. raise-IsQuiet e'

register-IsQuiet : (id : ℕ) (e : SessionEntry) → IsQuiet (register id e)
unfolding register
register-IsQuiet id e = record { at = λ s. same }

key_or_release-IsQuiet :
    (caps : Capabilities) (lease : ProfileLease) (r : Result ℕ Error)
    → IsQuiet (key_or_release caps lease r)
key_or_release-IsQuiet caps lease (ok key) = pure-IsQuiet key
key_or_release-IsQuiet caps lease (err e) =
    bind-IsQuiet _ _ (Moves-ignore _ (ask-IsQuiet _ _ (λ _. refl))) λ _. raise-IsQuiet e

pub acquire-IsQuiet : (caps : Capabilities) (profile : ℕ) → IsQuiet (acquire caps profile)
unfolding acquire
acquire-IsQuiet caps profile = bind-IsQuiet _ _ (ask-IsQuiet _ _ (λ _. refl)) λ p.
    bind-IsQuiet _ _ (gets-IsQuiet _) λ enforcement. bind-IsQuiet _ _ (lift-IsQuiet _) λ host.
      bind-IsQuiet _ _ (ask-IsQuiet _ _ (λ _. refl)) λ lease.
        bind-IsQuiet _ _ (gets-IsQuiet _) λ id.
          bind-IsQuiet _ _ (Moves-attempt _ (ask-IsQuiet _ _ (λ _. refl))) λ generated.
            bind-IsQuiet _ _ (key_or_release-IsQuiet caps lease generated) λ key. pure-IsQuiet _

run_session-Safe :
    (caps : Capabilities) (config : AppConfig) (taken : Profile × Bool × ℕ × SessionEntry)
    → Keeps Safe (run_session caps config taken)
unfolding run_session
run_session-Safe caps config (p, host, id, entry) = skip (register-IsQuiet id entry) λ _.
    skip (audit-IsQuiet caps _) λ _.
      Triple-bind _ _ (Triple-attempt _ (drive-Safe caps config host id p))
        λ driven. quiet-Safe _ (or_fail-IsQuiet caps id driven)

-- Starting a session keeps every launch in the trace allowed.
pub start_session-Safe :
    (caps : Capabilities) (config : AppConfig) (profile : ℕ)
    → Keeps Safe (start_session caps config profile)
unfolding start_session
start_session-Safe caps config profile =
    skip (acquire-IsQuiet caps profile) (run_session-Safe caps config)

pub stop_session-IsQuiet : (caps : Capabilities) (id : ℕ) → IsQuiet (stop_session caps id)
unfolding stop_session
stop_session-IsQuiet caps id = bind-IsQuiet _ _ (gets-IsQuiet _) λ found.
    bind-IsQuiet _ _ (lift-IsQuiet _) λ _.
      bind-IsQuiet _ _ (Moves-ignore _ (transition-IsQuiet caps id _)) λ _.
        bind-IsQuiet _ _ (teardown-IsQuiet caps id false)
          λ _. bind-IsQuiet _ _ (gets-IsQuiet _) λ left. lift-IsQuiet _

liveness_found-IsQuiet :
    (caps : Capabilities) (o : Option SessionEntry) → IsQuiet (liveness_found caps o)
liveness_found-IsQuiet caps none = raise-IsQuiet _
liveness_found-IsQuiet caps (some e) = liveness-IsQuiet (backend_of caps e.mode) e.browser_handle
  where
    liveness-IsQuiet :
        (backend : Result Backend Error) (h : Option BrowserHandle)
        → IsQuiet (liveness caps backend h)
    liveness-IsQuiet backend none = pure-IsQuiet none
    liveness-IsQuiet backend (some h) =
        bind-IsQuiet _ _ (lift-IsQuiet backend)
          λ b. bind-IsQuiet _ _ (ask-IsQuiet _ _ (λ _. refl)) λ alive. pure-IsQuiet (some alive)

pub browser_liveness-IsQuiet : (caps : Capabilities) (id : ℕ) → IsQuiet (browser_liveness caps id)
unfolding browser_liveness
browser_liveness-IsQuiet caps id = bind-IsQuiet _ _ (gets-IsQuiet _) (liveness_found-IsQuiet caps)

pub gateway_health-IsQuiet : (caps : Capabilities) → IsQuiet (gateway_health caps)
unfolding gateway_health
gateway_health-IsQuiet caps = ask-IsQuiet _ _ (λ _. refl)

pub set_enforcement-IsQuiet : (e : Enforcement) → IsQuiet (set_enforcement e)
unfolding set_enforcement
set_enforcement-IsQuiet e = record { at = λ s. same }
