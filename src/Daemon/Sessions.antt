-- ===== src/Daemon/Sessions.antt =====
-- The public operations of crates/aegis-daemon/src/orchestrator.rs: enforcement, starting and
-- stopping a session, and the views.
use aegis_private_browser.Prelude.{
  ℕ, Bool, true, false, not, Option, none, some, List, [], map, Result, ok, err, lookup, nat_eq,
  if◌then◌else◌,
}
use aegis_private_browser.Prelude.Exec.{pure, raise, lift, gets, ignore, attempt, ◌>>=◌, ◌>>◌}
use aegis_private_browser.Core.Error.{Error}
use aegis_private_browser.Core.Browser.{BrowserHandle}
use aegis_private_browser.Core.Config.{AppConfig, Enforcement, IsolationLevel}
use aegis_private_browser.Core.Gateway.{GatewayHealth}
use aegis_private_browser.Core.Preflight.Checklist.{ProtectionStatus}
use aegis_private_browser.Core.Profile.{Profile}
use aegis_private_browser.Core.Session.{SessionState, SessionSummary}
use aegis_private_browser.Daemon.Calls.{Backend, Call, Capabilities, ProfileLease}
use aegis_private_browser.Daemon.State.{
  SessionMode, SessionEntry, Orchestrator, Action, ask, audit_state, put, summary,
}
use aegis_private_browser.Daemon.Orchestrator.{transition, fail_closed, host_backend_for}
use aegis_private_browser.Daemon.Teardown.{teardown, backend_of}
use aegis_private_browser.Daemon.Start.{drive_start}
use aegis_private_browser.Daemon.StartHost.{drive_start_host}

-- `Orchestrator::new`
abbrev pub new : AppConfig → Orchestrator
new config = record { enforcement = config.enforcement; sessions = []; log = [] }

unfoldable pub set_enforcement : Enforcement → Action Enforcement
set_enforcement e s = (ok e, record s { enforcement = e })

-- The profile asks for the mode, and the global policy is the gate.
unfoldable pub choose_mode : Capabilities → Enforcement → Profile → Result Bool Error
unfolding host_backend_for
choose_mode caps enforcement p = elim p.spec.isolation [
  | IsolationLevel.full_vm ↦ ok false
  | IsolationLevel.host_process ↦
      if not enforcement.allow_host_browser
      then err Error.config
      else elim (host_backend_for caps p.spec.browser) [ ok backend ↦ ok true | err e ↦ err e ]
]

abbrev pub key_or_release : Capabilities → ProfileLease → Result ℕ Error → Action ℕ
key_or_release caps lease (ok key) = pure key
key_or_release caps lease (err e) =
    ignore (ask (λ l. caps.release_lock l lease) (Call.release_lock lease)) >> raise e

abbrev pub requested : ℕ → ProfileLease → ℕ → SessionEntry
requested profile lease key = record {
  profile = profile;
  state = SessionState.requested;
  lease = lease;
  mode = SessionMode.full_vm;
  gateway_vm = none;
  browser_vm = none;
  browser_handle = none;
  protection = ProtectionStatus.none;
  public_ip = none;
  checklist = none;
  ram_key = key;
}

unfoldable pub register : ℕ → SessionEntry → Action (Unit {0})
register id e s = (ok tt, put id e s)

-- Any error: the fail-closed hinge, then the teardown, then the error.
abbrev pub or_fail : Capabilities → ℕ → Result SessionSummary Error → Action SessionSummary
or_fail caps id (ok found) = pure found
or_fail caps id (err e) = do e' ← fail_closed caps (some id) e; teardown caps id true; raise e'

unfoldable pub drive : Capabilities → AppConfig → Bool → ℕ → Profile → Action SessionSummary
unfolding drive_start drive_start_host
drive caps config host id p =
    if host then drive_start_host caps config id p else drive_start caps config id p

-- What is taken before the session is registered: the profile, its mode, its lock and a key.
unfoldable pub acquire : Capabilities → ℕ → Action (Profile × Bool × ℕ × SessionEntry)
unfolding choose_mode
acquire caps profile_id = do
  p ← ask (λ l. caps.get_profile l profile_id) (Call.get_profile profile_id)
  enforcement ← gets (λ s. s.enforcement)
  host ← lift (choose_mode caps enforcement p)
  lease ← ask (λ l. caps.acquire_lock l profile_id) (Call.acquire_lock profile_id)
  id ← gets (λ s. caps.new_session_id s.log)
  generated ← attempt (ask caps.generate_key Call.generate_key)
  key ← key_or_release caps lease generated
  pure (p, host, id, requested profile_id lease key)

unfoldable pub run_session :
    Capabilities → AppConfig → Profile × Bool × ℕ × SessionEntry → Action SessionSummary
unfolding register drive teardown fail_closed
run_session caps config (p, host, id, entry) = do
  register id entry
  audit_state caps id entry.profile SessionState.requested
  driven ← attempt (drive caps config host id p)
  or_fail caps id driven

unfoldable pub start_session : Capabilities → AppConfig → ℕ → Action SessionSummary
unfolding acquire run_session
start_session caps config profile_id = do
  taken ← acquire caps profile_id
  run_session caps config taken

abbrev pub known : Option SessionEntry → Result (Unit {0}) Error
known none = err Error.not_found
known (some e) = ok tt

abbrev pub summary_or_missing : ℕ → Option SessionEntry → Result SessionSummary Error
summary_or_missing id none = err Error.not_found
summary_or_missing id (some e) = ok (summary id e)

unfoldable pub stop_session : Capabilities → ℕ → Action SessionSummary
unfolding teardown transition
stop_session caps id = do
  found ← gets (λ s. lookup id s.sessions)
  lift (known found)
  ignore (transition caps id SessionState.closing)
  teardown caps id false
  left ← gets (λ s. lookup id s.sessions)
  lift (summary_or_missing id left)

abbrev pub list_sessions : Orchestrator → List SessionSummary
list_sessions s = map (λ (b : ℕ × SessionEntry). summary b.0 b.1) s.sessions

-- The process of a session is asked for its state by the backend that launched it.
abbrev pub liveness :
    Capabilities → Result Backend Error → Option BrowserHandle → Action (Option Bool)
liveness caps backend none = pure none
liveness caps backend (some handle) = do
  by ← lift backend
  alive ← ask (λ l. caps.is_running l by handle) (Call.is_running by handle)
  pure (some alive)

abbrev pub liveness_found : Capabilities → Option SessionEntry → Action (Option Bool)
liveness_found caps none = raise Error.not_found
liveness_found caps (some e) = liveness caps (backend_of caps e.mode) e.browser_handle

unfoldable pub browser_liveness : Capabilities → ℕ → Action (Option Bool)
browser_liveness caps id = do found ← gets (λ s. lookup id s.sessions); liveness_found caps found

unfoldable pub gateway_health : Capabilities → Action GatewayHealth
gateway_health caps = ask caps.health Call.health
