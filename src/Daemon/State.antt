-- ===== src/Daemon/State.antt =====
-- The session table of crates/aegis-daemon/src/orchestrator.rs, and the calls as actions.
-- A lock that a panic has poisoned is left out: `lock_sessions` succeeds.
use aegis_private_browser.Prelude.{
  ℕ, Bool, Option, none, some, List, ◌∷◌, String, Result, ok, lookup, insert, nat_eq,
}
use aegis_private_browser.Prelude.Exec
use aegis_private_browser.Core.Error.{Error}
use aegis_private_browser.Core.Browser.{BrowserBackendId, BrowserHandle}
use aegis_private_browser.Core.Config.{Enforcement}
use aegis_private_browser.Core.Events
use aegis_private_browser.Core.Events.{AuditRecord, Severity, EventKind, with_session, with_profile}
use aegis_private_browser.Core.Preflight.Checklist.{ConnectivityChecklist, ProtectionStatus}
use aegis_private_browser.Core.Session.{SessionState, SessionSummary}
use aegis_private_browser.Daemon.Calls.{Call, Capabilities, ProfileLease}

pub data SessionMode : Type 0 where
  full_vm : SessionMode
  host_process :
      (user_data_dir : String) (ephemeral : Bool) (engine : BrowserBackendId) → SessionMode

pub record SessionEntry : Type 0 where
  pub profile : ℕ
  pub state : SessionState
  pub lease : ProfileLease
  pub mode : SessionMode
  pub gateway_vm : Option ℕ
  pub browser_vm : Option ℕ
  pub browser_handle : Option BrowserHandle
  pub protection : ProtectionStatus
  pub public_ip : Option String
  pub checklist : Option ConnectivityChecklist
  pub ram_key : ℕ

abbrev pub summary : ℕ → SessionEntry → SessionSummary
summary id e = record {
  id = id;
  profile = e.profile;
  state = e.state;
  protection = e.protection;
  public_ip = e.public_ip;
}

-- `log` holds the calls of the capabilities with their answers, the latest first.
pub record Orchestrator : Type 0 where
  pub enforcement : Enforcement
  pub sessions : List (ℕ × SessionEntry)
  pub log : List Call

abbrev pub Action : Type 0 → Type 0
Action A = Exec.Exec Orchestrator Error A

-- One call: its answer from the history, written down.
unfoldable pub ask :
    {A : Type 0} → (List Call → Result A Error) → (Result A Error → Call) → Action A
ask answer call s = (answer s.log, record s { log = call (answer s.log) ∷ s.log })

-- A failure of the sink is logged and dropped.
unfoldable pub audit : Capabilities → AuditRecord → Action (Unit {0})
unfolding ask Exec.ignore
audit caps r = Exec.ignore (ask (λ l. caps.audit l r) (Call.audit r))

-- The state's name as it is serialised.
abbrev pub state_name : SessionState → String
state_name SessionState.requested = "requested"
state_name SessionState.provisioning = "provisioning"
state_name SessionState.gateway_starting = "gateway-starting"
state_name SessionState.preflight = "preflight"
state_name SessionState.browsing = "browsing"
state_name SessionState.closing = "closing"
state_name SessionState.destroyed = "destroyed"
state_name SessionState.failed = "failed"

abbrev pub about : ℕ → ℕ → Severity → EventKind → AuditRecord
about session profile severity kind =
    with_profile (with_session (Events.new severity kind) session) profile

abbrev pub audit_state : Capabilities → ℕ → ℕ → SessionState → Action (Unit {0})
audit_state caps session profile state =
    audit caps (about session profile Severity.info (EventKind.session_state (state_name state)))

abbrev pub put : ℕ → SessionEntry → Orchestrator → Orchestrator
put id e s = record s { sessions = insert id e s.sessions }

-- `if let Some(entry) = table.get_mut(&id)`: an absent session is passed over.
abbrev pub update_found :
    ℕ → (SessionEntry → SessionEntry) → Option SessionEntry → Orchestrator → Orchestrator
update_found id f none s = s
update_found id f (some e) s = put id (f e) s

unfoldable pub update : ℕ → (SessionEntry → SessionEntry) → Action (Unit {0})
update id f s = (ok tt, update_found id f (lookup id s.sessions) s)
