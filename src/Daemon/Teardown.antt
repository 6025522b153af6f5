-- ===== src/Daemon/Teardown.antt =====
-- `teardown` of crates/aegis-daemon/src/orchestrator.rs
use aegis_private_browser.Prelude.{
  ℕ, Bool, Option, none, some, String, Result, ok, err, lookup, nat_eq, if◌then◌else◌,
}
use aegis_private_browser.Prelude.Exec.{pure, gets, ignore, attempt, ◌>>=◌, ◌>>◌}
use aegis_private_browser.Core.Error.{Error}
use aegis_private_browser.Core.Browser.{BrowserHandle}
use aegis_private_browser.Core.Events.{Severity, EventKind}
use aegis_private_browser.Core.Session.{SessionState}
use aegis_private_browser.Core.Vm.{VmRole, DestroyReport}
use aegis_private_browser.Daemon.Calls.{Backend, Call, Capabilities, ShutdownMode}
use aegis_private_browser.Daemon.State.{
  SessionMode, SessionEntry, Action, ask, audit, about, audit_state, update,
}
use aegis_private_browser.Daemon.Orchestrator.{host_backend_for}

-- The backend that launched the browser, if it is still wired.
abbrev pub backend_of : Capabilities → SessionMode → Result Backend Error
backend_of caps SessionMode.full_vm = ok Backend.guest
backend_of caps (SessionMode.host_process dir ephemeral engine) = host_backend_for caps engine

abbrev pub terminate_by : Capabilities → Result Backend Error → BrowserHandle → Action (Unit {0})
terminate_by caps (err e) handle = pure tt
terminate_by caps (ok backend) handle =
    ignore (ask (λ l. caps.terminate l backend handle) (Call.terminate backend handle))

unfoldable pub terminate_browser :
    Capabilities → SessionMode → Option BrowserHandle → Action (Unit {0})
terminate_browser caps mode none = pure tt
terminate_browser caps mode (some handle) = terminate_by caps (backend_of caps mode) handle

unfoldable pub remove_user_data : Capabilities → SessionMode → Action (Unit {0})
remove_user_data caps SessionMode.full_vm = pure tt
remove_user_data caps (SessionMode.host_process dir ephemeral engine) =
    if ephemeral
    then ignore (ask (λ l. caps.remove_dir_all l dir) (Call.remove_dir_all dir))
    else pure tt

abbrev pub role_name : VmRole → String
role_name VmRole.gateway = "gateway"
role_name VmRole.browser = "browser"

-- A machine that was destroyed is audited; a failure is only logged.
abbrev pub report_destroyed :
    Capabilities → ℕ → ℕ → VmRole → Result DestroyReport Error → Action (Unit {0})
report_destroyed caps id profile role (err e) = pure tt
report_destroyed caps id profile role (ok report) =
    audit caps (about id profile Severity.info (EventKind.vm (role_name role) "destroyed"))

unfoldable pub destroy_vm : Capabilities → ℕ → ℕ → VmRole → Option ℕ → Action (Unit {0})
destroy_vm caps id profile role none = pure tt
destroy_vm caps id profile role (some vm) = do
  ignore (ask (λ l. caps.shutdown l vm ShutdownMode.forced) (Call.shutdown vm ShutdownMode.forced))
  destroyed ← attempt (ask (λ l. caps.destroy l vm) (Call.destroy vm))
  report_destroyed caps id profile role destroyed

abbrev pub final_state : Bool → SessionState
final_state mark_failed = if mark_failed then SessionState.failed else SessionState.destroyed

-- The entry stays in the table, its RAM key with it.
abbrev pub ended : Bool → SessionEntry → SessionEntry
ended mark_failed e = record e {
  state = final_state mark_failed;
  browser_handle = none;
  gateway_vm = none;
  browser_vm = none;
}

-- The resources are read once, before the first call.
unfoldable pub release_all : Capabilities → ℕ → Bool → SessionEntry → Action (Unit {0})
release_all caps id mark_failed e = do
  terminate_browser caps e.mode e.browser_handle
  remove_user_data caps e.mode
  destroy_vm caps id e.profile VmRole.browser e.browser_vm
  destroy_vm caps id e.profile VmRole.gateway e.gateway_vm
  ignore (ask (λ l. caps.release_lock l e.lease) (Call.release_lock e.lease))
  audit_state caps id e.profile (final_state mark_failed)
  update id (ended mark_failed)

abbrev pub release_found : Capabilities → ℕ → Bool → Option SessionEntry → Action (Unit {0})
release_found caps id mark_failed none = pure tt
release_found caps id mark_failed (some e) = do
  update id (λ e. record e { browser_handle = none })
  release_all caps id mark_failed e

unfoldable pub teardown : Capabilities → ℕ → Bool → Action (Unit {0})
teardown caps id mark_failed = do
  found ← gets (λ s. lookup id s.sessions)
  release_found caps id mark_failed found
