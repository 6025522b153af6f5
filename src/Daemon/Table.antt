-- ===== src/Daemon/Table.antt =====
-- What the orchestrator's operations leave in the session table.
pub mod Total
pub mod Ending
pub mod Stopping
pub mod Gate
pub mod Local
pub mod Failing
use aegis_private_browser.Core.Session.{SessionState}
use aegis_private_browser.Prelude.{ℕ, List, Option, none, some, lookup, insert, nat_eq}
use aegis_private_browser.Daemon.State.{SessionEntry}

-- The table with one session's entry changed; an absent session is passed over.
abbrev pub change_found :
    ℕ
    → (SessionEntry → SessionEntry)
    → Option SessionEntry
    → List (ℕ × SessionEntry)
    → List (ℕ × SessionEntry)
change_found id f none sessions = sessions
change_found id f (some e) sessions = insert id (f e) sessions

abbrev pub change :
    ℕ → (SessionEntry → SessionEntry) → List (ℕ × SessionEntry) → List (ℕ × SessionEntry)
change id f sessions = change_found id f (lookup id sessions) sessions

-- What is left of an entry when its session is over: no machine and no browser.
abbrev pub cleared : SessionState → SessionEntry → SessionEntry
cleared state e = record e {
  state = state;
  gateway_vm = none;
  browser_vm = none;
  browser_handle = none;
}
