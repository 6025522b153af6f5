-- ===== src/Core/Events.antt =====
-- crates/aegis-core/src/events.rs. Times and the reason texts are left out.
use aegis_private_browser.Prelude.{ℕ, Option, none, some, String}
use aegis_private_browser.Core.FailureClass.{FailureClass}

pub data Severity : Type 0 where
  info notice warning critical : Severity

pub data EventKind : Type 0 where
  session_state : String → EventKind
  preflight_check : (check outcome : String) → EventKind
  kill_switch : String → EventKind
  tunnel : String → EventKind
  vm : (role state : String) → EventKind
  profile : String → EventKind
  fail_closed : FailureClass → EventKind
  integrity : (action outcome : String) → EventKind

pub record AuditRecord : Type 0 where
  pub severity : Severity
  pub session : Option ℕ
  pub profile : Option ℕ
  pub kind : EventKind

abbrev pub new : Severity → EventKind → AuditRecord
new severity kind = record { severity = severity; session = none; profile = none; kind = kind }

abbrev pub with_session : AuditRecord → ℕ → AuditRecord
with_session r id = record r { session = some id }

abbrev pub with_profile : AuditRecord → ℕ → AuditRecord
with_profile r id = record r { profile = some id }
