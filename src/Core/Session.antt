-- ===== src/Core/Session.antt =====
-- `SessionState` and `SessionSummary` of crates/aegis-core/src/session.rs
pub mod Lifecycle
use aegis_private_browser.Prelude.{ℕ, Bool, true, false, ◌&&◌, ◌||◌, Option, List, [], ◌∷◌, String}
use aegis_private_browser.Core.Preflight.Checklist.{ProtectionStatus, status_permits_browsing}

pub data SessionState : Type 0 where
  requested provisioning gateway_starting preflight browsing : SessionState
  closing destroyed failed : SessionState

unfoldable pub allowed_next : SessionState → List SessionState
allowed_next SessionState.requested =
    SessionState.provisioning ∷ SessionState.failed ∷ SessionState.closing ∷ []
allowed_next SessionState.provisioning =
    SessionState.gateway_starting ∷ SessionState.failed ∷ SessionState.closing ∷ []
allowed_next SessionState.gateway_starting =
    SessionState.preflight ∷ SessionState.failed ∷ SessionState.closing ∷ []
allowed_next SessionState.preflight =
    SessionState.browsing ∷ SessionState.failed ∷ SessionState.closing ∷ []
allowed_next SessionState.browsing = SessionState.closing ∷ SessionState.failed ∷ []
allowed_next SessionState.closing = SessionState.destroyed ∷ SessionState.failed ∷ []
allowed_next SessionState.destroyed = []
allowed_next SessionState.failed = SessionState.closing ∷ SessionState.destroyed ∷ []

-- The derived `PartialEq`.
abbrev pub eq : SessionState → SessionState → Bool
eq SessionState.requested SessionState.requested = true
eq SessionState.provisioning SessionState.provisioning = true
eq SessionState.gateway_starting SessionState.gateway_starting = true
eq SessionState.preflight SessionState.preflight = true
eq SessionState.browsing SessionState.browsing = true
eq SessionState.closing SessionState.closing = true
eq SessionState.destroyed SessionState.destroyed = true
eq SessionState.failed SessionState.failed = true
eq _ _ = false

-- `slice::contains`
abbrev contains : List SessionState → SessionState → Bool
contains [] s = false
contains (x ∷ xs) s = eq x s || contains xs s

unfoldable pub can_transition_to : SessionState → SessionState → Bool
unfolding allowed_next
can_transition_to s next = contains (allowed_next s) next

abbrev pub is_terminal : SessionState → Bool
is_terminal SessionState.destroyed = true
is_terminal _ = false

abbrev pub is_browsing : SessionState → Bool
is_browsing SessionState.browsing = true
is_browsing _ = false

pub record SessionSummary : Type 0 where
  pub id : ℕ
  pub profile : ℕ
  pub state : SessionState
  pub protection : ProtectionStatus
  pub public_ip : Option String

unfoldable pub is_safe : SessionSummary → Bool
is_safe s = is_browsing s.state && status_permits_browsing s.protection
