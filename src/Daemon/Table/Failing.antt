-- ===== src/Daemon/Table/Failing.antt =====
-- What a start leaves in the table and in the trace, when it succeeds and when it fails.
pub mod Releasing
pub mod Living
pub mod Starting
pub mod Outcomes
use aegis_private_browser.Prelude.{◌≢◌}
use aegis_private_browser.Prelude.{
  ◌≡◌, refl, ap, ◌∙◌, ◌⊎◌, inl, inr, ℕ, ◌==◌, ==_refl, Bool, true, false, List, [], ◌∷◌, Option,
  none, some, Result, ok, err, lookup, insert, lookup-insert, nat_eq, if◌then◌else◌,
}
use aegis_private_browser.Prelude.Exec.{pure, raise, lift, gets, ignore, attempt, ◌>>=◌, ◌>>◌}
use aegis_private_browser.Core.Error.{Error}
use aegis_private_browser.Core.Session.{SessionState, SessionSummary}
use aegis_private_browser.Daemon.Calls.{Call, Capabilities, ProfileLease}
use aegis_private_browser.Daemon.State.{SessionEntry, Orchestrator, summary}
use aegis_private_browser.Daemon.Table.{cleared}
use aegis_private_browser.Daemon.Table.Local.{Holds}
use aegis_private_browser.Daemon.Trace.{Some}

abbrev pub Others : ℕ → Orchestrator → Orchestrator → Type 0
Others id s t = (j : ℕ) → (id == j) ≡ false → lookup j t.sessions ≡ lookup j s.sessions

-- The call gives the lock of this lease back.
abbrev pub Releases : ProfileLease → Call → Type 0
Releases lease (Call.release_lock l r) = l ≡ lease
Releases lease _ = ⊥

-- The session's entry is over as failed, and its lock was given back.
abbrev pub IsFailed : ℕ → ProfileLease → Orchestrator → Type 0
IsFailed id lease t =
    ((e : SessionEntry) × (lookup id t.sessions ≡ some (cleared SessionState.failed e))
      × (e.lease ≡ lease))
    × Some (Releases lease) t.log

-- The session browses, and its entry has a browser.
abbrev pub IsLive : ℕ → SessionEntry → Orchestrator → Type 0
IsLive id e t =
    (lookup id t.sessions ≡ some e) × (e.state ≡ SessionState.browsing) × (e.browser_handle ≢ none)

-- The summary is that of a session that browses.
abbrev pub Summarises : ℕ → SessionSummary → Orchestrator → Type 0
Summarises id a t = (e : SessionEntry) × IsLive id e t × (a ≡ summary id e)

-- What a start leaves, by its answer.
abbrev pub Outcome : Orchestrator → Result SessionSummary Error → Orchestrator → Type 0
Outcome s (ok a) t = (id : ℕ) × Others id s t × Summarises id a t
Outcome s (err e) t =
    (t.sessions ≡ s.sessions)
    ⊎ ((id : ℕ) × Others id s t × ((lease : ProfileLease) × IsFailed id lease t))
