-- ===== src/Daemon/Table/Failing/Outcomes.antt =====
-- The outcome of a start, whatever the capabilities answer.
use aegis_private_browser.Prelude.{refl, inl, inr, ℕ, Bool, List, Result, ok, err}
use aegis_private_browser.Prelude.Exec.Triple.{
  Triple, Post, Keeps, Triple-pure, Triple-raise, Triple-bind, Triple-gets, Triple-lift,
  Triple-weaken, Triple-attempt, Triple-ignore,
}
use aegis_private_browser.Core.Error.{Error}
use aegis_private_browser.Core.Config.{AppConfig}
use aegis_private_browser.Core.Profile.{Profile}
use aegis_private_browser.Core.Session.{SessionSummary}
use aegis_private_browser.Daemon.Calls.{Call, Capabilities, ProfileLease}
use aegis_private_browser.Daemon.State.{SessionEntry, Orchestrator, ask}
use aegis_private_browser.Daemon.Sessions.{acquire, run_session, start_session, key_or_release}
use aegis_private_browser.Daemon.Table.Failing.{Outcome}
use aegis_private_browser.Daemon.Table.Failing.Starting.{run_session-Runs}
use aegis_private_browser.Daemon.Table.Total.{Table, Has}

module _ (t : Table) (caps : Capabilities) where
  ask-Has :
      {A : Type 0} (answer : List Call → Result A Error) (call : Result A Error → Call)
      → Keeps (Has t) (ask answer call)
  unfolding ask
  ask-Has {A} answer call = record { at = λ s h. either (answer s.log) _ h }
    where
      either :
          (r : Result A Error) (u : Orchestrator) → Has t u → Post (λ _. Has t) (λ _. Has t) r u
      either (ok a) u h = h
      either (err e) u h = h

  key_or_release-Has :
      (lease : ProfileLease) (r : Result ℕ Error) → Keeps (Has t) (key_or_release caps lease r)
  key_or_release-Has lease (ok key) = Triple-pure key (λ s h. h)
  key_or_release-Has lease (err e) =
      Triple-bind {Q = λ _. Has t} _ _ (Triple-ignore _ (ask-Has _ _))
        λ _. Triple-raise e (λ s h. h)

  acquire-Has : (profile : ℕ) → Keeps (Has t) (acquire caps profile)
  unfolding acquire
  acquire-Has profile = Triple-bind {Q = λ _. Has t} _ _ (ask-Has _ _) λ p.
      Triple-bind {Q = λ _. Has t} _ _ (Triple-gets _ (λ s h. h)) λ enforcement.
        Triple-bind {Q = λ _. Has t} _ _ (Triple-lift _ (λ a e s h. h) (λ x e s h. h)) λ host.
          Triple-bind {Q = λ _. Has t} _ _ (ask-Has _ _) λ lease.
            Triple-bind {Q = λ _. Has t} _ _ (Triple-gets _ (λ s h. h)) λ id.
              Triple-bind {Q = λ _. Has t} _ _ (Triple-attempt _ (ask-Has _ _)) λ generated.
                Triple-bind {Q = λ _. Has t} _ _ (key_or_release-Has lease generated)
                  λ key. Triple-pure _ (λ s h. h)

starting :
    (caps : Capabilities) (config : AppConfig) (s : Orchestrator)
    (taken : Profile × Bool × ℕ × SessionEntry)
    → Triple
        (Has s.sessions)
        (run_session caps config taken)
        (λ a. Outcome s (ok a))
        (λ e. Outcome s (err e))
starting caps config s (p, host, id, entry) =
    Triple-weaken _ (run_session-Runs caps config s id entry.lease p host entry refl) (λ t h. h)
      (λ a t h. (id, h.0.0, h.1)) (λ e t h. inr (id, h.0, (entry.lease, h.1)))

-- Starting a session, whatever the capabilities answer: at most one session's entry is other than
-- before. When a summary is returned, it is the summary of that session's entry, which is in the
-- state `browsing` and has a browser. When an error is returned, either the table is unchanged, or
-- that session's entry is `failed` with no machine and no browser left in it, and a call that gives
-- back the lock of the entry's lease stands in the trace.
pub start_session_lem :
    (caps : Capabilities) (config : AppConfig) (profile : ℕ) (s : Orchestrator)
    → Outcome s (start_session caps config profile s).0 (start_session caps config profile s).1
unfolding start_session
start_session_lem caps config profile s = answered _ _ (
    (Triple-bind {Q = λ _. Has s.sessions} _ (run_session caps config)
        (Triple-weaken _ (acquire-Has s.sessions caps profile) (λ t h. h) (λ a t h. h)
          (λ e t h. inl h))
        (starting caps config s)).at
      s refl)
  where
    answered :
        (r : Result SessionSummary Error) (t : Orchestrator)
        → Post (λ a. Outcome s (ok a)) (λ e. Outcome s (err e)) r t
        → Outcome s r t
    answered (ok a) t h = h
    answered (err e) t h = h
