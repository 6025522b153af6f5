-- ===== src/Daemon/Table/Stopping.antt =====
-- What stopping a session leaves in the session table.
use aegis_private_browser.Prelude.{
  ◌≡◌, refl, sym, ap, ◌∙◌, ℕ, Bool, true, false, Option, none, some, Result, ok, err, lookup,
  nat_eq, if◌then◌else◌,
}
use aegis_private_browser.Prelude.Exec.{lift, gets, ignore, ◌>>=◌, ◌>>◌}
use aegis_private_browser.Prelude.Exec.Triple.{
  Triple, Post, Triple-bind, Triple-gets, Triple-lift, Triple-weaken,
}
use aegis_private_browser.Core.Error.{Error}
use aegis_private_browser.Core.Session.{SessionState, SessionSummary}
use aegis_private_browser.Daemon.Calls.{Capabilities}
use aegis_private_browser.Daemon.State.{SessionEntry, Orchestrator, Action, ask}
use aegis_private_browser.Core.Session.{can_transition_to}
use aegis_private_browser.Daemon.State.{audit, audit_state, put}
use aegis_private_browser.Daemon.Orchestrator.{move, transition}
use aegis_private_browser.Daemon.Sessions.{stop_session, known, summary_or_missing}
use aegis_private_browser.Daemon.Table.Ending.{Turns-teardown}
use aegis_private_browser.Daemon.Teardown.{teardown, ended}
use aegis_private_browser.Daemon.Table.{change, change_found, cleared}
use aegis_private_browser.Daemon.Table.Total.{Table, Has, change-change}

-- The state's change to closing makes no difference to what the teardown leaves.
abbrev Settles : ℕ → Table → Orchestrator → Type 0
Settles id t s = change id (ended false) s.sessions ≡ change id (ended false) t

move-Settles :
    (caps : Capabilities) (id : ℕ) (next : SessionState) (s : Orchestrator)
    (o : Option SessionEntry)
    → o ≡ lookup id s.sessions
    → Settles id s.sessions (move caps id next o s).1
unfolding audit ask ignore
move-Settles caps id next s none h = refl
move-Settles caps id next s (some e) h = checked (can_transition_to e.state next)
  where
    checked :
        (b : Bool)
        → Settles id s.sessions
            (if b
              then audit_state caps id e.profile next (put id (record e { state = next }) s)
              else (err Error.internal, s)).1
    checked true =
        ap
          (λ o.
            change id (ended false) (change_found id (λ e. record e { state = next }) o s.sessions))
          h
        ∙ change-change id (λ e. record e { state = next }) (ended false) s.sessions
    checked false = refl

closing-Settles :
    (caps : Capabilities) (id : ℕ) (t : Table)
    → Triple
        (Has t)
        (ignore (transition caps id SessionState.closing))
        (λ _. Settles id t)
        (λ _ _. ⊥)
unfolding ignore transition
closing-Settles caps id t = record {
  at = λ s h.
      move-Settles caps id SessionState.closing s (lookup id s.sessions) refl
      ∙ ap (change id (ended false)) h;
}

teardown-Settles :
    (caps : Capabilities) (id : ℕ) (t : Table)
    → Triple
        (Settles id t)
        (teardown caps id false)
        (λ _. Has (change id (ended false) t))
        (λ _ _. ⊥)
teardown-Settles caps id t = record {
  at = λ s h. settled _ _ s h ((Turns-teardown caps s.sessions id false).at s refl);
}
  where
    settled :
        (r : Result (Unit {0}) Error) (s' s : Orchestrator)
        → Settles id t s
        → Post (λ _. Has (change id (ended false) s.sessions)) (λ _ _. ⊥) r s'
        → Post (λ _. Has (change id (ended false) t)) (λ _ _. ⊥) r s'
    settled (ok a) s' s h k = k ∙ h
    settled (err e) s' s h k = absurd k

-- The answer of a stop, from the table that it leaves.
abbrev Answers : ℕ → Table → SessionSummary → Orchestrator → Type 0
Answers id t a s = (ok a ≡ summary_or_missing id (lookup id t)) × (s.sessions ≡ t)

abbrev Refuses : ℕ → Table → Error → Orchestrator → Type 0
Refuses id t e s = (err e ≡ summary_or_missing id (lookup id t)) × (s.sessions ≡ t)

stop_known :
    (caps : Capabilities) (id : ℕ) (t : Table)
    → Triple
        (Has t)
        (do
          ignore (transition caps id SessionState.closing)
          teardown caps id false
          left ← gets (λ s. lookup id s.sessions)
          lift (summary_or_missing id left))
        (Answers id (change id (ended false) t))
        (Refuses id (change id (ended false) t))
stop_known caps id t = Triple-bind _ _ (never _ (closing-Settles caps id t)) λ _.
    Triple-bind _ _ (never _ (teardown-Settles caps id t)) λ _.
      Triple-bind
        {Q = λ o s.
          (s.sessions ≡ change id (ended false) t) × (o ≡ lookup id (change id (ended false) t))}
        _ _ (Triple-gets _ (λ s h. (h, ap (lookup id) h)))
        λ o.
          Triple-lift _ (λ a e s h. (sym e ∙ ap (summary_or_missing id) h.1, h.0))
            (λ f e s h. (sym e ∙ ap (summary_or_missing id) h.1, h.0))
  where
    never :
        {A : Type 0} {P Q : Orchestrator → Type 0} {X : Error → Orchestrator → Type 0}
        (m : Action A)
        → Triple P m (λ _. Q) (λ _ _. ⊥)
        → Triple P m (λ _. Q) X
    never m k = Triple-weaken m k (λ s h. h) (λ a s h. h) (λ e s h. absurd h)

refused : (f : Error) → known none ≡ err f → err f ≡ summary_or_missing 0 none
refused f e = cc

after_known :
    (caps : Capabilities) (id : ℕ) (t : Table) (o : Option SessionEntry)
    → o ≡ lookup id t
    → Triple
        (Has t)
        (do
          lift (known o)
          ignore (transition caps id SessionState.closing)
          teardown caps id false
          left ← gets (λ s. lookup id s.sessions)
          lift (summary_or_missing id left))
        (Answers id (change id (ended false) t))
        (Refuses id (change id (ended false) t))
after_known caps id t none h =
    Triple-bind {Q = λ _ _. ⊥} _ _
      (Triple-lift _ (λ a e s k. cc)
        (λ f e s k. (
          refused f e
              ∙ ap (summary_or_missing id) h
              ∙ ap (λ o. summary_or_missing id (lookup id (change_found id (ended false) o t))) h,
          k ∙ ap (λ o. change_found id (ended false) o t) h,
        )))
      (λ a. record { at = λ s k. absurd k })
after_known caps id t (some e) h =
    Triple-bind _ _ (Triple-lift _ (λ a e s k. k) (λ f e s k. absurd cc))
      (λ _. stop_known caps id t)

-- Stopping a session, whatever the capabilities answer: the table afterwards is the table before
-- with the session's entry `destroyed` and its machines and browser cleared, every other entry
-- untouched, and unchanged for an unknown session; the answer is the summary of that entry, and
-- `NotFound` for an unknown session.
pub stop_session_lem :
    (caps : Capabilities) (id : ℕ) (s : Orchestrator)
    → ((stop_session caps id s).0
        ≡ summary_or_missing id (lookup id (change id (cleared SessionState.destroyed) s.sessions)))
      × ((stop_session caps id s).1.sessions
          ≡ change id (cleared SessionState.destroyed) s.sessions)
unfolding stop_session
stop_session_lem caps id s = answered (change id (ended false) s.sessions) _ _ (
    (Triple-bind {Q = λ o s'. Has s.sessions s' × (o ≡ lookup id s.sessions)} _ _
        (Triple-gets _ (λ s' h. (h, ap (lookup id) h)))
        (λ o. record { at = λ s' h. (after_known caps id s.sessions o h.1).at s' h.0 })).at
      s refl)
  where
    answered :
        (t : Table) (r : Result SessionSummary Error) (s' : Orchestrator)
        → Post (Answers id t) (Refuses id t) r s'
        → (r ≡ summary_or_missing id (lookup id t)) × (s'.sessions ≡ t)
    answered t (ok a) s' h = h
    answered t (err e) s' h = h
