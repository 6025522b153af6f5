-- ===== src/Daemon/Table/Failing/Starting.antt =====
-- What starting a session leaves, by its answer.
use aegis_private_browser.Prelude.{
  ◌≡◌, refl, ap, ◌∙◌, ℕ, ==_refl, Bool, true, false, Option, some, Result, ok, err, lookup, insert,
  lookup-insert, nat_eq, if◌then◌else◌,
}
use aegis_private_browser.Daemon.Sessions.{drive}
use aegis_private_browser.Prelude.Exec.{attempt}
use aegis_private_browser.Prelude.Exec.{pure, gets, ignore, ◌>>=◌, ◌>>◌}
use aegis_private_browser.Prelude.Exec.Triple.{Triple-both, Triple-weaken}
use aegis_private_browser.Prelude.Exec.Triple.{
  Triple, Post, Keeps, Triple-pure, Triple-raise, Triple-bind, Triple-attempt, Triple-final,
}
use aegis_private_browser.Prelude.Exec.Moves.{
  Moves-Keeps, Moves-ignore, Moves-bind, Moves-pure, Moves-gets, Moves-if,
}
use aegis_private_browser.Core.Error.{Error}
use aegis_private_browser.Core.Error
use aegis_private_browser.Core.Config.{AppConfig}
use aegis_private_browser.Core.Profile.{Profile}
use aegis_private_browser.Core.Session.{SessionState, SessionSummary}
use aegis_private_browser.Daemon.Calls.{Capabilities, ProfileLease}
use aegis_private_browser.Daemon.Orchestrator.{cut_traffic, fail_closed}
use aegis_private_browser.Daemon.State.{SessionEntry, Orchestrator, Action, ask, audit, audit_state}
use aegis_private_browser.Daemon.Sessions.{run_session, register, or_fail}
use aegis_private_browser.Daemon.Teardown.{teardown}
use aegis_private_browser.Daemon.Table.{change, change_found, cleared}
use aegis_private_browser.Daemon.Table.Ending.{teardown_lem}
use aegis_private_browser.Daemon.Table.Failing.Living.{drive-Summarises}
use aegis_private_browser.Daemon.Table.Failing.{Summarises}
use aegis_private_browser.Daemon.Table.Failing.{Others, Releases, IsFailed}
use aegis_private_browser.Daemon.Table.Failing.Releasing.{teardown-Released}
use aegis_private_browser.Daemon.Table.Local.{
  Holds, Local-IsPreorder, IsLocal, ask-IsLocal, audit-IsLocal,
}
use aegis_private_browser.Daemon.Table.Local.Driving.{drive-IsLocal}
use aegis_private_browser.Daemon.Trace.{Some}

fail_closed-IsLocal :
    (id : ℕ) (caps : Capabilities) (session : Option ℕ) (e : Error)
    → IsLocal id (fail_closed caps session e)
unfolding fail_closed cut_traffic
fail_closed-IsLocal id caps session e =
    Moves-if (Error.requires_killswitch e) _ _
      (andThen _ _
        (andThen _ _ (Moves-ignore _ (ask-IsLocal id _ _)) λ _.
          andThen _ _ (Moves-gets (Local-IsPreorder id) _)
            λ _. andThen _ _ (audit-IsLocal id caps _) λ _. audit-IsLocal id caps _)
        (λ _. Moves-pure (Local-IsPreorder id) e))
      (Moves-pure (Local-IsPreorder id) e)
  where
    andThen :
        {A B : Type 0} (m : Action A) (f : A → Action B)
        → IsLocal id m
        → ((a : A) → IsLocal id (f a))
        → IsLocal id (m >>= f)
    andThen m f km kf = Moves-bind (Local-IsPreorder id) m f km kf

-- The hinge gives back the error that it was given, and never one of its own.
fail_closed_returns :
    (caps : Capabilities) (session : Option ℕ) (e : Error) (s : Orchestrator)
    → (fail_closed caps session e s).0 ≡ ok e
unfolding fail_closed cut_traffic audit ask ignore gets pure ◌>>=◌
fail_closed_returns caps session e s = by_class (Error.requires_killswitch e)
  where
    by_class :
        (b : Bool) → ((if b then (cut_traffic caps session e >> pure e) else pure e) s).0 ≡ ok e
    by_class true = refl
    by_class false = refl

module _ (caps : Capabilities) (config : AppConfig) (s : Orchestrator) (id : ℕ)
    (lease : ProfileLease) where
  -- Since the start, only this session's entry has changed, and it has the lease.
  abbrev pub Runs : Orchestrator → Type 0
  Runs t = Others id s t × Holds id lease t

  local-Runs : {A : Type 0} (m : Action A) → IsLocal id m → Keeps Runs m
  local-Runs m k = Moves-Keeps m k (λ t u l h. (λ j n. l.others j n ∙ h.0 j n, l.held lease h.1))

  abbrev pub Failed : Orchestrator → Type 0
  Failed t = Others id s t × IsFailed id lease t

  -- The entry that the teardown leaves.
  teardown_leaves :
      (t u : Orchestrator)
      → Runs t
      → u.sessions ≡ change id (cleared SessionState.failed) t.sessions
      → Some (Releases lease) u.log
      → Failed u
  teardown_leaves t u h changed released = (
    λ j n.
        ap (lookup j) sessions
        ∙ lookup-insert id j gone t.sessions
        ∙ ap (λ b. if b then some gone else lookup j t.sessions) n
        ∙ h.0 j n,
    (
      (
        h.1.0,
        ap (lookup id) sessions
            ∙ lookup-insert id id gone t.sessions
            ∙ ap (λ b. if b then some gone else lookup id t.sessions) (==_refl id),
        h.1.2,
      ),
      released,
    ),
  )
    where
      gone : SessionEntry
      gone = cleared SessionState.failed h.1.0

      sessions : u.sessions ≡ insert id gone t.sessions
      sessions =
          changed ∙ ap (λ o. change_found id (cleared SessionState.failed) o t.sessions) h.1.1

  teardown-Failed : Triple Runs (teardown caps id true) (λ _. Failed) (λ _. Failed)
  teardown-Failed = record {
    at = λ t h. either _ _ (
        teardown_leaves t (teardown caps id true t).1 h (teardown_lem caps id true t).1
          (Triple-final _ t (teardown-Released lease caps id true) h.1));
  }
    where
      either :
          (r : Result (Unit {0}) Error) (u : Orchestrator)
          → Failed u
          → Post (λ _. Failed) (λ _. Failed) r u
      either (ok a) u h = h
      either (err e) u h = h

  -- After the drive, by what it answered.
  abbrev Driven : Result SessionSummary Error → Orchestrator → Type 0
  Driven (ok a) t = Runs t × Summarises id a t
  Driven (err e) t = Runs t

  or_fail-Failed :
      (r : Result SessionSummary Error)
      → Triple (Driven r) (or_fail caps id r) (λ a t. Runs t × Summarises id a t) (λ _. Failed)
  or_fail-Failed (ok a) = Triple-pure a (λ t h. h)
  or_fail-Failed (err e) =
      Triple-bind {Q = λ _. Runs} _ _ fail_closed-Runs
        λ e'. Triple-bind {Q = λ _. Failed} _ _ teardown-Failed λ _. Triple-raise e' (λ t h. h)
    where
      returned :
          (r : Result Error Error) (u : Orchestrator)
          → r ≡ ok e
          → Runs u
          → Post (λ _. Runs) (λ _. Failed) r u
      returned (ok a) u k h = h
      returned (err a) u k h = absurd cc

      fail_closed-Runs : Triple Runs (fail_closed caps (some id) e) (λ _. Runs) (λ _. Failed)
      fail_closed-Runs = record {
        at = λ t h. returned _ _ (fail_closed_returns caps (some id) e t) (
            Triple-final _ t
              (local-Runs (fail_closed caps (some id) e) (fail_closed-IsLocal id caps _ e)) h);
      }

  driving :
      (host : Bool) (p : Profile)
      → Triple Runs (attempt (drive caps config host id p)) Driven (λ _. Failed)
  driving host p = Triple-attempt _ (
      Triple-weaken _
        (Triple-both _ (local-Runs _ (drive-IsLocal id caps config host p))
          (drive-Summarises caps id config host p))
        (λ t h. (h, tt)) (λ a t h. h) (λ e t h. h.0))

  -- From the state before the session is registered.
  pub run_session-Runs :
      (p : Profile) (host : Bool) (entry : SessionEntry)
      → entry.lease ≡ lease
      → Triple
          (λ t. t.sessions ≡ s.sessions)
          (run_session caps config (p, host, id, entry))
          (λ a t. Runs t × Summarises id a t)
          (λ _. Failed)
  unfolding run_session register audit ask ignore
  run_session-Runs p host entry h = Triple-bind {Q = λ _. Runs} _ _ registering λ _.
      Triple-bind {Q = λ _. Runs} _ _ audited λ _. Triple-bind _ _ (driving host p) or_fail-Failed
    where
      registering :
          Triple (λ t. t.sessions ≡ s.sessions) (register id entry) (λ _. Runs) (λ _. Failed)
      registering = record {
        at = λ t k. (
          λ j n.
              lookup-insert id j entry t.sessions
              ∙ ap (λ b. if b then some entry else lookup j t.sessions) n
              ∙ ap (lookup j) k,
          (
            entry,
            lookup-insert id id entry t.sessions
                ∙ ap (λ b. if b then some entry else lookup id t.sessions) (==_refl id),
            h,
          ),
        );
      }

      audited :
          Triple Runs
            (audit_state caps id entry.profile SessionState.requested)
            (λ _. Runs)
            (λ _. Failed)
      audited = record { at = λ t k. k }
