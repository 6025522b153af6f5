-- ===== src/Daemon/Table/Gate.antt =====
-- The global policy is the gate in front of a host-process session.
use aegis_private_browser.Prelude.{◌≡◌, refl, ap, ◌∙◌, arith, ℕ, false, ◌∷◌, Result, ok, err}
use aegis_private_browser.Prelude.Exec.Triple.{Triple, Post, Triple-bind, Triple-gets, Triple-lift}
use aegis_private_browser.Core.Error.{Error}
use aegis_private_browser.Core.Config.{AppConfig, Enforcement, IsolationLevel}
use aegis_private_browser.Core.Profile.{Profile}
use aegis_private_browser.Core.Session.{SessionSummary}
use aegis_private_browser.Daemon.Calls.{Call, Capabilities}
use aegis_private_browser.Daemon.State.{Orchestrator, ask}
use aegis_private_browser.Daemon.Sessions.{choose_mode, acquire, start_session, run_session}

refuse :
    (caps : Capabilities) (s : Orchestrator) (p : Profile)
    → p.spec.isolation ≡ IsolationLevel.host_process
    → s.enforcement.allow_host_browser ≡ false
    → choose_mode caps s.enforcement p ≡ err Error.config
unfolding choose_mode
refuse caps s p h k = ground arith

-- The state after the profile was read.
abbrev pub read_profile : ℕ → Profile → Orchestrator → Orchestrator
read_profile id p s = record s { log = Call.get_profile id (ok p) ∷ s.log }

module _ (caps : Capabilities) (s : Orchestrator) (id : ℕ) (p : Profile)
    (read : caps.get_profile s.log id ≡ ok p)
    (host : p.spec.isolation ≡ IsolationLevel.host_process)
    (closed : s.enforcement.allow_host_browser ≡ false) where
  abbrev pub Refused : Error → Orchestrator → Type 0
  Refused e t = (e ≡ Error.config) × (t ≡ read_profile id p s)

  refusal :
      (q : Profile) (enforcement : Enforcement)
      → q ≡ p
      → enforcement ≡ s.enforcement
      → choose_mode caps enforcement q ≡ err Error.config
  refusal q enforcement h k = (λ i. choose_mode caps (k i) (h i)) ∙ refuse caps s p host closed

  reading :
      Triple
        (λ t. t ≡ s)
        (ask (λ l. caps.get_profile l id) (Call.get_profile id))
        (λ q t. (q ≡ p) × (t ≡ read_profile id p s))
        Refused
  unfolding ask
  reading = record { at = λ t e. answered t e (caps.get_profile t.log id) refl }
    where
      answered :
          (t : Orchestrator)
          → t ≡ s
          → (r : Result Profile Error) → caps.get_profile t.log id ≡ r
          → Post
              (λ q t. (q ≡ p) × (t ≡ read_profile id p s))
              Refused
              r
              (record t { log = Call.get_profile id r ∷ t.log })
      answered t e (ok q) a = found (cc)
        where
          found :
              q ≡ p
              → (q ≡ p)
                × (record t { log = Call.get_profile id (ok q) ∷ t.log } ≡ read_profile id p s)
          found same = (same, λ i. read_profile id (same i) (e i))
      answered t e (err x) a = absurd cc

  acquire-gated : Triple (λ t. t ≡ s) (acquire caps id) (λ _ _. ⊥) Refused
  unfolding acquire
  acquire-gated = Triple-bind _ _ reading λ q.
      Triple-bind
        {Q = λ enforcement t. (q ≡ p) × (t ≡ read_profile id p s) × (enforcement ≡ s.enforcement)} _
        _ (Triple-gets _ (λ t h. (h.0, h.1, ap (λ (u : Orchestrator). u.enforcement) h.1)))
        λ enforcement.
          Triple-bind {Q = λ _ _. ⊥} _ _
            (Triple-lift _ (λ a e t h. absurd (cc (refusal q enforcement h.0 h.2)))
              (λ f e t h. (cc (refusal q enforcement h.0 h.2), h.1)))
            (λ _. record { at = λ t h. absurd h })

-- A profile that asks for a host process, while the policy does not allow one: `start_session`
-- answers a configuration error, and of the state only the reading of the profile is new: no lock
-- is taken, no key is made and no session is registered.
pub start_session-gated :
    (caps : Capabilities) (config : AppConfig) (id : ℕ) (s : Orchestrator) (p : Profile)
    → caps.get_profile s.log id ≡ ok p
    → p.spec.isolation ≡ IsolationLevel.host_process
    → s.enforcement.allow_host_browser ≡ false
    → ((start_session caps config id s).0 ≡ err Error.config)
      × ((start_session caps config id s).1 ≡ read_profile id p s)
unfolding start_session
start_session-gated caps config id s p h k g = answered _ _ (
    (Triple-bind _ (run_session caps config) (acquire-gated caps s id p h k g)
        (λ _. record { at = λ t f. absurd f })).at
      s refl)
  where
    answered :
        (r : Result SessionSummary Error) (t : Orchestrator)
        → Post (λ _ _. ⊥) (Refused caps s id p h k g) r t
        → (r ≡ err Error.config) × (t ≡ read_profile id p s)
    answered (ok a) t f = absurd f
    answered (err e) t f = (ap err f.0, f.1)
