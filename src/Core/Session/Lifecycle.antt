-- ===== src/Core/Session/Lifecycle.antt =====
-- The lifecycle as a relation: what a chain of permitted transitions can and cannot do.
use aegis_private_browser.Prelude.{
  ◌≡◌, ◌≢◌, ◌⊎◌, inl, inr, refl, sym, Bool, true, false, List, [], ◌∷◌, arith,
}
use aegis_private_browser.Core.Session.{SessionState, can_transition_to}

-- A chain of permitted transitions, with the states that it passes through, the last one included.
pub data Chain : SessionState → List SessionState → SessionState → Type 0 where
  here : {s : SessionState} → Chain s [] s
  next :
      {s t u : SessionState} {via : List SessionState}
      → can_transition_to s t ≡ true
      → Chain t via u
      → Chain s (t ∷ via) u

abbrev pub Passes : SessionState → List SessionState → Type 0
Passes s [] = ⊥
Passes s (t ∷ via) = (s ≡ t) ⊎ Passes s via

abbrev before_preflight : SessionState → Bool
before_preflight SessionState.browsing = false
before_preflight SessionState.preflight = false
before_preflight _ = true

browsing_needs_preflight :
    (s t : SessionState)
    → can_transition_to s t ≡ true
    → before_preflight s ≡ true
    → (t ≡ SessionState.preflight) ⊎ (before_preflight t ≡ true)
unfolding can_transition_to
browsing_needs_preflight s t h b = ground arith

-- A chain that starts before the preflight and ends in `browsing` has passed through `preflight`.
pub Chain-preflight :
    {s : SessionState} {via : List SessionState}
    → Chain s via SessionState.browsing
    → before_preflight s ≡ true
    → Passes SessionState.preflight via
Chain-preflight here b = cc
Chain-preflight {s} (next {t = t} h r) b = elim (browsing_needs_preflight s t h b) [
  | inl e ↦ inl (sym e)
  | inr later ↦ inr (Chain-preflight r later)
]

abbrev has_ended : SessionState → Bool
has_ended SessionState.closing = true
has_ended SessionState.destroyed = true
has_ended SessionState.failed = true
has_ended _ = false

ended_stays :
    (s t : SessionState) → can_transition_to s t ≡ true → has_ended s ≡ true → has_ended t ≡ true
unfolding can_transition_to
ended_stays s t h b = ground arith

-- A session that is closing, destroyed or failed never browses again, whatever follows.
pub Chain-ended :
    {s t : SessionState} {via : List SessionState}
    → Chain s via t
    → has_ended s ≡ true
    → t ≢ SessionState.browsing
Chain-ended here b e = cc
Chain-ended {s} (next {t = t} h r) b e = Chain-ended r (ended_stays s t h b) e

step_to_end :
    (s : SessionState)
    → s ≢ SessionState.destroyed
    → (can_transition_to s SessionState.closing ≡ true)
      ⊎ (can_transition_to s SessionState.destroyed ≡ true)
unfolding can_transition_to
step_to_end s h = ground arith

closing_to_end : can_transition_to SessionState.closing SessionState.destroyed ≡ true
unfolding can_transition_to
closing_to_end = refl

-- From every state a chain of permitted transitions leads to `destroyed`.
pub destroyed_reachable :
    (s : SessionState) → (via : List SessionState) × Chain s via SessionState.destroyed
destroyed_reachable SessionState.destroyed = ([], here)
destroyed_reachable SessionState.closing = (_, next closing_to_end here)
destroyed_reachable s = elim (step_to_end s (λ e. cc)) [
  | inl h ↦ (_, next h (next closing_to_end here))
  | inr h ↦ (_, next h here)
]
