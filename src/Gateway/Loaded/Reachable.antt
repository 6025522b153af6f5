-- ===== src/Gateway/Loaded/Reachable.antt =====
-- The states that a controller comes to by any sequence of its operations.
use aegis_private_browser.Prelude.{
  ◌≡◌, refl, ap, ◌∙◌, ◌⊎◌, inr, true, none, some, Result, ok, err, arith,
}
use aegis_private_browser.Prelude.Exec.{pure, ◌>>◌}
use aegis_private_browser.Prelude.Exec.Triple.{
  Triple, Post, Triple-pure, Triple-bind, Triple-gets, Triple-frame, Triple-weaken,
}
use aegis_private_browser.Core.Error.{Error}
use aegis_private_browser.Core.Gateway.{
  GatewayConfig, FirewallPolicy, validate, GatewayHealth, is_ready,
}
use aegis_private_browser.Gateway.Controller.{
  Controller, Action, new, configure, apply_firewall, tunnel_status, engage_killswitch,
  release_killswitch, health,
}
use aegis_private_browser.Gateway.Loaded.{loaded, IsSound, IsCut}
use aegis_private_browser.Gateway.Loaded.Operations.{
  Stopped, start, configure_lem, apply_firewall_lem,
}
use aegis_private_browser.Gateway.Loaded.Switching.{
  tunnel_status_lem, engage_killswitch_lem, release_killswitch_lem, health_status-IsSound,
}
use aegis_private_browser.Gateway.Render.{render_nftables}
use aegis_private_browser.Gateway.Runner.{Runner}

pub data Operation : Type 0 where
  configures : GatewayConfig → Operation
  applies : FirewallPolicy → Operation
  watches engages releases examines : Operation

unfoldable pub perform : Runner → Operation → Action (Unit {0})
perform runner (Operation.configures cfg) = configure runner cfg
perform runner (Operation.applies p) = apply_firewall runner p
perform runner Operation.watches = tunnel_status runner >> pure tt
perform runner Operation.engages = engage_killswitch runner
perform runner Operation.releases = release_killswitch runner
perform runner Operation.examines = health runner >> pure tt

-- Whatever an operation answers, the next one goes on from the state that it left.
pub data Reachable (runner : Runner) : Controller → Type 0 where
  initially : Reachable runner new
  performed :
      {s : Controller} (op : Operation)
      → Reachable runner s
      → Reachable runner (perform runner op s).1

module _ (runner : Runner) (s : Controller) (sound : IsSound s) where
  health_lem :
      Triple
        (λ t. t ≡ s)
        (health runner)
        (λ h t. IsSound t × (h.firewall_applied ≡ s.firewall_applied))
        (λ _ _. ⊥)
  unfolding health
  health_lem =
      Triple-bind {Q = λ u t. IsSound t × (u ≡ s)} _ _
        (Triple-gets _ (λ t h. (start runner s sound t h, h)))
        λ u.
          Triple-bind {Q = λ _ t. IsSound t × (u ≡ s)} _ _
            (Triple-weaken _
              (Triple-frame (u ≡ s) _ (health_status-IsSound runner s sound u.config)) (λ t h. h)
              (λ a t h. h) (λ e t h. absurd h.0))
            λ tunnel. Triple-pure _ (λ t h. (h.0, ap (λ (v : Controller). v.firewall_applied) h.1))

  perform_lem :
      (op : Operation)
      → Triple (λ t. t ≡ s) (perform runner op) (λ _. IsSound) (Stopped runner s sound)
  unfolding perform
  perform_lem (Operation.configures cfg) = configure_lem runner s sound cfg
  perform_lem (Operation.applies p) = apply_firewall_lem runner s sound p
  perform_lem Operation.watches =
      Triple-bind _ _ (tunnel_status_lem runner s sound) λ status. Triple-pure tt (λ t h. h.0)
  perform_lem Operation.engages =
      Triple-weaken _ (engage_killswitch_lem runner s sound) (λ t h. h) (λ a t h. h.0)
        (λ e t h. (h.0, inr h.1))
  perform_lem Operation.releases = release_killswitch_lem runner s sound
  perform_lem Operation.examines =
      Triple-bind _ _ health_never_fails λ h. Triple-pure tt (λ t k. k.0)
    where
      health_never_fails :
          Triple
            (λ t. t ≡ s)
            (health runner)
            (λ h t. IsSound t × (h.firewall_applied ≡ s.firewall_applied))
            (Stopped runner s sound)
      health_never_fails = Triple-weaken _ health_lem (λ t h. h) (λ a t h. h) (λ e t h. absurd h)

module _ (runner : Runner) where
  left-IsSound :
      (s : Controller) (sound : IsSound s) (r : Result (Unit {0}) Error) (t : Controller)
      → Post (λ _. IsSound) (Stopped runner s sound) r t
      → IsSound t
  left-IsSound s sound (ok a) t h = h
  left-IsSound s sound (err e) t h = h.0

  -- In every state that a sequence of operations comes to from the new controller, whatever the
  -- commands answer: a stored policy validates, and while the state says that a firewall is
  -- applied, the kill switch is armed and the ruleset that nft accepted last is the rendering of
  -- the stored policy.
  pub controller-IsSound : (s : Controller) → Reachable runner s → IsSound s
  controller-IsSound _ initially = ((λ p e. cc), λ e. cc)
  controller-IsSound _ (performed {s} op r) =
      let sound = controller-IsSound s r in
      left-IsSound s sound _ _ ((perform_lem runner s sound op).at s refl)

  -- An operation that answers an error has left the controller as it was, the history of commands
  -- included, or the kill switch is engaged and no firewall counts as applied.
  pub error_cuts :
      (s : Controller) (op : Operation) (e : Error)
      → Reachable runner s
      → (perform runner op s).0 ≡ err e
      → ((perform runner op s).1 ≡ s) ⊎ IsCut (perform runner op s).1
  error_cuts s op e r failed =
      let sound = controller-IsSound s r in
      stopped sound _ _ ((perform_lem runner s sound op).at s refl) failed
    where
      stopped :
          (sound : IsSound s) (a : Result (Unit {0}) Error) (t : Controller)
          → Post (λ _. IsSound) (Stopped runner s sound) a t
          → a ≡ err e
          → (t ≡ s) ⊎ IsCut t
      stopped sound (ok a) t h k = absurd cc
      stopped sound (err x) t h k = h.1

  -- A controller that reports itself ready had, when it was asked, as the ruleset that nft accepted
  -- last the rendering of a policy that validates.
  pub ready_is_loaded :
      (s : Controller) (h : GatewayHealth)
      → Reachable runner s
      → (health runner s).0 ≡ ok h
      → is_ready h ≡ true
      → (p : FirewallPolicy) × ((cfg : GatewayConfig) × (validate p ≡ none)
          × (loaded s.ran ≡ some (render_nftables p cfg)))
  unfolding is_ready
  ready_is_loaded s h r answered ready =
      let sound = controller-IsSound s r in
      of_applied sound (
        reported sound _ _ ((health_lem runner s sound).at s refl) answered
        ∙ applied_of_ready h ready)
    where
      applied_of_ready : (h : GatewayHealth) → is_ready h ≡ true → h.firewall_applied ≡ true
      applied_of_ready h k = ground arith

      reported :
          (sound : IsSound s) (a : Result GatewayHealth Error) (t : Controller)
          → Post (λ h t. IsSound t × (h.firewall_applied ≡ s.firewall_applied)) (λ _ _. ⊥) a t
          → a ≡ ok h
          → s.firewall_applied ≡ h.firewall_applied
      reported sound (ok x) t k e = cc (k.1, e)
      reported sound (err x) t k e = absurd k

      of_applied :
          IsSound s
          → s.firewall_applied ≡ true
          → (p : FirewallPolicy) × ((cfg : GatewayConfig) × (validate p ≡ none)
              × (loaded s.ran ≡ some (render_nftables p cfg)))
      of_applied sound e = let a = sound.1 e in (a.0, (a.1.0, sound.0 a.0 a.1.1, a.1.3))
