-- ===== src/Gateway/Loaded/Switching.antt =====
-- The operations that watch the tunnel and switch the traffic, from a sound state.
use aegis_private_browser.Prelude.{
  ◌≡◌, refl, sym, ap, ◌∙◌, subst, true, false, Option, none, some, String, Result, ok, err,
}
use aegis_private_browser.Prelude.Exec.{attempt, ◌>>=◌}
use aegis_private_browser.Prelude.Exec.Triple.{
  Triple, Triple-pure, Triple-bind, Triple-gets, Triple-lift, Triple-ignore, Triple-attempt,
  Triple-weaken, Triple-if,
}
use aegis_private_browser.Core.Error.{Error}
use aegis_private_browser.Core.Gateway.{
  GatewayConfig, FirewallPolicy, validate, TunnelState, TunnelStatus, KillSwitchState,
}
use aegis_private_browser.Gateway.Controller.{
  Controller, change, tunnel_status, watch, watched, is_failed, engage_killswitch,
  release_killswitch, rearm, health_status, load_ruleset, fail,
}
use aegis_private_browser.Gateway.Loaded.{loaded, StoresValid, IsSound, IsCut}
use aegis_private_browser.Gateway.Loaded.Cutting.{
  load_ruleset_lem, load_ruleset-loaded, fail_closed-IsCut, cutting,
}
use aegis_private_browser.Gateway.Render.{render_nftables, render_killswitch}
use aegis_private_browser.Gateway.Runner.{Runner}
use aegis_private_browser.Gateway.Loaded.Operations.{
  Stopped, start, stopping, refusing, probe_status-IsSound,
}

module _ (runner : Runner) (s : Controller) (sound : IsSound s) where
  -- A tunnel that was seen to have failed is cut.
  abbrev pub Watched : TunnelStatus → Controller → Type 0
  Watched status t = IsSound t × (status.state ≡ TunnelState.failed → IsCut t)

  watched_lem :
      (r : Result TunnelStatus Error)
      → Triple IsSound (watched runner r) Watched (Stopped runner s sound)
  watched_lem (err e) =
      Triple-weaken _ (stopping runner s sound {Q = Watched} e) (λ t h. h.0) (λ a t h. h)
        (λ x t h. h)
  watched_lem (ok status) =
      Triple-if (is_failed status.state) _ _
        (λ e.
          Triple-bind {Q = λ _ t. IsSound t × IsCut t} _ _
            (Triple-ignore _ (
              Triple-weaken _ (fail_closed-IsCut runner Error.network_containment) (λ t h. h.0)
                (λ a t h. h) (λ x t h. h)))
            λ _. Triple-pure status (λ t h. (h.0, λ _. h.1)))
        (λ e. Triple-pure status (λ t h. (h, λ f. absurd (not_failed status.state f e))))
    where
      not_failed : (st : TunnelState) → st ≡ TunnelState.failed → is_failed st ≡ false → ⊥
      not_failed st f e = cc (ap is_failed f, e)

  watch_lem :
      (cfg : Option GatewayConfig)
      → Triple (λ t. t ≡ s) (watch runner cfg) Watched (Stopped runner s sound)
  watch_lem none = refusing runner s sound Error.precondition
  watch_lem (some cfg) =
      Triple-bind {Q = λ _. IsSound} _ _
        (Triple-attempt _ (
          Triple-weaken _ (probe_status-IsSound runner cfg.mode) (start runner s sound) (λ a t h. h)
            (λ e t h. h)))
        watched_lem

  pub tunnel_status_lem :
      Triple (λ t. t ≡ s) (tunnel_status runner) Watched (Stopped runner s sound)
  unfolding tunnel_status
  tunnel_status_lem = Triple-bind {Q = λ _ t. t ≡ s} _ _ (Triple-gets _ (λ t h. h)) watch_lem

  -- Engaging cuts, whether or not the ruleset could be loaded.
  pub engage_killswitch_lem :
      Triple
        (λ t. t ≡ s)
        (engage_killswitch runner)
        (λ _ t. IsSound t × IsCut t)
        (λ _ t. IsSound t × IsCut t)
  unfolding engage_killswitch
  engage_killswitch_lem =
      Triple-bind {Q = λ _. StoresValid} _ _
        (Triple-attempt _ (
          load_ruleset_lem runner render_killswitch (λ t out h k. (start runner s sound t h).0)
            (λ t x r h. (start runner s sound t h).0)))
        λ result. Triple-bind _ _ cutting λ _. Triple-lift result (λ a e t h. h) (λ x e t h. h)

  -- What is known of a loaded state whose policy was stored before.
  abbrev Rearms : FirewallPolicy → GatewayConfig → Result (Unit {0}) Error → Controller → Type 0
  Rearms p cfg (ok a) t =
      StoresValid t × (t.firewall ≡ some p) × (loaded t.ran ≡ some (render_nftables p cfg))
  Rearms p cfg (err e) t = StoresValid t

  reloading :
      (p : FirewallPolicy) (cfg : GatewayConfig)
      → s.firewall ≡ some p
      → Triple
          (λ t. t ≡ s)
          (attempt (load_ruleset runner (render_nftables p cfg)))
          (Rearms p cfg)
          (Stopped runner s sound)
  reloading p cfg stored = Triple-attempt _ (
      Triple-weaken _
        (load_ruleset-loaded {P = λ t. StoresValid t × (t.firewall ≡ some p)} runner
          (render_nftables p cfg) (λ t r h. h))
        (λ t h. ((start runner s sound t h).0, ap (λ (u : Controller). u.firewall) h ∙ stored))
        (λ a t h. (h.0.0, h.0.1, h.1)) (λ e t h. h.0))

  rearmed :
      (p : FirewallPolicy) (cfg : GatewayConfig) (r : Result (Unit {0}) Error)
      → Triple
          (Rearms p cfg r)
          (elim r [
            | err e ↦ fail runner e
            | ok _ ↦
                change
                  (λ s. record s { killswitch = KillSwitchState.armed; firewall_applied = true })
          ])
          (λ _. IsSound)
          (Stopped runner s sound)
  unfolding change
  rearmed p cfg (ok a) = record { at = λ t h. (h.0, λ _. (p, (cfg, h.1, refl, h.2))) }
  rearmed p cfg (err e) = stopping runner s sound e

  rearm_lem :
      (cfg : Option GatewayConfig) (policy : Option FirewallPolicy)
      → s.firewall ≡ policy
      → Triple (λ t. t ≡ s) (rearm runner cfg policy) (λ _. IsSound) (Stopped runner s sound)
  rearm_lem none policy h = refusing runner s sound Error.precondition
  rearm_lem (some cfg) none h = refusing runner s sound Error.precondition
  rearm_lem (some cfg) (some p) h = by_reason (validate p)
    where
      by_reason :
          (reason : Option String)
          → Triple
              (λ t. t ≡ s)
              (elim reason [
                | some r ↦ fail runner Error.config
                | none ↦ do
                  loaded ← attempt (load_ruleset runner (render_nftables p cfg))
                  elim loaded [
                    | err e ↦ fail runner e
                    | ok _ ↦ change (λ s. record s {
                      killswitch = KillSwitchState.armed;
                      firewall_applied = true;
                    })
                  ]
              ])
              (λ _. IsSound)
              (Stopped runner s sound)
      by_reason (some r) =
          Triple-weaken _ (stopping runner s sound {Q = λ _. IsSound} Error.config)
            (λ t k. (start runner s sound t k).0) (λ a t k. k) (λ x t k. k)
      by_reason none = Triple-bind _ _ (reloading p cfg h) (rearmed p cfg)

  pub release_killswitch_lem :
      Triple (λ t. t ≡ s) (release_killswitch runner) (λ _. IsSound) (Stopped runner s sound)
  unfolding release_killswitch
  release_killswitch_lem =
      Triple-bind {Q = λ u t. (t ≡ s) × (u ≡ s)} _ _ (Triple-gets _ (λ t h. (h, h))) λ u. record {
        at = λ t h.
            (subst
                (λ v.
                  Triple (λ t. t ≡ s) (rearm runner v.config v.firewall) (λ _. IsSound)
                    (Stopped runner s sound))
                (sym h.1) (rearm_lem s.config s.firewall refl)).at
              t h.0;
      }

  -- Reading the health never fails.
  pub health_status-IsSound :
      (cfg : Option GatewayConfig)
      → Triple IsSound (health_status runner cfg) (λ _. IsSound) (λ _ _. ⊥)
  health_status-IsSound none = Triple-pure _ (λ t h. h)
  health_status-IsSound (some cfg) =
      Triple-bind {Q = λ _. IsSound} _ _ (Triple-attempt _ (probe_status-IsSound runner cfg.mode))
        λ probed. Triple-pure _ (λ t h. h)
