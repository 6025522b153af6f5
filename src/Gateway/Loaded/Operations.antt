-- ===== src/Gateway/Loaded/Operations.antt =====
-- The controller's operations, one by one: from a sound state `s` they leave a sound state, and an
-- error leaves `s` itself or a state that is cut.
use aegis_private_browser.Prelude.{
  ◌≡◌, refl, sym, subst, ◌⊎◌, inl, inr, Option, none, some, String, Result, ok, err,
}
use aegis_private_browser.Prelude.Exec.{raise, gets, attempt, ◌>>=◌}
use aegis_private_browser.Prelude.Exec.Triple.{
  Triple, Keeps, Triple-pure, Triple-raise, Triple-bind, Triple-gets, Triple-attempt, Triple-weaken,
  Triple-if,
}
use aegis_private_browser.Core.Error.{Error}
use aegis_private_browser.Core.Gateway.{GatewayConfig, FirewallPolicy, validate}
use aegis_private_browser.Core.Network.{NetworkMode}
use aegis_private_browser.Gateway.Controller.{
  Controller, change, configure, configured, start_backend, apply_firewall, arm_with, armed,
  probe_status, load_ruleset, fail,
}
use aegis_private_browser.Gateway.Loaded.{loaded, StoresValid, IsSound, IsCut}
use aegis_private_browser.Gateway.Loaded.Cutting.{load_ruleset-loaded, fail-IsCut, other-IsSound}
use aegis_private_browser.Gateway.Render.{render_nftables}
use aegis_private_browser.Gateway.Runner.{success, Runner}

pub start_backend-IsSound :
    (runner : Runner) (cfg : GatewayConfig) → Keeps IsSound (start_backend runner cfg)
unfolding start_backend
start_backend-IsSound runner cfg = Triple-bind _ _ (other-IsSound runner _ refl) λ out.
    Triple-if (success out) _ _ (λ _. Triple-pure tt (λ s h. h)) (λ _. Triple-raise _ (λ s h. h))

pub probe_status-IsSound :
    (runner : Runner) (mode : NetworkMode) → Keeps IsSound (probe_status runner mode)
unfolding probe_status
probe_status-IsSound runner (NetworkMode.tor _) =
    Triple-bind _ _ (other-IsSound runner _ refl) λ out. Triple-pure _ (λ s h. h)
probe_status-IsSound runner (NetworkMode.vpn _) =
    Triple-bind _ _ (other-IsSound runner _ refl) λ out. Triple-pure _ (λ s h. h)
probe_status-IsSound runner (NetworkMode.proxy _) =
    Triple-bind _ _ (other-IsSound runner _ refl) λ out. Triple-pure _ (λ s h. h)

module _ (runner : Runner) (s : Controller) (sound : IsSound s) where
  -- An error left `s` untouched, the history too, or traffic is cut.
  abbrev pub Stopped : Error → Controller → Type 0
  Stopped e t = IsSound t × ((t ≡ s) ⊎ IsCut t)

  pub start : (t : Controller) → t ≡ s → IsSound t
  start t h = subst IsSound (sym h) sound

  pub stopping :
      {A : Type 0} {Q : A → Controller → Type 0} (e : Error)
      → Triple StoresValid (fail runner e) Q Stopped
  stopping e =
      Triple-weaken _ (fail-IsCut runner e) (λ t h. h) (λ a t h. h) (λ x t h. (h.0, inr h.1))

  pub refusing :
      {A : Type 0} {Q : A → Controller → Type 0} (e : Error)
      → Triple (λ t. t ≡ s) (raise e) Q Stopped
  refusing e = Triple-raise e (λ t h. (start t h, inl h))

  configured_lem :
      (cfg : GatewayConfig) (r : Result (Unit {0}) Error)
      → Triple IsSound (configured runner cfg r) (λ _. IsSound) Stopped
  unfolding change
  configured_lem cfg (ok a) = record { at = λ t h. h }
  configured_lem cfg (err e) =
      Triple-weaken _ (stopping {Q = λ _. IsSound} e) (λ t h. h.0) (λ a t h. h) (λ x t h. h)

  pub configure_lem :
      (cfg : GatewayConfig) → Triple (λ t. t ≡ s) (configure runner cfg) (λ _. IsSound) Stopped
  unfolding configure
  configure_lem cfg =
      Triple-bind {Q = λ _. IsSound} _ _
        (Triple-attempt _
          (Triple-weaken _ (start_backend-IsSound runner cfg) start (λ a t h. h) (λ e t h. h)))
        (configured_lem cfg)

  -- After an attempt to load the rendering of a stored or new policy.
  abbrev pub Loads : FirewallPolicy → GatewayConfig → Result (Unit {0}) Error → Controller → Type 0
  Loads p cfg (ok a) t = StoresValid t × (loaded t.ran ≡ some (render_nftables p cfg))
  Loads p cfg (err e) t = StoresValid t

  pub loading :
      (p : FirewallPolicy) (cfg : GatewayConfig)
      → Triple
          (λ t. t ≡ s)
          (attempt (load_ruleset runner (render_nftables p cfg)))
          (Loads p cfg)
          Stopped
  loading p cfg = Triple-attempt _ (
      Triple-weaken _
        (load_ruleset-loaded {P = StoresValid} runner (render_nftables p cfg) (λ t r h. h))
        (λ t h. (start t h).0) (λ a t h. h) (λ e t h. h))

  armed_lem :
      (p : FirewallPolicy) (cfg : GatewayConfig)
      → validate p ≡ none
      → (r : Result (Unit {0}) Error)
      → Triple (Loads p cfg r) (armed runner p r) (λ _. IsSound) Stopped
  unfolding change
  armed_lem p cfg valid (ok a) = record {
    at = λ t h. ((λ q e. cc (valid, e)), λ _. (p, (cfg, refl, refl, h.1)));
  }
  armed_lem p cfg valid (err e) = stopping e

  arm_with_lem :
      (p : FirewallPolicy)
      → validate p ≡ none
      → (cfg : Option GatewayConfig)
      → Triple (λ t. t ≡ s) (arm_with runner p cfg) (λ _. IsSound) Stopped
  arm_with_lem p valid none = refusing Error.precondition
  arm_with_lem p valid (some cfg) = Triple-bind _ _ (loading p cfg) (armed_lem p cfg valid)

  pub apply_firewall_lem :
      (p : FirewallPolicy) → Triple (λ t. t ≡ s) (apply_firewall runner p) (λ _. IsSound) Stopped
  unfolding apply_firewall
  apply_firewall_lem p = by_reason (validate p) refl
    where
      by_reason :
          (reason : Option String)
          → validate p ≡ reason
          → Triple
              (λ t. t ≡ s)
              (elim reason [
                | some r ↦ raise Error.config
                | none ↦ do cfg ← gets (λ s. s.config); arm_with runner p cfg
              ])
              (λ _. IsSound)
              Stopped
      by_reason (some r) h = refusing Error.config
      by_reason none h =
          Triple-bind {Q = λ _ t. t ≡ s} _ _ (Triple-gets _ (λ t k. k)) (arm_with_lem p h)
