-- ===== src/Gateway/Loaded/Cutting.antt =====
-- Loading a ruleset and cutting traffic.
use aegis_private_browser.Prelude.{
  ◌≡◌, refl, sym, ap, ◌∙◌, subst, ◌&&◌, true, false, some, ◌∷◌, String, str_eq, Result, ok, err,
  if◌then◌else◌,
}
use aegis_private_browser.Prelude.Exec.Triple.{
  Triple, Post, Keeps, Triple-pure, Triple-raise, Triple-bind, Triple-ignore, Triple-if,
}
use aegis_private_browser.Core.Error.{Error}
use aegis_private_browser.Gateway.Controller.{
  Controller, run, change, cut, nft, expect_success, load_ruleset, fail_closed, fail,
}
use aegis_private_browser.Gateway.Loaded.{loaded, StoresValid, IsSound, IsCut}
use aegis_private_browser.Gateway.Render.{render_killswitch}
use aegis_private_browser.Gateway.Runner.{Command, CommandOutput, success, Runner}

-- A run adds to the history and changes nothing else.
abbrev pub after : Controller → Command → Result CommandOutput Error → Controller
after s c r = record s { ran = (c, r) ∷ s.ran }

module _ {P : Controller → Type 0} {X : Error → Controller → Type 0} where
  pub run_lem :
      {Q : CommandOutput → Controller → Type 0} (runner : Runner) (c : Command)
      → ((s : Controller) (out : CommandOutput) → P s → Q out (after s c (ok out)))
      → ((s : Controller) (e : Error) → P s → X e (after s c (err e)))
      → Triple P (run runner c) Q X
  unfolding run
  run_lem {Q} runner c returned failed = record { at = λ s h. either s h (runner s.ran c) }
    where
      either : (s : Controller) → P s → (r : Result CommandOutput Error) → Post Q X r (after s c r)
      either s h (ok out) = returned s out h
      either s h (err e) = failed s e h

  -- A load that is accepted, and one that is not.
  pub load_ruleset_lem :
      {Q : Controller → Type 0} (runner : Runner) (rules : String)
      → ((s : Controller) (out : CommandOutput)
          → P s
          → success out ≡ true
          → Q (after s (nft rules) (ok out)))
      → ((s : Controller) (e : Error) (r : Result CommandOutput Error)
          → P s
          → X e (after s (nft rules) r))
      → Triple P (load_ruleset runner rules) (λ _. Q) X
  unfolding load_ruleset
  load_ruleset_lem {Q} runner rules accepted refused =
      Triple-bind {Q = λ out t. (s : Controller) × P s × (t ≡ after s (nft rules) (ok out))} _ _
        (run_lem runner (nft rules) (λ s out h. (s, h, refl)) (λ s e h. refused s e (err e) h))
        expecting
    where
      expecting :
          (out : CommandOutput)
          → Triple
              (λ t. (s : Controller) × P s × (t ≡ after s (nft rules) (ok out)))
              (expect_success out)
              (λ _. Q)
              X
      expecting out =
          Triple-if (success out) _ _
            (λ e. Triple-pure tt (λ t h. subst Q (sym h.2) (accepted h.0 out h.1 e)))
            (λ e.
              Triple-raise Error.system
                (λ t h. subst (X Error.system) (sym h.2) (refused h.0 Error.system (ok out) h.1)))

loaded-after :
    (s : Controller) (rules : String) (out : CommandOutput)
    → success out ≡ true
    → loaded (after s (nft rules) (ok out)).ran ≡ some rules
unfolding loaded
loaded-after s rules out h = ap (λ b. if b then some rules else loaded s.ran) h

-- An accepted load is what the kernel has.
pub load_ruleset-loaded :
    {P : Controller → Type 0} (runner : Runner) (rules : String)
    → ((s : Controller) (r : Result CommandOutput Error) → P s → P (after s (nft rules) r))
    → Triple P (load_ruleset runner rules) (λ _ s. P s × (loaded s.ran ≡ some rules)) (λ _. P)
load_ruleset-loaded runner rules keep =
    load_ruleset_lem runner rules (λ s out h e. (keep s (ok out) h, loaded-after s rules out e))
      (λ s e r h. keep s r h)

cut-IsSound : (s : Controller) → StoresValid s → IsSound (cut s) × IsCut (cut s)
cut-IsSound s h = ((h, λ e. absurd cc), (refl, refl))

pub cutting :
    Triple StoresValid (change cut) (λ _ s. IsSound s × IsCut s) (λ _ s. IsSound s × IsCut s)
unfolding change
cutting = record { at = λ s h. cut-IsSound s h }

pub fail_closed-IsCut :
    (runner : Runner) (e : Error)
    → Triple StoresValid
        (fail_closed runner e)
        (λ _ s. IsSound s × IsCut s)
        (λ _ s. IsSound s × IsCut s)
unfolding fail_closed
fail_closed-IsCut runner e =
    Triple-bind {Q = λ _. StoresValid} _ _
      (Triple-ignore _ (load_ruleset_lem runner render_killswitch (λ s out h k. h) (λ s x r h. h)))
      λ _. Triple-bind _ _ cutting λ _. Triple-pure e (λ s h. h)

pub fail-IsCut :
    {A : Type 0} {Q : A → Controller → Type 0} (runner : Runner) (e : Error)
    → Triple StoresValid (fail runner e) Q (λ _ s. IsSound s × IsCut s)
fail-IsCut runner e = Triple-bind _ _ (fail_closed-IsCut runner e) λ x. Triple-raise x (λ s h. h)

-- A command that is not nft leaves what is loaded.
pub other-IsSound :
    (runner : Runner) (c : Command) → str_eq c.program "nft" ≡ false → Keeps IsSound (run runner c)
unfolding loaded
other-IsSound runner c differs =
    run_lem runner c
      (λ s out h. (
        h.0,
        λ e.
            let a = h.1 e in
            (
              a.0,
              (
                a.1.0,
                a.1.1,
                a.1.2,
                ap (λ b. if b && success out then c.stdin else loaded s.ran) differs ∙ a.1.3,
              ),
            ),
      ))
      (λ s e h. h)
