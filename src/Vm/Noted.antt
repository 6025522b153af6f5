-- ===== src/Vm/Noted.antt =====
-- The controller's calls of the outside, for whatever does not depend on the latest events.
use aegis_private_browser.Prelude.{
  ◌≡◌, ℕ, true, not, List, String, Made, here, Result, ok, err, arith,
}
use aegis_private_browser.Prelude.Exec.Triple.{
  Post, Triple, Keeps, Triple-pure, Triple-raise, Triple-lift, Triple-gets, Triple-if, Triple-bind,
  Triple-weaken,
}
use aegis_private_browser.Core.Error.{Error}
use aegis_private_browser.Vm.Runner.{CommandOutput, success, Event, Outside}
use aegis_private_browser.Vm.Controller.{
  LibvirtController, note, run, run_checked, remove_file, exists, domain_of,
}

module _ (out : Outside) (K : LibvirtController → Type 0)
    (noted : (x : Event) (s : LibvirtController) → K s → K (note x s)) where
  pub remove_file-Noted :
      {X : Error → LibvirtController → Type 0} (path : String)
      → Triple K (remove_file out path) (λ _. K) X
  unfolding remove_file
  remove_file-Noted path = record { at = λ s h. noted (Event.removed path) s h }

  pub exists-Noted :
      {X : Error → LibvirtController → Type 0} (path : String)
      → Triple K (exists out path) (λ present s. K s × Made (Event.looked path present) s.events) X
  unfolding exists
  exists-Noted path = record { at = λ s h. (noted (Event.looked path _) s h, here) }

  -- A command is noted with what it answered.
  abbrev pub Ran : String → List String → CommandOutput → LibvirtController → Type 0
  Ran program args output s = K s × Made (Event.ran program args (ok output)) s.events

  abbrev pub Refused : String → List String → Error → LibvirtController → Type 0
  Refused program args e s = K s × Made (Event.ran program args (err e)) s.events

  pub run-Noted :
      (program : String) (args : List String)
      → Triple K (run out program args) (Ran program args) (Refused program args)
  unfolding run
  run-Noted program args = record { at = λ s h. answered s h (out.runs s.events program args) }
    where
      answered :
          (s : LibvirtController)
          → K s
          → (r : Result CommandOutput Error)
          → Post (Ran program args) (Refused program args) r (note (Event.ran program args r) s)
      answered s h (ok output) = (noted _ s h, here)
      answered s h (err e) = (noted _ s h, here)

  abbrev pub Succeeded : String → List String → CommandOutput → LibvirtController → Type 0
  Succeeded program args output s = Ran program args output s × (success output ≡ true)

  pub run_checked-Noted :
      (program : String) (args : List String)
      → Triple K (run_checked out program args) (Succeeded program args) (λ _. K)
  unfolding run_checked
  run_checked-Noted program args =
      Triple-bind {Q = Ran program args} {X = λ _. K} _ _
        (Triple-weaken _ (run-Noted program args) (λ s h. h) (λ a s h. h) (λ e s h. h.0))
        λ output.
          Triple-if (not (success output)) _ _ (λ failed. Triple-raise _ (λ s h. h.0))
            (λ fine. Triple-pure _ (λ s h. (h, ground arith)))

  pub domain_of-Noted : (id : ℕ) → Keeps K (domain_of id)
  unfolding domain_of
  domain_of-Noted id =
      Triple-bind _ _ (Triple-gets {Q = λ _. K} _ (λ s h. h))
        λ found. Triple-lift _ (λ a _ s h. h) (λ e _ s h. h)
