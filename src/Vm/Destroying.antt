-- ===== src/Vm/Destroying.antt =====
-- What `destroy` answers, and what it leaves.
use aegis_private_browser.Prelude.{
  ◌≡◌, refl, ap, subst, ◌⊎◌, inl, inr, ℕ, Bool, true, false, not, List, [], ◌∷◌, String, Made,
  before, nat_eq, Result, arith,
}
use aegis_private_browser.Prelude.Exec.{pure, attempt, ◌>>=◌, ◌>>◌}
use aegis_private_browser.Prelude.Exec.Triple.{
  Triple, Triple-pure, Triple-ignore, Triple-attempt, Triple-if, Triple-bind, Triple-weaken,
}
use aegis_private_browser.Prelude.Text.{is_empty}
use aegis_private_browser.Core.Error.{Error}
use aegis_private_browser.Core.Vm.{VmState, DestroyReport}
use aegis_private_browser.Vm.Runner.{CommandOutput, Event, Outside}
use aegis_private_browser.Vm.Controller.{
  Entry, LibvirtController, entry, note, run, changed, mark, shred_overlay, succeeded, report,
  destroy_entry,
}
use aegis_private_browser.Vm.Noted.{remove_file-Noted, exists-Noted, run-Noted}

-- The overlay is gone, or it is still there.
abbrev pub Overlay : String → Bool → List Event → Type 0
Overlay path true events = (path ≡ "") ⊎ Made (Event.looked path false) events
Overlay path false events = Made (Event.looked path true) events

module _ (out : Outside) where
  module _ (K : LibvirtController → Type 0)
      (noted : (x : Event) (s : LibvirtController) → K s → K (note x s)) where
    abbrev Shredded : String → Bool → LibvirtController → Type 0
    Shredded path b s = K s × Overlay path b s.events

    abbrev Looked : String → Bool → LibvirtController → Type 0
    Looked path b s = K s × Made (Event.looked path b) s.events

    empty_text : (path : String) → is_empty path ≡ true → path ≡ ""
    empty_text String.[] h = refl
    empty_text (String.◌∷◌ c s) h = cc

    seen :
        (path : String) (still : Bool) (s : LibvirtController)
        → Looked path still s
        → Shredded path (not still) s
    seen path true s h = h
    seen path false s h = (h.0, inr h.1)

    pub shred_overlay-Overlay :
        {X : Error → LibvirtController → Type 0} (path : String)
        → Triple K (shred_overlay out path) (Shredded path) X
    unfolding shred_overlay
    shred_overlay-Overlay path =
        Triple-if (is_empty path) _ _
          (λ empty. Triple-pure _ (λ s h. (h, inl (empty_text path empty))))
          (λ _. Triple-bind _ _ (exists-Noted out K noted path) λ present.
            Triple-if (not present) _ _
              (λ absent.
                Triple-pure true
                  (λ s h. seen path false s (subst (λ b. Looked path b s) (ground arith) h)))
              (λ _.
                Triple-bind {Q = λ _. K} _ _
                  (Triple-ignore _ (
                    Triple-weaken _ (run-Noted out K noted "shred" ("-u" ∷ "-z" ∷ path ∷ []))
                      (λ s h. h.0) (λ a s h. h.0) (λ e s h. h.0)))
                  λ _. Triple-bind _ _ (exists-Noted out K noted path) λ left.
                    Triple-bind {Q = λ _. K} _ _
                      (Triple-if left _ _
                        (λ _.
                          Triple-weaken _ (remove_file-Noted out K noted path) (λ s h. h.0)
                            (λ a s h. h) (λ e s h. h))
                        (λ _. Triple-pure _ (λ s h. h.0)))
                      λ _.
                        Triple-bind _ _ (exists-Noted out K noted path)
                          λ still. Triple-pure _ (λ s h. seen path still s h)))

  -- The definition is gone exactly when `virsh undefine` said so; and the overlay of a disposable
  -- machine is gone exactly as the report says.
  abbrev pub Reported : Entry → DestroyReport → List Event → Type 0
  Reported e r events =
      ((answer : Result CommandOutput Error) × Made
          (Event.ran "virsh" ("undefine" ∷ e.handle.domain_name ∷ []) answer) events
        × (r.domain_undefined ≡ succeeded answer))
      × ((e.destroy_on_close ≡ true × Overlay e.overlay_path r.overlay_shredded events)
          ⊎ ((e.destroy_on_close ≡ false) × (r.overlay_shredded ≡ true)))

  module _ (s : LibvirtController) (id : ℕ) (e : Entry) where
    abbrev Same : LibvirtController → Type 0
    Same t = t.entries ≡ s.entries

    abbrev Undefined : Result CommandOutput Error → LibvirtController → Type 0
    Undefined answer t =
        Same t × Made (Event.ran "virsh" ("undefine" ∷ e.handle.domain_name ∷ []) answer) t.events

    abbrev Cleared : Result CommandOutput Error → Bool → LibvirtController → Type 0
    Cleared answer b t =
        Undefined answer t
        × (((e.destroy_on_close ≡ true) × Overlay e.overlay_path b t.events)
            ⊎ ((e.destroy_on_close ≡ false) × (b ≡ true)))

    abbrev pub Destroyed : DestroyReport → LibvirtController → Type 0
    Destroyed r t =
        (r.id ≡ id)
        × (t.entries ≡ changed id VmState.destroyed (entry id s) s.entries)
        × Reported e r t.events

    undefine-Undefined :
        {X : Error → LibvirtController → Type 0}
        → Triple Same
            (attempt (run out "virsh" ("undefine" ∷ e.handle.domain_name ∷ [])))
            Undefined
            X
    undefine-Undefined = Triple-attempt _ (
        Triple-weaken _
          (run-Noted out Same (λ x t h. h) "virsh" ("undefine" ∷ e.handle.domain_name ∷ []))
          (λ t h. h) (λ a t h. h) (λ x t h. h))

    mark-Destroyed :
        {X : Error → LibvirtController → Type 0} (answer : Result CommandOutput Error) (b : Bool)
        → Triple
            (Cleared answer b)
            (mark id VmState.destroyed >> pure (report id b (succeeded answer)))
            Destroyed
            X
    unfolding mark ◌>>=◌ pure
    mark-Destroyed answer b = record {
      at = λ t h. (
        refl,
        ap (λ l. changed id VmState.destroyed (entry id (record s { entries = l })) l) h.0.0,
        ((answer, h.0.1, refl), h.1),
      );
    }

    pub destroy_entry-Destroyed :
        {X : Error → LibvirtController → Type 0} → Triple Same (destroy_entry out id e) Destroyed X
    unfolding destroy_entry
    destroy_entry-Destroyed =
        Triple-bind {Q = λ _. Same} _ _
          (Triple-ignore _ (
            Triple-weaken _
              (run-Noted out Same (λ x t h. h) "virsh" ("destroy" ∷ e.handle.domain_name ∷ []))
              (λ t h. h) (λ a t h. h.0) (λ x t h. h.0)))
          λ _. Triple-bind _ _ undefine-Undefined λ answer.
            Triple-bind {Q = Cleared answer} _ _
              (Triple-if e.destroy_on_close _ _
                (λ disposable.
                  Triple-weaken _
                    (shred_overlay-Overlay (Undefined answer) (λ x t h. (h.0, before h.1))
                      e.overlay_path)
                    (λ t h. h) (λ b t h. (h.0, inl (disposable, h.1))) (λ x t h. h))
                (λ kept. Triple-pure _ (λ t h. (h, inr (kept, refl)))))
              λ b. mark-Destroyed answer b
