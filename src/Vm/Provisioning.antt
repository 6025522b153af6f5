-- ===== src/Vm/Provisioning.antt =====
-- `provision` step by step.
use aegis_private_browser.Prelude.{
  ◌≡◌, refl, subst, Bool, true, false, [], ◌∷◌, String, Made, here, before, Result, ok, err,
}
use aegis_private_browser.Prelude.Exec.{lift, attempt}
use aegis_private_browser.Prelude.Exec.Triple.{
  Post, Triple, Keeps, Triple-lift, Triple-gets, Triple-attempt, Triple-bind, Triple-weaken,
}
use aegis_private_browser.Core.Error.{Error}
use aegis_private_browser.Core.Vm.{VmProvisionRequest, VmHandle, validate_request}
use aegis_private_browser.Vm.Runner.{CommandOutput, Event, Outside}
use aegis_private_browser.Vm.Controller.{
  LibvirtController, note, run_checked, write_file, entry_for, register, write_temp_xml, provision,
  written_at, qemu_img_create,
}
use aegis_private_browser.Vm.Noted.{remove_file-Noted, run_checked-Noted}
use aegis_private_browser.Vm.Tracked.{Defined, IsSound, later_Defined, note-IsSound, insert-IsSound}
use aegis_private_browser.Vm.Xml.{domain_name, render_domain_xml_with}

module _ (out : Outside) (req : VmProvisionRequest) where
  abbrev Valid : LibvirtController → Type 0
  Valid s = IsSound out s × (validate_request req ≡ ok tt)

  abbrev IsRendering : String → Type 0
  IsRendering xml =
      (mac : String) × (upstream_mac : String) × (xml
        ≡ render_domain_xml_with out.naming req mac upstream_mac)

  abbrev Rendered : String → LibvirtController → Type 0
  Rendered xml s = Valid s × IsRendering xml

  -- The rendering stands in the file.
  abbrev Stored : String → LibvirtController → Type 0
  Stored path s =
      Valid s
      × ((mac : String) × (upstream_mac : String) × Made
            (Event.wrote path (render_domain_xml_with out.naming req mac upstream_mac) true)
            s.events)

  write_temp_xml-Stored :
      (name xml : String)
      → Triple (Rendered xml) (write_temp_xml out name xml) Stored (λ _. IsSound out)
  unfolding write_temp_xml write_file
  write_temp_xml-Stored name xml = record { at = λ s h. answered s h _ (out.writes s.events _) }
    where
      answered :
          (s : LibvirtController)
          → Rendered xml s
          → (path : String) (b : Bool)
          → Post Stored (λ _. IsSound out) (written_at out b path) (note (Event.wrote path xml b) s)
      answered s h path true = (
        (note-IsSound out _ s h.0.0, h.0.1),
        (
          h.1.0,
          h.1.1,
          subst (λ x. Made (Event.wrote path x true) (Event.wrote path xml true ∷ s.events)) h.1.2
              here,
        ),
      )
      answered s h path false = note-IsSound out _ s h.0.0

  abbrev Accepted : Result CommandOutput Error → LibvirtController → Type 0
  Accepted (ok output) s = IsSound out s × Defined out req s.events
  Accepted (err e) s = IsSound out s

  Stored-noted :
      (path : String) (x : Event) (s : LibvirtController) → Stored path s → Stored path (note x s)
  Stored-noted path x s h = ((note-IsSound out x s h.0.0, h.0.1), (h.1.0, h.1.1, before h.1.2))

  Accepted-noted :
      (r : Result CommandOutput Error) (x : Event) (s : LibvirtController)
      → Accepted r s
      → Accepted r (note x s)
  Accepted-noted (ok output) x s h =
      (note-IsSound out x s h.0, later_Defined out req x s.events h.1)
  Accepted-noted (err e) x s h = note-IsSound out x s h

  -- The definition is accepted or not.
  define-Accepted :
      {X : Error → LibvirtController → Type 0} (path : String)
      → Triple (Stored path) (attempt (run_checked out "virsh" ("define" ∷ path ∷ []))) Accepted X
  define-Accepted path = Triple-attempt _ (
      Triple-weaken _
        (run_checked-Noted out (Stored path) (Stored-noted path) "virsh" ("define" ∷ path ∷ []))
        (λ s h. h)
        (λ output s h. (
          h.0.0.0.0,
          record {
            valid = h.0.0.0.1;
            path = path;
            mac = h.0.0.1.0;
            upstream_mac = h.0.0.1.1;
            written = h.0.0.1.2;
            output = output;
            accepted = h.1;
            defined = h.0.1;
          },
        ))
        (λ e s h. h.0.0))

  abbrev Handled : VmHandle → LibvirtController → Type 0
  Handled h s =
      (IsSound out s × Defined out req s.events)
      × ((h.domain_name ≡ domain_name out.naming req) × (h.role ≡ req.role))

  register-IsSound :
      {X : Error → LibvirtController → Type 0} (h : VmHandle)
      → Triple (Handled h) (register req h) (λ _. IsSound out) X
  unfolding register
  register-IsSound h = record {
    at = λ s k. insert-IsSound out s h.id (entry_for req h) k.0.0 (record {
      own = refl;
      request = req;
      provisioned = k.0.1;
      name = k.1.0;
      role = k.1.1;
      overlay = refl;
      disposable = refl;
    });
  }

  pub provision-IsSound : Keeps (IsSound out) (provision out req)
  unfolding provision
  provision-IsSound =
      Triple-bind {Q = λ _. Valid} _ _ (Triple-lift _ (λ a valid s h. (h, valid)) (λ e _ s h. h))
        λ _.
          Triple-bind {Q = λ _. Valid} _ _
            (Triple-weaken _
              (run_checked-Noted out Valid (λ x s h. (note-IsSound out x s h.0, h.1)) "qemu-img"
                (qemu_img_create req))
              (λ s h. h) (λ o s h. h.0.0) (λ e s h. h.0))
            λ _. Triple-bind {Q = Rendered} _ _ (Triple-gets _ (λ s h. (h, (_, _, refl)))) λ xml.
              Triple-bind _ _ (write_temp_xml-Stored (domain_name out.naming req) xml) λ path.
                Triple-bind _ _ (define-Accepted path) λ defined.
                  Triple-bind _ _
                    (remove_file-Noted out (Accepted defined) (Accepted-noted defined) path)
                    λ _.
                      Triple-bind {Q = λ _ s. IsSound out s × Defined out req s.events} _ _
                        (lifted defined)
                        λ _.
                          Triple-bind {Q = Handled} _ _ (Triple-gets _ (λ s h. (h, (refl, refl))))
                            λ h. register-IsSound h
    where
      lifted :
          (r : Result CommandOutput Error)
          → Triple
              (Accepted r)
              (lift r)
              (λ _ s. IsSound out s × Defined out req s.events)
              (λ _. IsSound out)
      lifted (ok output) = Triple-lift _ (λ a _ s h. h) (λ e same s h. h.0)
      lifted (err e) = Triple-lift _ (λ a same s h. absurd (contrary same)) (λ e _ s h. h)
        where
          contrary : {a : CommandOutput} → ◌≡◌ {A = Result CommandOutput Error} (err e) (ok a) → ⊥
          contrary same = cc
