-- ===== src/Vm/Outcomes.antt =====
-- What the operations of the controller answer, and what they leave in its map.
use aegis_private_browser.Prelude.{
  true, false, String, ◌≡◌, refl, sym, ap, ◌∙◌, subst, ℕ, ◌==◌, Bool, none, some, List, [], ◌∷◌,
  nat_eq, insert, lookup-insert, Result, ok, err, if◌then◌else◌,
}
use aegis_private_browser.Prelude.Exec.{lift, ◌>>=◌}
use aegis_private_browser.Prelude.Exec.Triple.{
  Post, Triple, Triple-lift, Triple-gets, Triple-attempt, Triple-bind, Triple-weaken,
}
use aegis_private_browser.Core.Error.{Error}
use aegis_private_browser.Core.Vm.{
  VmProvisionRequest, VmHandle, VmState, DestroyReport, validate_request,
}
use aegis_private_browser.Vm.Runner.{Event, Outside}
use aegis_private_browser.Vm.Controller.{
  Action, Entry, LibvirtController, entry, note, run_checked, write_file, written_at, set_state,
  changed, entry_for, register, handle_of, write_temp_xml, qemu_img_create, provision, destroy,
  or_not_found, destroy_entry,
}
use aegis_private_browser.Vm.Noted.{remove_file-Noted, run_checked-Noted}
use aegis_private_browser.Vm.Destroying.{Reported, Destroyed, destroy_entry-Destroyed}
use aegis_private_browser.Vm.Xml.{domain_name}

answered :
    {A : Type 0} (Q : A → LibvirtController → Type 0) (r : Result A Error) (t : LibvirtController)
    → Post Q (λ _ _. ⊥) r t
    → (a : A) × (r ≡ ok a) × Q a t
answered Q (ok a) t h = (a, refl, h)
answered Q (err e) t h = absurd h

module _ (out : Outside) (s : LibvirtController) where
  -- The machine's entry is marked, and the others are as before.
  abbrev pub Marked : ℕ → Entry → LibvirtController → Type 0
  Marked id e t =
      (other : ℕ)
      → entry other t
        ≡ (if id == other then some (set_state VmState.destroyed e) else entry other s)

  abbrev pub DestroyedAs : ℕ → Entry → Result DestroyReport Error → LibvirtController → Type 0
  DestroyedAs id e answer t =
      (r : DestroyReport) × (answer ≡ ok r)
      × (r.id ≡ id)
      × Marked id e t
      × Reported out e r t.events

  marked :
      (id : ℕ) (e : Entry) (t : LibvirtController)
      → entry id s ≡ some e
      → t.entries ≡ changed id VmState.destroyed (entry id s) s.entries
      → Marked id e t
  marked id e t found left other =
      ap (λ l. entry other (record t { entries = l }))
        (left ∙ ap (λ o. changed id VmState.destroyed o s.entries) found)
      ∙ lookup-insert id other (set_state VmState.destroyed e) s.entries

  destroy-entry :
      (id : ℕ) (e : Entry) → entry id s ≡ some e → destroy out id s ≡ destroy_entry out id e s
  unfolding destroy ◌>>=◌
  destroy-entry id e found = ap (λ o. (lift (or_not_found o) >>= destroy_entry out id) s) found

  destroy-unknown : (id : ℕ) → entry id s ≡ none → destroy out id s ≡ (err Error.not_found, s)
  unfolding destroy ◌>>=◌
  destroy-unknown id missing = ap (λ o. (lift (or_not_found o) >>= destroy_entry out id) s) missing

  -- Destroying a machine, whatever the tools answer. An identifier that is not tracked is answered
  -- `NotFound`, and nothing is done. For a tracked machine a report is always answered, the
  -- machine's entry is marked destroyed and every other entry is as before. The report says that
  -- the definition is gone exactly when `virsh undefine` of the machine's domain succeeded. For a
  -- disposable machine it says that the overlay is gone only when the path is empty or the overlay
  -- was looked for and not found, and that it is not gone only when it was looked for and found; for
  -- a persistent machine it says that it is gone.
  pub destroy_lem :
      (id : ℕ)
      → (entry id s ≡ none → destroy out id s ≡ (err Error.not_found, s))
        × ((e : Entry)
            → entry id s ≡ some e
            → DestroyedAs id e (destroy out id s).0 (destroy out id s).1)
  destroy_lem id = (
    destroy-unknown id,
    λ e found.
        subst (λ (r : Result DestroyReport Error × LibvirtController). DestroyedAs id e r.0 r.1)
          (sym (destroy-entry id e found))
          (reported e found (
            answered (Destroyed out s id e) _ _
              ((destroy_entry-Destroyed out s id e {X = λ _ _. ⊥}).at s refl))),
  )
    where
      reported :
          (e : Entry)
          → entry id s ≡ some e
          → {answer : Result DestroyReport Error} {t : LibvirtController}
          → (r : DestroyReport) × (answer ≡ ok r) × Destroyed out s id e r t
          → DestroyedAs id e answer t
      reported e found {answer} {t} h = (h.0, h.1, h.2.0, marked id e t found h.2.1, h.2.2)

module _ (out : Outside) (s : LibvirtController) (req : VmProvisionRequest) where
  abbrev Same : LibvirtController → Type 0
  Same t = t.entries ≡ s.entries

  -- The new machine is the only change of the map.
  abbrev pub Provisioned : VmHandle → LibvirtController → Type 0
  Provisioned h t =
      (t.entries ≡ insert h.id (entry_for req h) s.entries)
      × (h.state ≡ VmState.defined)
      × (h.role ≡ req.role)
      × (h.instance_id ≡ req.instance_id)
      × (h.domain_name ≡ domain_name out.naming req)

  run_checked-Same :
      (program : String) (args : List String)
      → Triple Same (run_checked out program args) (λ _. Same) (λ _. Same)
  run_checked-Same program args =
      Triple-weaken _ (run_checked-Noted out Same (λ x t h. h) program args) (λ t h. h)
        (λ a t h. h.0.0) (λ e t h. h)

  write_temp_xml-Same :
      (name xml : String) → Triple Same (write_temp_xml out name xml) (λ _. Same) (λ _. Same)
  unfolding write_temp_xml write_file
  write_temp_xml-Same name xml = record { at = λ t h. either t h _ (out.writes t.events _) }
    where
      either :
          (t : LibvirtController)
          → Same t
          → (path : String) (b : Bool)
          → Post (λ _. Same) (λ _. Same) (written_at out b path) (note (Event.wrote path xml b) t)
      either t h path true = h
      either t h path false = h

  provision-Same :
      validate_request req ≡ ok tt → Triple Same (provision out req) Provisioned (λ _. Same)
  unfolding provision
  provision-Same valid =
      Triple-bind {Q = λ _. Same} _ _ (Triple-lift _ (λ a _ t h. h) (λ e _ t h. h)) λ _.
        Triple-bind _ _ (run_checked-Same "qemu-img" (qemu_img_create req)) λ _.
          Triple-bind {Q = λ _. Same} _ _ (Triple-gets _ (λ t h. h)) λ xml.
            Triple-bind _ _ (write_temp_xml-Same (domain_name out.naming req) xml) λ path.
              Triple-bind {Q = λ _. Same} _ _
                (Triple-attempt _ (run_checked-Same "virsh" ("define" ∷ path ∷ [])))
                λ defined. Triple-bind _ _ (remove_file-Noted out Same (λ x t h. h) path) λ _.
                  Triple-bind {Q = λ _. Same} _ _ (Triple-lift _ (λ a _ t h. h) (λ e _ t h. h)) λ _.
                    Triple-bind {Q = λ h t. Same t × (h ≡ handle_of out req t)} _ _
                      (Triple-gets _ (λ t h. (h, refl))) λ handle. registered handle
    where
      registered :
          (h : VmHandle)
          → Triple
              (λ t. Same t × (h ≡ handle_of out req t))
              (register req h)
              Provisioned
              (λ _. Same)
      registered h = record {
        at = λ t k. (
          ap (λ l. insert h.id (entry_for req h) l) k.0,
          ap (λ (x : VmHandle). x.state) k.1,
          ap (λ (x : VmHandle). x.role) k.1,
          ap (λ (x : VmHandle). x.instance_id) k.1,
          ap (λ (x : VmHandle). x.domain_name) k.1,
        );
      }

  stops :
      {A : Type 0} (r : Result (Unit {0}) Error) (e : Error)
      → r ≡ err e
      → (k : Unit {0} → Action A) → (lift r >>= k) s ≡ (err e, s)
  unfolding ◌>>=◌
  stops r e h k = ap (λ x. (lift x >>= k) s) h

  provision-refused : (e : Error) → validate_request req ≡ err e → provision out req s ≡ (err e, s)
  unfolding provision
  provision-refused e refused = stops (validate_request req) e refused _

  -- Provisioning a machine, whatever the tools answer. A request that does not validate is answered
  -- its error, and nothing is done: no command runs and no file is written. For one that validates,
  -- an error leaves the map of machines as it was; and a handle that is answered is the only new
  -- entry, in the state `defined`, with the role, the instance and the domain name of the request,
  -- and with the request's overlay.
  pub provision_lem :
      ((e : Error) → validate_request req ≡ err e → provision out req s ≡ (err e, s))
      × (validate_request req ≡ ok tt
          → Post Provisioned (λ _. Same) (provision out req s).0 (provision out req s).1)
  provision_lem = (provision-refused, λ valid. (provision-Same valid).at s refl)
