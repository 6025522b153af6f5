-- ===== src/Vm/Tracked.antt =====
-- Every machine that the controller tracks was provisioned from a request that validates.
use aegis_private_browser.Prelude.{
  ◌≡◌, refl, sym, ◌∙◌, subst, ℕ, true, false, Option, none, some, List, [], ◌∷◌, String, Made,
  before, nat_eq, ==_iff, insert, lookup-insert, ok, if◌then◌else◌, Bool-cases, ◌⊎◌, inl, inr,
  arith, ◌==◌,
}
use aegis_private_browser.Prelude.Exec.Triple.{Triple}
use aegis_private_browser.Core.Error.{Error}
use aegis_private_browser.Core.Vm.{VmProvisionRequest, VmState, validate_request}
use aegis_private_browser.Vm.Runner.{CommandOutput, success, Event, Outside}
use aegis_private_browser.Vm.Controller.{
  Entry, LibvirtController, entry, note, set_state, changed, mark,
}
use aegis_private_browser.Vm.Xml.{domain_name, render_domain_xml_with}

module _ (out : Outside) where
  -- The request validates, and libvirt has accepted its rendering.
  pub record Defined (req : VmProvisionRequest) (events : List Event) : Type 0 where
    pub valid : validate_request req ≡ ok tt
    pub path : String
    pub mac : String
    pub upstream_mac : String
    pub written :
        Made (Event.wrote path (render_domain_xml_with out.naming req mac upstream_mac) true) events
    pub output : CommandOutput
    pub accepted : success output ≡ true
    pub defined : Made (Event.ran "virsh" ("define" ∷ path ∷ []) (ok output)) events

  -- The entry stands under its own identifier, and is the one of such a request.
  pub record IsTracked (events : List Event) (id : ℕ) (e : Entry) : Type 0 where
    pub own : e.handle.id ≡ id
    pub request : VmProvisionRequest
    pub provisioned : Defined request events
    pub name : e.handle.domain_name ≡ domain_name out.naming request
    pub role : e.handle.role ≡ request.role
    pub overlay : e.overlay_path ≡ request.disk.overlay_path
    pub disposable : e.destroy_on_close ≡ request.disk.destroy_on_close

  abbrev pub IsSound : LibvirtController → Type 0
  IsSound s = (id : ℕ) (e : Entry) → entry id s ≡ some e → IsTracked s.events id e

  pub later_Defined :
      (req : VmProvisionRequest) (x : Event) (events : List Event)
      → Defined req events
      → Defined req (x ∷ events)
  later_Defined req x events d = record {
    valid = d.valid;
    path = d.path;
    mac = d.mac;
    upstream_mac = d.upstream_mac;
    written = before d.written;
    output = d.output;
    accepted = d.accepted;
    defined = before d.defined;
  }

  pub note-IsSound : (x : Event) (s : LibvirtController) → IsSound s → IsSound (note x s)
  note-IsSound x s sound id e h =
      let t = sound id e h in
      record {
        own = t.own;
        request = t.request;
        provisioned = later_Defined t.request x s.events t.provisioned;
        name = t.name;
        role = t.role;
        overlay = t.overlay;
        disposable = t.disposable;
      }

  set_state-IsTracked :
      (events : List Event) (id : ℕ) (state : VmState) (e : Entry)
      → IsTracked events id e
      → IsTracked events id (set_state state e)
  set_state-IsTracked events id state e t = record {
    own = t.own;
    request = t.request;
    provisioned = t.provisioned;
    name = t.name;
    role = t.role;
    overlay = t.overlay;
    disposable = t.disposable;
  }

  -- The entries after one was put under an identifier.
  pub insert-IsSound :
      (s : LibvirtController) (k : ℕ) (e : Entry)
      → IsSound s
      → IsTracked s.events k e
      → IsSound (record s { entries = insert k e s.entries })
  insert-IsSound s k e sound t id x h = placed (Bool-cases (k == id))
    where
      found : (if k == id then some e else entry id s) ≡ some x
      found = sym (lookup-insert k id e s.entries) ∙ h

      placed : ((k == id) ≡ true) ⊎ ((k == id) ≡ false) → IsTracked s.events id x
      placed (inl same) =
          subst (λ j. IsTracked s.events j x) ((==_iff k id).0 same)
            (subst (IsTracked s.events k) (ground (arith, found)) t)
      placed (inr other) = sound id x (ground (arith, found))

  changed-IsSound :
      (s : LibvirtController) (id : ℕ) (state : VmState) (o : Option Entry)
      → entry id s ≡ o
      → IsSound s
      → IsSound (record s { entries = changed id state o s.entries })
  changed-IsSound s id state none e sound = sound
  changed-IsSound s id state (some x) e sound =
      insert-IsSound s id (set_state state x) sound
        (set_state-IsTracked s.events id state x (sound id x e))

  module _ {X : Error → LibvirtController → Type 0} where
    pub mark-IsSound : (id : ℕ) (state : VmState) → Triple IsSound (mark id state) (λ _. IsSound) X
    unfolding mark
    mark-IsSound id state = record {
      at = λ s sound. changed-IsSound s id state (entry id s) refl sound;
    }
