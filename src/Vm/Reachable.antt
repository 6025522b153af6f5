-- ===== src/Vm/Reachable.antt =====
-- The states that a sequence of operations comes to.
use aegis_private_browser.Prelude.{◌≡◌, ℕ, lookup, none, some, List, [], ◌∷◌, String}
use aegis_private_browser.Prelude.Exec.{gets}
use aegis_private_browser.Prelude.Exec.Triple.{
  Triple, Keeps, Triple-pure, Triple-lift, Triple-gets, Triple-ignore, Triple-attempt, Triple-if,
  Triple-bind, Triple-weaken, Triple-final,
}
use aegis_private_browser.Core.Vm.{VmProvisionRequest, VmState}
use aegis_private_browser.Daemon.Calls.{ShutdownMode}
use aegis_private_browser.Vm.Runner.{Outside}
use aegis_private_browser.Vm.Controller.{
  LibvirtController, with_runner, run, run_checked, domain_of, Entry, provision, start, shutdown,
  destroy, destroy_entry, state, list, shut_state,
}
use aegis_private_browser.Vm.Noted.{run-Noted, run_checked-Noted, domain_of-Noted}
use aegis_private_browser.Vm.Tracked.{IsSound, note-IsSound, mark-IsSound}
use aegis_private_browser.Vm.Provisioning.{provision-IsSound}
use aegis_private_browser.Vm.Destroying.{shred_overlay-Overlay}

pub data Operation : Type 0 where
  provisions : VmProvisionRequest → Operation
  starts : ℕ → Operation
  shuts_down : ℕ → ShutdownMode → Operation
  destroys : ℕ → Operation
  asks : ℕ → Operation
  lists : Operation

module _ (out : Outside) where
  -- The state after the operation, whatever it answered.
  abbrev pub after : Operation → LibvirtController → LibvirtController
  after (Operation.provisions req) s = (provision out req s).1
  after (Operation.starts id) s = (start out id s).1
  after (Operation.shuts_down id mode) s = (shutdown out id mode s).1
  after (Operation.destroys id) s = (destroy out id s).1
  after (Operation.asks id) s = (state out id s).1
  after Operation.lists s = (list s).1

  -- From a controller that tracks nothing.
  pub data Reachable : LibvirtController → Type 0 where
    initially : Reachable with_runner
    then_after : {s : LibvirtController} (op : Operation) → Reachable s → Reachable (after op s)

  checked_keeps :
      (program : String) (args : List String)
      → Triple (IsSound out) (run_checked out program args) (λ _. IsSound out) (λ _. IsSound out)
  checked_keeps program args =
      Triple-weaken _ (run_checked-Noted out (IsSound out) (note-IsSound out) program args)
        (λ s h. h) (λ a s h. h.0.0) (λ e s h. h)

  asked : (id : ℕ) → Keeps (IsSound out) (domain_of id)
  asked id = domain_of-Noted out (IsSound out) (note-IsSound out) id

  start-IsSound : (id : ℕ) → Keeps (IsSound out) (start out id)
  unfolding start
  start-IsSound id = Triple-bind _ _ (asked id) λ domain.
      Triple-bind _ _ (checked_keeps "virsh" ("start" ∷ domain ∷ []))
        λ _. mark-IsSound out id VmState.running

  shutdown-IsSound : (id : ℕ) (mode : ShutdownMode) → Keeps (IsSound out) (shutdown out id mode)
  unfolding shutdown
  shutdown-IsSound id mode = Triple-bind _ _ (asked id) λ domain.
      Triple-bind _ _ (checked_keeps "virsh" _) λ _. mark-IsSound out id (shut_state out mode)

  state-IsSound : (id : ℕ) → Keeps (IsSound out) (state out id)
  unfolding state
  state-IsSound id = Triple-bind _ _ (asked id) λ domain.
      Triple-bind _ _ (checked_keeps "virsh" ("domstate" ∷ domain ∷ []))
        λ output. Triple-pure _ (λ s h. h)

  destroy_entry-IsSound : (id : ℕ) (e : Entry) → Keeps (IsSound out) (destroy_entry out id e)
  unfolding destroy_entry
  destroy_entry-IsSound id e =
      Triple-bind {Q = λ _. IsSound out} _ _
        (Triple-ignore _ (Triple-weaken _ (ran _) (λ s h. h) (λ a s h. h) (λ x s h. h)))
        λ _. Triple-bind {Q = λ _. IsSound out} _ _ (Triple-attempt _ (ran _)) λ answer.
          Triple-bind {Q = λ _. IsSound out} _ _
            (Triple-if e.destroy_on_close _ _
              (λ _.
                Triple-weaken _
                  (shred_overlay-Overlay out (IsSound out) (note-IsSound out) e.overlay_path)
                  (λ s h. h) (λ b s h. h.0) (λ x s h. h))
              (λ _. Triple-pure _ (λ s h. h)))
            λ b.
              Triple-bind _ _ (mark-IsSound out id VmState.destroyed) λ _. Triple-pure _ (λ s h. h)
    where
      ran : (args : List String) → Keeps (IsSound out) (run out "virsh" args)
      ran args =
          Triple-weaken _ (run-Noted out (IsSound out) (note-IsSound out) "virsh" args) (λ s h. h)
            (λ a s h. h.0) (λ x s h. h.0)

  destroy-IsSound : (id : ℕ) → Keeps (IsSound out) (destroy out id)
  unfolding destroy
  destroy-IsSound id = Triple-bind {Q = λ _. IsSound out} _ _ (Triple-gets _ (λ s h. h)) λ found.
      Triple-bind {Q = λ _. IsSound out} _ _ (Triple-lift _ (λ a _ s h. h) (λ e _ s h. h))
        λ e. destroy_entry-IsSound id e

  after-IsSound :
      (op : Operation) (s : LibvirtController) → IsSound out s → IsSound out (after op s)
  unfolding list gets
  after-IsSound (Operation.provisions req) s h = Triple-final _ s (provision-IsSound out req) h
  after-IsSound (Operation.starts id) s h = Triple-final _ s (start-IsSound id) h
  after-IsSound (Operation.shuts_down id mode) s h = Triple-final _ s (shutdown-IsSound id mode) h
  after-IsSound (Operation.destroys id) s h = Triple-final _ s (destroy-IsSound id) h
  after-IsSound (Operation.asks id) s h = Triple-final _ s (state-IsSound id) h
  after-IsSound Operation.lists s h = h

  untracked : (e : Entry) → none ≡ some e → ⊥
  untracked e h = cc

  -- In every state that a sequence of operations comes to from a controller without machines,
  -- whatever the tools answer: each machine that is tracked stands under its own identifier and was
  -- provisioned from a request that validates, that is, one with every isolation guarantee on and,
  -- for a browser, a read-only root; the rendering of this very request was written to a file, and
  -- `virsh define` of that file succeeded; and the machine has the request's domain name, role and
  -- overlay.
  pub tracked-IsSound : (s : LibvirtController) → Reachable s → IsSound out s
  unfolding lookup
  tracked-IsSound _ initially = λ id e h. absurd (untracked e h)
  tracked-IsSound _ (then_after op r) = after-IsSound op _ (tracked-IsSound _ r)
