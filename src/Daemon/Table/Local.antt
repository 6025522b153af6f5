-- ===== src/Daemon/Table/Local.antt =====
-- Actions on one session: they leave every other session's entry as it is, and the session keeps
-- its entry with the same lease.
pub mod Driving
use aegis_private_browser.Prelude.{
  ◌≡◌, refl, ap, ◌∙◌, ℕ, ◌==◌, ==_refl, Bool, true, false, List, [], ◌∷◌, Option, none, some,
  Result, ok, err, lookup, insert, lookup-insert, nat_eq, if◌then◌else◌,
}
use aegis_private_browser.Prelude.Exec.{pure, raise, lift, gets, ignore, ◌>>=◌, ◌>>◌}
use aegis_private_browser.Prelude.Exec.Moves.{
  IsPreorder, Moves, Moves-pure, Moves-raise, Moves-lift, Moves-gets, Moves-bind, Moves-ignore,
  Moves-if,
}
use aegis_private_browser.Core.Error.{Error}
use aegis_private_browser.Core.Browser.{BrowserLaunchRequest, BrowserHandle}
use aegis_private_browser.Core.Config.{AppConfig}
use aegis_private_browser.Core.Events.{AuditRecord}
use aegis_private_browser.Core.Preflight.Report.{CheckReport}
use aegis_private_browser.Core.Preflight.Checklist.{permits_browsing}
use aegis_private_browser.Core.Profile.{Profile}
use aegis_private_browser.Core.Session.{SessionState, can_transition_to}
use aegis_private_browser.Core.Vm.{VmRole}
use aegis_private_browser.Daemon.Calls.{Backend, Call, Capabilities, ProfileLease}
use aegis_private_browser.Daemon.HostProxy.{HostProxy}
use aegis_private_browser.Daemon.Orchestrator.{
  move, transition, set_vm, with_vm, set_browser_handle, set_found,
}
use aegis_private_browser.Daemon.Sessions.{drive}
use aegis_private_browser.Daemon.Start.{
  provision_vm, audit_reports, prepare, launch_browser, finish, drive_start, with_checklist,
}
use aegis_private_browser.Daemon.StartHost.{probe_proxy, drive_start_host}
use aegis_private_browser.Daemon.State.{
  SessionEntry, Orchestrator, Action, ask, audit, audit_state, put, update, update_found,
}

abbrev pub Holds : ℕ → ProfileLease → Orchestrator → Type 0
Holds id lease s = (e : SessionEntry) × (lookup id s.sessions ≡ some e) × (e.lease ≡ lease)

pub record Local (id : ℕ) (s t : Orchestrator) : Type 0 where
  pub others : (j : ℕ) → (id == j) ≡ false → lookup j t.sessions ≡ lookup j s.sessions
  pub held : (lease : ProfileLease) → Holds id lease s → Holds id lease t

pub Local-IsPreorder : (id : ℕ) → IsPreorder (Local id)
Local-IsPreorder id = record {
  same = λ s. record { others = λ j h. refl; held = λ l h. h };
  trans = λ s t u g h. record {
    others = λ j k. h.others j k ∙ g.others j k;
    held = λ l k. h.held l (g.held l k);
  };
}

-- A log entry is nothing to the table.
Local-same : (id : ℕ) (s t : Orchestrator) → t.sessions ≡ s.sessions → Local id s t
Local-same id s t h = record {
  others = λ j k. ap (lookup j) h;
  held = λ l k. (k.0, ap (lookup id) h ∙ k.1, k.2);
}

abbrev KeepsLease : (SessionEntry → SessionEntry) → Type 0
KeepsLease f = (e : SessionEntry) → (f e).lease ≡ e.lease

pub Local-put :
    (id : ℕ) (f : SessionEntry → SessionEntry) (s t : Orchestrator) (e : SessionEntry)
    → KeepsLease f
    → lookup id s.sessions ≡ some e
    → t.sessions ≡ insert id (f e) s.sessions
    → Local id s t
Local-put id f s t e keeps found h = record {
  others = λ j k.
      ap (lookup j) h
      ∙ lookup-insert id j (f e) s.sessions
      ∙ ap (λ b. if b then some (f e) else lookup j s.sessions) k;
  held = λ l k. (
    f e,
    ap (lookup id) h
        ∙ lookup-insert id id (f e) s.sessions
        ∙ ap (λ b. if b then some (f e) else lookup id s.sessions) (==_refl id),
    keeps e ∙ cc (found, k.1, k.2),
  );
}

module _ (id : ℕ) where
  abbrev pub IsLocal : {A : Type 0} → Action A → Type 0
  IsLocal m = Moves (Local id) m

  pub ask-IsLocal :
      {A : Type 0} (answer : List Call → Result A Error) (call : Result A Error → Call)
      → IsLocal (ask answer call)
  unfolding ask
  ask-IsLocal answer call = record { at = λ s. Local-same id s _ refl }

  pub audit-IsLocal : (caps : Capabilities) (r : AuditRecord) → IsLocal (audit caps r)
  unfolding audit ask ignore
  audit-IsLocal caps r = record { at = λ s. Local-same id s _ refl }

  update_found-Local :
      (f : SessionEntry → SessionEntry) (o : Option SessionEntry) (s : Orchestrator)
      → KeepsLease f
      → lookup id s.sessions ≡ o
      → Local id s (update_found id f o s)
  update_found-Local f none s k h = (Local-IsPreorder id).same s
  update_found-Local f (some e) s k h = Local-put id f s _ e k h refl

  pub update-IsLocal : (f : SessionEntry → SessionEntry) → KeepsLease f → IsLocal (update id f)
  unfolding update
  update-IsLocal f k = record { at = λ s. update_found-Local f (lookup id s.sessions) s k refl }

  set_found-Local :
      (f : SessionEntry → SessionEntry) (o : Option SessionEntry) (s : Orchestrator)
      → KeepsLease f
      → lookup id s.sessions ≡ o
      → Local id s (set_found id f o s).1
  set_found-Local f none s k h = (Local-IsPreorder id).same s
  set_found-Local f (some e) s k h = Local-put id f s _ e k h refl

  pub set_vm-IsLocal : (role : VmRole) (vm : ℕ) → IsLocal (set_vm id role vm)
  unfolding set_vm
  set_vm-IsLocal VmRole.gateway vm = record {
    at = λ s. set_found-Local _ (lookup id s.sessions) s (λ e. refl) refl;
  }
  set_vm-IsLocal VmRole.browser vm = record {
    at = λ s. set_found-Local _ (lookup id s.sessions) s (λ e. refl) refl;
  }

  pub set_browser_handle-IsLocal : (h : BrowserHandle) → IsLocal (set_browser_handle id h)
  unfolding set_browser_handle
  set_browser_handle-IsLocal h = record {
    at = λ s. set_found-Local _ (lookup id s.sessions) s (λ e. refl) refl;
  }

  move-Local :
      (caps : Capabilities) (next : SessionState) (o : Option SessionEntry) (s : Orchestrator)
      → lookup id s.sessions ≡ o
      → Local id s (move caps id next o s).1
  unfolding audit ask ignore
  move-Local caps next none s h = (Local-IsPreorder id).same s
  move-Local caps next (some e) s h = checked (can_transition_to e.state next)
    where
      checked :
          (b : Bool)
          → Local id s
              (if b
                then audit_state caps id e.profile next (put id (record e { state = next }) s)
                else (err Error.internal, s)).1
      checked true = Local-put id (λ e. record e { state = next }) s _ e (λ e. refl) h refl
      checked false = (Local-IsPreorder id).same s

  pub transition-IsLocal :
      (caps : Capabilities) (next : SessionState) → IsLocal (transition caps id next)
  unfolding transition
  transition-IsLocal caps next = record {
    at = λ s. move-Local caps next (lookup id s.sessions) s refl;
  }
