-- ===== src/Daemon/Trace/Steps.antt =====
-- The orchestrator's own steps launch nothing, but for the one that launches.
use aegis_private_browser.Prelude.{
  refl, ℕ, Bool, true, false, List, [], ◌∷◌, Option, none, some, err, lookup, nat_eq, if◌then◌else◌,
}
use aegis_private_browser.Prelude.Exec.Moves.{Moves-ignore, Moves-if}
use aegis_private_browser.Core.Error.{Error}
use aegis_private_browser.Core.Browser.{BrowserHandle}
use aegis_private_browser.Core.Config.{AppConfig}
use aegis_private_browser.Core.Events.{AuditRecord}
use aegis_private_browser.Core.Preflight.Report.{CheckReport}
use aegis_private_browser.Core.Profile.{Profile}
use aegis_private_browser.Core.Session.{SessionState, can_transition_to}
use aegis_private_browser.Core.Vm.{VmRole}
use aegis_private_browser.Daemon.Calls.{Capabilities}
use aegis_private_browser.Daemon.State
use aegis_private_browser.Daemon.State.{
  SessionMode, SessionEntry, Orchestrator, Action, ask, audit, audit_state, update, update_found,
}
use aegis_private_browser.Daemon.Orchestrator.{
  move, transition, cut_traffic, fail_closed, set_vm, set_browser_handle, set_found,
}
use aegis_private_browser.Daemon.Start.{provision_vm, audit_reports, finish}
use aegis_private_browser.Daemon.Trace.Quiet.{
  same, more, Extends, IsQuiet, pure-IsQuiet, lift-IsQuiet, gets-IsQuiet, ask-IsQuiet, bind-IsQuiet,
}

pub audit-IsQuiet : (caps : Capabilities) (r : AuditRecord) → IsQuiet (audit caps r)
unfolding audit
audit-IsQuiet caps r = record { at = λ s. more _ refl same }

pub update-IsQuiet : (id : ℕ) (f : SessionEntry → SessionEntry) → IsQuiet (update id f)
unfolding update
update-IsQuiet id f = record { at = λ s. found (lookup id s.sessions) s }
  where
    found : (o : Option SessionEntry) (s : Orchestrator) → Extends s (update_found id f o s)
    found none s = same
    found (some e) s = same

pub transition-IsQuiet :
    (caps : Capabilities) (id : ℕ) (next : SessionState) → IsQuiet (transition caps id next)
unfolding transition audit
transition-IsQuiet caps id next = record { at = λ s. found (lookup id s.sessions) s }
  where
    checked :
        (b : Bool) (e : SessionEntry) (s : Orchestrator)
        → Extends s
            (if b
              then audit_state caps id e.profile next (State.put id (record e { state = next }) s)
              else (err Error.internal, s)).1
    checked true e s = more _ refl same
    checked false e s = same

    found : (o : Option SessionEntry) (s : Orchestrator) → Extends s (move caps id next o s).1
    found none s = same
    found (some e) s = checked (can_transition_to e.state next) e s

set_found-IsQuiet :
    (id : ℕ) (f : SessionEntry → SessionEntry) (o : Option SessionEntry) (s : Orchestrator)
    → Extends s (set_found id f o s).1
set_found-IsQuiet id f none s = same
set_found-IsQuiet id f (some e) s = same

pub set_vm-IsQuiet : (id : ℕ) (role : VmRole) (vm : ℕ) → IsQuiet (set_vm id role vm)
unfolding set_vm
set_vm-IsQuiet id role vm = record { at = λ s. set_found-IsQuiet id _ (lookup id s.sessions) s }

pub set_browser_handle-IsQuiet : (id : ℕ) (h : BrowserHandle) → IsQuiet (set_browser_handle id h)
unfolding set_browser_handle
set_browser_handle-IsQuiet id h = record {
  at = λ s. set_found-IsQuiet id _ (lookup id s.sessions) s;
}

pub audit_reports-IsQuiet :
    (caps : Capabilities) (id profile : ℕ) (rs : List CheckReport)
    → IsQuiet (audit_reports caps id profile rs)
unfolding audit_reports
audit_reports-IsQuiet caps id profile [] = pure-IsQuiet tt
audit_reports-IsQuiet caps id profile (r ∷ rs) =
    bind-IsQuiet _ _ (audit-IsQuiet caps _) (λ _. audit_reports-IsQuiet caps id profile rs)

pub provision_vm-IsQuiet :
    (caps : Capabilities) (config : AppConfig) (id : ℕ) (role : VmRole)
    → IsQuiet (provision_vm caps config id role)
unfolding provision_vm
provision_vm-IsQuiet caps config id role = bind-IsQuiet _ _ (gets-IsQuiet _) λ i.
    bind-IsQuiet _ _ (ask-IsQuiet _ _ (λ _. refl))
      λ h. bind-IsQuiet _ _ (set_vm-IsQuiet id role _) λ _. pure-IsQuiet h

pub finish-IsQuiet : (caps : Capabilities) (id : ℕ) (p : Profile) → IsQuiet (finish caps id p)
unfolding finish
finish-IsQuiet caps id p =
    bind-IsQuiet _ _ (Moves-ignore _ (ask-IsQuiet _ _ (λ _. refl)))
      λ _. bind-IsQuiet _ _ (gets-IsQuiet _) λ found. lift-IsQuiet _

pub cut_traffic-IsQuiet :
    (caps : Capabilities) (session : Option ℕ) (e : Error) → IsQuiet (cut_traffic caps session e)
unfolding cut_traffic
cut_traffic-IsQuiet caps session e =
    bind-IsQuiet _ _ (Moves-ignore _ (ask-IsQuiet _ _ (λ _. refl))) λ _.
      bind-IsQuiet _ _ (gets-IsQuiet _)
        λ _. bind-IsQuiet _ _ (audit-IsQuiet caps _) λ _. audit-IsQuiet caps _

pub fail_closed-IsQuiet :
    (caps : Capabilities) (session : Option ℕ) (e : Error) → IsQuiet (fail_closed caps session e)
unfolding fail_closed
fail_closed-IsQuiet caps session e =
    Moves-if _ _ _ (bind-IsQuiet _ _ (cut_traffic-IsQuiet caps session e) (λ _. pure-IsQuiet e))
      (pure-IsQuiet e)
