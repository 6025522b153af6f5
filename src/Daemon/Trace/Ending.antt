-- ===== src/Daemon/Trace/Ending.antt =====
-- The teardown launches nothing.
use aegis_private_browser.Prelude.{refl, ℕ, Bool, Option, none, some, Result, ok, err}
use aegis_private_browser.Prelude.Exec.Moves.{Moves-ignore, Moves-attempt, Moves-if}
use aegis_private_browser.Core.Error.{Error}
use aegis_private_browser.Core.Browser.{BrowserHandle}
use aegis_private_browser.Core.Vm.{VmRole, DestroyReport}
use aegis_private_browser.Daemon.Calls.{Backend, Capabilities}
use aegis_private_browser.Daemon.State.{SessionMode, SessionEntry}
use aegis_private_browser.Daemon.Teardown.{
  terminate_browser, terminate_by, backend_of, report_destroyed, remove_user_data, destroy_vm,
  release_all, release_found, teardown,
}
use aegis_private_browser.Daemon.Trace.Quiet.{
  IsQuiet, pure-IsQuiet, gets-IsQuiet, ask-IsQuiet, bind-IsQuiet,
}
use aegis_private_browser.Daemon.Trace.Steps.{audit-IsQuiet, update-IsQuiet}

terminate_by-IsQuiet :
    (caps : Capabilities) (r : Result Backend Error) (h : BrowserHandle)
    → IsQuiet (terminate_by caps r h)
terminate_by-IsQuiet caps (ok b) h = Moves-ignore _ (ask-IsQuiet _ _ (λ _. refl))
terminate_by-IsQuiet caps (err e) h = pure-IsQuiet tt

terminate_browser-IsQuiet :
    (caps : Capabilities) (mode : SessionMode) (h : Option BrowserHandle)
    → IsQuiet (terminate_browser caps mode h)
unfolding terminate_browser
terminate_browser-IsQuiet caps mode none = pure-IsQuiet tt
terminate_browser-IsQuiet caps mode (some h) = terminate_by-IsQuiet caps (backend_of caps mode) h

remove_user_data-IsQuiet :
    (caps : Capabilities) (mode : SessionMode) → IsQuiet (remove_user_data caps mode)
unfolding remove_user_data
remove_user_data-IsQuiet caps SessionMode.full_vm = pure-IsQuiet tt
remove_user_data-IsQuiet caps (SessionMode.host_process dir ephemeral engine) =
    Moves-if ephemeral _ _ (Moves-ignore _ (ask-IsQuiet _ _ (λ _. refl))) (pure-IsQuiet tt)

report_destroyed-IsQuiet :
    (caps : Capabilities) (id profile : ℕ) (role : VmRole) (r : Result DestroyReport Error)
    → IsQuiet (report_destroyed caps id profile role r)
report_destroyed-IsQuiet caps id profile role (ok r) = audit-IsQuiet caps _
report_destroyed-IsQuiet caps id profile role (err e) = pure-IsQuiet tt

destroy_vm-IsQuiet :
    (caps : Capabilities) (id profile : ℕ) (role : VmRole) (vm : Option ℕ)
    → IsQuiet (destroy_vm caps id profile role vm)
unfolding destroy_vm
destroy_vm-IsQuiet caps id profile role none = pure-IsQuiet tt
destroy_vm-IsQuiet caps id profile role (some vm) =
    bind-IsQuiet _ _ (Moves-ignore _ (ask-IsQuiet _ _ (λ _. refl))) λ _.
      bind-IsQuiet _ _ (Moves-attempt _ (ask-IsQuiet _ _ (λ _. refl)))
        (report_destroyed-IsQuiet caps id profile role)

release_all-IsQuiet :
    (caps : Capabilities) (id : ℕ) (mark_failed : Bool) (e : SessionEntry)
    → IsQuiet (release_all caps id mark_failed e)
unfolding release_all
release_all-IsQuiet caps id mark_failed e =
    bind-IsQuiet _ _ (terminate_browser-IsQuiet caps _ _) λ _.
      bind-IsQuiet _ _ (remove_user_data-IsQuiet caps _) λ _.
        bind-IsQuiet _ _ (destroy_vm-IsQuiet caps id _ _ _) λ _.
          bind-IsQuiet _ _ (destroy_vm-IsQuiet caps id _ _ _) λ _.
            bind-IsQuiet _ _ (Moves-ignore _ (ask-IsQuiet _ _ (λ _. refl)))
              λ _. bind-IsQuiet _ _ (audit-IsQuiet caps _) λ _. update-IsQuiet id _

release_found-IsQuiet :
    (caps : Capabilities) (id : ℕ) (mark_failed : Bool) (o : Option SessionEntry)
    → IsQuiet (release_found caps id mark_failed o)
release_found-IsQuiet caps id mark_failed none = pure-IsQuiet tt
release_found-IsQuiet caps id mark_failed (some e) =
    bind-IsQuiet _ _ (update-IsQuiet id _) (λ _. release_all-IsQuiet caps id mark_failed e)

pub teardown-IsQuiet :
    (caps : Capabilities) (id : ℕ) (mark_failed : Bool) → IsQuiet (teardown caps id mark_failed)
unfolding teardown
teardown-IsQuiet caps id mark_failed =
    bind-IsQuiet _ _ (gets-IsQuiet _) (release_found-IsQuiet caps id mark_failed)
