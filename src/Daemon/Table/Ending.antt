-- ===== src/Daemon/Table/Ending.antt =====
-- What the teardown leaves in the session table.
use aegis_private_browser.Prelude.{if◌then◌else◌}
use aegis_private_browser.Prelude.{
  ◌≡◌, refl, ap, ◌∙◌, ℕ, Bool, true, false, Option, none, some, Result, ok, err, lookup, nat_eq,
}
use aegis_private_browser.Prelude.Exec.Triple.{
  Post, Triple-pure, Triple-bind, Triple-gets, Triple-weaken,
}
use aegis_private_browser.Core.Session.{SessionState}
use aegis_private_browser.Core.Error.{Error}
use aegis_private_browser.Core.Vm.{VmRole, DestroyReport}
use aegis_private_browser.Core.Browser.{BrowserHandle}
use aegis_private_browser.Daemon.Calls.{Backend, Capabilities}
use aegis_private_browser.Daemon.State.{SessionMode, SessionEntry, Orchestrator}
use aegis_private_browser.Daemon.Teardown.{
  terminate_browser, terminate_by, backend_of, report_destroyed, remove_user_data, destroy_vm,
  release_all, release_found, teardown, ended,
}
use aegis_private_browser.Daemon.Table.{change, change_found, cleared}
use aegis_private_browser.Daemon.Table.Total.{
  Table, Has, Turns, Turns-bind, Turns-pure, Turns-ignore-ask, Turns-attempt-ask, Turns-audit,
  Turns-update, change-change,
}

module _ {t : Table} (caps : Capabilities) where
  Turns-terminate_by :
      (r : Result Backend Error) (h : BrowserHandle) → Turns t (terminate_by caps r h) t
  Turns-terminate_by (ok b) h = Turns-ignore-ask _ _
  Turns-terminate_by (err e) h = Turns-pure tt

  pub Turns-terminate_browser :
      (mode : SessionMode) (h : Option BrowserHandle) → Turns t (terminate_browser caps mode h) t
  unfolding terminate_browser
  Turns-terminate_browser mode none = Turns-pure tt
  Turns-terminate_browser mode (some h) = Turns-terminate_by (backend_of caps mode) h

  pub Turns-remove_user_data : (mode : SessionMode) → Turns t (remove_user_data caps mode) t
  unfolding remove_user_data
  Turns-remove_user_data SessionMode.full_vm = Turns-pure tt
  Turns-remove_user_data (SessionMode.host_process dir true engine) = Turns-ignore-ask _ _
  Turns-remove_user_data (SessionMode.host_process dir false engine) = Turns-pure tt

  Turns-report_destroyed :
      (id profile : ℕ) (role : VmRole) (r : Result DestroyReport Error)
      → Turns t (report_destroyed caps id profile role r) t
  Turns-report_destroyed id profile role (ok r) = Turns-audit caps _
  Turns-report_destroyed id profile role (err e) = Turns-pure tt

  pub Turns-destroy_vm :
      (id profile : ℕ) (role : VmRole) (vm : Option ℕ)
      → Turns t (destroy_vm caps id profile role vm) t
  unfolding destroy_vm
  Turns-destroy_vm id profile role none = Turns-pure tt
  Turns-destroy_vm id profile role (some vm) =
      Turns-bind _ _ (Turns-ignore-ask _ _)
        λ _. Turns-bind _ _ (Turns-attempt-ask _ _) (Turns-report_destroyed id profile role)

  Turns-release_all :
      (id : ℕ) (mark_failed : Bool) (e : SessionEntry)
      → Turns t (release_all caps id mark_failed e) (change id (ended mark_failed) t)
  unfolding release_all
  Turns-release_all id mark_failed e =
      Turns-bind _ _ (Turns-terminate_browser e.mode e.browser_handle) λ _.
        Turns-bind _ _ (Turns-remove_user_data e.mode) λ _.
          Turns-bind _ _ (Turns-destroy_vm id e.profile VmRole.browser e.browser_vm) λ _.
            Turns-bind _ _ (Turns-destroy_vm id e.profile VmRole.gateway e.gateway_vm) λ _.
              Turns-bind _ _ (Turns-ignore-ask _ _)
                λ _. Turns-bind _ _ (Turns-audit caps _) λ _. Turns-update id (ended mark_failed)

module _ (caps : Capabilities) where
  Turns-release_found :
      (t : Table) (id : ℕ) (mark_failed : Bool) (o : Option SessionEntry)
      → o ≡ lookup id t
      → Turns t (release_found caps id mark_failed o) (change id (ended mark_failed) t)
  Turns-release_found t id mark_failed none h =
      Triple-pure tt (λ s k. k ∙ ap (λ o. change_found id (ended mark_failed) o t) h)
  Turns-release_found t id mark_failed (some e) h =
      Triple-weaken _
        (Turns-bind _ _ (Turns-update id _) (λ _. Turns-release_all caps id mark_failed e))
        (λ s k. k) (λ a s k. k ∙ change-change id _ (ended mark_failed) t) (λ e s k. k)

  pub Turns-teardown :
      (t : Table) (id : ℕ) (mark_failed : Bool)
      → Turns t (teardown caps id mark_failed) (change id (ended mark_failed) t)
  unfolding teardown
  Turns-teardown t id mark_failed =
      Triple-bind {Q = λ o s. Has t s × (o ≡ lookup id t)} _ _
        (Triple-gets _ (λ s h. (h, ap (lookup id) h)))
        λ o. record { at = λ s h. (Turns-release_found t id mark_failed o h.1).at s h.0 }

-- Whatever the capabilities answer, the teardown returns and the session's entry, if the table has
-- it, ends `failed` or `destroyed` as asked, with no machine and no browser left in it; the rest of
-- the entry and the other sessions' entries are as before.
pub teardown_lem :
    (caps : Capabilities) (id : ℕ) (mark_failed : Bool) (s : Orchestrator)
    → ((teardown caps id mark_failed s).0 ≡ ok tt)
      × ((teardown caps id mark_failed s).1.sessions
          ≡ change id
              (cleared (if mark_failed then SessionState.failed else SessionState.destroyed))
              s.sessions)
teardown_lem caps id mark_failed s =
    returned _ _ ((Turns-teardown caps s.sessions id mark_failed).at s refl)
  where
    returned :
        (r : Result (Unit {0}) Error) (s' : Orchestrator)
        → Post (λ _. Has (change id (ended mark_failed) s.sessions)) (λ _ _. ⊥) r s'
        → (r ≡ ok tt) × (s'.sessions ≡ change id (ended mark_failed) s.sessions)
    returned (ok a) s' h = (refl, h)
    returned (err e) s' h = absurd h
