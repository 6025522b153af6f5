-- ===== src/Daemon/Table/Local/Driving.antt =====
-- Driving a session, on the machines or as a host process, is an action on that session.
use aegis_private_browser.Prelude.{refl, ℕ, Bool, List, [], ◌∷◌, nat_eq}
use aegis_private_browser.Prelude.Exec.{◌>>=◌}
use aegis_private_browser.Prelude.Exec.Moves.{
  Moves-pure, Moves-raise, Moves-lift, Moves-gets, Moves-bind, Moves-ignore, Moves-if,
}
use aegis_private_browser.Core.Browser.{BrowserLaunchRequest}
use aegis_private_browser.Core.Config.{AppConfig}
use aegis_private_browser.Core.Preflight.Report.{CheckReport}
use aegis_private_browser.Core.Preflight.Checklist.{permits_browsing}
use aegis_private_browser.Core.Profile.{Profile}
use aegis_private_browser.Core.Vm.{VmRole}
use aegis_private_browser.Daemon.Calls.{Backend, Capabilities}
use aegis_private_browser.Daemon.HostProxy.{HostProxy}
use aegis_private_browser.Daemon.Sessions.{drive}
use aegis_private_browser.Daemon.Start.{
  provision_vm, audit_reports, prepare, launch_browser, finish, drive_start, with_checklist,
}
use aegis_private_browser.Daemon.StartHost.{probe_proxy, drive_start_host}
use aegis_private_browser.Daemon.State.{Action}
use aegis_private_browser.Daemon.StartHost.{reduced}
use aegis_private_browser.Daemon.Table.Local.{
  Local-IsPreorder, IsLocal, ask-IsLocal, audit-IsLocal, update-IsLocal, set_vm-IsLocal,
  set_browser_handle-IsLocal, transition-IsLocal,
}

module _ (id : ℕ) where
  then_Local :
      {A B : Type 0} (m : Action A) (f : A → Action B)
      → IsLocal id m
      → ((a : A) → IsLocal id (f a))
      → IsLocal id (m >>= f)
  then_Local m f km kf = Moves-bind (Local-IsPreorder id) m f km kf

  audit_reports-IsLocal :
      (caps : Capabilities) (profile : ℕ) (rs : List CheckReport)
      → IsLocal id (audit_reports caps id profile rs)
  unfolding audit_reports
  audit_reports-IsLocal caps profile [] = Moves-pure (Local-IsPreorder id) tt
  audit_reports-IsLocal caps profile (r ∷ rs) =
      then_Local _ _ (audit-IsLocal id caps _) (λ _. audit_reports-IsLocal caps profile rs)

  provision_vm-IsLocal :
      (caps : Capabilities) (config : AppConfig) (role : VmRole)
      → IsLocal id (provision_vm caps config id role)
  unfolding provision_vm
  provision_vm-IsLocal caps config role = then_Local _ _ (Moves-gets (Local-IsPreorder id) _) λ i.
      then_Local _ _ (ask-IsLocal id _ _)
        λ h. then_Local _ _ (set_vm-IsLocal id role _) λ _. Moves-pure (Local-IsPreorder id) h

  prepare-IsLocal :
      (caps : Capabilities) (config : AppConfig) (p : Profile)
      → IsLocal id (prepare caps config id p)
  unfolding prepare
  prepare-IsLocal caps config p = then_Local _ _ (transition-IsLocal id caps _) λ _.
      then_Local _ _ (provision_vm-IsLocal caps config _) λ gw.
        then_Local _ _ (provision_vm-IsLocal caps config _) λ br.
          then_Local _ _ (transition-IsLocal id caps _) λ _.
            then_Local _ _ (ask-IsLocal id _ _) λ _. then_Local _ _ (ask-IsLocal id _ _) λ _.
              then_Local _ _ (ask-IsLocal id _ _) λ _. then_Local _ _ (ask-IsLocal id _ _) λ _.
                then_Local _ _ (transition-IsLocal id caps _) λ _.
                  then_Local _ _ (ask-IsLocal id _ _) λ c.
                    then_Local _ _ (audit_reports-IsLocal caps _ _) λ _.
                      then_Local _ _ (update-IsLocal id (with_checklist c) (λ e. refl))
                        λ _. Moves-pure (Local-IsPreorder id) c

  launch_browser-IsLocal :
      (caps : Capabilities) (backend : Backend) (req : BrowserLaunchRequest)
      → IsLocal id (launch_browser caps id backend req)
  unfolding launch_browser
  launch_browser-IsLocal caps backend req = then_Local _ _ (ask-IsLocal id _ _) λ bundle.
      then_Local _ _ (Moves-lift (Local-IsPreorder id) _) λ _.
        then_Local _ _ (ask-IsLocal id _ _) λ handle.
          then_Local _ _ (set_browser_handle-IsLocal id _) λ _.
            then_Local _ _ (ask-IsLocal id _ _) λ alive.
              Moves-if alive _ _ (transition-IsLocal id caps _)
                (Moves-raise (Local-IsPreorder id) _)

  finish-IsLocal : (caps : Capabilities) (p : Profile) → IsLocal id (finish caps id p)
  unfolding finish
  finish-IsLocal caps p = then_Local _ _ (Moves-ignore _ (ask-IsLocal id _ _)) λ _.
      then_Local _ _ (Moves-gets (Local-IsPreorder id) _)
        λ found. Moves-lift (Local-IsPreorder id) _

  drive_start-IsLocal :
      (caps : Capabilities) (config : AppConfig) (p : Profile)
      → IsLocal id (drive_start caps config id p)
  unfolding drive_start
  drive_start-IsLocal caps config p = then_Local _ _ (prepare-IsLocal caps config p) λ c.
      then_Local _ _
        (Moves-if (permits_browsing c) _ _ (Moves-pure (Local-IsPreorder id) tt)
          (Moves-raise (Local-IsPreorder id) _))
        λ _. then_Local _ _ (launch_browser-IsLocal caps _ _) λ _. finish-IsLocal caps p

  probe_proxy-IsLocal :
      (caps : Capabilities) (p : Profile) (proxy : HostProxy)
      → IsLocal id (probe_proxy caps id p proxy)
  unfolding probe_proxy
  probe_proxy-IsLocal caps p proxy = then_Local _ _ (transition-IsLocal id caps _) λ _.
      then_Local _ _ (transition-IsLocal id caps _) λ _.
        then_Local _ _ (transition-IsLocal id caps _) λ _.
          then_Local _ _ (ask-IsLocal id _ _) λ reachable.
            then_Local _ _
              (Moves-if reachable _ _ (Moves-pure (Local-IsPreorder id) tt)
                (Moves-raise (Local-IsPreorder id) _))
              λ _. audit-IsLocal id caps _

  drive_start_host-IsLocal :
      (caps : Capabilities) (config : AppConfig) (p : Profile)
      → IsLocal id (drive_start_host caps config id p)
  unfolding drive_start_host
  drive_start_host-IsLocal caps config p =
      then_Local _ _ (Moves-lift (Local-IsPreorder id) _) λ backend.
        then_Local _ _ (Moves-lift (Local-IsPreorder id) _) λ proxy.
          then_Local _ _ (probe_proxy-IsLocal caps p proxy) λ _.
            then_Local _ _ (update-IsLocal id reduced (λ e. refl)) λ _.
              then_Local _ _ (update-IsLocal id _ (λ e. refl)) λ _.
                then_Local _ _ (launch_browser-IsLocal caps backend _)
                  λ _. then_Local _ _ (audit-IsLocal id caps _) λ _. finish-IsLocal caps p

  pub drive-IsLocal :
      (caps : Capabilities) (config : AppConfig) (host : Bool) (p : Profile)
      → IsLocal id (drive caps config host id p)
  unfolding drive
  drive-IsLocal caps config host p =
      Moves-if host _ _ (drive_start_host-IsLocal caps config p) (drive_start-IsLocal caps config p)
