-- ===== src/Daemon/Table/Failing/Releasing.antt =====
-- The teardown gives the session's lock back.
use aegis_private_browser.Prelude.{◌≡◌, refl, inl, ℕ, Bool, Option, none, some, lookup, nat_eq}
use aegis_private_browser.Prelude.Exec.{ignore, ◌>>=◌}
use aegis_private_browser.Prelude.Exec.Triple.{Triple, Triple-bind, Triple-gets, Triple-weaken}
use aegis_private_browser.Prelude.Exec.Moves.{Moves-Keeps}
use aegis_private_browser.Core.Vm.{VmRole}
use aegis_private_browser.Daemon.Calls.{Call, Capabilities, ProfileLease}
use aegis_private_browser.Daemon.State.{SessionEntry, Orchestrator, Action, ask}
use aegis_private_browser.Daemon.Teardown.{release_all, release_found, teardown}
use aegis_private_browser.Daemon.Table.Ending.{
  Turns-terminate_browser, Turns-remove_user_data, Turns-destroy_vm,
}
use aegis_private_browser.Daemon.Table.{change}
use aegis_private_browser.Daemon.Table.Failing.{Releases}
use aegis_private_browser.Daemon.Table.Local.{Holds}
use aegis_private_browser.Daemon.Table.Total.{Table, Has, Turns, Turns-update}
use aegis_private_browser.Daemon.Trace.{Some}
use aegis_private_browser.Daemon.Trace.Quiet.{Grows-Some, IsQuiet}
use aegis_private_browser.Daemon.Trace.Steps.{audit-IsQuiet, update-IsQuiet}

module _ (lease : ProfileLease) where
  abbrev pub Released : Orchestrator → Type 0
  Released s = Some (Releases lease) s.log

  quiet-Released :
      {A : Type 0} (m : Action A) → IsQuiet m → Triple Released m (λ _. Released) (λ _. Released)
  quiet-Released m q = Moves-Keeps m q (λ s t g h. Grows-Some (Releases lease) g h)

  -- What comes before the release never fails.
  before :
      {A B : Type 0} {t : Table} (m : Action A) (f : A → Action B)
      → Turns t m t
      → ((a : A) → Triple (Has t) (f a) (λ _. Released) (λ _. Released))
      → Triple (Has t) (m >>= f) (λ _. Released) (λ _. Released)
  before m f k kf =
      Triple-bind m f (Triple-weaken m k (λ s h. h) (λ a s h. h) (λ e s h. absurd h)) kf

  module _ (caps : Capabilities) (id : ℕ) (mark_failed : Bool) where
    releasing :
        {t : Table} (l : ProfileLease)
        → l ≡ lease
        → Triple
            (Has t)
            (ignore (ask (λ k. caps.release_lock k l) (Call.release_lock l)))
            (λ _. Released)
            (λ _. Released)
    unfolding ask ignore
    releasing l h = record { at = λ s k. inl h }

    release_all-Released :
        (t : Table) (e : SessionEntry)
        → e.lease ≡ lease
        → Triple (Has t) (release_all caps id mark_failed e) (λ _. Released) (λ _. Released)
    unfolding release_all
    release_all-Released t e h =
        before _ _ (Turns-terminate_browser caps e.mode e.browser_handle) λ _.
          before _ _ (Turns-remove_user_data caps e.mode) λ _.
            before _ _ (Turns-destroy_vm caps id e.profile VmRole.browser e.browser_vm) λ _.
              before _ _ (Turns-destroy_vm caps id e.profile VmRole.gateway e.gateway_vm) λ _.
                Triple-bind _ _ (releasing e.lease h) λ _.
                  Triple-bind _ _ (quiet-Released _ (audit-IsQuiet caps _))
                    λ _. quiet-Released _ (update-IsQuiet id _)

    after_found :
        (e : SessionEntry)
        → e.lease ≡ lease
        → (t : Table)
        → Triple
            (Has t)
            (release_found caps id mark_failed (some e))
            (λ _. Released)
            (λ _. Released)
    after_found e h t =
        Triple-bind _ _
          (Triple-weaken _ (Turns-update id _) (λ s k. k) (λ a s k. k) (λ x s k. absurd k))
          λ _. release_all-Released (change id _ t) e h

    pub teardown-Released :
        Triple (Holds id lease) (teardown caps id mark_failed) (λ _. Released) (λ _. Released)
    unfolding teardown
    teardown-Released =
        Triple-bind {Q = λ o s. Holds id lease s × (lookup id s.sessions ≡ o)} _ _
          (Triple-gets _ (λ s h. (h, refl))) found
      where
        found :
            (o : Option SessionEntry)
            → Triple
                (λ s. Holds id lease s × (lookup id s.sessions ≡ o))
                (release_found caps id mark_failed o)
                (λ _. Released)
                (λ _. Released)
        found none = record { at = λ s h. absurd cc (h.0.1, h.1) }
        found (some e) = record {
          at = λ s h. (after_found e (cc (h.0.1, h.0.2, h.1)) s.sessions).at s refl;
        }
