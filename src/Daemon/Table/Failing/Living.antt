-- ===== src/Daemon/Table/Failing/Living.antt =====
-- A drive that returns has left the session browsing, with a browser in its entry.
use aegis_private_browser.Prelude.{
  ◌≡◌, ◌≢◌, refl, sym, ap, ◌∙◌, ℕ, ==_refl, Bool, true, false, Option, none, some, List, Result, ok,
  err, lookup, lookup-insert, nat_eq, if◌then◌else◌,
}
use aegis_private_browser.Prelude.Exec.{ignore, ◌>>=◌}
use aegis_private_browser.Prelude.Exec.Triple.{
  Triple, Post, Triple-raise, Triple-bind, Triple-gets, Triple-lift, Triple-if,
}
use aegis_private_browser.Core.Error.{Error}
use aegis_private_browser.Core.Browser.{BrowserHandle, BrowserLaunchRequest}
use aegis_private_browser.Core.Config.{AppConfig}
use aegis_private_browser.Core.Events.{AuditRecord}
use aegis_private_browser.Core.Profile.{Profile}
use aegis_private_browser.Core.Session.{SessionState, SessionSummary, can_transition_to}
use aegis_private_browser.Daemon.Calls.{Backend, Call, Capabilities}
use aegis_private_browser.Daemon.Orchestrator.{move, transition, set_browser_handle, set_found}
use aegis_private_browser.Daemon.Sessions.{drive}
use aegis_private_browser.Daemon.Table.Failing.{IsLive, Summarises}
use aegis_private_browser.Daemon.Start.{launch_browser, finish, found_summary, drive_start}
use aegis_private_browser.Daemon.StartHost.{drive_start_host}
use aegis_private_browser.Daemon.State.{
  SessionEntry, Orchestrator, Action, ask, audit, audit_state, put, summary,
}

abbrev pub Lives : ℕ → Orchestrator → Type 0
Lives id s = (e : SessionEntry) × IsLive id e s

abbrev pub Anything : Orchestrator → Type 0
Anything s = Unit

abbrev pub Failing : Error → Orchestrator → Type 0
Failing e s = Unit

abbrev HasBrowser : ℕ → Orchestrator → Type 0
HasBrowser id s = (e : SessionEntry) × (lookup id s.sessions ≡ some e) × (e.browser_handle ≢ none)

stored : (id : ℕ) (e : SessionEntry) (s : Orchestrator) → lookup id (put id e s).sessions ≡ some e
stored id e s =
    lookup-insert id id e s.sessions
    ∙ ap (λ b. if b then some e else lookup id s.sessions) (==_refl id)

-- Whatever comes before.
module _ {A B : Type 0} {Q : B → Orchestrator → Type 0} where
  whatever :
      (m : Action A) (f : A → Action B)
      → ((a : A) → Triple Anything (f a) Q Failing)
      → Triple Anything (m >>= f) Q Failing
  whatever m f k =
      Triple-bind {Q = λ _. Anything} m f (record { at = λ s h. anyhow (m s).0 (m s).1 }) k
    where
      anyhow : (r : Result A Error) (s : Orchestrator) → Post (λ _. Anything) Failing r s
      anyhow (ok a) s = tt
      anyhow (err e) s = tt

module _ (caps : Capabilities) (id : ℕ) where
  setting :
      (h : BrowserHandle) → Triple Anything (set_browser_handle id h) (λ _. HasBrowser id) Failing
  unfolding set_browser_handle
  setting h = record { at = λ s k. found (lookup id s.sessions) s }
    where
      with_handle : SessionEntry → SessionEntry
      with_handle e = record e { browser_handle = some h }

      found :
          (o : Option SessionEntry) (s : Orchestrator)
          → Post
              (λ _. HasBrowser id)
              Failing
              (set_found id with_handle o s).0
              (set_found id with_handle o s).1
      found none s = tt
      found (some e) s = (with_handle e, stored id (with_handle e) s, λ n. cc)

  asking :
      {A : Type 0} (answer : List Call → Result A Error) (call : Result A Error → Call)
      → Triple (HasBrowser id) (ask answer call) (λ _. HasBrowser id) Failing
  unfolding ask
  asking {A} answer call = record { at = λ s h. either (answer s.log) _ h }
    where
      either :
          (r : Result A Error) (t : Orchestrator)
          → HasBrowser id t
          → Post (λ _. HasBrowser id) Failing r t
      either (ok a) t h = h
      either (err e) t h = tt

  browsing :
      Triple (HasBrowser id) (transition caps id SessionState.browsing) (λ _. Lives id) Failing
  unfolding transition audit ask ignore
  browsing = record { at = λ s h. found (lookup id s.sessions) s h refl }
    where
      checked :
          (b : Bool) (e : SessionEntry) (s : Orchestrator)
          → e.browser_handle ≢ none
          → Post
              (λ _. Lives id)
              Failing
              (if b
                then audit_state caps id e.profile SessionState.browsing
                    (put id (record e { state = SessionState.browsing }) s)
                else (err Error.internal, s)).0
              (if b
                then audit_state caps id e.profile SessionState.browsing
                    (put id (record e { state = SessionState.browsing }) s)
                else (err Error.internal, s)).1
      checked true e s h = (
        record e { state = SessionState.browsing },
        (stored id (record e { state = SessionState.browsing }) s, refl, h),
      )
      checked false e s h = tt

      found :
          (o : Option SessionEntry) (s : Orchestrator)
          → HasBrowser id s
          → lookup id s.sessions ≡ o
          → Post
              (λ _. Lives id)
              Failing
              (move caps id SessionState.browsing o s).0
              (move caps id SessionState.browsing o s).1
      found none s h k = tt
      found (some e) s h k =
          let same : h.0 ≡ e = cc (h.1, k) in
          checked (can_transition_to e.state SessionState.browsing) e s
            (λ n. h.2 (ap (λ (x : SessionEntry). x.browser_handle) same ∙ n))

  launching :
      (backend : Backend) (req : BrowserLaunchRequest)
      → Triple Anything (launch_browser caps id backend req) (λ _. Lives id) Failing
  unfolding launch_browser
  launching backend req = whatever _ _ λ bundle. whatever _ _ λ _. whatever _ _ λ handle.
      Triple-bind _ _ (setting handle) λ _.
        Triple-bind _ _ (asking _ _)
          λ alive. Triple-if alive _ _ (λ _. browsing) (λ _. Triple-raise _ (λ s h. tt))

  -- A call whose answer is dropped.
  dropping :
      {A : Type 0} (answer : List Call → Result A Error) (call : Result A Error → Call)
      → Triple (Lives id) (ignore (ask answer call)) (λ _. Lives id) Failing
  unfolding ask ignore
  dropping answer call = record { at = λ s h. h }

  auditing : (r : AuditRecord) → Triple (Lives id) (audit caps r) (λ _. Lives id) Failing
  unfolding audit
  auditing r = dropping (λ l. caps.audit l r) (Call.audit r)

  finishing : (p : Profile) → Triple (Lives id) (finish caps id p) (Summarises id) Failing
  unfolding finish
  finishing p =
      Triple-bind _ _ (dropping (λ l. caps.touch_launch l p.id) (Call.touch_launch p.id)) λ _.
        Triple-bind {Q = λ o s. Lives id s × (o ≡ lookup id s.sessions)} _ _
          (Triple-gets _ (λ s h. (h, refl)))
          λ o.
            Triple-lift _ (λ a e s h. (h.0.0, h.0.1, answered o a h.0.0 (h.1 ∙ h.0.1.0) e))
              (λ x e s h. tt)
    where
      answered :
          (o : Option SessionEntry) (a : SessionSummary) (e : SessionEntry)
          → o ≡ some e
          → found_summary id o ≡ ok a
          → a ≡ summary id e
      answered o a e h k = cc (ap (found_summary id) (sym h) ∙ k)

  starting :
      (config : AppConfig) (p : Profile)
      → Triple Anything (drive_start caps config id p) (Summarises id) Failing
  unfolding drive_start
  starting config p =
      whatever _ _
        λ c. whatever _ _ λ _. Triple-bind _ _ (launching Backend.guest _) λ _. finishing p

  starting_host :
      (config : AppConfig) (p : Profile)
      → Triple Anything (drive_start_host caps config id p) (Summarises id) Failing
  unfolding drive_start_host
  starting_host config p = whatever _ _ λ backend. whatever _ _ λ proxy. whatever _ _ λ _.
      whatever _ _ λ _. whatever _ _ λ _.
        Triple-bind _ _ (launching backend _) λ _. Triple-bind _ _ (auditing _) λ _. finishing p

  pub drive-Summarises :
      (config : AppConfig) (host : Bool) (p : Profile)
      → Triple Anything (drive caps config host id p) (Summarises id) Failing
  unfolding drive
  drive-Summarises config host p =
      Triple-if host _ _ (λ _. starting_host config p) (λ _. starting config p)
