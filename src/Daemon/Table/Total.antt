-- ===== src/Daemon/Table/Total.antt =====
-- Actions that never fail and that do one thing to the session table.
use aegis_private_browser.Prelude.{
  ◌≡◌, refl, ap, ◌∙◌, ℕ, ==_refl, lookup-insert, insert-insert, List, Option, none, some, Result,
  lookup, insert, nat_eq, if◌then◌else◌,
}
use aegis_private_browser.Prelude.Exec.{pure, ignore, attempt, ◌>>=◌}
use aegis_private_browser.Prelude.Exec.Triple.{Triple, Triple-pure, Triple-bind}
use aegis_private_browser.Core.Error.{Error}
use aegis_private_browser.Core.Events.{AuditRecord}
use aegis_private_browser.Daemon.Calls.{Call, Capabilities}
use aegis_private_browser.Daemon.State.{
  SessionEntry, Orchestrator, Action, ask, audit, update, update_found,
}
use aegis_private_browser.Daemon.Table.{change, change_found}

abbrev pub Table : Type 0
Table = List (ℕ × SessionEntry)

abbrev pub Has : Table → Orchestrator → Type 0
Has t s = s.sessions ≡ t

-- From the one table to the other, and never an error.
abbrev pub Turns : {A : Type 0} → Table → Action A → Table → Type 0
Turns t m u = Triple (Has t) m (λ _. Has u) (λ _ _. ⊥)

module _ {A B : Type 0} {t u v : Table} where
  pub Turns-bind :
      (m : Action A) (f : A → Action B)
      → Turns t m u
      → ((a : A) → Turns u (f a) v)
      → Turns t (m >>= f) v
  Turns-bind m f km kf = Triple-bind m f km kf

module _ {A : Type 0} {t : Table} where
  pub Turns-pure : (a : A) → Turns t (pure a) t
  Turns-pure a = Triple-pure a (λ s h. h)

  pub Turns-ignore-ask :
      (answer : List Call → Result A Error) (call : Result A Error → Call)
      → Turns t (ignore (ask answer call)) t
  unfolding ask ignore
  Turns-ignore-ask answer call = record { at = λ s h. h }

  pub Turns-attempt-ask :
      (answer : List Call → Result A Error) (call : Result A Error → Call)
      → Turns t (attempt (ask answer call)) t
  unfolding ask attempt
  Turns-attempt-ask answer call = record { at = λ s h. h }

pub Turns-audit : {t : Table} (caps : Capabilities) (r : AuditRecord) → Turns t (audit caps r) t
unfolding audit ask ignore
Turns-audit caps r = record { at = λ s h. h }

update_found-sessions :
    (id : ℕ) (f : SessionEntry → SessionEntry) (o : Option SessionEntry) (s : Orchestrator)
    → (update_found id f o s).sessions ≡ change_found id f o s.sessions
update_found-sessions id f none s = refl
update_found-sessions id f (some e) s = refl

pub Turns-update :
    {t : Table} (id : ℕ) (f : SessionEntry → SessionEntry) → Turns t (update id f) (change id f t)
unfolding update
Turns-update {t} id f = record {
  at = λ s h. update_found-sessions id f (lookup id s.sessions) s ∙ ap (change id f) h;
}

-- Of two changes to one entry, the later over the earlier.
pub change-change :
    (id : ℕ) (f g : SessionEntry → SessionEntry) (t : Table)
    → change id g (change id f t) ≡ change id (λ e. g (f e)) t
change-change id f g t = by_found (lookup id t) refl
  where
    by_found :
        (o : Option SessionEntry)
        → lookup id t ≡ o
        → change id g (change_found id f o t) ≡ change_found id (λ e. g (f e)) o t
    by_found none h = ap (λ o. change_found id g o t) h
    by_found (some e) h =
        ap (λ o. change_found id g o (insert id (f e) t))
          (lookup-insert id id (f e) t
            ∙ ap (λ b. if b then some (f e) else lookup id t) (==_refl id))
        ∙ insert-insert id (f e) (g (f e)) t
