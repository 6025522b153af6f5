-- ===== src/Daemon/Trace/Quiet.antt =====
-- Actions that launch nothing: they add to the trace, and what it allowed it still allows.
use aegis_private_browser.Prelude.{◌≡◌, inr, Bool, true, false, List, ◌∷◌, Result, nat_eq}
use aegis_private_browser.Prelude.Exec.{pure, raise, lift, gets, ◌>>=◌}
use aegis_private_browser.Prelude.Exec.Moves.{
  IsPreorder, Moves, Moves-pure, Moves-raise, Moves-lift, Moves-gets, Moves-bind,
}
use aegis_private_browser.Core.Error.{Error}
use aegis_private_browser.Daemon.Calls.{Call}
use aegis_private_browser.Daemon.State.{Orchestrator, Action, ask}
use aegis_private_browser.Daemon.Trace.{Some, LaunchIsSafe, IsSafe}

abbrev pub is_launch : Call → Bool
is_launch (Call.launch _ _ _ _) = true
is_launch _ = false

pub data Grows (l : List Call) : List Call → Type 0 where
  same : Grows l l
  more : {l' : List Call} (c : Call) → is_launch c ≡ false → Grows l l' → Grows l (c ∷ l')

pub Grows-trans : {l k m : List Call} → Grows l k → Grows k m → Grows l m
Grows-trans g same = g
Grows-trans g (more c q h) = more c q (Grows-trans g h)

is_launch-LaunchIsSafe : (c : Call) (l : List Call) → is_launch c ≡ false → LaunchIsSafe c l
is_launch-LaunchIsSafe (Call.launch _ _ _ _) l h = cc
is_launch-LaunchIsSafe _ l h = tt

pub Grows-IsSafe : {l k : List Call} → Grows l k → IsSafe l → IsSafe k
Grows-IsSafe same h = h
Grows-IsSafe (more {l' = l'} c q g) h = (is_launch-LaunchIsSafe c l' q, Grows-IsSafe g h)

pub Grows-Some : (P : Call → Type 0) {l k : List Call} → Grows l k → Some P l → Some P k
Grows-Some P same h = h
Grows-Some P (more c q g) h = inr (Grows-Some P g h)

abbrev pub Extends : Orchestrator → Orchestrator → Type 0
Extends s t = Grows s.log t.log

pub grows_order : IsPreorder Extends
grows_order = record { same = λ s. same; trans = λ s t u g h. Grows-trans g h }

abbrev pub IsQuiet : {A : Type 0} → Action A → Type 0
IsQuiet m = Moves Extends m

module _ {A : Type 0} where
  pub pure-IsQuiet : (a : A) → IsQuiet (pure {S = Orchestrator} {E = Error} a)
  pure-IsQuiet a = Moves-pure grows_order a

  pub raise-IsQuiet : (e : Error) → IsQuiet (raise {S = Orchestrator} {A = A} e)
  raise-IsQuiet e = Moves-raise grows_order e

  pub lift-IsQuiet : (r : Result A Error) → IsQuiet (lift {S = Orchestrator} r)
  lift-IsQuiet r = Moves-lift grows_order r

  pub gets-IsQuiet : (f : Orchestrator → A) → IsQuiet (gets {E = Error} f)
  gets-IsQuiet f = Moves-gets grows_order f

  pub ask-IsQuiet :
      (answer : List Call → Result A Error) (call : Result A Error → Call)
      → ((r : Result A Error) → is_launch (call r) ≡ false)
      → IsQuiet (ask answer call)
  unfolding ask
  ask-IsQuiet answer call h = record {
    at = λ s. more (call (answer s.log)) (h (answer s.log)) same;
  }

module _ {A B : Type 0} where
  pub bind-IsQuiet :
      (m : Action A) (f : A → Action B) → IsQuiet m → ((a : A) → IsQuiet (f a)) → IsQuiet (m >>= f)
  bind-IsQuiet m f km kf = Moves-bind grows_order m f km kf
