-- ===== src/Gateway/Runner.antt =====
-- `Command` and `CommandOutput` of crates/gateway-controller/src/runner.rs. A runner is any function
-- of what was run before; an exit status is a number from 0 to 255.
use aegis_private_browser.Prelude.{ℕ, ◌==◌, Bool, false, Option, none, some, List, String, Result}
use aegis_private_browser.Core.Error.{Error}

pub record Command : Type 0 where
  pub program : String
  pub args : List String
  pub stdin : Option String

abbrev pub command : String → List String → Command
command program args = record { program = program; args = args; stdin = none }

abbrev pub with_stdin : Command → String → Command
with_stdin c text = record c { stdin = some text }

pub record CommandOutput : Type 0 where
  pub code : Option ℕ
  pub stdout : String
  pub stderr : String

abbrev is_zero : Option ℕ → Bool
is_zero none = false
is_zero (some n) = n == 0

abbrev pub success : CommandOutput → Bool
success out = is_zero out.code

-- What was run, the latest first, each command with its outcome.
abbrev pub History : Type 0
History = List (Command × Result CommandOutput Error)

abbrev pub Runner : Type 0
Runner = History → Command → Result CommandOutput Error
