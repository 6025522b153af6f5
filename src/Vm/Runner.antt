-- ===== src/Vm/Runner.antt =====
-- `CommandOutput` and `CommandRunner` of crates/vm-controller/src/runner.rs, and what else the
-- controller reaches: the file with the definition, whether an overlay exists, and fresh values.
use aegis_private_browser.Prelude.{ℕ, ◌==◌, Bool, false, Option, none, some, List, String, Result}
use aegis_private_browser.Prelude.Text.{trim}
use aegis_private_browser.Core.Error.{Error}
use aegis_private_browser.Vm.Xml.{Naming}

pub record CommandOutput : Type 0 where
  pub status : Option ℕ
  pub stdout : String
  pub stderr : String

abbrev is_zero : Option ℕ → Bool
is_zero none = false
is_zero (some n) = n == 0

abbrev pub success : CommandOutput → Bool
success out = is_zero out.status

unfoldable pub stdout_trimmed : CommandOutput → String
unfolding trim
stdout_trimmed out = trim out.stdout

-- What was done outside, with what was answered.
pub data Event : Type 0 where
  ran : (program : String) (args : List String) → Result CommandOutput Error → Event
  wrote : (path text : String) → Bool → Event
  removed : (path : String) → Event
  looked : (path : String) → Bool → Event

-- The answers, each a function of what was done before. `writes` says whether the file with the
-- definition is written; `fresh` is a new identifier, `mac` a random MAC address.
pub record Outside : Type 0 where
  pub runs : List Event → String → List String → Result CommandOutput Error
  pub writes : List Event → String → Bool
  pub exists : List Event → String → Bool
  pub fresh : List Event → ℕ
  pub mac : List Event → Bool → String
  pub temp_dir : String
  pub naming : Naming
