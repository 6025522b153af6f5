-- ===== src/Core/Preflight/Report.antt =====
-- `CheckReport` of crates/aegis-core/src/preflight.rs
use aegis_private_browser.Prelude.{String}
use aegis_private_browser.Core.Preflight.Checks.{CheckId, CheckOutcome}

pub record CheckReport : Type 0 where
  pub id : CheckId
  pub outcome : CheckOutcome
  pub detail : String

abbrev pub pass : CheckId → String → CheckReport
pass id detail = record { id = id; outcome = CheckOutcome.pass; detail = detail }

abbrev pub fail : CheckId → String → CheckReport
fail id detail = record { id = id; outcome = CheckOutcome.fail; detail = detail }

abbrev pub skipped : CheckId → String → CheckReport
skipped id detail = record { id = id; outcome = CheckOutcome.skipped; detail = detail }
