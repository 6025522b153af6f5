-- ===== src/Core/Preflight/Checklist.antt =====
-- `IpObservation`, `ProtectionStatus` and `ConnectivityChecklist` of
-- crates/aegis-core/src/preflight.rs
pub mod Verdict
use aegis_private_browser.Prelude.{
  Bool, true, false, not, ◌||◌, List, [], Option, String, all, find, filter, if◌then◌else◌,
}
use aegis_private_browser.Core.Preflight.Checks.{CheckId, all_checks, eq, is_pass}
use aegis_private_browser.Core.Preflight.Report.{CheckReport}

pub record IpObservation : Type 0 where
  pub ip : String
  pub via_tunnel : Bool
  pub differs_from_host : Bool

pub data ProtectionStatus : Type 0 where
  active partial unsafe none : ProtectionStatus

abbrev pub status_permits_browsing : ProtectionStatus → Bool
status_permits_browsing ProtectionStatus.active = true
status_permits_browsing _ = false

pub record ConnectivityChecklist : Type 0 where
  pub reports : List CheckReport
  pub observed_ip : Option IpObservation

abbrev pub new : List CheckReport → ConnectivityChecklist
new reports = record { reports = reports; observed_ip = Option.none }

unfoldable pub report : ConnectivityChecklist → CheckId → Option CheckReport
report c id = find (λ r. eq r.id id) c.reports

-- `.map(|r| r.outcome.is_pass()).unwrap_or(false)`
abbrev pub passed_or_false : Option CheckReport → Bool
passed_or_false Option.none = false
passed_or_false (Option.some r) = is_pass r.outcome

abbrev pub passed : ConnectivityChecklist → CheckId → Bool
passed c id = passed_or_false (report c id)

unfoldable pub all_passed : ConnectivityChecklist → Bool
all_passed c = all (passed c) all_checks

unfoldable pub failures : ConnectivityChecklist → List CheckId
failures c = filter (λ id. not (passed c id)) all_checks

unfoldable pub status : ConnectivityChecklist → ProtectionStatus
unfolding all_passed
status c =
    if all_passed c
    then ProtectionStatus.active
    else if not (passed c CheckId.gateway_ready) || not (passed c CheckId.tunnel_ready)
    then ProtectionStatus.none
    else ProtectionStatus.unsafe

unfoldable pub permits_browsing : ConnectivityChecklist → Bool
unfolding status
permits_browsing c = status_permits_browsing (status c)
