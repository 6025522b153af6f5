-- ===== src/Daemon/Calls.antt =====
-- The capabilities that the orchestrator is given (`Capabilities` of
-- crates/aegis-daemon/src/orchestrator.rs, the traits of crates/aegis-core/src/traits.rs).
-- A capability is any function of the calls that were made before: each call is written down with
-- its answer. What the operating system and the uuid library give is a parameter too.
use aegis_private_browser.Prelude.{ℕ, Bool, Option, List, String, Result}
use aegis_private_browser.Core.Error.{Error}
use aegis_private_browser.Core.Browser.{BrowserLaunchRequest, BackendPolicyBundle, BrowserHandle}
use aegis_private_browser.Core.Events.{AuditRecord}
use aegis_private_browser.Core.Gateway.{GatewayConfig, FirewallPolicy, GatewayHealth}
use aegis_private_browser.Core.Network.{DnsPolicy, Ipv6Policy}
use aegis_private_browser.Core.Preflight.Checklist.{ConnectivityChecklist}
use aegis_private_browser.Core.Profile.{Profile}
use aegis_private_browser.Core.Vm.{VmProvisionRequest, VmHandle, DestroyReport}

pub record ProfileLease : Type 0 where
  pub profile : ℕ
  pub token : String

pub data ShutdownMode : Type 0 where
  graceful forced : ShutdownMode

pub record PreflightContext : Type 0 where
  pub session : ℕ
  pub gateway_address : String
  pub mode_label : String
  pub dns : DnsPolicy
  pub ipv6 : Ipv6Policy
  pub webrtc_policy_installed : Bool
  pub host_public_ip : Option String

-- The three browser backends: in the guest, and on the host one for each engine.
pub data Backend : Type 0 where
  guest host_chromium host_firefox : Backend

pub data Call : Type 0 where
  get_profile : ℕ → Result Profile Error → Call
  acquire_lock : ℕ → Result ProfileLease Error → Call
  release_lock : ProfileLease → Result (Unit {0}) Error → Call
  touch_launch : ℕ → Result (Unit {0}) Error → Call
  generate_key : Result ℕ Error → Call
  provision : VmProvisionRequest → Result VmHandle Error → Call
  start : ℕ → Result (Unit {0}) Error → Call
  shutdown : ℕ → ShutdownMode → Result (Unit {0}) Error → Call
  destroy : ℕ → Result DestroyReport Error → Call
  configure : GatewayConfig → Result (Unit {0}) Error → Call
  apply_firewall : FirewallPolicy → Result (Unit {0}) Error → Call
  engage_killswitch : Result (Unit {0}) Error → Call
  health : Result GatewayHealth Error → Call
  run_preflight : PreflightContext → Result ConnectivityChecklist Error → Call
  proxy_reachable : (host : String) (port : ℕ) → Result Bool Error → Call
  render_policy : Backend → BrowserLaunchRequest → Result BackendPolicyBundle Error → Call
  launch : Backend → BrowserLaunchRequest → BackendPolicyBundle → Result BrowserHandle Error → Call
  is_running : Backend → BrowserHandle → Result Bool Error → Call
  terminate : Backend → BrowserHandle → Result (Unit {0}) Error → Call
  remove_dir_all : String → Result (Unit {0}) Error → Call
  audit : AuditRecord → Result (Unit {0}) Error → Call

-- The answers, for any history of calls, the latest first.
pub record Capabilities : Type 0 where
  pub get_profile : List Call → ℕ → Result Profile Error
  pub acquire_lock : List Call → ℕ → Result ProfileLease Error
  pub release_lock : List Call → ProfileLease → Result (Unit {0}) Error
  pub touch_launch : List Call → ℕ → Result (Unit {0}) Error
  pub generate_key : List Call → Result ℕ Error
  pub provision : List Call → VmProvisionRequest → Result VmHandle Error
  pub start : List Call → ℕ → Result (Unit {0}) Error
  pub shutdown : List Call → ℕ → ShutdownMode → Result (Unit {0}) Error
  pub destroy : List Call → ℕ → Result DestroyReport Error
  pub configure : List Call → GatewayConfig → Result (Unit {0}) Error
  pub apply_firewall : List Call → FirewallPolicy → Result (Unit {0}) Error
  pub engage_killswitch : List Call → Result (Unit {0}) Error
  pub health : List Call → Result GatewayHealth Error
  pub run_preflight : List Call → PreflightContext → Result ConnectivityChecklist Error
  pub proxy_reachable : List Call → String → ℕ → Result Bool Error
  pub render_policy : List Call → Backend → BrowserLaunchRequest → Result BackendPolicyBundle Error
  pub launch :
      List Call → Backend → BrowserLaunchRequest → BackendPolicyBundle → Result BrowserHandle Error
  pub is_running : List Call → Backend → BrowserHandle → Result Bool Error
  pub terminate : List Call → Backend → BrowserHandle → Result (Unit {0}) Error
  pub remove_dir_all : List Call → String → Result (Unit {0}) Error
  pub audit : List Call → AuditRecord → Result (Unit {0}) Error
  -- which host browsers were located when the daemon was wired
  pub host_browser : Bool
  pub host_browser_path : Option String
  pub host_browser_firefox : Bool
  -- fresh identifiers, and the texts of identifiers
  pub new_session_id : List Call → ℕ
  pub new_instance_id : List Call → ℕ
  pub instance_slug : ℕ → String
  pub profile_text : ℕ → String
  -- the environment variable AEGIS_HOST_PROXY
  pub host_proxy_variable : Option String
