-- ===== src/Tests/Sample.antt =====
-- Concrete inputs: capabilities that answer every call, a profile, a checklist.
use aegis_private_browser.Prelude.{ℕ, true, false, none, [], ◌∷◌, map, ok}
use aegis_private_browser.Core.Browser.{BrowserBackendId}
use aegis_private_browser.Core.Config.{IsolationLevel, default_config}
use aegis_private_browser.Core.Gateway.{KillSwitchState, tunnel_up}
use aegis_private_browser.Core.Preflight.Checks.{all_checks}
use aegis_private_browser.Core.Preflight.Report
use aegis_private_browser.Core.Preflight.Checklist
use aegis_private_browser.Core.Preflight.Checklist.{ConnectivityChecklist}
use aegis_private_browser.Core.Profile.{Profile, ephemeral_spec}
use aegis_private_browser.Core.Vm.{VmState}
use aegis_private_browser.Daemon.Calls.{Capabilities}
use aegis_private_browser.Daemon.State.{Orchestrator}
use aegis_private_browser.Daemon.Sessions.{new}

abbrev pub all_pass : ConnectivityChecklist
all_pass = Checklist.new (map (λ id. Report.pass id "ok") all_checks)

abbrev pub profile_at : ℕ → Profile
profile_at id = record {
  id = id;
  spec = ephemeral_spec "work";
  created_at = 0;
  last_launched = none;
  storage = 0;
  locked = false;
}

-- A profile that asks for a host process.
abbrev pub on_host : ℕ → Profile
on_host id = record (profile_at id) {
  spec = record (ephemeral_spec "work") { isolation = IsolationLevel.host_process };
}

abbrev pub answering : (ℕ → Profile) → Capabilities
answering profile = record {
  get_profile = λ l id. ok (profile id);
  acquire_lock = λ l id. ok (record { profile = id; token = "token" });
  release_lock = λ l lease. ok tt;
  touch_launch = λ l id. ok tt;
  generate_key = λ l. ok 11;
  provision = λ l req. ok (record {
    id = 21;
    instance_id = req.instance_id;
    role = req.role;
    domain_name = "domain";
    state = VmState.defined;
  });
  start = λ l vm. ok tt;
  shutdown = λ l vm mode. ok tt;
  destroy = λ l vm. ok (record { id = vm; overlay_shredded = true; domain_undefined = true });
  configure = λ l cfg. ok tt;
  apply_firewall = λ l policy. ok tt;
  engage_killswitch = λ l. ok tt;
  health = λ l. ok (record {
    gateway_up = true;
    firewall_applied = true;
    tunnel = tunnel_up;
    killswitch = KillSwitchState.armed;
  });
  run_preflight = λ l ctx. ok all_pass;
  proxy_reachable = λ l host port. ok true;
  render_policy = λ l backend req. ok (record {
    backend = BrowserBackendId.chromium;
    managed_policies = [];
    command_line = "--incognito" ∷ [];
    preferences = [];
  });
  launch = λ l backend req bundle. ok (record {
    session = req.session;
    backend = BrowserBackendId.chromium;
    process_token = "4711";
  });
  is_running = λ l backend handle. ok true;
  terminate = λ l backend handle. ok tt;
  remove_dir_all = λ l dir. ok tt;
  audit = λ l r. ok tt;
  host_browser = true;
  host_browser_path = none;
  host_browser_firefox = false;
  new_session_id = λ l. 3;
  new_instance_id = λ l. 5;
  instance_slug = λ id. "vm-5";
  profile_text = λ id. "7";
  host_proxy_variable = none;
}

abbrev pub caps : Capabilities
caps = answering profile_at

abbrev pub empty : Orchestrator
empty = new default_config
