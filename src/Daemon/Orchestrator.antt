-- ===== src/Daemon/Orchestrator.antt =====
-- The parts of crates/aegis-daemon/src/orchestrator.rs that starting and stopping share:
-- transitions, the fail-closed hinge, provision requests, launch requests and setters.
use Prim.Native.Char.{code}
use aegis_private_browser.Prelude.{
  ℕ, ◌==◌, Bool, true, false, ◌||◌, Option, none, some, List, String, Result, ok, err, lookup,
  nat_eq, if◌then◌else◌,
}
use aegis_private_browser.Prelude.Text.{◌+s◌}
use aegis_private_browser.Prelude.Exec.{pure, gets, ignore, ◌>>=◌, ◌>>◌}
use aegis_private_browser.Core.Error
use aegis_private_browser.Core.Error.{Error}
use aegis_private_browser.Core.Browser.{BrowserBackendId, BrowserHandle, BrowserLaunchRequest}
use aegis_private_browser.Core.Config.{AppConfig, RenderMode}
use aegis_private_browser.Core.Events
use aegis_private_browser.Core.Events.{AuditRecord, Severity, EventKind, with_session, with_profile}
use aegis_private_browser.Core.Fingerprint.{policy}
use aegis_private_browser.Core.Gateway.{GatewayConfig}
use aegis_private_browser.Core.Network.{NetworkConfig, NetworkMode}
use aegis_private_browser.Core.Profile.{Profile}
use aegis_private_browser.Core.Session.{SessionState, can_transition_to}
use aegis_private_browser.Core.Vm.{
  VmRole, VmProvisionRequest, VmResources, GpuBackend, hardened, gateway_resources,
  browser_resources,
}
use aegis_private_browser.Daemon.Calls.{Backend, Call, Capabilities}
use aegis_private_browser.Daemon.State.{SessionEntry, Action, ask, audit, audit_state, put}

abbrev pub move : Capabilities → ℕ → SessionState → Option SessionEntry → Action (Unit {0})
move caps id next none s = (err Error.not_found, s)
move caps id next (some e) s =
    if can_transition_to e.state next
    then audit_state caps id e.profile next (put id (record e { state = next }) s)
    else (err Error.internal, s)

unfoldable pub transition : Capabilities → ℕ → SessionState → Action (Unit {0})
transition caps id next s = move caps id next (lookup id s.sessions) s

abbrev pub with_found : Option SessionEntry → AuditRecord → AuditRecord
with_found none r = r
with_found (some e) r = with_profile r e.profile

abbrev pub with_context : Option ℕ → List (ℕ × SessionEntry) → AuditRecord → AuditRecord
with_context none sessions r = r
with_context (some id) sessions r = with_found (lookup id sessions) (with_session r id)

unfoldable pub cut_traffic : Capabilities → Option ℕ → Error → Action (Unit {0})
cut_traffic caps session e = do
  ignore (ask caps.engage_killswitch Call.engage_killswitch)
  sessions ← gets (λ s. s.sessions)
  audit caps (
      with_context session sessions
        (Events.new Severity.critical (EventKind.fail_closed (Error.class e))))
  audit caps (Events.new Severity.critical (EventKind.kill_switch "engaged"))

-- The error comes back unchanged; for a containment or isolation failure traffic is cut first.
unfoldable pub fail_closed : Capabilities → Option ℕ → Error → Action Error
unfolding cut_traffic
fail_closed caps session e =
    if Error.requires_killswitch e then (cut_traffic caps session e >> pure e) else pure e

abbrev pub ends_with_slash : String → Bool
ends_with_slash String.[] = false
ends_with_slash (String.◌∷◌ c String.[]) = code c == b'/'
ends_with_slash (String.◌∷◌ c s) = ends_with_slash s

abbrev pub is_empty : String → Bool
is_empty String.[] = true
is_empty (String.◌∷◌ _ _) = false

-- `Path::join` with a relative name.
unfoldable pub join : String → String → String
join dir name = if is_empty dir || ends_with_slash dir then dir +s name else dir +s "/" +s name

abbrev pub gateway_base_image : AppConfig → String
gateway_base_image c = elim c.images [
  | some i ↦ i.gateway.path
  | none ↦ join c.paths.images_dir "gateway-base.qcow2"
]

abbrev pub browser_base_image : AppConfig → String
browser_base_image c = elim c.images [
  | some i ↦ i.browser.path
  | none ↦ join c.paths.images_dir "browser-base.qcow2"
]

abbrev pub base_image : AppConfig → VmRole → String
base_image c VmRole.gateway = gateway_base_image c
base_image c VmRole.browser = browser_base_image c

abbrev pub resources : VmRole → VmResources
resources VmRole.gateway = gateway_resources
resources VmRole.browser = browser_resources

-- `instance` is the fresh `InstanceId`.
unfoldable pub provision_request : Capabilities → AppConfig → VmRole → ℕ → VmProvisionRequest
provision_request caps c role instance_id = record {
  instance_id = instance_id;
  role = role;
  resources = resources role;
  disk = record {
    backing_image = base_image c role;
    overlay_path = join c.paths.runtime_dir (caps.instance_slug instance_id +s "-overlay.qcow2");
    destroy_on_close = true;
    read_only_root = true;
  };
  gpu = GpuBackend.virtio_gpu;
  isolation = hardened;
  isolated_network = c.network_prefix +s "-net";
}

unfoldable pub gateway_config : NetworkConfig → GatewayConfig
gateway_config network = record {
  mode = network.mode;
  dns = network.dns;
  ipv6 = network.ipv6;
  downstream_cidr = "10.152.152.0/24";
  gateway_address = "10.152.152.1";
}

abbrev pub guest_proxy : NetworkMode → String → String
guest_proxy (NetworkMode.tor _) address = "socks5://" +s address +s ":9050"
guest_proxy _ address = "socks5://" +s address +s ":1080"

unfoldable pub browser_launch_request : ℕ → Profile → GatewayConfig → BrowserLaunchRequest
browser_launch_request session p gw = record {
  session = session;
  profile = p.id;
  user_data_dir = "/home/user/.aegis/profile";
  fingerprint = policy p.spec.protection;
  permissions = p.spec.permissions;
  proxy_endpoint = guest_proxy gw.mode gw.gateway_address;
  render_mode = RenderMode.software;
  production = true;
}

unfoldable pub host_backend_for : Capabilities → BrowserBackendId → Result Backend Error
host_backend_for caps BrowserBackendId.chromium =
    if caps.host_browser then ok Backend.host_chromium else err Error.config
host_backend_for caps BrowserBackendId.firefox =
    if caps.host_browser_firefox then ok Backend.host_firefox else err Error.config

-- A setter's entry must be there.
abbrev pub set_found : ℕ → (SessionEntry → SessionEntry) → Option SessionEntry → Action (Unit {0})
set_found id f none s = (err Error.internal, s)
set_found id f (some e) s = (ok tt, put id (f e) s)

abbrev pub with_vm : VmRole → ℕ → SessionEntry → SessionEntry
with_vm VmRole.gateway vm e = record e { gateway_vm = some vm }
with_vm VmRole.browser vm e = record e { browser_vm = some vm }

unfoldable pub set_vm : ℕ → VmRole → ℕ → Action (Unit {0})
set_vm id role vm s = set_found id (with_vm role vm) (lookup id s.sessions) s

unfoldable pub set_browser_handle : ℕ → BrowserHandle → Action (Unit {0})
set_browser_handle id handle s =
    set_found id (λ e. record e { browser_handle = some handle }) (lookup id s.sessions) s
