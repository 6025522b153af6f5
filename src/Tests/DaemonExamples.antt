-- ===== src/Tests/DaemonExamples.antt =====
-- The orchestrator's theorems at concrete inputs.
use aegis_private_browser.Prelude.{
  arith, String, ◌≡◌, refl, true, false, Option, none, some, Result, ok, err, lookup, nat_eq,
}
use aegis_private_browser.Core.Config.{default_config}
use aegis_private_browser.Core.Error.{Error, requires_killswitch}
use aegis_private_browser.Core.Network.{NetworkMode, TorConfig, ProxyConfig, default_tor}
use aegis_private_browser.Core.Session.{SessionState, SessionSummary}
use aegis_private_browser.Daemon.HostProxy.{HostProxy, host_proxy_endpoint, parse, scheme}
use aegis_private_browser.Daemon.HostProxy.Authority.{host_proxy_endpoint-text}
use aegis_private_browser.Prelude.Text.{◌+s◌}
use aegis_private_browser.Prelude.Decimal.{show}
use aegis_private_browser.Daemon.Reachable.{started, initially}
use aegis_private_browser.Daemon.Reachable.Launching.{launches_allowed}
use aegis_private_browser.Prelude.{insert}
use aegis_private_browser.Prelude.Exec.{pure, raise, lift, gets, ignore, attempt, ◌>>=◌}
use aegis_private_browser.Core.Browser.{assert_safe, assert_safe_args, is_forbidden}
use aegis_private_browser.Core.Network.{default_network, from_mode, default_dns_policy}
use aegis_private_browser.Core.Preflight.Checklist.{permits_browsing, status, all_passed, report}
use aegis_private_browser.Core.Profile.{ephemeral_spec}
use aegis_private_browser.Core.Session.{can_transition_to}
use aegis_private_browser.Daemon.Orchestrator.{fail_closed, cut_traffic}
use aegis_private_browser.Daemon.Orchestrator.{
  transition, set_vm, set_browser_handle, provision_request, gateway_config, host_backend_for,
  browser_launch_request,
}
use aegis_private_browser.Daemon.Start.{
  drive_start, prepare, provision_vm, launch_browser, audit_reports, finish,
}
use aegis_private_browser.Daemon.State.{update, audit, ask}
use aegis_private_browser.Daemon.Sessions.{acquire, run_session, drive, register, choose_mode}
use aegis_private_browser.Daemon.Sessions.{start_session, stop_session, summary_or_missing}
use aegis_private_browser.Daemon.State.{Orchestrator}
use aegis_private_browser.Daemon.Table.{change, cleared}
use aegis_private_browser.Daemon.Table.Ending.{teardown_lem}
use aegis_private_browser.Daemon.Table.Stopping.{stop_session_lem}
use aegis_private_browser.Daemon.Table.Gate.{start_session-gated, read_profile}
use aegis_private_browser.Daemon.Calls.{Capabilities}
use aegis_private_browser.Daemon.Table.Failing.{Outcome}
use aegis_private_browser.Daemon.Table.Failing.Outcomes.{start_session_lem}
use aegis_private_browser.Daemon.State.{SessionEntry}
use aegis_private_browser.Daemon.Teardown.{
  teardown, release_all, terminate_browser, remove_user_data, destroy_vm,
}
use aegis_private_browser.Daemon.Trace.{IsSafe}
use aegis_private_browser.Tests.Sample.{caps, answering, on_host, empty}

abbrev browsing : Orchestrator
browsing = (start_session caps default_config 7 empty).1

abbrev state_of : Result SessionSummary Error → Option SessionState
state_of (ok a) = some a.state
state_of (err e) = none

-- Starting reaches `browsing`, and stopping then `destroyed`.
start_test : state_of (start_session caps default_config 7 empty).0 ≡ some SessionState.browsing
unfolding start_session acquire run_session drive drive_start prepare provision_vm transition set_vm
    update launch_browser audit_reports finish register audit ask ignore attempt lift gets pure
    raise ◌>>=◌ choose_mode set_browser_handle assert_safe assert_safe_args is_forbidden
    permits_browsing status all_passed provision_request gateway_config lookup insert
    default_network from_mode can_transition_to ephemeral_spec report default_dns_policy
    host_backend_for browser_launch_request
start_test = refl

launches_allowed_example : IsSafe (start_session caps default_config 7 empty).1.log
launches_allowed_example = launches_allowed caps default_config _ (started 7 initially)

stop_session_example :
    ((stop_session caps 3 browsing).0
      ≡ summary_or_missing 3
          (lookup 3 (change 3 (cleared SessionState.destroyed) browsing.sessions)))
    × ((stop_session caps 3 browsing).1.sessions
        ≡ change 3 (cleared SessionState.destroyed) browsing.sessions)
stop_session_example = stop_session_lem caps 3 browsing

teardown_example :
    ((teardown caps 3 true browsing).0 ≡ ok tt)
    × ((teardown caps 3 true browsing).1.sessions
        ≡ change 3 (cleared SessionState.failed) browsing.sessions)
teardown_example = teardown_lem caps 3 true browsing

start_session-gated_example :
    ((start_session (answering on_host) default_config 7 empty).0 ≡ err Error.config)
    × ((start_session (answering on_host) default_config 7 empty).1
        ≡ read_profile 7 (on_host 7) empty)
start_session-gated_example =
    start_session-gated (answering on_host) default_config 7 empty (on_host 7) refl refl refl

abbrev default_proxy : HostProxy
default_proxy = record {
  endpoint = "socks5h://127.0.0.1:9050";
  probe_host = "127.0.0.1";
  probe_port = 9050;
}

default_proxy_found : host_proxy_endpoint none (NetworkMode.tor default_tor) ≡ ok default_proxy
unfolding host_proxy_endpoint parse
default_proxy_found = refl

host_proxy_endpoint-text_example :
    ((tor : TorConfig)
      → host_proxy_endpoint (some "socks5h://10.0.2.2:9150") (NetworkMode.tor tor)
        ≡ ok (record {
          endpoint = "socks5h://10.0.2.2:9150";
          probe_host = "10.0.2.2";
          probe_port = 9150;
        }))
    × ((variable : Option String) (cfg : ProxyConfig)
        → cfg.host ≡ "10.0.2.2"
        → cfg.port ≡ 9150
        → host_proxy_endpoint variable (NetworkMode.proxy cfg)
          ≡ ok (record {
            endpoint = scheme cfg.protocol +s "://10.0.2.2:9150";
            probe_host = "10.0.2.2";
            probe_port = 9150;
          }))
unfolding show
host_proxy_endpoint-text_example =
    host_proxy_endpoint-text "socks5h" "10.0.2.2" 9150 refl refl refl (omega arith)

abbrev state_of_entry : Option SessionEntry → Option SessionState
state_of_entry none = none
state_of_entry (some e) = some e.state

-- A launched browser that is not alive: the start fails after everything was taken.
abbrev dying : Capabilities
dying = record caps { is_running = λ l backend handle. ok false }

start_fails_test :
    state_of_entry (lookup 3 (start_session dying default_config 7 empty).1.sessions)
    ≡ some SessionState.failed
unfolding start_session acquire run_session drive drive_start prepare provision_vm transition set_vm
    update launch_browser audit_reports finish register audit ask ignore attempt lift gets pure
    raise ◌>>=◌ choose_mode set_browser_handle assert_safe assert_safe_args is_forbidden
    permits_browsing status all_passed provision_request gateway_config lookup insert
    default_network from_mode can_transition_to ephemeral_spec report default_dns_policy
    host_backend_for browser_launch_request teardown release_all terminate_browser remove_user_data
    destroy_vm fail_closed cut_traffic requires_killswitch
start_fails_test = refl

start_session_example :
    Outcome empty
      (start_session dying default_config 7 empty).0
      (start_session dying default_config 7 empty).1
start_session_example = start_session_lem dying default_config 7 empty
