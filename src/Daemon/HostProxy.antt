-- ===== src/Daemon/HostProxy.antt =====
-- `HostProxy` and `host_proxy_endpoint` of crates/aegis-daemon/src/orchestrator.rs
pub mod Authority
use Prim.Native.Char.{code}
use aegis_private_browser.Prelude.{
  ◌≡◌, refl, ap, ◌∙◌, ℕ, ◌==◌, Bool, true, false, ◌&&◌, Option, none, some, String, Result, ok, err,
  if◌then◌else◌, arith,
}
use aegis_private_browser.Prelude.Text.{◌+s◌, is_empty}
use aegis_private_browser.Prelude.Decimal.{parse_uint, show}
use aegis_private_browser.Core.Error.{Error}
use aegis_private_browser.Core.Network.{NetworkMode, ProxyProtocol, ProxyConfig}
use aegis_private_browser.Core.Profile.{is_blank}

pub record HostProxy : Type 0 where
  pub endpoint : String
  pub probe_host : String
  pub probe_port : ℕ

abbrev pub drop_three : String → String
drop_three (String.◌∷◌ a (String.◌∷◌ b (String.◌∷◌ c s))) = s
drop_three s = String.[]

abbrev pub at_separator : String → Bool
at_separator (String.◌∷◌ a (String.◌∷◌ b (String.◌∷◌ c s))) =
    code a == b':' && (code b == b'/' && code c == b'/')
at_separator s = false

-- `.split("://").last()`: what follows the last separator, or the whole text. Two separators
-- cannot overlap.
unfoldable pub after_scheme : String → String → String
after_scheme best String.[] = best
after_scheme best (String.◌∷◌ c s) =
    after_scheme (if at_separator (String.◌∷◌ c s) then drop_three (String.◌∷◌ c s) else best) s

-- `.rsplit_once(':')`
unfoldable pub rsplit_colon : String → Option (String × String)
rsplit_colon String.[] = none
rsplit_colon (String.◌∷◌ c s) = elim (rsplit_colon s) [
  | some (host, port) ↦ some (String.◌∷◌ c host, port)
  | none ↦ if code c == b':' then some (String.[], s) else none
]

abbrev pub u16_max : ℕ
u16_max = 65535

unfoldable pub parse : String → Result HostProxy Error
unfolding after_scheme rsplit_colon parse_uint
parse endpoint = elim (rsplit_colon (after_scheme endpoint endpoint)) [
  | none ↦ err Error.config
  | some (host, digits) ↦ elim (parse_uint u16_max digits) [
    | none ↦ err Error.config
    | some port ↦
        if is_empty host
        then err Error.config
        else ok (record { endpoint = endpoint; probe_host = host; probe_port = port })
  ]
]

abbrev pub scheme : ProxyProtocol → String
scheme ProxyProtocol.socks5 = "socks5h"
scheme ProxyProtocol.http_connect = "http"

abbrev pub default_host_proxy : String
default_host_proxy = "socks5h://127.0.0.1:9050"

-- `.filter(|s| !s.trim().is_empty()).unwrap_or_else(…)`
abbrev pub host_proxy_or_default : Option String → String
host_proxy_or_default none = default_host_proxy
host_proxy_or_default (some s) = if is_blank s then default_host_proxy else s

-- A `u16` has at most five digits.
abbrev pub proxy_text : ProxyConfig → String
proxy_text cfg = scheme cfg.protocol +s "://" +s cfg.host +s ":" +s show 5 cfg.port

-- `variable` is the environment variable AEGIS_HOST_PROXY.
unfoldable pub host_proxy_endpoint : Option String → NetworkMode → Result HostProxy Error
unfolding parse is_blank show
host_proxy_endpoint variable (NetworkMode.tor _) = parse (host_proxy_or_default variable)
host_proxy_endpoint variable (NetworkMode.proxy cfg) = parse (proxy_text cfg)
host_proxy_endpoint variable (NetworkMode.vpn _) = err Error.unsupported

parse_tests :
    (parse "socks5h://127.0.0.1:9150"
      ≡ ok (record {
        endpoint = "socks5h://127.0.0.1:9150";
        probe_host = "127.0.0.1";
        probe_port = 9150;
      }))
    × (parse "localhost" ≡ err Error.config)
    × (parse "http://:80" ≡ err Error.config)
    × (parse "http://a:65536" ≡ err Error.config)
unfolding parse
parse_tests = (refl, refl, refl, refl)

parse-endpoint : (text : String) (p : HostProxy) → parse text ≡ ok p → p.endpoint ≡ text
unfolding parse
parse-endpoint text p h = ground arith

-- The endpoint of an answer parses to the answer.
pub host_proxy_endpoint-parse :
    (variable : Option String) (mode : NetworkMode) (p : HostProxy)
    → host_proxy_endpoint variable mode ≡ ok p
    → parse p.endpoint ≡ ok p
unfolding host_proxy_endpoint
host_proxy_endpoint-parse variable (NetworkMode.tor _) p h =
    ap parse (parse-endpoint (host_proxy_or_default variable) p h) ∙ h
host_proxy_endpoint-parse variable (NetworkMode.proxy cfg) p h =
    ap parse (parse-endpoint (proxy_text cfg) p h) ∙ h
host_proxy_endpoint-parse variable (NetworkMode.vpn _) p h = cc
