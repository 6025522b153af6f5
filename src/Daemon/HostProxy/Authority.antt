-- ===== src/Daemon/HostProxy/Authority.antt =====
-- What `HostProxy::parse` of crates/aegis-daemon/src/orchestrator.rs reads from an endpoint.
use Prim.Native.Char.{Char, char, code}
use text.Mathlib.TextLemmas.{nil-append, cons-append}
use aegis_private_browser.Prelude.{
  ◌≡◌, refl, ap, ◌∙◌, ℕ, ◌==◌, ◌≤◌, Bool, true, false, not, ◌&&◌, Option, none, some, String, ok,
  if◌then◌else◌, arith,
}
use aegis_private_browser.Prelude.Text.{
  ◌+s◌, is_whitespace, every, every-append, every-imp, is_empty,
}
use aegis_private_browser.Prelude.Decimal.{parse_uint, show}
use aegis_private_browser.Prelude.Decimal.Reading.{is_digit, every-show, parse_uint-show}
use aegis_private_browser.Core.Profile.{is_blank}
use aegis_private_browser.Core.Network.{NetworkMode, TorConfig, ProxyProtocol, ProxyConfig}
use aegis_private_browser.Daemon.HostProxy.{
  drop_three, at_separator, after_scheme, rsplit_colon, u16_max, parse, scheme, default_host_proxy,
  host_proxy_endpoint,
}

abbrev pub is_no_slash : ℕ → Bool
is_no_slash c = not (c == b'/')

abbrev is_no_colon : ℕ → Bool
is_no_colon c = not (c == b':')

abbrev colon : Char
colon = char 58 tt

abbrev slash : Char
slash = char 47 tt

abbrev after_separator : String → String
after_separator rest = String.◌∷◌ colon (String.◌∷◌ slash (String.◌∷◌ slash rest))

separator : (rest : String) → "://" +s rest ≡ after_separator rest
separator rest =
    cons-append colon "//" rest
    ∙ ap (String.◌∷◌ colon) (
        cons-append slash "/" rest
        ∙ ap (String.◌∷◌ slash)
            (cons-append slash "" rest ∙ ap (String.◌∷◌ slash) (nil-append rest)))

-- The second character decides.
at_separator-second :
    (a b : Char) (s : String)
    → is_no_slash (code b) ≡ true
    → at_separator (String.◌∷◌ a (String.◌∷◌ b s)) ≡ false
at_separator-second a b String.[] h = refl
at_separator-second a b (String.◌∷◌ c s) h = ground arith

at_separator-plain :
    (a : Char) (s : String) → every is_no_slash s ≡ true → at_separator (String.◌∷◌ a s) ≡ false
at_separator-plain a String.[] h = refl
at_separator-plain a (String.◌∷◌ b s) h = at_separator-second a b s (ground arith)

at_separator-before :
    (a : Char) (sch rest : String)
    → every is_no_slash sch ≡ true
    → at_separator (String.◌∷◌ a (sch +s after_separator rest)) ≡ false
at_separator-before a String.[] rest h =
    ap (λ t. at_separator (String.◌∷◌ a t)) (nil-append (after_separator rest))
    ∙ at_separator-second a colon (String.◌∷◌ slash (String.◌∷◌ slash rest)) refl
at_separator-before a (String.◌∷◌ b sch) rest h =
    ap (λ t. at_separator (String.◌∷◌ a t)) (cons-append b sch (after_separator rest))
    ∙ at_separator-second a b (sch +s after_separator rest) (ground arith)

after_scheme-plain : (s best : String) → every is_no_slash s ≡ true → after_scheme best s ≡ best
unfolding after_scheme
after_scheme-plain String.[] best h = refl
after_scheme-plain (String.◌∷◌ a s) best h =
    ap (λ b. after_scheme (if b then drop_three (String.◌∷◌ a s) else best) s)
      (at_separator-plain a s (ground arith))
    ∙ after_scheme-plain s best (ground arith)

after_scheme-slash :
    (rest best : String)
    → every is_no_slash rest ≡ true
    → after_scheme best (String.◌∷◌ slash (String.◌∷◌ slash rest)) ≡ best
unfolding after_scheme
after_scheme-slash String.[] best h = refl
after_scheme-slash (String.◌∷◌ a rest) best h =
    ap
      (λ b.
        after_scheme (if b then drop_three (String.◌∷◌ slash (String.◌∷◌ a rest)) else best)
          (String.◌∷◌ a rest))
      (at_separator-plain slash (String.◌∷◌ a rest) h)
    ∙ after_scheme-plain (String.◌∷◌ a rest) best h

-- What follows the separator, when there is no slash before or after it.
after_scheme-append :
    (sch rest best : String)
    → every is_no_slash sch ≡ true
    → every is_no_slash rest ≡ true
    → after_scheme best (sch +s after_separator rest) ≡ rest
unfolding after_scheme
after_scheme-append String.[] rest best h k =
    ap (after_scheme best) (nil-append (after_separator rest)) ∙ after_scheme-slash rest rest k
after_scheme-append (String.◌∷◌ a sch) rest best h k =
    ap (after_scheme best) (cons-append a sch (after_separator rest))
    ∙ ap
        (λ b.
          after_scheme (if b then drop_three (String.◌∷◌ a (sch +s after_separator rest)) else best)
            (sch +s after_separator rest))
        (at_separator-before a sch rest (ground arith))
    ∙ after_scheme-append sch rest best (ground arith) k

rsplit_colon-plain : (s : String) → every is_no_colon s ≡ true → rsplit_colon s ≡ none
unfolding rsplit_colon
rsplit_colon-plain String.[] h = refl
rsplit_colon-plain (String.◌∷◌ c s) h = ground (arith, rsplit_colon-plain s)

rsplit_colon-append :
    (host digits : String)
    → every is_no_colon digits ≡ true
    → rsplit_colon (host +s ":" +s digits) ≡ some (host, digits)
unfolding rsplit_colon
rsplit_colon-append String.[] digits h =
    ap rsplit_colon (
      nil-append (":" +s digits)
      ∙ cons-append colon "" digits
      ∙ ap (String.◌∷◌ colon) (nil-append digits))
    ∙ ground (arith, rsplit_colon-plain digits h)
rsplit_colon-append (String.◌∷◌ c host) digits h =
    ground (arith, cons-append c host (":" +s digits), rsplit_colon-append host digits h)

every-colon :
    (p : ℕ → Bool) (host digits : String)
    → p 58 ≡ true
    → every p (host +s ":" +s digits) ≡ (every p host && every p digits)
every-colon p host digits h =
    every-append p host (":" +s digits)
    ∙ ap (λ b. every p host && b) (every-append p ":" digits ∙ ground arith)

-- An endpoint `scheme://host:port` is read as that host and that port.
parse-text :
    (sch host : String) (port : ℕ)
    → every is_no_slash sch ≡ true
    → every is_no_slash host ≡ true
    → is_empty host ≡ false
    → port ≤ u16_max
    → parse (sch +s "://" +s host +s ":" +s show 5 port)
      ≡ ok (record {
        endpoint = sch +s "://" +s host +s ":" +s show 5 port;
        probe_host = host;
        probe_port = port;
      })
unfolding parse
parse-text sch host port a b filled fits = ground (arith, read, split, number, filled)
  where
    text : String
    text = sch +s "://" +s host +s ":" +s show 5 port

    digits : every is_digit (show 5 port) ≡ true
    digits = every-show 5 port

    plain : every is_no_slash (host +s ":" +s show 5 port) ≡ true
    plain =
        every-colon is_no_slash host (show 5 port) refl
        ∙ ground
            (arith, b, every-imp is_digit is_no_slash (λ c h. ground arith) (show 5 port) digits)

    read : after_scheme text text ≡ host +s ":" +s show 5 port
    read =
        ap (λ t. after_scheme text (sch +s t)) (separator (host +s ":" +s show 5 port))
        ∙ after_scheme-append sch (host +s ":" +s show 5 port) text a plain

    split : rsplit_colon (host +s ":" +s show 5 port) ≡ some (host, show 5 port)
    split =
        rsplit_colon-append host (show 5 port)
          (every-imp is_digit is_no_colon (λ c h. ground arith) (show 5 port) digits)

    number : parse_uint u16_max (show 5 port) ≡ some port
    number = parse_uint-show u16_max 4 port (omega (arith, fits)) fits

and_assoc : (a b c : Bool) → (a && (b && c)) ≡ ((a && b) && c)
and_assoc a b c = ground arith

is_blank-append : (s t : String) → is_blank (s +s t) ≡ (is_blank s && is_blank t)
unfolding is_blank
is_blank-append String.[] t = ap is_blank (nil-append t)
is_blank-append (String.◌∷◌ c s) t =
    ap is_blank (cons-append c s t)
    ∙ ap (λ b. is_whitespace (code c) && b) (is_blank-append s t)
    ∙ and_assoc (is_whitespace (code c)) (is_blank s) (is_blank t)

and_false : (a : Bool) → (a && false) ≡ false
and_false a = ground arith

-- A colon is no whitespace.
is_blank-text : (sch rest : String) → is_blank (sch +s "://" +s rest) ≡ false
unfolding is_blank
is_blank-text sch rest =
    is_blank-append sch ("://" +s rest)
    ∙ ap (λ t. is_blank sch && is_blank t) (separator rest)
    ∙ and_false (is_blank sch)

scheme-plain : (p : ProxyProtocol) → every is_no_slash (scheme p) ≡ true
scheme-plain ProxyProtocol.socks5 = refl
scheme-plain ProxyProtocol.http_connect = refl

-- The address that is probed for a host-process session is the host and the port of its endpoint:
-- under Tor those of an `AEGIS_HOST_PROXY` of the form `scheme://host:port`, and under a proxy those
-- of its configuration, with the scheme of its protocol; and the browser is given this very
-- endpoint. The conditions are that the host is not empty, that neither the scheme nor the host has a
-- slash, and that the port fits a `u16`.
pub host_proxy_endpoint-text :
    (sch host : String) (port : ℕ)
    → every is_no_slash sch ≡ true
    → every is_no_slash host ≡ true
    → is_empty host ≡ false
    → port ≤ 65535
    → ((tor : TorConfig)
        → host_proxy_endpoint
            (some (sch +s "://" +s host +s ":" +s show 5 port))
            (NetworkMode.tor tor)
          ≡ ok (record {
            endpoint = sch +s "://" +s host +s ":" +s show 5 port;
            probe_host = host;
            probe_port = port;
          }))
      × ((variable : Option String) (cfg : ProxyConfig)
          → cfg.host ≡ host
          → cfg.port ≡ port
          → host_proxy_endpoint variable (NetworkMode.proxy cfg)
            ≡ ok (record {
              endpoint = scheme cfg.protocol +s "://" +s host +s ":" +s show 5 port;
              probe_host = host;
              probe_port = port;
            }))
unfolding host_proxy_endpoint
host_proxy_endpoint-text sch host port a b filled fits = (
  λ tor.
      ap (λ b. parse (if b then default_host_proxy else sch +s "://" +s host +s ":" +s show 5 port))
        (is_blank-text sch (host +s ":" +s show 5 port))
      ∙ parse-text sch host port a b filled fits,
  λ variable cfg e k.
      ap (λ h. parse (scheme cfg.protocol +s "://" +s h +s ":" +s show 5 cfg.port)) e
      ∙ ap (λ n. parse (scheme cfg.protocol +s "://" +s host +s ":" +s show 5 n)) k
      ∙ parse-text (scheme cfg.protocol) host port (scheme-plain cfg.protocol) b filled fits,
)
