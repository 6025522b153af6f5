-- ===== src/Core/Browser.antt =====
-- crates/aegis-core/src/browser.rs. Documents and preferences are left as their JSON text.
pub mod Flags
use Prim.Native.String
use text.Mathlib.Text.{starts_with}
use aegis_private_browser.Prelude.{
  ℕ, Bool, true, false, ◌&&◌, ◌||◌, List, [], ◌∷◌, String, str_eq, if◌then◌else◌, Result, ok, err,
}
use aegis_private_browser.Core.Error.{Error}
use aegis_private_browser.Core.Config.{RenderMode}
use aegis_private_browser.Core.Fingerprint.{FingerprintPolicy}
use aegis_private_browser.Core.Permissions.{PermissionPolicy}

pub data BrowserBackendId : Type 0 where
  chromium firefox : BrowserBackendId

pub record BrowserLaunchRequest : Type 0 where
  pub session : ℕ
  pub profile : ℕ
  pub user_data_dir : String
  pub fingerprint : FingerprintPolicy
  pub permissions : PermissionPolicy
  pub proxy_endpoint : String
  pub render_mode : RenderMode
  pub production : Bool

pub record BackendPolicyBundle : Type 0 where
  pub backend : BrowserBackendId
  pub managed_policies : List (String × String)
  pub command_line : List String
  pub preferences : List (String × String)

abbrev pub forbidden : List String
forbidden = "--no-sandbox" ∷ "--disable-web-security" ∷ "--disable-site-isolation-trials" ∷ []

-- The inner loop: whether `arg` is a forbidden flag, alone or with a value.
unfoldable pub is_forbidden : List String → String → Bool
is_forbidden [] arg = false
is_forbidden (bad ∷ more) arg =
    str_eq arg bad || (starts_with arg (String.◌++◌ bad "=") || is_forbidden more arg)

unfoldable pub assert_safe_args : Bool → List String → Result (Unit {0}) Error
assert_safe_args production [] = ok tt
assert_safe_args production (arg ∷ more) =
    if is_forbidden forbidden arg
    then err Error.config
    else if production && starts_with arg "--remote-debugging"
    then err Error.config
    else assert_safe_args production more

unfoldable pub assert_safe : BackendPolicyBundle → Bool → Result (Unit {0}) Error
unfolding assert_safe_args
assert_safe bundle production = assert_safe_args production bundle.command_line

pub record BrowserHandle : Type 0 where
  pub session : ℕ
  pub backend : BrowserBackendId
  pub process_token : String
