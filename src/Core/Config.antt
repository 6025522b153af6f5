-- ===== src/Core/Config.antt =====
-- crates/aegis-core/src/config.rs. A path is its text.
use aegis_private_browser.Prelude.{Bool, true, false, ◌&&◌, Option, none, String, if◌then◌else◌}
use aegis_private_browser.Core.Fingerprint.{ProtectionLevel}
use aegis_private_browser.Core.Network.{NetworkMode, default_tor}

pub record ImageRef : Type 0 where
  pub path : String
  pub signature : String
  pub version : String
  pub sha256 : String

pub record ImageSet : Type 0 where
  pub gateway : ImageRef
  pub browser : ImageRef

pub record Enforcement : Type 0 where
  pub require_vm_isolation : Bool
  pub require_gateway : Bool
  pub allow_host_browser : Bool

abbrev pub secure : Enforcement
secure = record { require_vm_isolation = true; require_gateway = true; allow_host_browser = false }

abbrev pub host_browser : Enforcement
host_browser = record {
  require_vm_isolation = false;
  require_gateway = false;
  allow_host_browser = true;
}

pub data IsolationLevel : Type 0 where
  full_vm host_process : IsolationLevel

abbrev pub is_full_isolation : Enforcement → Bool
is_full_isolation e = e.require_vm_isolation && e.require_gateway

unfoldable pub isolation_level : Enforcement → IsolationLevel
isolation_level e =
    if is_full_isolation e then IsolationLevel.full_vm else IsolationLevel.host_process

pub record Paths : Type 0 where
  pub profiles_dir : String
  pub images_dir : String
  pub runtime_dir : String
  pub audit_log : String
  pub daemon_socket : String

abbrev pub default_paths : Paths
default_paths = record {
  profiles_dir = "/var/lib/aegis/profiles";
  images_dir = "/var/lib/aegis/images";
  runtime_dir = "/run/aegis";
  audit_log = "/var/log/aegis/audit.jsonl";
  daemon_socket = "/run/aegis/daemon.sock";
}

pub record AppConfig : Type 0 where
  pub default_network : NetworkMode
  pub default_protection : ProtectionLevel
  pub network_prefix : String
  pub images : Option ImageSet
  pub update_verify_key : Option String
  pub paths : Paths
  pub enforcement : Enforcement

abbrev pub default_config : AppConfig
default_config = record {
  default_network = NetworkMode.tor default_tor;
  default_protection = ProtectionLevel.balanced;
  network_prefix = "aegis";
  images = none;
  update_verify_key = none;
  paths = default_paths;
  enforcement = secure;
}

pub data RenderMode : Type 0 where
  virtio_gpu software : RenderMode
