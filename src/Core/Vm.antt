-- ===== src/Core/Vm.antt =====
-- crates/aegis-core/src/vm.rs
use aegis_private_browser.Prelude.{
  ◌≡◌, ◌↔◌, ℕ, Bool, true, false, not, ◌&&◌, Option, none, some, List, [], ◌∷◌, String, find,
  if◌then◌else◌, Result, ok, err, arith,
}
use aegis_private_browser.Core.Error.{Error}

pub data VmRole : Type 0 where
  gateway browser : VmRole

pub data GpuBackend : Type 0 where
  virtio_gpu software : GpuBackend

pub record DiskLayer : Type 0 where
  pub backing_image : String
  pub overlay_path : String
  pub destroy_on_close : Bool
  pub read_only_root : Bool

pub record IsolationPolicy : Type 0 where
  pub no_shared_clipboard : Bool
  pub no_drag_and_drop : Bool
  pub no_shared_folders : Bool
  pub no_host_disk_automount : Bool
  pub no_usb_passthrough : Bool
  pub no_pci_passthrough : Bool
  pub no_camera_microphone : Bool
  pub no_host_ssh_agent : Bool
  pub no_desktop_integration_tools : Bool
  pub read_only_root : Bool
  pub random_instance_id : Bool
  pub fresh_network_device : Bool

abbrev pub hardened : IsolationPolicy
hardened = record {
  no_shared_clipboard = true;
  no_drag_and_drop = true;
  no_shared_folders = true;
  no_host_disk_automount = true;
  no_usb_passthrough = true;
  no_pci_passthrough = true;
  no_camera_microphone = true;
  no_host_ssh_agent = true;
  no_desktop_integration_tools = true;
  read_only_root = true;
  random_instance_id = true;
  fresh_network_device = true;
}

abbrev pub checks : IsolationPolicy → List (Bool × String)
checks p =
    (p.no_shared_clipboard, "shared clipboard must be disabled")
    ∷ (p.no_drag_and_drop, "drag-and-drop must be disabled")
    ∷ (p.no_shared_folders, "shared folders must be disabled")
    ∷ (p.no_host_disk_automount, "host disk automount must be disabled")
    ∷ (p.no_usb_passthrough, "USB passthrough must be disabled")
    ∷ (p.no_pci_passthrough, "PCI/GPU passthrough must be disabled")
    ∷ (p.no_camera_microphone, "camera/microphone must be disabled")
    ∷ (p.no_host_ssh_agent, "host SSH agent forwarding must be disabled")
    ∷ (p.no_desktop_integration_tools, "desktop integration tools must be absent")
    ∷ (p.read_only_root, "root filesystem must be read-only")
    ∷ (p.random_instance_id, "instance id must be locally randomized")
    ∷ (p.fresh_network_device, "a fresh virtual NIC must be used")
    ∷ []

abbrev pub message : Option (Bool × String) → Option String
message none = none
message (some (holds, text)) = some text

-- The first guarantee that the policy violates, if there is one.
unfoldable pub validate : IsolationPolicy → Option String
validate p = message (find (λ check. not check.0) (checks p))

pub record VmResources : Type 0 where
  pub vcpus : ℕ
  pub memory_mib : ℕ

abbrev pub gateway_resources : VmResources
gateway_resources = record { vcpus = 1; memory_mib = 512 }

abbrev pub browser_resources : VmResources
browser_resources = record { vcpus = 2; memory_mib = 4096 }

pub record VmProvisionRequest : Type 0 where
  pub instance_id : ℕ
  pub role : VmRole
  pub resources : VmResources
  pub disk : DiskLayer
  pub gpu : GpuBackend
  pub isolation : IsolationPolicy
  pub isolated_network : String

abbrev pub is_browser : VmRole → Bool
is_browser VmRole.browser = true
is_browser VmRole.gateway = false

unfoldable pub validate_request : VmProvisionRequest → Result (Unit {0}) Error
unfolding validate
validate_request r = elim (validate r.isolation) [
  | some reason ↦ err Error.isolation
  | none ↦ if is_browser r.role && not r.disk.read_only_root then err Error.isolation else ok tt
]

pub data VmState : Type 0 where
  defined starting running stopping stopped destroyed failed : VmState

pub record VmHandle : Type 0 where
  pub id : ℕ
  pub instance_id : ℕ
  pub role : VmRole
  pub domain_name : String
  pub state : VmState

pub record DestroyReport : Type 0 where
  pub id : ℕ
  pub overlay_shredded : Bool
  pub domain_undefined : Bool

abbrev pub is_clean : DestroyReport → Bool
is_clean r = r.overlay_shredded && r.domain_undefined

-- The policy validates exactly when each of the twelve guarantees is on: no weakening passes.
pub validate-eq-none_iff : (p : IsolationPolicy) → (validate p ≡ none) ↔ (p ≡ hardened)
unfolding validate
validate-eq-none_iff p = ground arith
