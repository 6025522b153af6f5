-- ===== src/Vm/Xml.antt =====
-- crates/vm-controller/src/xml.rs: the domain definition as text, piece by piece.
pub mod Tags
pub mod Shape
use Prim.Native.Char.{Char, code}
use Prim.Native.String
use aegis_private_browser.Prelude.{ℕ, ◌==◌, Bool, List, [], ◌∷◌, ◌++◌, String, if◌then◌else◌}
use aegis_private_browser.Prelude.Decimal.{show}
use aegis_private_browser.Prelude.Text.{◌+s◌}
use aegis_private_browser.Core.Vm.{VmProvisionRequest, VmRole, GpuBackend, DiskLayer}

-- How the identifier of an instance reads: its slug, and its UUID in full.
pub record Naming : Type 0 where
  pub slug : ℕ → String
  pub uuid : ℕ → String

abbrev pub upstream_network : String
upstream_network = "default"

abbrev pub entity : Char → String
entity c =
    if code c == b'&'
    then "&amp;"
    else if code c == b'<'
    then "&lt;"
    else if code c == b'>'
    then "&gt;"
    else if code c == b'"'
    then "&quot;"
    else if code c == 39
    then "&apos;"
    else String.◌∷◌ c String.[]

unfoldable pub xml_escape : String → String
xml_escape String.[] = String.[]
xml_escape (String.◌∷◌ c s) = entity c +s xml_escape s

unfoldable pub concat : List String → String
concat [] = ""
concat (s ∷ more) = s +s concat more

abbrev pub domain_name : Naming → VmProvisionRequest → String
domain_name n req = n.slug req.instance_id

abbrev pub render_video : GpuBackend → List String
render_video GpuBackend.virtio_gpu =
    "    <video>\n      <model type='virtio' heads='1'>\n        <acceleration accel3d='no'/>\n      </model>\n    </video>\n"
    ∷ []
render_video GpuBackend.software =
    "    <video>\n      <model type='vga' vram='16384' heads='1'/>\n    </video>\n" ∷ []

abbrev pub render_interface : String → String → List String
render_interface network mac =
    "    <interface type='network'>\n      <mac address='"
    ∷ xml_escape mac
    ∷ "'/>\n      <source network='"
    ∷ xml_escape network
    ∷ "'/>\n      <model type='virtio'/>\n    </interface>\n"
    ∷ []

abbrev pub readonly_mark : Bool → String
readonly_mark read_only = if read_only then "      <readonly/>\n" else ""

abbrev pub render_disk : DiskLayer → List String
render_disk disk =
    "    <disk type='file' device='disk'>\n      <driver name='qemu' type='qcow2'/>\n      <source file='"
    ∷ xml_escape disk.overlay_path
    ∷ "'>\n        <backingStore type='file'>\n          <format type='qcow2'/>\n          <source file='"
    ∷ xml_escape disk.backing_image
    ∷ "'/>\n        </backingStore>\n      </source>\n      <target dev='vda' bus='virtio'/>\n"
    ∷ readonly_mark disk.read_only_root
    ∷ "    </disk>\n"
    ∷ []

-- A browser has one interface, a gateway two.
abbrev pub interfaces : VmRole → String → String → String → List String
interfaces VmRole.browser network mac upstream_mac = render_interface network mac
interfaces VmRole.gateway network mac upstream_mac =
    render_interface upstream_network upstream_mac ++ render_interface network mac

abbrev pub opening : Naming → VmProvisionRequest → List String
opening n req =
    "<domain type='kvm'>\n  <name>"
    ∷ domain_name n req
    ∷ "</name>\n  <uuid>"
    ∷ n.uuid req.instance_id
    ∷ "</uuid>\n  <memory unit='MiB'>"
    ∷ show 10 req.resources.memory_mib
    ∷ "</memory>\n  <currentMemory unit='MiB'>"
    ∷ show 10 req.resources.memory_mib
    ∷ "</currentMemory>\n  <vcpu placement='static'>"
    ∷ show 10 req.resources.vcpus
    ∷ "</vcpu>\n  <os>\n    <type arch='x86_64' machine='q35'>hvm</type>\n    <boot dev='hd'/>\n  </os>\n  <features>\n    <acpi/>\n    <apic/>\n  </features>\n  <cpu mode='host-passthrough' check='none'/>\n  <clock offset='utc'/>\n  <on_poweroff>destroy</on_poweroff>\n  <on_reboot>restart</on_reboot>\n  <on_crash>destroy</on_crash>\n  <devices>\n"
    ∷ []

abbrev pub closing : List String
closing =
    "    <graphics type='vnc' port='-1' autoport='yes' listen='127.0.0.1'/>\n    <console type='pty'>\n      <target type='serial' port='0'/>\n    </console>\n    <memballoon model='virtio'/>\n    <rng model='virtio'>\n      <backend model='random'>/dev/urandom</backend>\n    </rng>\n  </devices>\n</domain>\n"
    ∷ []

abbrev pub pieces : Naming → VmProvisionRequest → String → String → List String
pieces n req mac upstream_mac =
    opening n req
    ++ (render_disk req.disk
        ++ (interfaces req.role req.isolated_network mac upstream_mac
            ++ (render_video req.gpu ++ closing)))

unfoldable pub render_domain_xml_with : Naming → VmProvisionRequest → String → String → String
render_domain_xml_with n req mac upstream_mac = concat (pieces n req mac upstream_mac)
