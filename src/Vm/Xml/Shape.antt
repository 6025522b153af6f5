-- ===== src/Vm/Xml/Shape.antt =====
-- Which tags a rendered domain has.
use mathlib.Core.List.{append_assoc}
use aegis_private_browser.Prelude.{
  ◌≡◌, refl, ap, sym, ◌∙◌, ℕ, Bool, true, false, List, [], ◌∷◌, ◌++◌, String, All, arith,
}
use aegis_private_browser.Prelude.Decimal.{show}
use aegis_private_browser.Prelude.Decimal.Reading.{is_digit, every-show}
use aegis_private_browser.Prelude.Text.{every, every-imp}
use aegis_private_browser.Core.Vm.{VmProvisionRequest, VmRole, GpuBackend, DiskLayer}
use aegis_private_browser.Vm.Xml.{
  Naming, render_video, render_interface, readonly_mark, render_disk, interfaces, opening, closing,
  pieces, render_domain_xml_with,
}
use aegis_private_browser.Vm.Xml.Tags.{
  tags, closed, all_tags, tags-concat, is_plain, closed-plain, tags-plain, xml_escape-plain,
}

abbrev pub IsPlain : String → Type 0
IsPlain s = every is_plain s ≡ true

-- An interface's tags.
abbrev pub interface_tags : List String
interface_tags = "interface" ∷ "mac" ∷ "source" ∷ "model" ∷ "/interface" ∷ []

abbrev pub interfaces_tags : VmRole → List String
interfaces_tags VmRole.browser = interface_tags
interfaces_tags VmRole.gateway = interface_tags ++ interface_tags

abbrev pub readonly_tags : Bool → List String
readonly_tags true = "readonly/" ∷ []
readonly_tags false = []

abbrev pub video_tags : GpuBackend → List String
video_tags GpuBackend.virtio_gpu = "video" ∷ "model" ∷ "acceleration" ∷ "/model" ∷ "/video" ∷ []
video_tags GpuBackend.software = "video" ∷ "model" ∷ "/video" ∷ []

abbrev pub Known : String → List String → Type 0
Known s l = (closed s ≡ true) × (tags s ≡ l)

plain-Known : (s : String) → IsPlain s → Known s []
plain-Known s h = (closed-plain s h, tags-plain s h)

-- What tags the pieces have, one after the other.
record Knows (l ts : List String) : Type 0 where
  all_closed : All (λ s. closed s ≡ true) l
  all_known : all_tags l ≡ ts

cons-Knows :
    {s : String} {more ts : List String} (u : List String)
    → Known s u
    → Knows more ts
    → Knows (s ∷ more) (u ++ ts)
cons-Knows u h k = record { all_closed = (h.0, k.all_closed); all_known = cc (h.1, k.all_known) }

-- A value between two pieces of the text.
value-Knows : {s : String} {more ts : List String} → IsPlain s → Knows more ts → Knows (s ∷ more) ts
value-Knows {s} h k = cons-Knows [] (plain-Known s h) k

closed-append :
    (l more : List String)
    → All (λ s. closed s ≡ true) l
    → All (λ s. closed s ≡ true) more
    → All (λ s. closed s ≡ true) (l ++ more)
closed-append [] more h k = k
closed-append (s ∷ l) more h k = (h.0, closed-append l more h.1 k)

all_tags-append : (l more : List String) → all_tags (l ++ more) ≡ all_tags l ++ all_tags more
all_tags-append [] more = refl
all_tags-append (s ∷ l) more =
    ap (λ r. tags s ++ r) (all_tags-append l more)
    ∙ sym (append_assoc (tags s) (all_tags l) (all_tags more))

append-Knows : {l more u ts : List String} → Knows l u → Knows more ts → Knows (l ++ more) (u ++ ts)
append-Knows {l} {more} h k = record {
  all_closed = closed-append l more h.all_closed k.all_closed;
  all_known = all_tags-append l more ∙ cc (h.all_known, k.all_known);
}

none-Knows : Knows [] []
none-Knows = record { all_closed = tt; all_known = refl }

interface-Knows : (network mac : String) → Knows (render_interface network mac) interface_tags
unfolding tags closed
interface-Knows network mac =
    cons-Knows ("interface" ∷ "mac" ∷ []) (refl, refl)
      (value-Knows (xml_escape-plain mac) (
        cons-Knows ("source" ∷ []) (refl, refl)
          (value-Knows (xml_escape-plain network)
            (cons-Knows ("model" ∷ "/interface" ∷ []) (refl, refl) none-Knows))))

interfaces-Knows :
    (role : VmRole) (network mac upstream_mac : String)
    → Knows (interfaces role network mac upstream_mac) (interfaces_tags role)
interfaces-Knows VmRole.browser network mac upstream_mac = interface-Knows network mac
interfaces-Knows VmRole.gateway network mac upstream_mac =
    append-Knows (interface-Knows "default" upstream_mac) (interface-Knows network mac)

video-Knows : (gpu : GpuBackend) → Knows (render_video gpu) (video_tags gpu)
unfolding tags closed
video-Knows GpuBackend.virtio_gpu =
    cons-Knows (video_tags GpuBackend.virtio_gpu) (refl, refl) none-Knows
video-Knows GpuBackend.software =
    cons-Knows (video_tags GpuBackend.software) (refl, refl) none-Knows

abbrev pub disk_tags : Bool → List String
disk_tags read_only =
    ("disk" ∷ "driver" ∷ "source" ∷ "backingStore" ∷ "format" ∷ "source" ∷ "/backingStore"
      ∷ "/source" ∷ "target" ∷ [])
    ++ readonly_tags read_only
    ++ "/disk" ∷ []

readonly-Known : (b : Bool) → Known (readonly_mark b) (readonly_tags b)
unfolding tags closed
readonly-Known true = (refl, refl)
readonly-Known false = (refl, refl)

disk-Knows : (disk : DiskLayer) → Knows (render_disk disk) (disk_tags disk.read_only_root)
unfolding tags closed
disk-Knows disk =
    cons-Knows ("disk" ∷ "driver" ∷ "source" ∷ []) (refl, refl)
      (value-Knows (xml_escape-plain disk.overlay_path) (
        cons-Knows ("backingStore" ∷ "format" ∷ "source" ∷ []) (refl, refl)
          (value-Knows (xml_escape-plain disk.backing_image) (
            cons-Knows ("/backingStore" ∷ "/source" ∷ "target" ∷ []) (refl, refl)
              (cons-Knows (readonly_tags disk.read_only_root) (readonly-Known disk.read_only_root)
                (cons-Knows ("/disk" ∷ []) (refl, refl) none-Knows))))))

abbrev pub opening_tags : List String
opening_tags =
    "domain" ∷ "name" ∷ "/name" ∷ "uuid" ∷ "/uuid" ∷ "memory" ∷ "/memory" ∷ "currentMemory"
    ∷ "/currentMemory" ∷ "vcpu" ∷ "/vcpu" ∷ "os" ∷ "type" ∷ "/type" ∷ "boot" ∷ "/os" ∷ "features"
    ∷ "acpi/" ∷ "apic/" ∷ "/features" ∷ "cpu" ∷ "clock" ∷ "on_poweroff" ∷ "/on_poweroff"
    ∷ "on_reboot" ∷ "/on_reboot" ∷ "on_crash" ∷ "/on_crash" ∷ "devices" ∷ []

abbrev pub closing_tags : List String
closing_tags =
    "graphics" ∷ "console" ∷ "target" ∷ "/console" ∷ "memballoon" ∷ "rng" ∷ "backend" ∷ "/backend"
    ∷ "/rng" ∷ "/devices" ∷ "/domain" ∷ []

closing-Knows : Knows closing closing_tags
unfolding tags closed
closing-Knows = cons-Knows closing_tags (refl, refl) none-Knows

number-IsPlain : (n : ℕ) → IsPlain (show 10 n)
number-IsPlain n = every-imp is_digit is_plain (λ c h. ground arith) (show 10 n) (every-show 10 n)

module _ (n : Naming) (req : VmProvisionRequest) where
  opening-Knows :
      IsPlain (n.slug req.instance_id)
      → IsPlain (n.uuid req.instance_id)
      → Knows (opening n req) opening_tags
  unfolding tags closed
  opening-Knows slug uuid =
      cons-Knows ("domain" ∷ "name" ∷ []) (refl, refl)
        (value-Knows slug (
          cons-Knows ("/name" ∷ "uuid" ∷ []) (refl, refl)
            (value-Knows uuid (
              cons-Knows ("/uuid" ∷ "memory" ∷ []) (refl, refl)
                (value-Knows (number-IsPlain req.resources.memory_mib) (
                  cons-Knows ("/memory" ∷ "currentMemory" ∷ []) (refl, refl)
                    (value-Knows (number-IsPlain req.resources.memory_mib) (
                      cons-Knows ("/currentMemory" ∷ "vcpu" ∷ []) (refl, refl)
                        (value-Knows (number-IsPlain req.resources.vcpus) (
                          cons-Knows
                            ("/vcpu" ∷ "os" ∷ "type" ∷ "/type" ∷ "boot" ∷ "/os" ∷ "features"
                              ∷ "acpi/" ∷ "apic/" ∷ "/features" ∷ "cpu" ∷ "clock" ∷ "on_poweroff"
                              ∷ "/on_poweroff" ∷ "on_reboot" ∷ "/on_reboot" ∷ "on_crash"
                              ∷ "/on_crash" ∷ "devices" ∷ [])
                            (refl, refl) none-Knows))))))))))

  -- The tags of a rendered domain are fixed by the role, the read-only mark and the video backend of
  -- the request, on the condition that the instance's slug and UUID have no `<`: no path, network
  -- name or MAC address adds a tag, whatever text it is. So no rendered domain has a host device, a
  -- redirected device, a shared folder, a sound device or a channel, and a browser has one
  -- interface, a gateway two.
  pub render_domain_xml_with-tags :
      (mac upstream_mac : String)
      → IsPlain (n.slug req.instance_id)
      → IsPlain (n.uuid req.instance_id)
      → tags (render_domain_xml_with n req mac upstream_mac)
        ≡ opening_tags
          ++ (disk_tags req.disk.read_only_root
              ++ (interfaces_tags req.role ++ (video_tags req.gpu ++ closing_tags)))
  unfolding render_domain_xml_with
  render_domain_xml_with-tags mac upstream_mac slug uuid =
      let known = append-Knows (opening-Knows slug uuid) (
        append-Knows (disk-Knows req.disk) (
          append-Knows (interfaces-Knows req.role req.isolated_network mac upstream_mac)
            (append-Knows (video-Knows req.gpu) closing-Knows))) in
      tags-concat (pieces n req mac upstream_mac) known.all_closed ∙ known.all_known
