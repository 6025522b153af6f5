-- ===== src/Tests/VmExamples.antt =====
-- The machine controller's theorems at concrete inputs.
use aegis_private_browser.Prelude.{
  ◌≡◌, refl, true, false, none, some, [], ◌++◌, lookup, insert, ok, err,
}
use aegis_private_browser.Prelude.Exec.{◌>>=◌}
use aegis_private_browser.Prelude.Exec.Triple.{Post}
use aegis_private_browser.Core.Error.{Error}
use aegis_private_browser.Core.Vm.{
  VmProvisionRequest, VmRole, GpuBackend, hardened, browser_resources, validate_request,
}
use aegis_private_browser.Vm.Runner.{Outside}
use aegis_private_browser.Vm.Controller.{
  LibvirtController, Entry, entry, with_runner, provision, destroy,
}
use aegis_private_browser.Vm.Outcomes.{Provisioned, DestroyedAs, destroy_lem, provision_lem}
use aegis_private_browser.Vm.Reachable.{
  Operation, after, Reachable, initially, then_after, tracked-IsSound,
}
use aegis_private_browser.Vm.Tracked.{IsSound}
use aegis_private_browser.Vm.Xml.{Naming, render_domain_xml_with}
use aegis_private_browser.Vm.Xml.Tags.{tags}
use aegis_private_browser.Vm.Xml.Shape.{
  opening_tags, disk_tags, interfaces_tags, video_tags, closing_tags, render_domain_xml_with-tags,
}

abbrev naming : Naming
naming = record { slug = λ id. "inst-1a2b3c4d"; uuid = λ id. "1a2b3c4d" }

-- A network name that tries to add a host device.
abbrev request : VmProvisionRequest
request = record {
  instance_id = 1;
  role = VmRole.browser;
  resources = browser_resources;
  disk = record {
    backing_image = "/img/base.qcow2";
    overlay_path = "/run/overlay.qcow2";
    destroy_on_close = true;
    read_only_root = true;
  };
  gpu = GpuBackend.virtio_gpu;
  isolation = hardened;
  isolated_network = "a'/><hostdev mode='subsystem'/>";
}

render_domain_xml_with-tags_example :
    tags (render_domain_xml_with naming request "52:54:00:00:00:01" "")
    ≡ opening_tags
      ++ (disk_tags true
          ++ (interfaces_tags VmRole.browser ++ (video_tags GpuBackend.virtio_gpu ++ closing_tags)))
render_domain_xml_with-tags_example =
    render_domain_xml_with-tags naming request "52:54:00:00:00:01" "" refl refl

-- Every command succeeds, files are written, and no overlay is found.
abbrev working : Outside
working = record {
  runs = λ events program args. ok (record { status = some 0; stdout = ""; stderr = "" });
  writes = λ events path. true;
  exists = λ events path. false;
  fresh = λ events. 7;
  mac = λ events upstream. "52:54:00:00:00:01";
  temp_dir = "/tmp";
  naming = naming;
}

validated : validate_request request ≡ ok tt
unfolding validate_request
validated = refl

provision_example :
    ((e : Error)
      → validate_request request ≡ err e
      → provision working request with_runner ≡ (err e, with_runner))
    × (validate_request request ≡ ok tt
        → Post
            (Provisioned working with_runner request)
            (λ _ t. t.entries ≡ [])
            (provision working request with_runner).0
            (provision working request with_runner).1)
provision_example = provision_lem working with_runner request

abbrev running : LibvirtController
running = after working (Operation.provisions request) with_runner

running-Reachable : Reachable working running
running-Reachable = then_after (Operation.provisions request) initially

tracked-IsSound_example : IsSound working running
tracked-IsSound_example = tracked-IsSound working running running-Reachable

one_test : (entry 7 running ≡ none) → ⊥
unfolding provision validate_request lookup insert ◌>>=◌
one_test h = cc

destroy_example :
    (entry 7 running ≡ none → destroy working 7 running ≡ (err Error.not_found, running))
    × ((e : Entry)
        → entry 7 running ≡ some e
        → DestroyedAs working running 7 e
            (destroy working 7 running).0
            (destroy working 7 running).1)
destroy_example = destroy_lem working running 7
