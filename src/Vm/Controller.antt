-- ===== src/Vm/Controller.antt =====
-- `LibvirtController` of crates/vm-controller/src/lib.rs. A poisoned mutex does not occur.
use Prim.Native.Char.{code}
use aegis_private_browser.Prelude.{
  ℕ, ◌==◌, leb, Bool, true, false, not, ◌&&◌, ◌||◌, Option, none, some, List, [], ◌∷◌, String,
  str_eq, nat_eq, lookup, insert, map, Result, ok, err, if◌then◌else◌,
}
use aegis_private_browser.Prelude.Exec.{Exec, pure, raise, lift, gets, ignore, attempt, ◌>>=◌, ◌>>◌}
use aegis_private_browser.Prelude.Text.{◌+s◌, is_empty}
use aegis_private_browser.Core.Error.{Error}
use aegis_private_browser.Core.Vm.{
  VmProvisionRequest, VmHandle, VmState, DestroyReport, validate_request,
}
use aegis_private_browser.Daemon.Calls.{ShutdownMode}
use aegis_private_browser.Vm.Runner.{CommandOutput, success, stdout_trimmed, Event, Outside}
use aegis_private_browser.Vm.Xml.{domain_name, render_domain_xml_with}

pub record Entry : Type 0 where
  pub handle : VmHandle
  pub overlay_path : String
  pub destroy_on_close : Bool

-- The map of the tracked machines, with what was done outside.
pub record LibvirtController : Type 0 where
  pub entries : List (ℕ × Entry)
  pub events : List Event

abbrev pub with_runner : LibvirtController
with_runner = record { entries = []; events = [] }

abbrev pub Action : Type 0 → Type 0
Action A = Exec LibvirtController Error A

abbrev pub entry : ℕ → LibvirtController → Option Entry
entry id s = lookup id s.entries

abbrev pub or_not_found : {A : Type 0} → Option A → Result A Error
or_not_found none = err Error.not_found
or_not_found (some a) = ok a

abbrev domain_name_of : Option Entry → Option String
domain_name_of none = none
domain_name_of (some e) = some e.handle.domain_name

unfoldable pub domain_of : ℕ → Action String
domain_of id = gets (λ s. domain_name_of (entry id s)) >>= λ found. lift (or_not_found found)

abbrev pub note : Event → LibvirtController → LibvirtController
note e s = record s { events = e ∷ s.events }

module _ (out : Outside) where
  unfoldable pub run : String → List String → Action CommandOutput
  run program args s = (
    out.runs s.events program args,
    note (Event.ran program args (out.runs s.events program args)) s,
  )

  unfoldable pub run_checked : String → List String → Action CommandOutput
  unfolding run
  run_checked program args = do
    output ← run program args
    if not (success output) then raise Error.system else pure output

  abbrev pub written_at : Bool → String → Result String Error
  written_at b path = if b then ok path else err Error.system

  unfoldable pub write_file : String → String → Action String
  write_file path text s = (
    written_at (out.writes s.events path) path,
    note (Event.wrote path text (out.writes s.events path)) s,
  )

  -- The result is dropped.
  unfoldable pub remove_file : String → Action (Unit {0})
  remove_file path s = (ok tt, note (Event.removed path) s)

  unfoldable pub exists : String → Action Bool
  exists path s =
      (ok (out.exists s.events path), note (Event.looked path (out.exists s.events path)) s)

abbrev is_safe_char : ℕ → Bool
is_safe_char c =
    (leb b'a' c && leb c b'z')
    || (leb b'A' c && leb c b'Z')
    || (leb b'0' c && leb c b'9')
    || (c == b'-')

-- What is not an ASCII letter, a digit or a dash becomes a dash.
unfoldable pub safe_stem : String → String
safe_stem String.[] = String.[]
safe_stem (String.◌∷◌ c s) = (if is_safe_char (code c) then String.◌∷◌ c "" else "-") +s safe_stem s

unfoldable pub parse_domstate : String → VmState
parse_domstate s =
    if str_eq s "running" || str_eq s "idle"
    then VmState.running
    else if str_eq s "paused" || str_eq s "pmsuspended"
    then VmState.stopping
    else if str_eq s "in shutdown"
    then VmState.stopping
    else if str_eq s "shut off"
    then VmState.stopped
    else VmState.failed

abbrev pub qemu_img_create : VmProvisionRequest → List String
qemu_img_create req =
    "create" ∷ "-f" ∷ "qcow2" ∷ "-F" ∷ "qcow2" ∷ "-b" ∷ req.disk.backing_image
    ∷ req.disk.overlay_path ∷ []

abbrev pub set_state : VmState → Entry → Entry
set_state state e = record e { handle = record e.handle { state = state } }

abbrev pub changed : ℕ → VmState → Option Entry → List (ℕ × Entry) → List (ℕ × Entry)
changed id state none entries = entries
changed id state (some e) entries = insert id (set_state state e) entries

-- `if let Some(e) = entries.get_mut(id) { e.handle.state = state; }`
unfoldable pub mark : ℕ → VmState → Action (Unit {0})
mark id state s = (ok tt, record s { entries = changed id state (entry id s) s.entries })

abbrev pub entry_for : VmProvisionRequest → VmHandle → Entry
entry_for req handle = record {
  handle = handle;
  overlay_path = req.disk.overlay_path;
  destroy_on_close = req.disk.destroy_on_close;
}

unfoldable pub register : VmProvisionRequest → VmHandle → Action VmHandle
register req handle s =
    (ok handle, record s { entries = insert handle.id (entry_for req handle) s.entries })

abbrev pub succeeded : Result CommandOutput Error → Bool
succeeded (ok output) = success output
succeeded (err e) = false

abbrev pub report : ℕ → Bool → Bool → DestroyReport
report id shredded undefined = record {
  id = id;
  overlay_shredded = shredded;
  domain_undefined = undefined;
}

module _ (out : Outside) where
  unfoldable pub write_temp_xml : String → String → Action String
  unfolding write_file safe_stem
  write_temp_xml name xml =
      write_file out (out.temp_dir +s "/aegis-" +s safe_stem name +s ".xml") xml

  abbrev pub xml_of : VmProvisionRequest → LibvirtController → String
  xml_of req s =
      render_domain_xml_with out.naming req (out.mac s.events false) (out.mac s.events true)

  abbrev pub handle_of : VmProvisionRequest → LibvirtController → VmHandle
  handle_of req s = record {
    id = out.fresh s.events;
    instance_id = req.instance_id;
    role = req.role;
    domain_name = domain_name out.naming req;
    state = VmState.defined;
  }

  unfoldable pub provision : VmProvisionRequest → Action VmHandle
  unfolding run_checked write_temp_xml remove_file register
  provision req = do
    lift (validate_request req)
    run_checked out "qemu-img" (qemu_img_create req)
    xml ← gets (xml_of req)
    xml_path ← write_temp_xml (domain_name out.naming req) xml
    defined ← attempt (run_checked out "virsh" ("define" ∷ xml_path ∷ []))
    remove_file out xml_path
    lift defined
    handle ← gets (handle_of req)
    register req handle

  unfoldable pub start : ℕ → Action (Unit {0})
  unfolding domain_of run_checked mark
  start id = do
    domain ← domain_of id
    run_checked out "virsh" ("start" ∷ domain ∷ [])
    mark id VmState.running

  abbrev subcommand : ShutdownMode → String
  subcommand ShutdownMode.graceful = "shutdown"
  subcommand ShutdownMode.forced = "destroy"

  abbrev pub shut_state : ShutdownMode → VmState
  shut_state ShutdownMode.graceful = VmState.stopping
  shut_state ShutdownMode.forced = VmState.stopped

  unfoldable pub shutdown : ℕ → ShutdownMode → Action (Unit {0})
  unfolding domain_of run_checked mark
  shutdown id mode = do
    domain ← domain_of id
    run_checked out "virsh" (subcommand mode ∷ domain ∷ [])
    mark id (shut_state mode)

  -- Whether the overlay is gone afterwards.
  unfoldable pub shred_overlay : String → Action Bool
  unfolding exists run remove_file
  shred_overlay path =
      if is_empty path
      then pure true
      else exists out path >>= λ present. if not present then pure true else (do
        ignore (run out "shred" ("-u" ∷ "-z" ∷ path ∷ []))
        left ← exists out path
        if left then remove_file out path else pure tt
        still ← exists out path
        pure (not still))

  unfoldable pub destroy_entry : ℕ → Entry → Action DestroyReport
  unfolding run shred_overlay mark
  destroy_entry id e = do
    ignore (run out "virsh" ("destroy" ∷ e.handle.domain_name ∷ []))
    undefine ← attempt (run out "virsh" ("undefine" ∷ e.handle.domain_name ∷ []))
    shredded ← if e.destroy_on_close then shred_overlay e.overlay_path else pure true
    mark id VmState.destroyed
    pure (report id shredded (succeeded undefine))

  unfoldable pub destroy : ℕ → Action DestroyReport
  unfolding destroy_entry
  destroy id = do found ← gets (entry id); e ← lift (or_not_found found); destroy_entry id e

  unfoldable pub state : ℕ → Action VmState
  unfolding domain_of run_checked parse_domstate stdout_trimmed
  state id = do
    domain ← domain_of id
    output ← run_checked out "virsh" ("domstate" ∷ domain ∷ [])
    pure (parse_domstate (stdout_trimmed output))

abbrev pub handle : (ℕ × Entry) → VmHandle
handle e = e.1.handle

unfoldable pub list : Action (List VmHandle)
list = gets (λ s. map handle s.entries)
