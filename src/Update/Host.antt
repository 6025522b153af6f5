-- ===== src/Update/Host.antt =====
-- What the update client reaches outside itself: the files, the transport, and the third-party
-- crates (ed25519-dalek, sha2, hex, serde_json).
use aegis_private_browser.Prelude.{
  ℕ, Bool, true, false, Option, none, some, List, ◌∷◌, String, Result, ok, err, if◌then◌else◌,
}
use aegis_private_browser.Prelude.Exec.{Exec, pure, raise, ◌>>=◌}
use aegis_private_browser.Core.Error.{Error}
use aegis_private_browser.Core.Update.{UpdateManifest}
use aegis_private_browser.Files.FilePath.{FilePath, path_eq, same_path}

abbrev pub Bytes : Type 0
Bytes = List ℕ

-- The calls of `tokio::fs` and of the transport, the latter with what was answered.
pub data Call : Type 0 where
  creates : FilePath → Call
  probes : FilePath → Call
  renames : FilePath → FilePath → Call
  writes : FilePath → Bytes → Call
  removes : FilePath → Call
  fetches : String → Result Bytes Error → Call

-- The regular files by path.
abbrev pub Files : Type 0
Files = FilePath → Option Bytes

abbrev pub put : FilePath → Option Bytes → Files → Files
put p contents files q = if same_path p q then contents else files q

-- What an apply has to undo: `Backup` of `apply`.
pub record Backup : Type 0 where
  pub target : FilePath
  pub backup : Option FilePath
  pub wrote_new : Bool

-- `backups` is a local variable of `apply`, the latest first: what was pushed before a failure stays
-- pushed.
pub record Machine : Type 0 where
  pub files : Files
  pub calls : List Call
  pub backups : List Backup

-- Which calls the host refuses, after the calls before; what a refused write leaves in the file; and
-- what the transport answers.
pub record Environment : Type 0 where
  pub refuses : List Call → Call → Bool
  pub torn : List Call → FilePath → Option Bytes
  pub served : List Call → String → Result Bytes Error

abbrev pub Action : Type 0 → Type 0
Action A = Exec Machine Error A

module _ (env : Environment) where
  -- The call is made; the answer says whether the host refuses it.
  unfoldable pub ask : Call → Action Bool
  ask c m = (ok (env.refuses m.calls c), record m { calls = c ∷ m.calls })

  unfoldable pub fetch : String → Action Bytes
  fetch location m = (
    env.served m.calls location,
    record m { calls = Call.fetches location (env.served m.calls location) ∷ m.calls },
  )

abbrev pub moved : FilePath → FilePath → Option Bytes → Files → Option Files
moved p q none files = none
moved p q (some contents) files = some (put q (some contents) (put p none files))

-- `rename`, which replaces what the second path had, and `unlink`.
abbrev pub move : FilePath → FilePath → Files → Option Files
move p q files = moved p q (files p) files

abbrev pub unlinked : FilePath → Option Bytes → Files → Option Files
unlinked p none files = none
unlinked p (some _) files = some (put p none files)

abbrev pub unlink : FilePath → Files → Option Files
unlink p files = unlinked p (files p) files

abbrev pub settle : Option Files → Machine → Result (Unit {0}) Error × Machine
settle none m = (err Error.system, m)
settle (some files) m = (ok tt, record m { files = files })

-- The change of the files fails where there is no file to change.
unfoldable pub change : (Files → Option Files) → Action (Unit {0})
change f m = settle (f m.files) m

abbrev pub tear : FilePath → Option Bytes → Machine → Machine
tear p none m = m
tear p (some part) m = record m { files = put p (some part) m.files }

-- A refused write may have written a part.
unfoldable pub torn_write : Environment → FilePath → Action (Unit {0})
torn_write env p m = (err Error.system, tear p (env.torn m.calls p) m)

abbrev pub has : Option Bytes → Bool
has none = false
has (some _) = true

unfoldable pub exists : FilePath → Action Bool
exists p m = (ok (has (m.files p)), m)

module _ (env : Environment) where
  unfoldable pub create_dir_all : FilePath → Action (Unit {0})
  unfolding ask
  create_dir_all p = do
    refused ← ask env (Call.creates p)
    if refused then raise Error.system else pure tt

  unfoldable pub try_exists : FilePath → Action Bool
  unfolding ask exists
  try_exists p = do
    refused ← ask env (Call.probes p)
    if refused then raise Error.system else exists p

  unfoldable pub rename : FilePath → FilePath → Action (Unit {0})
  unfolding ask change
  rename p q = do
    refused ← ask env (Call.renames p q)
    if refused then raise Error.system else change (move p q)

  unfoldable pub write : FilePath → Bytes → Action (Unit {0})
  unfolding ask change torn_write
  write p bytes = do
    refused ← ask env (Call.writes p bytes)
    if refused then torn_write env p else change (λ files. some (put p (some bytes) files))

  unfoldable pub remove_file : FilePath → Action (Unit {0})
  unfolding ask change
  remove_file p = do
    refused ← ask env (Call.removes p)
    if refused then raise Error.system else change (unlink p)

-- The third-party crates. A key and a signature are their bytes.
pub record Crates : Type 0 where
  pub sha256 : Bytes → Bytes
  pub hex_encode : Bytes → String
  pub hex_decode : String → Option Bytes
  pub key_from_bytes : Bytes → Option Bytes
  pub verifies : (key message signature : Bytes) → Bool
  pub to_json : UpdateManifest → Option Bytes
  pub from_json : Bytes → Option UpdateManifest
