-- ===== src/Store/Disk.antt =====
-- The calls of `tokio::fs` that crates/profile-store/src/store.rs makes, on the directories of the
-- profiles, and what else comes from outside the store.
use aegis_private_browser.Prelude.{
  ℕ, Bool, true, false, Option, none, some, List, [], ◌∷◌, String, lookup, insert, Result, ok, err,
  if◌then◌else◌, nat_eq,
}
use aegis_private_browser.Prelude.Exec.{Exec, pure, raise, lift, gets, ◌>>=◌, ◌>>◌}
use aegis_private_browser.Core.Error.{Error}
use aegis_private_browser.Core.Profile.{Profile}
use aegis_private_browser.Store.Tree.{Bytes, Node, Entries, find, place, drop}
use aegis_private_browser.Store.Tree.Entries.{vacant}

-- A call, with the profile and the name inside its directory.
pub data Call : Type 0 where
  stats_dir : ℕ → Call
  stats : ℕ → String → Call
  reads : ℕ → String → Call
  makes_dir : ℕ → Call
  makes_folder : ℕ → String → Call
  opens_new : ℕ → String → Call
  writes : ℕ → String → Bytes → Call
  flushes : ℕ → String → Call
  renames : ℕ → String → String → Call
  removes : ℕ → String → Call
  reads_dir : Call
  visits : Call
  measures : String → Call
  reads_root : Call
  shreds : ℕ → Call

-- A directory for each profile, and the calls made, the latest first.
pub record Disk : Type 0 where
  pub profiles : List (ℕ × Entries)
  pub calls : List Call

-- Which calls the host refuses, after the calls before, with an error that is neither NotFound nor
-- AlreadyExists; what a refused write leaves in the file, and whether a refused `create_dir_all` has
-- made the upper directory; what the shredder answers and leaves; random numbers, the clock, and
-- serde_json.
pub record Outside : Type 0 where
  pub refuses : List Call → Call → Bool
  pub torn : List Call → Option Bytes
  pub half : List Call → Bool
  pub shred_dir : List Call → Entries → Result (Unit {0}) Error × Option Entries
  pub fresh : List Call → ℕ
  pub temp_name : List Call → String
  pub random : List Call → List ℕ
  pub now : List Call → ℕ
  pub encode : Profile → Result Bytes Error
  pub decode : Bytes → Option Profile

abbrev pub Action : Type 0 → Type 0
Action A = Exec Disk Error A

abbrev pub note : Call → Disk → Disk
note c d = record d { calls = c ∷ d.calls }

abbrev pub find_in : String → Option Entries → Option Node
find_in name none = none
find_in name (some es) = find name es

abbrev pub node_at : ℕ → String → Disk → Option Node
node_at id name d = find_in name (lookup id d.profiles)

abbrev pub set_dir : ℕ → Entries → Disk → Disk
set_dir id es d = record d { profiles = insert id es d.profiles }

-- Only in a directory that there is.
abbrev pub changed : (Entries → Entries) → ℕ → Option Entries → Disk → Disk
changed f id none d = d
changed f id (some es) d = set_dir id (f es) d

abbrev pub put : ℕ → String → Node → Disk → Disk
put id name node d = changed (place name node) id (lookup id d.profiles) d

abbrev pub unlink : ℕ → String → Disk → Disk
unlink id name d = changed (drop name) id (lookup id d.profiles) d

abbrev pub make : ℕ → Option Entries → Disk → Disk
make id none d = set_dir id vacant d
make id (some _) d = d

unfoldable pub change : (Disk → Disk) → Action (Unit {0})
change f d = (ok tt, f d)

module _ (out : Outside) where
  -- Whether the host refuses the call, which is noted.
  unfoldable pub ask : Call → Action Bool
  ask c d = (ok (out.refuses d.calls c), note c d)

  abbrev pub unless : Bool → Result (Unit {0}) Error
  unless refused = if refused then err Error.system else ok tt

  unfoldable pub check : Call → Action (Unit {0})
  unfolding ask
  check c = ask c >>= λ refused. lift (unless refused)

  -- `metadata`: false for NotFound.
  abbrev is_there : {A : Type 0} → Option A → Bool
  is_there none = false
  is_there (some _) = true

  unfoldable pub stat_dir : ℕ → Action Bool
  unfolding check
  stat_dir id = check (Call.stats_dir id) >> gets (λ d. is_there (lookup id d.profiles))

  unfoldable pub stat : ℕ → String → Action Bool
  unfolding check
  stat id name = check (Call.stats id name) >> gets (λ d. is_there (node_at id name d))

  -- `read`: none for NotFound; what is no regular file is an error.
  abbrev pub contents : Option Node → Result (Option Bytes) Error
  contents none = ok none
  contents (some (Node.file b)) = ok (some b)
  contents (some (Node.folder _)) = err Error.system
  contents (some Node.other) = err Error.system

  unfoldable pub read : ℕ → String → Action (Option Bytes)
  unfolding check
  read id name =
      check (Call.reads id name) >> gets (node_at id name) >>= λ found. lift (contents found)

  -- A file can be written where there is a directory for it and nothing but a regular file.
  abbrev pub writable : Option Entries → Option Node → Bool
  writable none _ = false
  writable (some _) none = true
  writable (some _) (some (Node.file _)) = true
  writable (some _) (some (Node.folder _)) = false
  writable (some _) (some Node.other) = false

  abbrev pub left : ℕ → String → Option Bytes → Disk → Disk
  left id name none d = d
  left id name (some b) d = put id name (Node.file b) d

  -- `write` and, for the file just opened, `write_all`.
  abbrev pub written : ℕ → String → Bytes → Bool → Bool → Action (Unit {0})
  written id name b false refused = raise Error.system
  written id name b true true =
      gets (λ d. out.torn d.calls) >>= λ torn. change (left id name torn) >> raise Error.system
  written id name b true false = change (put id name (Node.file b))

  unfoldable pub write : ℕ → String → Bytes → Action (Unit {0})
  unfolding ask change
  write id name b = do
    refused ← ask (Call.writes id name b)
    possible ← gets (λ d. writable (lookup id d.profiles) (node_at id name d))
    written id name b possible refused

  -- `create_new`: false for AlreadyExists.
  abbrev pub opened : ℕ → String → Option Entries → Option Node → Action Bool
  opened id name none _ = raise Error.system
  opened id name (some _) none = change (put id name (Node.file [])) >> pure true
  opened id name (some _) (some _) = pure false

  unfoldable pub open_new : ℕ → String → Action Bool
  unfolding check change
  open_new id name = do
    check (Call.opens_new id name)
    dir ← gets (λ d. lookup id d.profiles)
    found ← gets (node_at id name)
    opened id name dir found

  abbrev pub moved : ℕ → String → String → Option Node → Option Node → Action (Unit {0})
  moved id from to none _ = raise Error.system
  moved id from to (some node) (some (Node.folder _)) = raise Error.system
  moved id from to (some node) (some (Node.file _)) =
      change (λ d. put id to node (unlink id from d))
  moved id from to (some node) (some Node.other) = change (λ d. put id to node (unlink id from d))
  moved id from to (some node) none = change (λ d. put id to node (unlink id from d))

  -- `rename` of a file, which replaces what the second name had, unless it is a directory.
  unfoldable pub rename : ℕ → String → String → Action (Unit {0})
  unfolding check change
  rename id from to = do
    check (Call.renames id from to)
    node ← gets (node_at id from)
    target ← gets (node_at id to)
    moved id from to node target

  abbrev pub removed : ℕ → String → Option Node → Action (Unit {0})
  removed id name none = raise Error.system
  removed id name (some (Node.folder _)) = raise Error.system
  removed id name (some (Node.file _)) = change (unlink id name)
  removed id name (some Node.other) = change (unlink id name)

  unfoldable pub remove_file : ℕ → String → Action (Unit {0})
  unfolding check change
  remove_file id name =
      check (Call.removes id name) >> gets (node_at id name) >>= λ found. removed id name found

  -- `create_dir_all` of the directory.
  unfoldable pub make_dir : ℕ → Action (Unit {0})
  unfolding check change
  make_dir id = check (Call.makes_dir id) >> change (λ d. make id (lookup id d.profiles) d)

  abbrev pub made : ℕ → String → Option Node → Action (Unit {0})
  made id name none = change (put id name (Node.folder vacant))
  made id name (some (Node.folder _)) = pure tt
  made id name (some (Node.file _)) = raise Error.system
  made id name (some Node.other) = raise Error.system

  abbrev pub started : ℕ → Bool → Disk → Disk
  started id true d = make id (lookup id d.profiles) d
  started id false d = d

  abbrev pub made_below : ℕ → String → Bool → Action (Unit {0})
  made_below id name true =
      gets (λ d. out.half d.calls) >>= λ half. change (started id half) >> raise Error.system
  made_below id name false = do
    change (λ d. make id (lookup id d.profiles) d)
    found ← gets (node_at id name)
    made id name found

  -- `create_dir_all` of a directory inside it.
  unfoldable pub make_folder : ℕ → String → Action (Unit {0})
  unfolding ask change
  make_folder id name = ask (Call.makes_folder id name) >>= made_below id name
