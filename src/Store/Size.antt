-- ===== src/Store/Size.antt =====
-- FileProfileStore::dir_size of crates/profile-store/src/store.rs.
use aegis_private_browser.Prelude.{
  ℕ, zero, suc, ◌+◌, leb, Option, none, some, List, [], ◌∷◌, length, lookup, if◌then◌else◌, nat_eq,
}
use aegis_private_browser.Prelude.Exec.{pure, raise, gets, ◌>>=◌, ◌>>◌}
use aegis_private_browser.Core.Error.{Error}
use aegis_private_browser.Store.Tree.{Node, Entries, folders_in}
use aegis_private_browser.Store.Tree.Entries.{vacant, entry}
use aegis_private_browser.Store.Disk.{Call, Outside, Action, check}

abbrev pub u64_max : ℕ
u64_max = 18446744073709551615

-- `saturating_add` on u64.
unfoldable pub saturated : ℕ → ℕ
saturated n = if leb n u64_max then n else u64_max

module _ (out : Outside) where
  -- One directory: its files are added, its directories are pushed.
  unfoldable pub scan : Entries → ℕ → List Entries → Action (ℕ × List Entries)
  unfolding check saturated
  scan vacant total stack = check out Call.visits >> pure (total, stack)
  scan (entry name (Node.folder es) more) total stack =
      check out Call.visits >> scan more total (es ∷ stack)
  scan (entry name (Node.file b) more) total stack =
      check out Call.visits
      >> check out (Call.measures name)
      >> scan more (saturated (total + length b)) stack
  scan (entry name Node.other more) total stack = check out Call.visits >> scan more total stack

  -- The stack holds the directories, the next one first, in place of their paths: nothing else
  -- changes them meanwhile. The first argument is fuel.
  unfoldable pub walk : ℕ → ℕ → List Entries → Action ℕ
  unfolding check scan
  walk fuel total [] = pure total
  walk zero total (es ∷ stack) = raise Error.internal
  walk (suc fuel) total (es ∷ stack) =
      check out Call.reads_dir >> scan es total stack >>= λ r. walk fuel r.0 r.1

  -- A directory that is missing has no bytes.
  abbrev pub size_of : Option Entries → Action ℕ
  size_of none = check out Call.reads_dir >> pure 0
  size_of (some es) = walk (suc (folders_in es)) 0 (es ∷ [])

  unfoldable pub dir_size : ℕ → Action ℕ
  unfolding check walk
  dir_size id = gets (λ d. lookup id d.profiles) >>= size_of
