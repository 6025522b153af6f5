-- ===== src/Store/Tree.antt =====
-- What `tokio::fs` shows of a directory.
use aegis_private_browser.Prelude.{
  ◌≡◌, refl, ℕ, ◌+◌, Option, none, some, List, length, String, str_eq, eq_iff, arith, if◌then◌else◌,
}

abbrev pub Bytes : Type 0
Bytes = List ℕ

-- `other` is a link, a device or a socket, which is neither a directory nor a regular file.
mutual
  pub data Node : Type 0 where
    file : Bytes → Node
    folder : Entries → Node
    other : Node

  pub data Entries : Type 0 where
    vacant : Entries
    entry : String → Node → Entries → Entries

unfoldable pub find : String → Entries → Option Node
find name vacant = none
find name (entry n node more) = if str_eq n name then some node else find name more

-- The node takes the place of what had the name.
unfoldable pub place : String → Node → Entries → Entries
place name node vacant = entry name node vacant
place name node (entry n old more) =
    if str_eq n name then entry name node more else entry n old (place name node more)

unfoldable pub drop : String → Entries → Entries
drop name vacant = vacant
drop name (entry n node more) =
    let rest = drop name more in if str_eq n name then rest else entry n node rest

-- The bytes of the regular files at any depth.
unfoldable mutual
  pub bytes_of : Node → ℕ
  bytes_of (Node.file b) = length b
  bytes_of (Node.folder es) = bytes_in es
  bytes_of Node.other = 0

  pub bytes_in : Entries → ℕ
  bytes_in vacant = 0
  bytes_in (entry n node more) = bytes_of node + bytes_in more

-- The directories at any depth.
unfoldable mutual
  pub folders_of : Node → ℕ
  folders_of (Node.file b) = 0
  folders_of (Node.folder es) = 1 + folders_in es
  folders_of Node.other = 0

  pub folders_in : Entries → ℕ
  folders_in vacant = 0
  folders_in (entry n node more) = folders_of node + folders_in more

pub find-place :
    (name key : String) (node : Node) (es : Entries)
    → find key (place name node es) ≡ (if str_eq name key then some node else find key es)
unfolding find place
find-place name key node vacant = refl
find-place name key node (entry n old more) =
    ground (arith, eq_iff n name, eq_iff n key, eq_iff name key, find-place name key node more)

pub find-drop :
    (name key : String) (es : Entries)
    → find key (drop name es) ≡ (if str_eq name key then none else find key es)
unfolding find drop
find-drop name key vacant = ground arith
find-drop name key (entry n old more) =
    ground (arith, eq_iff n name, eq_iff n key, eq_iff name key, find-drop name key more)
