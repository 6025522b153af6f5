-- ===== src/Store/Changes.antt =====
-- What the changes of a disk do to the nodes below a directory.
use aegis_private_browser.Prelude.{
  ◌≡◌, refl, sym, ap, ◌∙◌, ℕ, ◌==◌, Bool, true, false, Option, none, some, String, lookup, nat_eq,
  string_eq, if◌then◌else◌, str_eq, lookup-insert, beq_refl,
}
use aegis_private_browser.Store.Tree.{Node, Entries, find, place, drop, find-place, find-drop}
use aegis_private_browser.Store.Tree.Entries.{vacant}
use aegis_private_browser.Store.Disk.{Disk, find_in, node_at, put, unlink, make, set_dir, changed}

-- A change of one directory that keeps the key in it.
node_at-set_dir :
    (id j : ℕ) (key : String) (es : Entries) (d : Disk)
    → (id ≡ j → find key es ≡ node_at j key d)
    → node_at j key (set_dir id es d) ≡ node_at j key d
node_at-set_dir id j key es d h =
    ap (find_in key) (lookup-insert id j es d.profiles) ∙ chosen (id == j) refl
  where
    chosen :
        (b : Bool)
        → (id == j) ≡ b
        → find_in key (if b then some es else lookup j d.profiles) ≡ node_at j key d
    chosen true e = h ((nat_eq.beq_iff id j).0 e)
    chosen false e = refl

module _ (id j : ℕ) (key : String) (d : Disk) where
  node_at-changed :
      (f : Entries → Entries)
      → ((es : Entries) → id ≡ j → find key (f es) ≡ find key es)
      → node_at j key (changed f id (lookup id d.profiles) d) ≡ node_at j key d
  node_at-changed f h = changes (lookup id d.profiles) refl
    where
      changes :
          (dir : Option Entries)
          → lookup id d.profiles ≡ dir
          → node_at j key (changed f id dir d) ≡ node_at j key d
      changes none e = refl
      changes (some es) e =
          node_at-set_dir id j key (f es) d
            λ same. h es same ∙ ap (find_in key) (sym e) ∙ ap (λ i. node_at i key d) same

  pub node_at-put :
      (name : String) (node : Node)
      → (id ≡ j → str_eq name key ≡ false)
      → node_at j key (put id name node d) ≡ node_at j key d
  node_at-put name node free = node_at-changed (place name node) λ es same.
      find-place name key node es ∙ ap (λ b. if b then some node else find key es) (free same)

  pub node_at-unlink :
      (name : String)
      → (id ≡ j → str_eq name key ≡ false)
      → node_at j key (unlink id name d) ≡ node_at j key d
  node_at-unlink name free =
      node_at-changed (drop name)
        λ es same. find-drop name key es ∙ ap (λ b. if b then none else find key es) (free same)

  pub node_at-make : node_at j key (make id (lookup id d.profiles) d) ≡ node_at j key d
  unfolding find
  node_at-make = makes (lookup id d.profiles) refl
    where
      makes :
          (dir : Option Entries)
          → lookup id d.profiles ≡ dir
          → node_at j key (make id dir d) ≡ node_at j key d
      makes none e =
          node_at-set_dir id j key vacant d
            λ same. ap (find_in key) (sym e) ∙ ap (λ i. node_at i key d) same
      makes (some es) e = refl

-- What was placed is found, where there is a directory.
pub node_at-put_same :
    (id : ℕ) (name : String) (node : Node) (es : Entries) (d : Disk)
    → lookup id d.profiles ≡ some es
    → node_at id name (put id name node d) ≡ some node
node_at-put_same id name node es d h =
    ap (λ dir. node_at id name (changed (place name node) id dir d)) h
    ∙ ap (find_in name) (lookup-insert id id (place name node es) d.profiles)
    ∙ ap (λ b. find_in name (if b then some (place name node es) else lookup id d.profiles))
        (beq_refl id)
    ∙ find-place name name node es
    ∙ ap (λ b. if b then some node else find name es) (beq_refl name)
