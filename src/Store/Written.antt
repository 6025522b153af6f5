-- ===== src/Store/Written.antt =====
-- What the store's writes keep, for whatever does not depend on the names that are written.
use aegis_private_browser.Prelude.{
  ◌≡◌, sym, subst, ℕ, Bool, true, false, Option, none, some, [], String, lookup, Result, ok, err,
  nat_eq,
}
use aegis_private_browser.Prelude.Exec.Triple.{Keeps}
use aegis_private_browser.Core.Error.{Error}
use aegis_private_browser.Core.Profile.{Profile}
use aegis_private_browser.Store.Tree.{Bytes, Node, Entries}
use aegis_private_browser.Store.Tree.Entries.{vacant}
use aegis_private_browser.Store.Disk.{
  Call, Disk, Outside, note, put, unlink, make, change, written, opened, moved, removed, made,
  made_below, started, left, write, open_new, rename, remove_file, make_dir, make_folder,
}
use aegis_private_browser.Store.Profiles.{meta_file, temp_path, renamed, write_meta}
use aegis_private_browser.Store.Kept.{
  gets-Kept, lift-Kept, pure-Kept, raise-Kept, attempt-Kept, ignore-Kept, bind-Kept, ask-Kept,
  check-Kept,
}

-- The predicate does not depend on the calls, on new directories, or on what stands under the free
-- names.
pub record Apart (K : Disk → Type 0) (id : ℕ) (Free : String → Type 0) : Type 0 where
  pub noted : (c : Call) (d : Disk) → K d → K (note c d)
  pub put_free : (name : String) (node : Node) (d : Disk) → Free name → K d → K (put id name node d)
  pub unlink_free : (name : String) (d : Disk) → Free name → K d → K (unlink id name d)
  pub made_dir : (d : Disk) → K d → K (make id (lookup id d.profiles) d)

module _ (out : Outside) {K : Disk → Type 0} {id : ℕ} {Free : String → Type 0}
    (apart : Apart K id Free) where
  change-Kept : (f : Disk → Disk) → ((d : Disk) → K d → K (f d)) → Keeps {E = Error} K (change f)
  unfolding change
  change-Kept f h = record { at = h }

  put-Kept :
      {name : String} (node : Node) → Free name → Keeps {E = Error} K (change (put id name node))
  put-Kept {name} node free = change-Kept _ λ d. apart.put_free name node d free

  pub write-Kept : {name : String} (b : Bytes) → Free name → Keeps K (write out id name b)
  unfolding write
  write-Kept {name} b free =
      bind-Kept _ _ (ask-Kept out apart.noted _)
        λ refused. bind-Kept _ _ (gets-Kept _) λ possible. either possible refused
    where
      torn-Kept : (torn : Option Bytes) → Keeps {E = Error} K (change (left out id name torn))
      torn-Kept none = change-Kept _ λ d h. h
      torn-Kept (some c) = put-Kept (Node.file c) free

      either : (possible refused : Bool) → Keeps K (written out id name b possible refused)
      either false refused = raise-Kept _
      either true true =
          bind-Kept _ _ (gets-Kept λ d. out.torn d.calls)
            λ torn. bind-Kept _ _ (torn-Kept torn) λ _. raise-Kept Error.system
      either true false = put-Kept (Node.file b) free

  pub open_new-Kept : {name : String} → Free name → Keeps K (open_new out id name)
  unfolding open_new
  open_new-Kept {name} free =
      bind-Kept _ _ (check-Kept out apart.noted _) λ _.
        bind-Kept _ _ (gets-Kept _) λ dir. bind-Kept _ _ (gets-Kept _) λ found. either dir found
    where
      either : (dir : Option Entries) (found : Option Node) → Keeps K (opened out id name dir found)
      either none found = raise-Kept _
      either (some es) none = bind-Kept _ _ (put-Kept (Node.file []) free) λ _. pure-Kept true
      either (some es) (some node) = pure-Kept false

  pub rename-Kept : {from to : String} → Free from → Free to → Keeps K (rename out id from to)
  unfolding rename
  rename-Kept {from} {to} free free_to = bind-Kept _ _ (check-Kept out apart.noted _) λ _.
      bind-Kept _ _ (gets-Kept _) λ node. bind-Kept _ _ (gets-Kept _) λ target. either node target
    where
      move : (node : Node) → Keeps {E = Error} K (change (λ d. put id to node (unlink id from d)))
      move node =
          change-Kept _ λ d h.
            apart.put_free to node (unlink id from d) free_to (apart.unlink_free from d free h)

      either : (node target : Option Node) → Keeps K (moved out id from to node target)
      either none target = raise-Kept _
      either (some node) none = move node
      either (some node) (some (Node.file b)) = move node
      either (some node) (some (Node.folder es)) = raise-Kept _
      either (some node) (some Node.other) = move node

  pub remove_file-Kept : {name : String} → Free name → Keeps K (remove_file out id name)
  unfolding remove_file
  remove_file-Kept {name} free =
      bind-Kept _ _ (bind-Kept _ _ (check-Kept out apart.noted _) λ _. gets-Kept _) either
    where
      gone : Keeps {E = Error} K (change (unlink id name))
      gone = change-Kept _ λ d. apart.unlink_free name d free

      either : (found : Option Node) → Keeps K (removed out id name found)
      either none = raise-Kept _
      either (some (Node.file b)) = gone
      either (some (Node.folder es)) = raise-Kept _
      either (some Node.other) = gone

  pub make_dir-Kept : Keeps K (make_dir out id)
  unfolding make_dir
  make_dir-Kept = bind-Kept _ _ (check-Kept out apart.noted _) λ _. change-Kept _ apart.made_dir

  pub make_folder-Kept : {name : String} → Free name → Keeps K (make_folder out id name)
  unfolding make_folder
  make_folder-Kept {name} free = bind-Kept _ _ (ask-Kept out apart.noted _) below
    where
      begun : (half : Bool) → Keeps {E = Error} K (change (started out id half))
      begun true = change-Kept _ apart.made_dir
      begun false = change-Kept _ λ d h. h

      either : (found : Option Node) → Keeps K (made out id name found)
      either none = put-Kept (Node.folder vacant) free
      either (some (Node.file b)) = raise-Kept _
      either (some (Node.folder es)) = pure-Kept tt
      either (some Node.other) = raise-Kept _

      below : (refused : Bool) → Keeps K (made_below out id name refused)
      below true =
          bind-Kept _ _ (gets-Kept λ d. out.half d.calls)
            λ x. bind-Kept _ _ (begun x) λ _. raise-Kept Error.system
      below false =
          bind-Kept _ _ (change-Kept _ apart.made_dir) λ _. bind-Kept _ _ (gets-Kept _) either

  -- The temporary name and that of the metadata are free, so that a metadata file may be written.
  pub write_meta-Kept :
      (p : Profile)
      → p.id ≡ id
      → ((name : String) → Free (temp_path name))
      → Free meta_file
      → Keeps K (write_meta out p)
  unfolding write_meta
  write_meta-Kept p here temp meta =
      subst (λ i. Keeps K (write_meta out (record p { id = i }))) (sym here)
        (bind-Kept _ _ make_dir-Kept λ _. bind-Kept _ _ (lift-Kept _) λ json.
          bind-Kept _ _ (gets-Kept _) λ name.
            bind-Kept _ _ (write-Kept json (temp name))
              λ _. bind-Kept _ _ (attempt-Kept _ (rename-Kept (temp name) meta)) (cleaned name))
    where
      cleaned :
          (name : String) (r : Result (Unit {0}) Error)
          → Keeps K (renamed out id (temp_path name) r)
      cleaned name (ok _) = pure-Kept tt
      cleaned name (err e) =
          bind-Kept _ _ (ignore-Kept _ (remove_file-Kept (temp name))) λ _. raise-Kept e
