-- ===== src/Update/Changes.antt =====
-- What a removal and a rename keep of the files, refused or not.
use aegis_private_browser.Prelude.{Option, none, some, if◌then◌else◌}
use aegis_private_browser.Prelude.Exec.{raise, ◌>>=◌}
use aegis_private_browser.Prelude.Exec.Triple.{
  Post, Triple, Keeps, Triple-raise, Triple-if, Triple-bind,
}
use aegis_private_browser.Core.Error.{Error}
use aegis_private_browser.Files.FilePath.{FilePath}
use aegis_private_browser.Update.Host.{
  Files, Call, Machine, Environment, move, unlink, settle, ask, change, rename, remove_file,
}
use aegis_private_browser.Update.Undo.{or_same}

-- A change of the files keeps what holds of them.
module _ (env : Environment) (K : Files → Type 0) where
  abbrev pub On : Machine → Type 0
  On m = K m.files

  ask-On : {X : Error → Machine → Type 0} (c : Call) → Triple On (ask env c) (λ _. On) X
  unfolding ask
  ask-On c = record { at = λ m h. h }

  change-On :
      (f : Files → Option Files) → ((v : Files) → K v → K (or_same (f v) v)) → Keeps On (change f)
  unfolding change
  change-On f keep = record { at = λ m h. either m (f m.files) (keep m.files h) h }
    where
      either :
          (m : Machine) (o : Option Files)
          → K (or_same o m.files)
          → K m.files
          → Post (λ _. On) (λ _. On) (settle o m).0 (settle o m).1
      either m none changed h = h
      either m (some w) changed h = changed

  asked-On :
      (c : Call) (f : Files → Option Files)
      → ((v : Files) → K v → K (or_same (f v) v))
      → Keeps On (ask env c >>= λ refused. if refused then raise Error.system else change f)
  asked-On c f keep =
      Triple-bind _ _ (ask-On c)
        λ refused. Triple-if refused _ _ (λ _. Triple-raise _ (λ m h. h)) (λ _. change-On f keep)

  pub remove_file-On :
      (p : FilePath)
      → ((v : Files) → K v → K (or_same (unlink p v) v))
      → Keeps On (remove_file env p)
  unfolding remove_file
  remove_file-On p keep = asked-On (Call.removes p) (unlink p) keep

  pub rename-On :
      (p q : FilePath)
      → ((v : Files) → K v → K (or_same (move p q v) v))
      → Keeps On (rename env p q)
  unfolding rename
  rename-On p q keep = asked-On (Call.renames p q) (move p q) keep
