-- ===== src/Update/Apply.antt =====
-- `apply` of `SignedUpdateClient`: the artifacts are installed one by one behind backups, which are
-- removed at the end, or moved back after a failure.
use aegis_private_browser.Prelude.{
  Bool, true, false, not, Option, none, some, List, [], ◌∷◌, Result, ok, err, if◌then◌else◌,
}
use aegis_private_browser.Prelude.Exec.{pure, raise, lift, gets, ignore, attempt, ◌>>=◌, ◌>>◌}
use aegis_private_browser.Prelude.Text.{◌+s◌}
use aegis_private_browser.Core.Error.{Error}
use aegis_private_browser.Core.Update.{Artifact, VerifiedArtifact, ApplyOutcome}
use aegis_private_browser.Files.FilePath.{FilePath, parent, file_name, or_empty, with_file_name}
use aegis_private_browser.Update.Host.{
  Bytes, Backup, Machine, Action, Environment, Crates, fetch, create_dir_all, try_exists, rename,
  write, remove_file,
}
use aegis_private_browser.Update.Client.{SignedUpdateClient, install_path, hash_matches}

unfoldable pub backup_path_for : FilePath → FilePath
unfolding file_name with_file_name
backup_path_for target = with_file_name target (or_empty (file_name target) +s ".aegis-bak")

unfoldable pub tmp_path_for : FilePath → FilePath
unfolding file_name with_file_name
tmp_path_for target = with_file_name target (or_empty (file_name target) +s ".aegis-tmp")

-- `unwrap_or(false)`
abbrev pub or_false : Result Bool Error → Bool
or_false (ok b) = b
or_false (err e) = false

abbrev pub saved : FilePath → Option FilePath → Backup
saved target backup = record { target = target; backup = backup; wrote_new = false }

unfoldable pub push : Backup → Action (Unit {0})
push r m = (ok tt, record m { backups = r ∷ m.backups })

abbrev pub wrote_last : List Backup → List Backup
wrote_last [] = []
wrote_last (r ∷ more) = record r { wrote_new = true } ∷ more

-- `if let Some(last) = backups.last_mut() { last.wrote_new = true; }`
unfoldable pub mark_written : Action (Unit {0})
mark_written m = (ok tt, record m { backups = wrote_last m.backups })

module _ (env : Environment) where
  unfoldable pub make_parent : Option FilePath → Action (Unit {0})
  unfolding create_dir_all
  make_parent none = pure tt
  make_parent (some dir) = create_dir_all env dir

  -- A file at the target is moved away.
  unfoldable pub back_up : FilePath → Bool → Action (Unit {0})
  unfolding rename push
  back_up target true =
      rename env target (backup_path_for target)
      >> push (saved target (some (backup_path_for target)))
  back_up target false = push (saved target none)

module _ (env : Environment) (crates : Crates) (c : SignedUpdateClient) where
  -- The bytes are fetched afresh, and their hash is checked again.
  unfoldable pub fetch_checked : Artifact → Action Bytes
  unfolding fetch
  fetch_checked a = do
    bytes ← fetch env a.location
    if not (hash_matches crates a bytes) then raise Error.integrity else pure bytes

  -- The body of the loop over the artifacts, from the target on.
  unfoldable pub install_at : Artifact → FilePath → Action (Unit {0})
  unfolding make_parent try_exists back_up fetch_checked write rename mark_written
  install_at a target = do
    make_parent env (parent target)
    found ← attempt (try_exists env target)
    back_up env target (or_false found)
    bytes ← fetch_checked a
    write env (tmp_path_for target) bytes
    rename env (tmp_path_for target) target
    mark_written

  unfoldable pub install : Artifact → Action (Unit {0})
  unfolding install_at
  install a = lift (install_path c a) >>= install_at a

  unfoldable pub install_all : List Artifact → Action (Unit {0})
  unfolding install
  install_all [] = pure tt
  install_all (a ∷ more) = install a >> install_all more

  unfoldable pub remove_backup : Option FilePath → Action (Unit {0})
  unfolding remove_file
  remove_backup none = pure tt
  remove_backup (some b) = ignore (remove_file env b)

  -- From the oldest record to the latest.
  unfoldable pub clean : List Backup → Action (Unit {0})
  unfolding remove_backup
  clean [] = pure tt
  clean (r ∷ older) = clean older >> remove_backup r.backup

  unfoldable pub restore : FilePath → Option FilePath → Action (Unit {0})
  unfolding rename
  restore target none = pure tt
  restore target (some b) = ignore (rename env b target)

  unfoldable pub drop_new : FilePath → Bool → Action (Unit {0})
  unfolding remove_file
  drop_new target true = ignore (remove_file env target)
  drop_new target false = pure tt

  -- From the latest record to the oldest.
  unfoldable pub roll_back : List Backup → Action (Unit {0})
  unfolding drop_new restore
  roll_back [] = pure tt
  roll_back (r ∷ older) = do
    drop_new r.target r.wrote_new
    restore r.target r.backup
    roll_back older

  unfoldable pub finish : Result (Unit {0}) Error → Action ApplyOutcome
  unfolding clean roll_back
  finish (ok _) = do records ← gets (λ m. m.backups); clean records; pure ApplyOutcome.applied
  finish (err e) = do
    records ← gets (λ m. m.backups)
    roll_back records
    pure ApplyOutcome.rolled_back

  abbrev pub empty_backups : Machine → Machine
  empty_backups m = record m { backups = [] }

  unfoldable pub apply : VerifiedArtifact → Action ApplyOutcome
  unfolding install_all finish
  apply v m = (attempt (install_all v.artifacts) >>= finish) (empty_backups m)
