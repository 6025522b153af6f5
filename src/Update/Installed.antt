-- ===== src/Update/Installed.antt =====
-- `install`, for an artifact with a target: what holds after it, when it returns and when it fails.
use aegis_private_browser.Prelude.{
  ◌≡◌, refl, sym, subst, ap, ◌∙◌, ◌⊎◌, inl, inr, Bool, true, false, not, Option, none, some, List,
  arith,
}
use aegis_private_browser.Prelude.Exec.{attempt, ◌>>=◌, ◌>>◌}
use aegis_private_browser.Prelude.Exec.Triple.{
  Triple, Triple-pure, Triple-raise, Triple-attempt, Triple-if, Triple-bind, Triple-weaken,
}
use aegis_private_browser.Core.Error.{Error}
use aegis_private_browser.Core.Update.{Artifact}
use aegis_private_browser.Files.FilePath.{FilePath, parent, same_path_iff}
use aegis_private_browser.Update.Host.{
  Bytes, Files, Backup, Machine, Environment, Crates, has, try_exists, rename, write,
}
use aegis_private_browser.Update.Client.{SignedUpdateClient, hash_matches}
use aegis_private_browser.Update.Apply.{
  backup_path_for, tmp_path_for, or_false, saved, wrote_last, mark_written, make_parent, back_up,
  fetch_checked, install_at,
}
use aegis_private_browser.Update.Installing.{
  Probes, Apart, Same, Recorded, Pending, Pending-tmp, Pending-unsaved, Pending-saved,
  Recorded-written, written, installed_files,
}
use aegis_private_browser.Update.Installing.Calls.{
  Holds, create_dir_all-Holds, fetch-Holds, try_exists_lem, Moved, rename_lem, Torn, write_lem,
}

module _ (env : Environment) (crates : Crates) (c : SignedUpdateClient) (s : Machine) (a : Artifact)
    (t : FilePath) where
  -- Nothing was done, or one record was made.
  abbrev pub Left : Machine → Type 0
  Left m = Same env s t m.files m.backups ⊎ ((r : Backup) × Recorded env s t r m.files m.backups)

  abbrev pub Installed : Machine → Type 0
  Installed m =
      ((r : Backup) × Recorded env s t r m.files m.backups)
      × ((bytes : Bytes) × (m.files t ≡ some bytes) × (hash_matches crates a bytes ≡ true))

  abbrev Base : Machine → Type 0
  Base = Holds (Same env s t)

  abbrev Kept : Backup → Machine → Type 0
  Kept r = Holds (Pending env s t r)

  abbrev Prepared : Machine → Type 0
  Prepared m = (r : Backup) × Kept r m

  make_parent_lem :
      (dir : Option FilePath) → Triple Base (make_parent env dir) (λ _. Base) (λ _. Left)
  unfolding make_parent
  make_parent_lem none = Triple-pure _ (λ m h. h)
  make_parent_lem (some dir) =
      Triple-weaken _ (create_dir_all-Holds env (Same env s t) dir) (λ m h. h) (λ _ m h. h)
        (λ e m h. inl h)

  abbrev Known : Bool → Machine → Type 0
  Known b m = Base m × (Probes env → b ≡ has (m.files t))

  try_exists-Known :
      {X : Error → Machine → Type 0}
      → Triple Base (attempt (try_exists env t)) (λ found. Known (or_false found)) X
  try_exists-Known = Triple-attempt _ (
      Triple-weaken _ (try_exists_lem env (Same env s t) t) (λ m h. h)
        (λ b m h. (h.0, λ probes. h.1))
        (λ e m h. (h.0, λ probes. absurd (refused (probes h.1.0 t) h.1.1))))
    where
      refused : {b : Bool} → b ≡ false → b ≡ true → ⊥
      refused p q = cc

  back_up_lem :
      Apart t → (b : Bool) → Triple (Known b) (back_up env t b) (λ _. Prepared) (λ _. Left)
  unfolding back_up
  back_up_lem apart true =
      Triple-bind _ _
        (Triple-weaken _ (rename_lem env (Same env s t) t (backup_path_for t)) (λ m h. h.0)
          (λ _ m h. h) (λ e m h. inl h))
        λ _. record {
          at = λ m h. (
            saved t (some (backup_path_for t)),
            Pending-saved env s t apart h.0 m.files m.backups h.1 h.2 h.3 h.4,
          );
        }
  back_up_lem apart false = record {
    at = λ m h. (saved t none, Pending-unsaved env s t false m.files m.backups h.0 h.1 refl);
  }

  fetch_checked_lem :
      (r : Backup)
      → Triple
          (Kept r)
          (fetch_checked env crates c a)
          (λ bytes m. Kept r m × (hash_matches crates a bytes ≡ true))
          (λ _. Left)
  unfolding fetch_checked
  fetch_checked_lem r =
      Triple-bind _ _
        (Triple-weaken _ (fetch-Holds env (Pending env s t r) a.location) (λ m h. h) (λ _ m h. h)
          (λ e m h. inr (r, h.recorded)))
        λ bytes.
          Triple-if (not (hash_matches crates a bytes)) _ _
            (λ wrong. Triple-raise _ (λ m h. inr (r, h.recorded)))
            (λ right. Triple-pure _ (λ m h. (h, ground arith)))

  abbrev Checked : Bytes → Type 0
  Checked bytes = hash_matches crates a bytes ≡ true

  abbrev Staged : Backup → Bytes → Files → List Backup → Type 0
  Staged r bytes v bs = Pending env s t r v bs × (v (tmp_path_for t) ≡ some bytes)

  torn :
      Apart t
      → (r : Backup) (m : Machine) → Torn env (Pending env s t r) (tmp_path_for t) m
      → Left m
  torn apart r m (inl h) = inr (r, h.recorded)
  torn apart r m (inr (v, part, h, e)) = inr (
    r,
    subst (λ f. Recorded env s t r f m.backups) (sym e)
        (Pending-tmp env s t apart r v m.backups (some part) h).recorded,
  )

  write_tmp_lem :
      Apart t
      → (r : Backup) (bytes : Bytes)
      → Triple (Kept r) (write env (tmp_path_for t) bytes) (λ _. Holds (Staged r bytes)) (λ _. Left)
  write_tmp_lem apart r bytes =
      Triple-weaken _ (write_lem env (Pending env s t r) (tmp_path_for t) bytes) (λ m h. h)
        (λ _ m h.
          subst (λ f. Staged r bytes f m.backups) (sym h.2)
            (
              Pending-tmp env s t apart r h.0 m.backups (some bytes) h.1,
              ground (arith, same_path_iff (tmp_path_for t) (tmp_path_for t)),
            ))
        (λ e m h. torn apart r m h)

  mark_written_lem :
      {X : Error → Machine → Type 0}
      → Apart t
      → (r : Backup) (bytes : Bytes) → Checked bytes
      → Triple (Moved env (Staged r bytes) (tmp_path_for t) t) mark_written (λ _. Installed) X
  unfolding mark_written
  mark_written_lem apart r bytes checked = record {
    at = λ m h.
        let e : m.files ≡ installed_files t bytes h.0 =
          h.4 ∙ ap (λ b. installed_files t b h.0) (same_bytes h.1 (sym h.3 ∙ h.2.1)) in
        (
          (
            written r,
            subst (λ f. Recorded env s t (written r) f (wrote_last m.backups)) (sym e)
                (Recorded-written env s t apart r h.0 m.backups bytes h.2.0),
          ),
          (bytes, ap (λ f. f t) e ∙ ground (arith, same_path_iff t t), checked),
        );
  }
    where
      same_bytes : (b : Bytes) → some b ≡ some bytes → b ≡ bytes
      same_bytes b h = cc

  stored_lem :
      Apart t
      → (r : Backup) (bytes : Bytes) → Checked bytes
      → Triple
          (Kept r)
          (do write env (tmp_path_for t) bytes; rename env (tmp_path_for t) t; mark_written)
          (λ _. Installed)
          (λ _. Left)
  stored_lem apart r bytes checked = Triple-bind _ _ (write_tmp_lem apart r bytes) λ _.
      Triple-bind _ _
        (Triple-weaken _ (rename_lem env (Staged r bytes) (tmp_path_for t) t) (λ m h. h)
          (λ _ m h. h) (λ e m h. inr (r, h.0.recorded)))
        λ _. mark_written_lem apart r bytes checked

  finished_lem :
      Apart t
      → (r : Backup)
      → Triple
          (Kept r)
          (fetch_checked env crates c a >>= λ bytes. (do
            write env (tmp_path_for t) bytes
            rename env (tmp_path_for t) t
            mark_written))
          (λ _. Installed)
          (λ _. Left)
  finished_lem apart r =
      Triple-bind _ _ (fetch_checked_lem r)
        λ bytes. record { at = λ m h. (stored_lem apart r bytes h.1).at m h.0 }

  -- Installing at a target that differs from its two scratch files.
  pub install_at_lem :
      Apart t → Triple (λ m. m ≡ s) (install_at env crates c a t) (λ _. Installed) (λ _. Left)
  unfolding install_at
  install_at_lem apart =
      Triple-bind _ _
        (Triple-weaken _ (make_parent_lem (parent t))
          (λ m h. (ap (λ (x : Machine). x.files) h, ap (λ (x : Machine). x.backups) h)) (λ _ m h. h)
          (λ e m h. h))
        λ _. Triple-bind _ _ try_exists-Known λ found.
          Triple-bind _ _ (back_up_lem apart (or_false found))
            λ _. record { at = λ m h. (finished_lem apart h.0).at m h.1 }
