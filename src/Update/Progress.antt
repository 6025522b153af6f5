-- ===== src/Update/Progress.antt =====
-- What a run of installations leaves, put together from what each one leaves.
use mathlib.Core.List.{append_assoc}
use aegis_private_browser.Prelude.{
  ◌≡◌, ◌≢◌, sym, ap, subst, ◌∙◌, Option, none, some, List, [], ◌∷◌, ◌++◌, All, Result, ok, err,
}
use aegis_private_browser.Core.Error.{Error}
use aegis_private_browser.Core.Update.{Artifact}
use aegis_private_browser.Files.FilePath.{FilePath}
use aegis_private_browser.Update.Host.{Backup, Machine, Environment}
use aegis_private_browser.Update.Client.{SignedUpdateClient, install_path}
use aegis_private_browser.Update.Apply.{backup_path_for, tmp_path_for}
use aegis_private_browser.Update.Undo.{undo, undo-append, Off, Agree, OffBackup, undo_one-Agree}
use aegis_private_browser.Update.Installing.{Probes, Same, IsOwn, Recorded}

-- The paths that an apply may write: each target with its backup and its temporary file.
abbrev pub with_target : Result FilePath Error → List FilePath → List FilePath
with_target (err e) more = more
with_target (ok t) more = t ∷ backup_path_for t ∷ tmp_path_for t ∷ more

abbrev pub with_scratch : Result FilePath Error → List FilePath → List FilePath
with_scratch (err e) more = more
with_scratch (ok t) more = backup_path_for t ∷ tmp_path_for t ∷ more

abbrev pub touched : SignedUpdateClient → List Artifact → List FilePath
touched c [] = []
touched c (a ∷ more) = with_target (install_path c a) (touched c more)

abbrev pub scratch : SignedUpdateClient → List Artifact → List FilePath
scratch c [] = []
scratch c (a ∷ more) = with_scratch (install_path c a) (scratch c more)

abbrev pub Distinct : List FilePath → Type 0
Distinct [] = Unit
Distinct (p ∷ more) = Off p more × Distinct more

abbrev pub Avoids : FilePath → Option FilePath → Type 0
Avoids q none = Unit
Avoids q (some b) = q ≢ b

-- A record names a target and a backup among these paths only.
abbrev pub Within : List FilePath → Backup → Type 0
Within paths r = (q : FilePath) → Off q paths → (q ≢ r.target) × Avoids q r.backup

abbrev pub Saves : List FilePath → Backup → Type 0
Saves paths r = (q : FilePath) → Off q paths → Avoids q r.backup

-- A record's backup is the one of its target.
abbrev pub BackupOf : FilePath → Option FilePath → Type 0
BackupOf t none = Unit
BackupOf t (some b) = b ≡ backup_path_for t

abbrev pub Aligned : Backup → Type 0
Aligned r = BackupOf r.target r.backup

-- From `s` to `m`, with the paths that may be written and, of these, the scratch files.
pub record Progress (env : Environment) (places scratches : List FilePath) (s m : Machine)
    : Type 0 where
  pub newer : List Backup
  pub listed : m.backups ≡ newer ++ s.backups
  pub frame : Agree places m.files s.files
  pub undone : Probes env → Agree scratches (undo newer m.files) s.files
  pub within : All (Within places) newer
  pub saves : All (Saves scratches) newer
  pub aligned : All Aligned newer

All-append : (P : Backup → Type 0) (xs ys : List Backup) → All P xs → All P ys → All P (xs ++ ys)
All-append P [] ys h k = k
All-append P (x ∷ xs) ys h k = (h.0, All-append P xs ys h.1 k)

All-imp :
    {P Q : Backup → Type 0} → ((r : Backup) → P r → Q r) → (l : List Backup) → All P l → All Q l
All-imp f [] h = tt
All-imp f (r ∷ more) h = (f r h.0, All-imp f more h.1)

module _ (env : Environment) (s : Machine) (t : FilePath) (T S : List FilePath) where
  abbrev places_all : List FilePath
  places_all = t ∷ backup_path_for t ∷ tmp_path_for t ∷ T

  abbrev scratches_all : List FilePath
  scratches_all = backup_path_for t ∷ tmp_path_for t ∷ S

  own-Avoids :
      (q : FilePath) (b : Option FilePath) → q ≢ backup_path_for t → IsOwn env s t b → Avoids q b
  own-Avoids q none off own = tt
  own-Avoids q (some b) off own = λ e. off (e ∙ own)

  Within-more : (r : Backup) → Within T r → Within places_all r
  Within-more r h q off = h q off.1.1.1

  Saves-more : (r : Backup) → Saves S r → Saves scratches_all r
  Saves-more r h q off = h q off.1.1

  module _ (r : Backup) where
    record-Within : r.target ≡ t → IsOwn env s t r.backup → Within places_all r
    record-Within target own q off = (λ e. off.0 (e ∙ target), own-Avoids q r.backup off.1.0 own)

    record-Saves : IsOwn env s t r.backup → Saves scratches_all r
    record-Saves own q off = own-Avoids q r.backup off.0 own

  record-Aligned :
      (r : Backup) → r.target ≡ t → (b : Option FilePath) → IsOwn env s t b → BackupOf r.target b
  record-Aligned r target none own = tt
  record-Aligned r target (some b) own = own ∙ ap backup_path_for (sym target)

  -- Nothing was done.
  pub Same-Progress :
      (m : Machine) → Same env s t m.files m.backups → Progress env places_all scratches_all s m
  Same-Progress m same = record {
    newer = [];
    listed = same.1;
    frame = λ q off. ap (λ f. f q) same.0;
    undone = λ probes q off. ap (λ f. f q) same.0;
    within = tt;
    saves = tt;
    aligned = tt;
  }

  -- One record was made.
  pub Recorded-Progress :
      (r : Backup) (m : Machine)
      → Recorded env s t r m.files m.backups
      → Progress env places_all scratches_all s m
  Recorded-Progress r m p = record {
    newer = r ∷ [];
    listed = p.listed;
    frame = λ q off. p.frame q (off.0, (off.1.0, (off.1.1.0, tt)));
    undone = λ probes q off. p.undone probes q (off.0, (off.1.0, tt));
    within = (record-Within r p.target p.backup, tt);
    saves = (record-Saves r p.backup, tt);
    aligned = (record-Aligned r p.target r.backup p.backup, tt);
  }

  own-OffBackup :
      Off (backup_path_for t) S → (b : Option FilePath) → IsOwn env s t b → OffBackup b S
  own-OffBackup off none own = tt
  own-OffBackup off (some b) own = subst (λ p. Off p S) (sym own) off

  -- One record was made, and then the run went on elsewhere.
  pub Recorded-Progress_next :
      Off t S
      → Off (backup_path_for t) S
      → (r : Backup) (m x : Machine) → Recorded env s t r m.files m.backups
      → Progress env T S m x
      → Progress env places_all scratches_all s x
  Recorded-Progress_next off off_backup r m x p later = record {
    newer = later.newer ++ (r ∷ []);
    listed =
        later.listed
        ∙ ap (λ l. later.newer ++ l) p.listed
        ∙ sym (append_assoc later.newer (r ∷ []) s.backups);
    frame = λ q o. later.frame q o.1.1.1 ∙ p.frame q (o.0, (o.1.0, (o.1.1.0, tt)));
    undone = λ probes q o.
        ap (λ f. f q) (undo-append later.newer (r ∷ []) x.files)
        ∙ undo_one-Agree S r (undo later.newer x.files) m.files
            (subst (λ p. Off p S) (sym p.target) off) (own-OffBackup off_backup r.backup p.backup)
            (later.undone probes) q o.1.1
        ∙ p.undone probes q (o.0, (o.1.0, tt));
    within =
        All-append (Within places_all) later.newer (r ∷ [])
          (All-imp Within-more later.newer later.within) (record-Within r p.target p.backup, tt);
    saves =
        All-append (Saves scratches_all) later.newer (r ∷ [])
          (All-imp Saves-more later.newer later.saves) (record-Saves r p.backup, tt);
    aligned =
        All-append Aligned later.newer (r ∷ []) later.aligned
          (record-Aligned r p.target r.backup p.backup, tt);
  }
