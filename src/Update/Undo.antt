-- ===== src/Update/Undo.antt =====
-- Undoing a backup record as a function of the files, and where two states of the files agree.
use aegis_private_browser.Prelude.{
  ◌≡◌, ◌≢◌, refl, subst, Bool, true, false, Option, none, some, List, [], ◌∷◌, ◌++◌, All, arith,
}
use aegis_private_browser.Files.FilePath.{FilePath}
use aegis_private_browser.Update.Host.{Bytes, Files, Backup, put, moved, move, unlinked, unlink}

abbrev pub or_same : Option Files → Files → Files
or_same none files = files
or_same (some changed) files = changed

abbrev pub dropped : FilePath → Bool → Files → Files
dropped target true files = or_same (unlink target files) files
dropped target false files = files

abbrev pub restored : FilePath → Option FilePath → Files → Files
restored target none files = files
restored target (some b) files = or_same (move b target files) files

abbrev pub undo_one : Backup → Files → Files
undo_one r files = restored r.target r.backup (dropped r.target r.wrote_new files)

-- The latest record first.
abbrev pub undo : List Backup → Files → Files
undo [] files = files
undo (r ∷ older) files = undo older (undo_one r files)

pub undo-append :
    (newer older : List Backup) (files : Files)
    → undo (newer ++ older) files ≡ undo older (undo newer files)
undo-append [] older files = refl
undo-append (r ∷ newer) older files = undo-append newer older (undo_one r files)

-- A path that is none of these.
abbrev pub Off : FilePath → List FilePath → Type 0
Off q paths = All (λ p. q ≢ p) paths

-- The two agree at every path that is none of these.
abbrev pub Agree : List FilePath → Files → Files → Type 0
Agree paths v w = (q : FilePath) → Off q paths → v q ≡ w q

abbrev pub OffBackup : Option FilePath → List FilePath → Type 0
OffBackup none paths = Unit
OffBackup (some b) paths = Off b paths

module _ (paths : List FilePath) where
  pub put-Agree :
      (p : FilePath) (o : Option Bytes) (v w : Files)
      → Agree paths v w
      → Agree paths (put p o v) (put p o w)
  put-Agree p o v w h q off = ground (arith, h q off)

  unlinked-Agree :
      (p : FilePath) (o : Option Bytes) (v w : Files)
      → Agree paths v w
      → Agree paths (or_same (unlinked p o v) v) (or_same (unlinked p o w) w)
  unlinked-Agree p none v w h = h
  unlinked-Agree p (some x) v w h = put-Agree p none v w h

  moved-Agree :
      (p q : FilePath) (o : Option Bytes) (v w : Files)
      → Agree paths v w
      → Agree paths (or_same (moved p q o v) v) (or_same (moved p q o w) w)
  moved-Agree p q none v w h = h
  moved-Agree p q (some x) v w h =
      put-Agree q (some x) (put p none v) (put p none w) (put-Agree p none v w h)

  dropped-Agree :
      (p : FilePath) (b : Bool) (v w : Files)
      → Off p paths
      → Agree paths v w
      → Agree paths (dropped p b v) (dropped p b w)
  dropped-Agree p true v w off h =
      subst (λ o. Agree paths (or_same (unlinked p (v p) v) v) (or_same (unlinked p o w) w))
        (h p off) (unlinked-Agree p (v p) v w h)
  dropped-Agree p false v w off h = h

  restored-Agree :
      (p : FilePath) (b : Option FilePath) (v w : Files)
      → OffBackup b paths
      → Agree paths v w
      → Agree paths (restored p b v) (restored p b w)
  restored-Agree p none v w off h = h
  restored-Agree p (some b) v w off h =
      subst (λ o. Agree paths (or_same (moved b p (v b) v) v) (or_same (moved b p o w) w)) (h b off)
        (moved-Agree b p (v b) v w h)

  -- Undoing a record that names none of the paths keeps the agreement.
  pub undo_one-Agree :
      (r : Backup) (v w : Files)
      → Off r.target paths
      → OffBackup r.backup paths
      → Agree paths v w
      → Agree paths (undo_one r v) (undo_one r w)
  undo_one-Agree r v w off off_backup h =
      restored-Agree r.target r.backup (dropped r.target r.wrote_new v)
        (dropped r.target r.wrote_new w) off_backup (dropped-Agree r.target r.wrote_new v w off h)
