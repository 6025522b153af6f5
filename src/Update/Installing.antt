-- ===== src/Update/Installing.antt =====
-- One artifact's installation: what it leaves in the files, and what undoing its record brings back.
pub mod Calls
use aegis_private_browser.Prelude.{
  ◌≡◌, ◌≢◌, refl, sym, subst, ap, ◌∙◌, ◌⊎◌, inl, inr, Bool, true, false, not, Option, none, some,
  List, [], ◌∷◌, ◌++◌, All, if◌then◌else◌, arith, Result, ok, err,
}
use aegis_private_browser.Prelude.Exec.{pure, raise, lift, gets, ignore, attempt, ◌>>=◌, ◌>>◌}
use aegis_private_browser.Prelude.Exec.Triple.{
  Post, Triple, Keeps, Triple-pure, Triple-raise, Triple-attempt, Triple-if, Triple-bind,
  Triple-weaken,
}
use aegis_private_browser.Core.Error.{Error}
use aegis_private_browser.Core.Update.{Artifact}
use aegis_private_browser.Files.FilePath.{FilePath, same_path, same_path_iff, parent}
use aegis_private_browser.Update.Host.{
  Bytes, Files, Backup, Call, Machine, Environment, Crates, put, has, moved, unlinked, fetch,
}
use aegis_private_browser.Update.Client.{SignedUpdateClient, hash_matches}
use aegis_private_browser.Update.Apply.{
  backup_path_for, tmp_path_for, or_false, saved, push, wrote_last, mark_written, make_parent,
  back_up, fetch_checked, install_at,
}
use aegis_private_browser.Update.Undo.{
  or_same, undo_one, dropped, restored, Off, Agree, OffBackup, put-Agree, undo_one-Agree,
}

-- The host can always tell whether a file exists.
abbrev pub Probes : Environment → Type 0
Probes env = (h : List Call) (p : FilePath) → env.refuses h (Call.probes p) ≡ false

abbrev pub Apart : FilePath → Type 0
Apart t = (t ≢ backup_path_for t) × (t ≢ tmp_path_for t) × (backup_path_for t ≢ tmp_path_for t)

abbrev pub written : Backup → Backup
written r = record r { wrote_new = true }

-- What the files are once the new bytes stand at the target.
abbrev pub installed_files : FilePath → Bytes → Files → Files
installed_files t bytes v = put t (some bytes) (put (tmp_path_for t) none v)

module _ (env : Environment) (s : Machine) (t : FilePath) where
  abbrev bak : FilePath
  bak = backup_path_for t

  abbrev tmp : FilePath
  tmp = tmp_path_for t

  abbrev pub Same : Files → List Backup → Type 0
  Same v bs = (v ≡ s.files) × (bs ≡ s.backups)

  abbrev pub IsOwn : Option FilePath → Type 0
  IsOwn none = Unit
  IsOwn (some b) = b ≡ bak

  -- The record `r` is on top, and undoing it brings back what was there, but for the scratch files.
  pub record Recorded (r : Backup) (v : Files) (bs : List Backup) : Type 0 where
    pub listed : bs ≡ r ∷ s.backups
    pub target : r.target ≡ t
    pub backup : IsOwn r.backup
    pub frame : Agree (t ∷ bak ∷ tmp ∷ []) v s.files
    pub undone : Probes env → Agree (bak ∷ tmp ∷ []) (undo_one r v) s.files

  pub record Pending (r : Backup) (v : Files) (bs : List Backup) : Type 0 where
    pub recorded : Recorded r v bs
    pub unwritten : r.wrote_new ≡ false
    pub absent : Probes env → v t ≡ none

  own-Off : Apart t → (b : Option FilePath) → IsOwn b → OffBackup b (tmp ∷ [])
  own-Off apart none own = tt
  own-Off apart (some b) own = (rw own apart.2, tt)

  target-Off : Apart t → (p : FilePath) → p ≡ t → Off p (tmp ∷ [])
  target-Off apart p e = (rw e apart.1, tt)

  -- What the file beside the target holds does not matter to the undoing.
  undone-tmp :
      Apart t
      → (r : Backup) (v w : Files) (bs : List Backup) → Recorded r v bs
      → Agree (tmp ∷ []) w v
      → Probes env
      → Agree (bak ∷ tmp ∷ []) (undo_one r w) s.files
  undone-tmp apart r v w bs p agree probes q off =
      undo_one-Agree (tmp ∷ []) r w v (target-Off apart r.target p.target)
        (own-Off apart r.backup p.backup) agree q (off.1.0, tt)
      ∙ p.undone probes q off

  put-off : (p : FilePath) (o : Option Bytes) (v : Files) → Agree (p ∷ []) (put p o v) v
  put-off p o v q off = ground (arith, same_path_iff p q)

  pub Pending-tmp :
      Apart t
      → (r : Backup) (v : Files) (bs : List Backup) (o : Option Bytes) → Pending r v bs
      → Pending r (put tmp o v) bs
  Pending-tmp apart r v bs o p = record {
    recorded = record {
      listed = p.recorded.listed;
      target = p.recorded.target;
      backup = p.recorded.backup;
      frame = λ q off. put-off tmp o v q (off.1.1.0, tt) ∙ p.recorded.frame q off;
      undone = undone-tmp apart r v (put tmp o v) bs p.recorded (put-off tmp o v);
    };
    unwritten = p.unwritten;
    absent = λ probes. put-off tmp o v t (apart.1, tt) ∙ p.absent probes;
  }

  gone :
      Probes env
      → (r : Backup) (v : Files) (bs : List Backup) (bytes : Bytes) → Pending r v bs
      → Agree (tmp ∷ []) (put t none (installed_files t bytes v)) v
  gone probes r v bs bytes p q off =
      ground (arith, p.absent probes, same_path_iff t q, same_path_iff tmp q)

  undo_one-written :
      Apart t
      → (r : Backup) (v : Files) (bs : List Backup) (bytes : Bytes) → Pending r v bs
      → undo_one (written r) (installed_files t bytes v)
        ≡ undo_one r (put t none (installed_files t bytes v))
  undo_one-written apart r v bs bytes p =
      let new : Files = installed_files t bytes v in
      let new_at : new t ≡ some bytes = ground (arith, same_path_iff t t) in
      ap (restored r.target r.backup) (
        subst (λ u. dropped u true new ≡ put t none new) (sym p.recorded.target)
          (ap (λ o. or_same (unlinked t o new) new) new_at)
        ∙ sym (ap (λ b. dropped r.target b (put t none new)) p.unwritten))

  pub Recorded-written :
      Apart t
      → (r : Backup) (v : Files) (bs : List Backup) (bytes : Bytes) → Pending r v bs
      → Recorded (written r) (installed_files t bytes v) (wrote_last bs)
  Recorded-written apart r v bs bytes p = record {
    listed = rw p.recorded.listed refl;
    target = p.recorded.target;
    backup = p.recorded.backup;
    frame = λ q off.
        put-off t (some bytes) (put tmp none v) q (off.0, tt)
        ∙ put-off tmp none v q (off.1.1.0, tt)
        ∙ p.recorded.frame q off;
    undone = λ probes q off.
        ap (λ f. f q) (undo_one-written apart r v bs bytes p)
        ∙ undone-tmp apart r v (put t none (installed_files t bytes v)) bs p.recorded
            (gone probes r v bs bytes p) probes q off;
  }

  pub Pending-unsaved :
      (b : Bool) (v : Files) (bs : List Backup)
      → Same v bs
      → (Probes env → b ≡ has (v t))
      → b ≡ false
      → Pending (saved t none) v (saved t none ∷ bs)
  Pending-unsaved b v bs same known e = record {
    recorded = record {
      listed = ap (λ l. saved t none ∷ l) same.1;
      target = refl;
      backup = tt;
      frame = λ q off. ap (λ f. f q) same.0;
      undone = λ probes q off. ap (λ f. f q) same.0;
    };
    unwritten = refl;
    absent = λ probes. none_of (v t) (sym (known probes) ∙ e);
  }
    where
      none_of : (o : Option Bytes) → has o ≡ false → o ≡ none
      none_of none h = refl
      none_of (some x) h = cc

  -- The file has been moved aside.
  pub Pending-saved :
      Apart t
      → (v w : Files) (bs : List Backup) (bytes : Bytes) → Same v bs
      → v t ≡ some bytes
      → w ≡ put bak (some bytes) (put t none v)
      → Pending (saved t (some bak)) w (saved t (some bak) ∷ bs)
  Pending-saved apart v w bs bytes same at moved_away = record {
    recorded = record {
      listed = ap (λ l. saved t (some bak) ∷ l) same.1;
      target = refl;
      backup = refl;
      frame = λ q off. ground (
        arith,
        moved_at q,
        same_path_iff bak q,
        same_path_iff t q,
        ap (λ (f : Files). f q) same.0,
      );
      undone = λ probes q off.
          ap (λ o. or_same (moved bak t o w) w q) at_bak
          ∙ ground (
            arith,
            moved_at q,
            same_path_iff t q,
            same_path_iff bak q,
            ap (λ (f : Files). f q) same.0,
          );
    };
    unwritten = refl;
    absent = λ probes. moved_at t ∙ ground (arith, same_path_iff bak t, same_path_iff t t);
  }
    where
      moved_at : (q : FilePath) → w q ≡ put bak (some bytes) (put t none v) q
      moved_at q = ap (λ f. f q) moved_away

      at_bak : w bak ≡ some bytes
      at_bak = moved_at bak ∙ ground (arith, same_path_iff bak bak)
