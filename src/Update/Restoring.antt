-- ===== src/Update/Restoring.antt =====
-- What the end of `apply` does: removing the backups, or moving them back.
use aegis_private_browser.Prelude.{
  ◌≡◌, ◌≢◌, refl, sym, ◌∙◌, subst, Bool, true, false, Option, none, some, List, [], ◌∷◌, All,
  if◌then◌else◌, arith,
}
use aegis_private_browser.Prelude.Exec.{raise, ignore, ◌>>=◌}
use aegis_private_browser.Prelude.Exec.Triple.{
  Post, Triple, Triple-pure, Triple-ignore, Triple-if, Triple-bind, Triple-weaken,
}
use aegis_private_browser.Core.Error.{Error}
use aegis_private_browser.Files.FilePath.{FilePath, same_path_iff}
use aegis_private_browser.Update.Host.{
  Bytes, Files, Backup, Call, Machine, Environment, Crates, moved, move, unlinked, unlink, settle,
  ask, change,
}
use aegis_private_browser.Update.Client.{SignedUpdateClient}
use aegis_private_browser.Update.Apply.{
  backup_path_for, remove_backup, clean, drop_new, restore, roll_back,
}
use aegis_private_browser.Update.Changes.{remove_file-On, rename-On}
use aegis_private_browser.Update.Installing.{Probes}
use aegis_private_browser.Update.Progress.{Avoids, Within, Saves, Aligned, BackupOf}
use aegis_private_browser.Update.Undo.{or_same, dropped, restored, undo_one, undo, Off, Agree}

-- What a roll back needs of the host: it can tell whether a file exists, it removes files, and it
-- moves backups to their targets.
pub record Restores (env : Environment) : Type 0 where
  pub probes : Probes env
  pub removes : (h : List Call) (p : FilePath) → env.refuses h (Call.removes p) ≡ false
  pub renames_back :
      (h : List Call) (p : FilePath) → env.refuses h (Call.renames (backup_path_for p) p) ≡ false

unlinked-off :
    (p : FilePath) (o : Option Bytes) (v : Files) (q : FilePath)
    → q ≢ p
    → or_same (unlinked p o v) v q ≡ v q
unlinked-off p none v q off = refl
unlinked-off p (some x) v q off = ground (arith, same_path_iff p q)

moved-off :
    (p t : FilePath) (o : Option Bytes) (v : Files) (q : FilePath)
    → q ≢ p
    → q ≢ t
    → or_same (moved p t o v) v q ≡ v q
moved-off p t none v q off off_target = refl
moved-off p t (some x) v q off off_target = ground (arith, same_path_iff p q, same_path_iff t q)

module _ (env : Environment) (crates : Crates) (c : SignedUpdateClient) (w : Files) where
  -- Removing the backups touches scratch files only.
  remove_backup-Agree :
      {X : Error → Machine → Type 0} (S : List FilePath) (b : Option FilePath)
      → ((q : FilePath) → Off q S → Avoids q b)
      → Triple (λ m. Agree S m.files w) (remove_backup env crates c b) (λ _ m. Agree S m.files w) X
  unfolding remove_backup
  remove_backup-Agree S none avoids = Triple-pure _ (λ m h. h)
  remove_backup-Agree S (some b) avoids = Triple-ignore _ (
      remove_file-On env (λ v. Agree S v w) b
        (λ v h q off. unlinked-off b (v b) v q (avoids q off) ∙ h q off))

  pub clean-Agree :
      {X : Error → Machine → Type 0} (S : List FilePath) (l : List Backup)
      → All (Saves S) l
      → Triple (λ m. Agree S m.files w) (clean env crates c l) (λ _ m. Agree S m.files w) X
  unfolding clean
  clean-Agree S [] h = Triple-pure _ (λ m h. h)
  clean-Agree S (r ∷ older) h =
      Triple-bind _ _ (clean-Agree S older h.1) λ _. remove_backup-Agree S r.backup h.0

  drop_new-Agree :
      {X : Error → Machine → Type 0} (T : List FilePath) (t : FilePath) (b : Bool)
      → ((q : FilePath) → Off q T → q ≢ t)
      → Triple (λ m. Agree T m.files w) (drop_new env crates c t b) (λ _ m. Agree T m.files w) X
  unfolding drop_new
  drop_new-Agree T t true avoids = Triple-ignore _ (
      remove_file-On env (λ v. Agree T v w) t
        (λ v h q off. unlinked-off t (v t) v q (avoids q off) ∙ h q off))
  drop_new-Agree T t false avoids = Triple-pure _ (λ m h. h)

  restore-Agree :
      {X : Error → Machine → Type 0} (T : List FilePath) (t : FilePath) (b : Option FilePath)
      → ((q : FilePath) → Off q T → (q ≢ t) × Avoids q b)
      → Triple (λ m. Agree T m.files w) (restore env crates c t b) (λ _ m. Agree T m.files w) X
  unfolding restore
  restore-Agree T t none avoids = Triple-pure _ (λ m h. h)
  restore-Agree T t (some b) avoids = Triple-ignore _ (
      rename-On env (λ v. Agree T v w) b t
        (λ v h q off. moved-off b t (v b) v q (avoids q off).1 (avoids q off).0 ∙ h q off))

  -- A roll back touches the paths of its records only.
  pub roll_back-Agree :
      {X : Error → Machine → Type 0} (T : List FilePath) (l : List Backup)
      → All (Within T) l
      → Triple (λ m. Agree T m.files w) (roll_back env crates c l) (λ _ m. Agree T m.files w) X
  unfolding roll_back
  roll_back-Agree T [] h = Triple-pure _ (λ m h. h)
  roll_back-Agree T (r ∷ older) h =
      Triple-bind _ _ (drop_new-Agree T r.target r.wrote_new (λ q off. (h.0 q off).0)) λ _.
        Triple-bind _ _ (restore-Agree T r.target r.backup h.0) λ _. roll_back-Agree T older h.1

module _ (env : Environment) (c : Call) (granted : (h : List Call) → env.refuses h c ≡ false) where
  change-exact :
      (f : Files → Option Files) (v : Files)
      → Triple
          (λ m. m.files ≡ v)
          (change f)
          (λ _ m. m.files ≡ or_same (f v) v)
          (λ _ m. m.files ≡ or_same (f v) v)
  unfolding change
  change-exact f v = record {
    at = λ m h.
        subst
          (λ x.
            Post (λ _ m. m.files ≡ or_same (f x) x) (λ _ m. m.files ≡ or_same (f x) x)
              (settle (f m.files) m).0 (settle (f m.files) m).1)
          h (either m (f m.files));
  }
    where
      either :
          (m : Machine) (o : Option Files)
          → Post
              (λ _ t. t.files ≡ or_same o m.files)
              (λ _ t. t.files ≡ or_same o m.files)
              (settle o m).0
              (settle o m).1
      either m none = refl
      either m (some w) = refl

  -- A call that is granted changes the files as it should.
  asked-exact :
      (f : Files → Option Files) (v : Files)
      → Triple
          (λ m. m.files ≡ v)
          (ignore (ask env c >>= λ refused. if refused then raise Error.system else change f))
          (λ _ m. m.files ≡ or_same (f v) v)
          (λ (_ : Error) m. m.files ≡ or_same (f v) v)
  unfolding ask
  asked-exact f v = Triple-ignore _ (
      Triple-bind {Q = λ refused m. (m.files ≡ v) × (refused ≡ false)} _ _
        (record { at = λ m h. (h, granted m.calls) })
        λ refused.
          Triple-if refused _ _
            (λ yes_refused. record { at = λ m h. absurd (contrary yes_refused h.1) })
            (λ _. Triple-weaken _ (change-exact f v) (λ m h. h.0) (λ _ m h. h) (λ e m h. h)))
    where
      contrary : {b : Bool} → b ≡ true → b ≡ false → ⊥
      contrary p q = cc

module _ (env : Environment) (crates : Crates) (c : SignedUpdateClient)
    (ok_host : Restores env) where
  abbrev At : Files → Machine → Type 0
  At v m = m.files ≡ v

  drop_new-exact :
      {X : Error → Machine → Type 0} (t : FilePath) (b : Bool) (v : Files)
      → Triple (At v) (drop_new env crates c t b) (λ _. At (dropped t b v)) X
  unfolding drop_new ignore
  drop_new-exact t true v = record {
    at = (asked-exact env (Call.removes t) (λ h. ok_host.removes h t) (unlink t) v).at;
  }
  drop_new-exact t false v = Triple-pure _ (λ m h. h)

  restore-exact :
      {X : Error → Machine → Type 0} (t : FilePath) (b : Option FilePath) (v : Files)
      → BackupOf t b
      → Triple (At v) (restore env crates c t b) (λ _. At (restored t b v)) X
  unfolding restore ignore
  restore-exact t none v aligned = Triple-pure _ (λ m h. h)
  restore-exact t (some b) v aligned = record {
    at =
        (asked-exact env (Call.renames b t)
          (λ h.
            subst (λ p. env.refuses h (Call.renames p t) ≡ false) (sym aligned)
              (ok_host.renames_back h t))
          (move b t) v).at;
  }

  -- Where the host lets it, a roll back undoes the records.
  pub roll_back-undo :
      {X : Error → Machine → Type 0} (l : List Backup) (v : Files)
      → All Aligned l
      → Triple (At v) (roll_back env crates c l) (λ _. At (undo l v)) X
  unfolding roll_back
  roll_back-undo [] v h = Triple-pure _ (λ m e. e)
  roll_back-undo (r ∷ older) v h = Triple-bind _ _ (drop_new-exact r.target r.wrote_new v) λ _.
      Triple-bind _ _ (restore-exact r.target r.backup (dropped r.target r.wrote_new v) h.0)
        λ _. roll_back-undo older (undo_one r v) h.1
