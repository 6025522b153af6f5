-- ===== src/Update/Applied.antt =====
-- `apply` leaves every artifact installed, or the files as they were.
use mathlib.Core.List.{append-nil}
use aegis_private_browser.Prelude.{
  ◌≡◌, refl, sym, ap, ◌∙◌, subst, List, [], ◌∷◌, ◌++◌, All, Result, ok, err,
}
use aegis_private_browser.Prelude.Exec.{pure, attempt, ◌>>=◌, ◌>>◌}
use aegis_private_browser.Prelude.Exec.Triple.{
  Post, Triple, Triple-pure, Triple-bind, Triple-weaken, Triple-both, Triple-given,
}
use aegis_private_browser.Core.Error.{Error}
use aegis_private_browser.Core.Update.{Artifact, VerifiedArtifact, ApplyOutcome}
use aegis_private_browser.Update.Host.{Files, Backup, Machine, Environment, Crates}
use aegis_private_browser.Update.Client.{SignedUpdateClient}
use aegis_private_browser.Update.Apply.{clean, roll_back, finish, install_all, apply, empty_backups}
use aegis_private_browser.Update.Looping.{scratch-Off, Placed, Run, install_all_lem}
use aegis_private_browser.Update.Progress.{touched, scratch, Distinct}
use aegis_private_browser.Update.Restoring.{Restores, clean-Agree, roll_back-Agree, roll_back-undo}
use aegis_private_browser.Update.Targets.{Clear, scratch-Clear}
use aegis_private_browser.Update.Undo.{Agree}

module _ (env : Environment) (crates : Crates) (c : SignedUpdateClient) (l : List Artifact) where
  -- All or nothing, as the outcome says; and no other path is written.
  abbrev pub AllOrNothing : Machine → ApplyOutcome → Machine → Type 0
  AllOrNothing s ApplyOutcome.applied t =
      All (Placed env crates c t.files) l × Agree (touched c l) t.files s.files
  AllOrNothing s ApplyOutcome.rolled_back t =
      (Restores env → Agree (scratch c l) t.files s.files) × Agree (touched c l) t.files s.files

  abbrev Failed : Machine → Machine → Type 0
  Failed s m = Run env crates c s l m

  abbrev Ended : Machine → Unit {0} → Machine → Type 0
  Ended s u m = Run env crates c s l m × All (Placed env crates c m.files) l

  Placed-stays :
      (v w : Files) (more : List Artifact)
      → Agree (scratch c l) w v
      → All (Clear c (scratch c l)) more
      → All (Placed env crates c v) more
      → All (Placed env crates c w) more
  Placed-stays v w [] agree clear h = tt
  Placed-stays v w (a ∷ more) agree clear h = (
    (h.0.0, h.0.1, (h.0.2.0, agree h.0.0 (clear.0 h.0.0 h.0.1) ∙ h.0.2.1, h.0.2.2)),
    Placed-stays v w more agree clear.1 h.1,
  )

  -- From a state without records, the records are the new ones.
  records : (s m : Machine) → s.backups ≡ [] → (h : Run env crates c s l m) → m.backups ≡ h.newer
  records s m empty h = h.listed ∙ ap (λ b. h.newer ++ b) empty ∙ append-nil h.newer

  roll_back_lem :
      (s m : Machine) (bs : List Backup) (h : Failed s m)
      → bs ≡ h.newer
      → Triple
          (λ x. x ≡ m)
          (roll_back env crates c bs >> pure ApplyOutcome.rolled_back)
          (AllOrNothing s)
          (λ (e : Error) x. ⊥)
  roll_back_lem s m bs h e =
      subst
        (λ x.
          Triple (λ t. t ≡ m) (roll_back env crates c x >> pure ApplyOutcome.rolled_back)
            (AllOrNothing s) (λ (e : Error) t. ⊥))
        (sym e)
        (Triple-bind
          {Q = λ _ t.
            Agree (touched c l) t.files s.files
            × (Restores env → Agree (scratch c l) t.files s.files)}
          _ _
          (Triple-weaken _
            (Triple-both _
              (Triple-weaken {P = λ t. t ≡ m} {Q = λ _ t. Agree (touched c l) t.files s.files}
                {X = λ _ _. ⊥} _
                (roll_back-Agree env crates c s.files (touched c l) h.newer h.within)
                (λ t same q off. ap (λ x. x.files q) same ∙ h.frame q off) (λ _ t k. k)
                (λ x t k. k))
              (Triple-given (Restores env) _ (λ host.
                Triple-weaken {P = λ t. t ≡ m} {Q = λ _ t. Agree (scratch c l) t.files s.files}
                  {X = λ _ _. ⊥} _ (roll_back-undo env crates c host h.newer m.files h.aligned)
                  (λ t same. ap (λ x. x.files) same)
                  (λ _ t undone q off. ap (λ f. f q) undone ∙ h.undone host.probes q off)
                  (λ x t k. k))))
            (λ t same. (same, same)) (λ _ t k. k) (λ x t k. k.0))
          λ _. Triple-pure _ (λ t k. (k.1, k.0)))

  clean_lem :
      Distinct (touched c l)
      → (s m : Machine) (bs : List Backup) (h : Ended s tt m) → bs ≡ h.0.newer
      → Triple
          (λ x. x ≡ m)
          (clean env crates c bs >> pure ApplyOutcome.applied)
          (AllOrNothing s)
          (λ (e : Error) x. ⊥)
  clean_lem apart s m bs h e =
      subst
        (λ x.
          Triple (λ t. t ≡ m) (clean env crates c x >> pure ApplyOutcome.applied) (AllOrNothing s)
            (λ (e : Error) t. ⊥))
        (sym e)
        (Triple-bind {Q = λ _ t. Agree (scratch c l) t.files m.files} _ _
          (Triple-weaken _ (clean-Agree env crates c m.files (scratch c l) h.0.newer h.0.saves)
            (λ t same q off. ap (λ x. x.files q) same) (λ _ t k. k) (λ x t k. k))
          λ _. Triple-pure _ (λ t k. (
            Placed-stays m.files t.files l k (scratch-Clear c l apart) h.1,
            λ q off. k q (scratch-Off c l q off) ∙ h.0.frame q off,
          )))

  finish_lem :
      Distinct (touched c l)
      → (s m : Machine) → s.backups ≡ []
      → (r : Result (Unit {0}) Error) → Post (Ended s) (λ _. Failed s) r m
      → Post
          (AllOrNothing s)
          (λ (e : Error) x. ⊥)
          (finish env crates c r m).0
          (finish env crates c r m).1
  unfolding finish ◌>>=◌
  finish_lem apart s m empty (ok u) h =
      (clean_lem apart s m m.backups h (records s m empty h.0)).at m refl
  finish_lem apart s m empty (err e) h =
      (roll_back_lem s m m.backups h (records s m empty h)).at m refl

  applied_lem :
      (s : Machine)
      → s.backups ≡ []
      → Distinct (touched c l)
      → Post
          (AllOrNothing s)
          (λ (e : Error) x. ⊥)
          ((attempt (install_all env crates c l) >>= finish env crates c) s).0
          ((attempt (install_all env crates c l) >>= finish env crates c) s).1
  unfolding attempt ◌>>=◌
  applied_lem s empty apart =
      finish_lem apart s _ empty _ ((install_all_lem env crates c l s apart).at s refl)

-- Applying verified artifacts, when the paths that it may write are distinct (the targets, the
-- backups and the temporary files), whatever the host refuses and the transport serves: `apply`
-- always answers an outcome. `applied` means that every artifact stands at its install path with
-- the hash that it was asked for. `rolled_back` means, where the host lets a roll back through
-- (it tells whether a file exists, removes files and moves backups to their targets), that every
-- file is as before, but for the backup and temporary paths. In both cases no other path changed.
pub apply_lem :
    (env : Environment) (crates : Crates) (c : SignedUpdateClient) (v : VerifiedArtifact)
    (s : Machine)
    → Distinct (touched c v.artifacts)
    → Post
        (AllOrNothing env crates c v.artifacts s)
        (λ (e : Error) x. ⊥)
        (apply env crates c v s).0
        (apply env crates c v s).1
unfolding apply
apply_lem env crates c v s apart =
    applied_lem env crates c v.artifacts (empty_backups env crates c s) refl apart
