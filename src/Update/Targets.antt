-- ===== src/Update/Targets.antt =====
-- When the paths that an apply may write are distinct, no target is a scratch file.
use aegis_private_browser.Prelude.{
  ◌≡◌, ◌≢◌, refl, sym, ◌∙◌, subst, List, [], ◌∷◌, All, Result, ok, err,
}
use aegis_private_browser.Core.Error.{Error}
use aegis_private_browser.Core.Update.{Artifact}
use aegis_private_browser.Files.FilePath.{FilePath}
use aegis_private_browser.Update.Apply.{backup_path_for, tmp_path_for}
use aegis_private_browser.Update.Client.{SignedUpdateClient, install_path}
use aegis_private_browser.Update.Looping.{scratch-Off}
use aegis_private_browser.Update.Progress.{with_target, with_scratch, touched, scratch, Distinct}
use aegis_private_browser.Update.Undo.{Off}

module _ (c : SignedUpdateClient) where
  -- The artifact's target is none of these.
  abbrev pub Clear : List FilePath → Artifact → Type 0
  Clear paths a = (t : FilePath) → install_path c a ≡ ok t → Off t paths

  abbrev Unlike : FilePath → Artifact → Type 0
  Unlike q a = (t : FilePath) → install_path c a ≡ ok t → q ≢ t

  head-Unlike :
      (q : FilePath) (a : Artifact) (T : List FilePath)
      → Off q (with_target (install_path c a) T)
      → Unlike q a
  head-Unlike q a T off t e = (subst (λ p. Off q (with_target p T)) e off).0

  tail-Off :
      (q : FilePath) (p : Result FilePath Error) (T : List FilePath)
      → Off q (with_target p T)
      → Off q T
  tail-Off q (err e) T off = off
  tail-Off q (ok t) T off = off.1.1.1

  touched-Unlike : (q : FilePath) (l : List Artifact) → Off q (touched c l) → All (Unlike q) l
  touched-Unlike q [] off = tt
  touched-Unlike q (a ∷ more) off = (
    head-Unlike q a (touched c more) off,
    touched-Unlike q more (tail-Off q (install_path c a) (touched c more) off),
  )

  widened :
      (q r : FilePath) (S : List FilePath) (l : List Artifact)
      → All (Unlike q) l
      → All (Unlike r) l
      → All (Clear S) l
      → All (Clear (q ∷ r ∷ S)) l
  widened q r S [] hq hr h = tt
  widened q r S (a ∷ more) hq hr h = (
    λ t e. ((λ same. hq.0 t e (sym same)), ((λ same. hr.0 t e (sym same)), h.0 t e)),
    widened q r S more hq.1 hr.1 h.1,
  )

  same_target : (t u : FilePath) → ◌≡◌ {A = Result FilePath Error} (ok t) (ok u) → t ≡ u
  same_target t u same = cc

  -- The head's target, and the targets of the rest.
  placed :
      (a : Artifact) (more : List Artifact) (p : Result FilePath Error)
      → install_path c a ≡ p
      → Distinct (with_target p (touched c more))
      → All (Clear (scratch c more)) more
      → All (Clear (with_scratch p (scratch c more))) (a ∷ more)
  placed a more (err e) path apart h = ((λ t same. absurd (contrary (sym path ∙ same))), h)
    where
      contrary : {t : FilePath} → err e ≡ ok t → ⊥
      contrary same = cc
  placed a more (ok t) path apart h = (
    λ u same.
        subst (λ x. Off x (backup_path_for t ∷ tmp_path_for t ∷ scratch c more))
          (same_target t u (sym path ∙ same))
          (apart.0.0, (apart.0.1.0, scratch-Off c more t apart.0.1.1)),
    widened (backup_path_for t) (tmp_path_for t) (scratch c more) more
        (touched-Unlike (backup_path_for t) more apart.1.0.1)
        (touched-Unlike (tmp_path_for t) more apart.1.1.0) h,
  )

  later : (p : Result FilePath Error) (T : List FilePath) → Distinct (with_target p T) → Distinct T
  later (err e) T h = h
  later (ok t) T h = h.1.1.1

  -- No artifact's target is a scratch file.
  pub scratch-Clear : (l : List Artifact) → Distinct (touched c l) → All (Clear (scratch c l)) l
  scratch-Clear [] apart = tt
  scratch-Clear (a ∷ more) apart =
      placed a more (install_path c a) refl apart
        (scratch-Clear more (later (install_path c a) (touched c more) apart))
