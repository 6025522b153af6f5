-- ===== src/Update/Looping.antt =====
-- The loop over the artifacts.
use aegis_private_browser.Prelude.{
  ◌≡◌, refl, ap, ◌∙◌, inl, inr, true, List, [], ◌∷◌, All, some, Result, ok, err,
}
use aegis_private_browser.Prelude.Exec.{lift, ◌>>=◌}
use aegis_private_browser.Prelude.Exec.Triple.{
  Post, Triple, Triple-pure, Triple-bind, Triple-weaken,
}
use aegis_private_browser.Core.Error.{Error}
use aegis_private_browser.Core.Update.{Artifact}
use aegis_private_browser.Files.FilePath.{FilePath}
use aegis_private_browser.Update.Host.{Bytes, Files, Machine, Environment, Crates}
use aegis_private_browser.Update.Client.{SignedUpdateClient, install_path, hash_matches}
use aegis_private_browser.Update.Apply.{install_at, install_all}
use aegis_private_browser.Update.Undo.{Off}
use aegis_private_browser.Update.Installed.{Installed, Left, install_at_lem}
use aegis_private_browser.Update.Progress.{
  with_target, with_scratch, touched, scratch, Distinct, Progress, Same-Progress, Recorded-Progress,
  Recorded-Progress_next,
}

with_scratch-Off :
    (q : FilePath) (p : Result FilePath Error) (T S : List FilePath)
    → (Off q T → Off q S)
    → Off q (with_target p T)
    → Off q (with_scratch p S)
with_scratch-Off q (err e) T S h off = h off
with_scratch-Off q (ok t) T S h off = (off.1.0, (off.1.1.0, h off.1.1.1))

-- The scratch files are among the paths that may be written.
pub scratch-Off :
    (c : SignedUpdateClient) (l : List Artifact) (q : FilePath)
    → Off q (touched c l)
    → Off q (scratch c l)
scratch-Off c [] q off = tt
scratch-Off c (a ∷ more) q off =
    with_scratch-Off q (install_path c a) (touched c more) (scratch c more) (scratch-Off c more q)
      off

module _ (env : Environment) (crates : Crates) (c : SignedUpdateClient) where
  -- The artifact stands at its place, with the hash that was asked for.
  abbrev pub Placed : Files → Artifact → Type 0
  Placed v a =
      (t : FilePath) × (install_path c a ≡ ok t)
      × ((bytes : Bytes) × (v t ≡ some bytes) × (hash_matches crates a bytes ≡ true))

  abbrev pub Run : Machine → List Artifact → Machine → Type 0
  Run s l m = Progress env (touched c l) (scratch c l) s m

  nothing : (s : Machine) (T S : List FilePath) (m : Machine) → m ≡ s → Progress env T S s m
  nothing s T S m e = record {
    newer = [];
    listed = ap (λ x. x.backups) e;
    frame = λ q off. ap (λ x. x.files q) e;
    undone = λ probes q off. ap (λ x. x.files q) e;
    within = tt;
    saves = tt;
    aligned = tt;
  }

  module _ (s : Machine) (a : Artifact) where
    abbrev After : Result FilePath Error → Machine → Type 0
    After (err e) m = ⊥
    After (ok t) m = Installed env crates c s a t m

    left :
        (t : FilePath) (T S : List FilePath) (m : Machine)
        → Left env crates c s a t m
        → Progress env (with_target (ok t) T) (with_scratch (ok t) S) s m
    left t T S m (inl same) = Same-Progress env s t T S m same
    left t T S m (inr (r, h)) = Recorded-Progress env s t T S r m h

    start_lem :
        (p : Result FilePath Error) (T S : List FilePath)
        → Distinct (with_target p T)
        → Triple
            (λ m. m ≡ s)
            (lift p >>= install_at env crates c a)
            (λ _. After p)
            (λ _ m. Progress env (with_target p T) (with_scratch p S) s m)
    unfolding ◌>>=◌
    start_lem (err e) T S apart = record { at = λ m h. nothing s T S m h }
    start_lem (ok t) T S apart =
        Triple-weaken _ (install_at_lem env crates c s a t (apart.0.0, apart.0.1.0, apart.1.0.0))
          (λ m h. h) (λ _ m h. h) (λ e m h. left t T S m h)

  abbrev Done : Machine → List Artifact → Machine → Type 0
  Done s l m = Run s l m × All (Placed m.files) l

  -- The rest of the loop ran from `m`, after an artifact was installed from `s`.
  joined :
      (s m x : Machine) (a : Artifact) (more : List Artifact) (p : Result FilePath Error)
      → install_path c a ≡ p
      → Distinct (with_target p (touched c more))
      → After s a p m
      → Run m more x
      → Progress env (with_target p (touched c more)) (with_scratch p (scratch c more)) s x
        × Placed x.files a
  joined s m x a more (err e) path apart h later = absurd h
  joined s m x a more (ok t) path apart h later = (
    Recorded-Progress_next env s t (touched c more) (scratch c more)
        (scratch-Off c more t apart.0.1.1) (scratch-Off c more _ apart.1.0.1) h.0.0 m x h.0.1 later,
    (t, path, (h.1.0, later.frame t apart.0.1.1 ∙ h.1.1, h.1.2)),
  )

  later_Distinct :
      (p : Result FilePath Error) (T : List FilePath) → Distinct (with_target p T) → Distinct T
  later_Distinct (err e) T h = h
  later_Distinct (ok t) T h = h.1.1.1

  resumed :
      (s m x : Machine) (a : Artifact) (more : List Artifact) (r : Result (Unit {0}) Error)
      → Distinct (touched c (a ∷ more))
      → After s a (install_path c a) m
      → Post (λ _. Done m more) (λ _. Run m more) r x
      → Post (λ _. Done s (a ∷ more)) (λ _. Run s (a ∷ more)) r x
  resumed s m x a more (ok u) apart h k =
      let both = joined s m x a more (install_path c a) refl apart h k.0 in (both.0, (both.1, k.1))
  resumed s m x a more (err e) apart h k = (joined s m x a more (install_path c a) refl apart h k).0

  -- The whole loop, when it returns and when it fails.
  pub install_all_lem :
      (l : List Artifact) (s : Machine)
      → Distinct (touched c l)
      → Triple (λ m. m ≡ s) (install_all env crates c l) (λ _. Done s l) (λ _. Run s l)
  unfolding install_all
  install_all_lem [] s apart = Triple-pure _ (λ m h. (nothing s [] [] m h, tt))
  install_all_lem (a ∷ more) s apart =
      Triple-bind _ _ (start_lem s a (install_path c a) (touched c more) (scratch c more) apart)
        λ _. record {
          at = λ m h. resumed s m _ a more _ apart h (
              (install_all_lem more m (later_Distinct (install_path c a) (touched c more) apart)).at
                m refl);
        }
