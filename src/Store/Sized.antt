-- ===== src/Store/Sized.antt =====
-- dir_size ends, with the sum of the sizes.
use aegis_private_browser.Prelude.{
  ◌≡◌, refl, sym, ap, ◌∙◌, subst, ℕ, zero, suc, ◌+◌, Bool, true, false, Option, none, some, List,
  [], ◌∷◌, length, lookup, nat_eq, arith,
}
use aegis_private_browser.Prelude.Exec.{lift}
use aegis_private_browser.Prelude.Exec.Triple.{
  Post, Triple, Triple-bind, Triple-gets, Triple-lift, Triple-pure, Triple-weaken,
}
use aegis_private_browser.Core.Error.{Error}
use aegis_private_browser.Store.Tree.{Node, Entries, folders_in, bytes_in, folders_of, bytes_of}
use aegis_private_browser.Store.Tree.Entries.{vacant, entry}
use aegis_private_browser.Store.Disk.{Call, Disk, Outside, check, ask, unless}
use aegis_private_browser.Store.Size.{saturated, scan, walk, size_of, dir_size}

-- The directories that a stack leads to, and the bytes below them.
unfoldable depth : List Entries → ℕ
depth [] = 0
depth (es ∷ stack) = suc (folders_in es) + depth stack

unfoldable weight : List Entries → ℕ
weight [] = 0
weight (es ∷ stack) = bytes_in es + weight stack

abbrev pub bytes_at : Option Entries → ℕ
bytes_at none = 0
bytes_at (some es) = bytes_in es

IsCapped : ℕ → Type 0
IsCapped n = saturated n ≡ n

saturated_cong : (n m : ℕ) → n ≡ m → saturated n ≡ saturated m
saturated_cong n m h = ap saturated h

saturated_add : (n m : ℕ) → saturated (saturated n + m) ≡ saturated (n + m)
unfolding saturated
saturated_add n m = ground arith

saturated_again : (n : ℕ) → saturated (saturated n) ≡ saturated n
unfolding saturated
saturated_again n = ground arith

module _ (out : Outside) where
  -- The last call made is one that the host refused.
  abbrev pub Failed : Error → Disk → Type 0
  Failed e d =
      (e ≡ Error.system)
      × ((before : List Call) × (c : Call) × (d.calls ≡ c ∷ before) × (out.refuses before c ≡ true))

  check_lem : (c : Call) → Triple (λ _. Unit {0}) (check out c) (λ _ _. Unit {0}) Failed
  unfolding check ask
  check_lem c =
      Triple-bind
        {Q = λ refused d.
          (before : List Call) × (d.calls ≡ c ∷ before) × (refused ≡ out.refuses before c)}
        _ _ (record { at = λ d h. (d.calls, refl, refl) }) either
    where
      either :
          (refused : Bool)
          → Triple
              (λ d.
                (before : List Call) × (d.calls ≡ c ∷ before) × (refused ≡ out.refuses before c))
              (lift (unless out refused))
              (λ _ _. Unit {0})
              Failed
      either true =
          Triple-lift _ (λ a e d h. tt)
            λ x e d h. (ground (arith, e), (h.0, c, h.1, ground (arith, h.2)))
      either false = Triple-lift _ (λ a e d h. tt) λ x e d h. absurd (ground (arith, e))

  -- One directory is exchanged for those in it.
  Scanned : Entries → ℕ → List Entries → (ℕ × List Entries) → Disk → Type 0
  Scanned es total stack r d =
      (depth r.1 ≡ folders_in es + depth stack)
      × (saturated (r.0 + weight r.1) ≡ saturated (total + (bytes_in es + weight stack)))
      × (IsCapped total → IsCapped r.0)

  scan_lem :
      (es : Entries) (total : ℕ) (stack : List Entries)
      → Triple (λ _. Unit {0}) (scan out es total stack) (Scanned es total stack) Failed
  unfolding scan depth weight Scanned IsCapped folders_in bytes_in folders_of bytes_of
  scan_lem vacant total stack = Triple-bind _ _ (check_lem _) λ _. Triple-pure _ λ d h. (
    omega arith,
    saturated_cong (total + weight stack) (total + (0 + weight stack)) (omega arith),
    λ c. c,
  )
  scan_lem (entry name (Node.folder es) more) total stack = Triple-bind _ _ (check_lem _) λ _.
      Triple-weaken _ (scan_lem more total (es ∷ stack)) (λ d h. h)
        (λ r d h. (
          omega (arith, h.0),
          h.1
              ∙ saturated_cong (total + (bytes_in more + (bytes_in es + weight stack)))
                  (total + (bytes_in es + bytes_in more + weight stack)) (omega arith),
          h.2,
        ))
        λ e d h. h
  scan_lem (entry name (Node.file b) more) total stack =
      Triple-bind _ _ (Triple-bind _ _ (check_lem _) λ _. check_lem _) λ _.
        Triple-weaken _ (scan_lem more (saturated (total + length b)) stack) (λ d h. h)
          (λ r d h. (
            omega (arith, h.0),
            h.1
                ∙ saturated_add (total + length b) (bytes_in more + weight stack)
                ∙ saturated_cong (total + length b + (bytes_in more + weight stack))
                    (total + (length b + bytes_in more + weight stack)) (omega arith),
            λ _. h.2 (saturated_again (total + length b)),
          ))
          λ e d h. h
  scan_lem (entry name Node.other more) total stack = Triple-bind _ _ (check_lem _) λ _.
      Triple-weaken _ (scan_lem more total stack) (λ d h. h)
        (λ r d h. (
          omega (arith, h.0),
          h.1
              ∙ saturated_cong (total + (bytes_in more + weight stack))
                  (total + (0 + bytes_in more + weight stack)) (omega arith),
          h.2,
        ))
        λ e d h. h

  -- Each round takes one directory off the measure, so that the fuel is never used up.
  walk_lem :
      (fuel total : ℕ) (stack : List Entries)
      → depth stack ≡ fuel
      → IsCapped total
      → Triple
          (λ _. Unit {0})
          (walk out fuel total stack)
          (λ n _. n ≡ saturated (total + weight stack))
          Failed
  unfolding walk depth weight IsCapped Scanned
  walk_lem fuel total [] e c =
      Triple-pure total λ d h. sym c ∙ saturated_cong total (total + weight []) (omega arith)
  walk_lem zero total (es ∷ stack) e c = absurd (omega (arith, e))
  walk_lem (suc fuel) total (es ∷ stack) e c =
      Triple-bind {Q = Scanned es total stack} _ _
        (Triple-bind _ _ (check_lem Call.reads_dir) λ _. scan_lem es total stack)
        λ r. record {
          at = λ d h.
              subst
                (λ total.
                  Post (λ n _. n ≡ total) Failed (walk out fuel r.0 r.1 d).0
                    (walk out fuel r.0 r.1 d).1)
                h.1 ((walk_lem fuel r.0 r.1 (omega (arith, e, h.0)) (h.2 c)).at d tt);
        }

  -- The sum of the sizes of the regular files at any depth of the profile's directory, capped at
  -- `u64::MAX`, and 0 for a directory that is missing, is what dir_size answers, unless the host
  -- refuses a call: then it answers that error, and the refused call is the last one made. It always
  -- ends: the fuel of the model is never used up.
  pub dir_size_lem :
      (id : ℕ) (d : Disk)
      → Post
          (λ n _. n ≡ saturated (bytes_at (lookup id d.profiles)))
          Failed
          (dir_size out id d).0
          (dir_size out id d).1
  unfolding dir_size depth weight saturated IsCapped
  dir_size_lem id d =
      (Triple-bind {Q = λ dir _. dir ≡ lookup id d.profiles} {P = λ s. s ≡ d} _ _
          (Triple-gets _ λ s h. ap (λ t. lookup id t.profiles) h) λ dir. sized dir).at
        d refl
    where
      walked :
          (dir : Option Entries)
          → Triple (λ _. Unit {0}) (size_of out dir) (λ n _. n ≡ saturated (bytes_at dir)) Failed
      walked none = Triple-bind _ _ (check_lem Call.reads_dir) λ _. Triple-pure 0 λ s h. refl
      walked (some es) =
          Triple-weaken _ (walk_lem (suc (folders_in es)) 0 (es ∷ []) (omega arith) refl) (λ s h. h)
            (λ n s h. h ∙ saturated_cong (0 + weight (es ∷ [])) (bytes_in es) (omega arith))
            λ e s h. h

      sized :
          (dir : Option Entries)
          → Triple
              (λ _. dir ≡ lookup id d.profiles)
              (size_of out dir)
              (λ n _. n ≡ saturated (bytes_at (lookup id d.profiles)))
              Failed
      sized dir = record {
        at = λ s h.
            subst
              (λ dir'.
                Post (λ n _. n ≡ saturated (bytes_at dir')) Failed (size_of out dir s).0
                  (size_of out dir s).1)
              h ((walked dir).at s tt);
      }
