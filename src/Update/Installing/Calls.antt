-- ===== src/Update/Installing/Calls.antt =====
-- The calls of the host, with what they leave of the files.
use aegis_private_browser.Prelude.{
  ◌≡◌, refl, ◌⊎◌, inl, inr, Bool, true, Option, none, some, List, ◌∷◌, String, Result, ok, err,
}
use aegis_private_browser.Prelude.Exec.Triple.{
  Post, Triple, Triple-pure, Triple-raise, Triple-if, Triple-bind,
}
use aegis_private_browser.Core.Error.{Error}
use aegis_private_browser.Files.FilePath.{FilePath}
use aegis_private_browser.Update.Host.{
  Bytes, Files, Backup, Call, Machine, Environment, put, moved, move, settle, ask, change, tear,
  has, fetch, create_dir_all, try_exists, rename, write,
}

-- What holds of the files and of the records.
abbrev pub Holds : (Files → List Backup → Type 0) → Machine → Type 0
Holds K m = K m.files m.backups

module _ (env : Environment) (K : Files → List Backup → Type 0) where
  ask-Holds :
      {X : Error → Machine → Type 0} (c : Call) → Triple (Holds K) (ask env c) (λ _. Holds K) X
  unfolding ask
  ask-Holds c = record { at = λ m h. h }

  pub create_dir_all-Holds :
      (p : FilePath) → Triple (Holds K) (create_dir_all env p) (λ _. Holds K) (λ _. Holds K)
  unfolding create_dir_all
  create_dir_all-Holds p = Triple-bind _ _ (ask-Holds (Call.creates p)) λ refused.
      Triple-if refused _ _ (λ _. Triple-raise _ (λ m h. h)) (λ _. Triple-pure _ (λ m h. h))

  pub fetch-Holds :
      (location : String) → Triple (Holds K) (fetch env location) (λ _. Holds K) (λ _. Holds K)
  unfolding fetch
  fetch-Holds location = record { at = λ m h. either m h (env.served m.calls location) }
    where
      either :
          (m : Machine)
          → Holds K m
          → (r : Result Bytes Error)
          → Post
              (λ _. Holds K)
              (λ _. Holds K)
              r
              (record m { calls = Call.fetches location r ∷ m.calls })
      either m h (ok bytes) = h
      either m h (err e) = h

  -- A refusal is remembered.
  abbrev pub Existence : FilePath → Bool → Machine → Type 0
  Existence p b m = Holds K m × (b ≡ has (m.files p))

  abbrev pub Unprobed : FilePath → Type 0
  Unprobed p = (h : List Call) × (env.refuses h (Call.probes p) ≡ true)

  pub try_exists_lem :
      (p : FilePath)
      → Triple (Holds K) (try_exists env p) (Existence p) (λ _ m. Holds K m × Unprobed p)
  unfolding try_exists
  try_exists_lem p =
      Triple-bind {Q = λ b m. Holds K m × (b ≡ true → Unprobed p)} _ _
        (record { at = λ m h. (h, λ refused. (m.calls, refused)) })
        λ refused.
          Triple-if refused _ _ (λ yes_refused. Triple-raise _ (λ m h. (h.0, h.1 yes_refused)))
            (λ _. record { at = λ m h. (h.0, refl) })

  -- The file has moved.
  abbrev pub Moved : FilePath → FilePath → Machine → Type 0
  Moved p q m =
      (v : Files) × (b : Bytes) × K v m.backups
      × (v p ≡ some b)
      × (m.files ≡ put q (some b) (put p none v))

  change-move :
      (p q : FilePath) → Triple (Holds K) (change (move p q)) (λ _. Moved p q) (λ _. Holds K)
  unfolding change
  change-move p q = record { at = λ m h. settled m h (m.files p) refl }
    where
      settled :
          (m : Machine)
          → Holds K m
          → (o : Option Bytes) → m.files p ≡ o
          → Post
              (λ _. Moved p q)
              (λ _. Holds K)
              (settle (moved p q o m.files) m).0
              (settle (moved p q o m.files) m).1
      settled m h none e = h
      settled m h (some b) e = (m.files, b, h, e, refl)

  pub rename_lem :
      (p q : FilePath) → Triple (Holds K) (rename env p q) (λ _. Moved p q) (λ _. Holds K)
  unfolding rename
  rename_lem p q =
      Triple-bind _ _ (ask-Holds (Call.renames p q))
        λ refused. Triple-if refused _ _ (λ _. Triple-raise _ (λ m h. h)) (λ _. change-move p q)

  abbrev pub Written : FilePath → Bytes → Machine → Type 0
  Written p bytes m = (v : Files) × K v m.backups × (m.files ≡ put p (some bytes) v)

  abbrev pub Torn : FilePath → Machine → Type 0
  Torn p m =
      Holds K m ⊎ ((v : Files) × (part : Bytes) × K v m.backups × (m.files ≡ put p (some part) v))

  pub write_lem :
      (p : FilePath) (bytes : Bytes)
      → Triple (Holds K) (write env p bytes) (λ _. Written p bytes) (λ _. Torn p)
  unfolding write
  write_lem p bytes = Triple-bind _ _ (ask-Holds (Call.writes p bytes)) λ refused.
      Triple-if refused _ _ (λ _. record { at = λ m h. tears m h (env.torn m.calls p) })
        (λ _. record { at = λ m h. (m.files, h, refl) })
    where
      tears : (m : Machine) → Holds K m → (o : Option Bytes) → Torn p (tear p o m)
      tears m h none = inl h
      tears m h (some part) = inr (m.files, part, h, refl)
