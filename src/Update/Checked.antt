-- ===== src/Update/Checked.antt =====
-- What an accepted manifest and accepted artifacts have passed.
use aegis_private_browser.Prelude.{
  ◌≡◌, refl, ◌⊎◌, inl, inr, true, false, not, Option, none, some, List, [], ◌∷◌, String, All, Made,
  here, before, Result, ok, err, arith,
}
use aegis_private_browser.Prelude.Exec.Triple.{
  Post, Triple, Triple-pure, Triple-raise, Triple-lift, Triple-if, Triple-bind, Triple-weaken,
}
use aegis_private_browser.Core.Error.{Error}
use aegis_private_browser.Core.Update.{
  Artifact, UpdateManifest, VerifiedArtifact, VersionInfo, is_newer_than,
}
use aegis_private_browser.Update.Host.{Bytes, Call, Machine, Environment, Crates, fetch}
use aegis_private_browser.Update.Client.{
  SignedUpdateClient, hash_matches, verify_signature, parsed, fetch_manifest, check_for_update,
}

module _ (env : Environment) (crates : Crates) (c : SignedUpdateClient) where
  abbrev pub Signed : UpdateManifest → Type 0
  Signed m = verify_signature crates c m ≡ ok tt

  -- The transport has served bytes with the hash that the manifest gives.
  abbrev pub Matched : List Call → Artifact → Type 0
  Matched calls a =
      (bytes : Bytes) × Made (Call.fetches a.location (ok bytes)) calls
      × (hash_matches crates a bytes ≡ true)

  -- A failure is one of integrity, or the transport's own.
  abbrev pub Explained : Error → Machine → Type 0
  Explained e m =
      (e ≡ Error.integrity) ⊎ ((location : String) × Made (Call.fetches location (err e)) m.calls)

  -- Files are untouched, and no call is forgotten.
  pub record Follows (s m : Machine) : Type 0 where
    pub files : m.files ≡ s.files
    pub calls : (d : Call) → Made d s.calls → Made d m.calls

  Follows-refl : (s : Machine) → Follows s s
  Follows-refl s = record { files = refl; calls = λ d h. h }

  Matched-Follows :
      (s m : Machine)
      → Follows s m
      → (l : List Artifact) → All (Matched s.calls) l
      → All (Matched m.calls) l
  Matched-Follows s m f [] h = tt
  Matched-Follows s m f (a ∷ more) h =
      ((h.0.0, f.calls _ h.0.1, h.0.2), Matched-Follows s m f more h.1)

  -- After a fetch that started in `s`.
  abbrev Fetched : Machine → String → Bytes → Machine → Type 0
  Fetched s location bytes m = Follows s m × Made (Call.fetches location (ok bytes)) m.calls

  fetch_lem :
      (s : Machine) (location : String)
      → Triple
          (Follows s)
          (fetch env location)
          (Fetched s location)
          (λ e m. Explained e m × Follows s m)
  unfolding fetch
  fetch_lem s location = record { at = λ m f. answered m f (env.served m.calls location) }
    where
      answered :
          (m : Machine)
          → Follows s m
          → (r : Result Bytes Error)
          → Post
              (Fetched s location)
              (λ e m. Explained e m × Follows s m)
              r
              (record m { calls = Call.fetches location r ∷ m.calls })
      answered m f (ok bytes) =
          (record { files = f.files; calls = λ d h. before (f.calls d h) }, here)
      answered m f (err e) =
          (inr (location, here), record { files = f.files; calls = λ d h. before (f.calls d h) })

  abbrev Checks : Machine → List Artifact → Unit {0} → Machine → Type 0
  Checks s l u m = Follows s m × All (Matched m.calls) l

  abbrev Fails : Machine → Error → Machine → Type 0
  Fails s e m = Explained e m × Follows s m

  verify_signature-integrity :
      (m : UpdateManifest) (e : Error) → verify_signature crates c m ≡ err e → e ≡ Error.integrity
  unfolding verify_signature
  verify_signature-integrity m e h = ground arith

  -- What `verify` answers: an artifact list that was checked, or a failure of the checks.
  abbrev pub Verified : UpdateManifest → VersionInfo → Machine → VerifiedArtifact → Machine → Type 0
  Verified m info s v t =
      Signed m
      × (is_newer_than m.version info.current ≡ true)
      × (v ≡ record { version = m.version; artifacts = m.artifacts })
      × All (Matched t.calls) m.artifacts
      × (t.files ≡ s.files)

  abbrev pub Refused : Machine → Error → Machine → Type 0
  Refused s e t = Explained e t × (t.files ≡ s.files)

  abbrev Accepted : UpdateManifest → VersionInfo → Type 0
  Accepted m info = Signed m × (is_newer_than m.version info.current ≡ true)

  -- The manifest was read at the base location.
  abbrev pub Published : UpdateManifest → Machine → Type 0
  Published m t =
      (bytes : Bytes) × Made (Call.fetches c.base_location (ok bytes)) t.calls
      × (crates.from_json bytes ≡ some m)

  -- What `check_for_update` offers.
  abbrev pub Offered : VersionInfo → Machine → Option UpdateManifest → Machine → Type 0
  Offered info s none t =
      ((m : UpdateManifest) × Signed m
        × (is_newer_than m.version info.current ≡ false)
        × Published m t)
      × (t.files ≡ s.files)
  Offered info s (some m) t = (Accepted m info × Published m t) × (t.files ≡ s.files)

  abbrev Read : Machine → UpdateManifest → Machine → Type 0
  Read s m t = Published m t × (t.files ≡ s.files)

  parsed_lem :
      (s : Machine) (bytes : Bytes) (o : Option UpdateManifest)
      → crates.from_json bytes ≡ o
      → Triple (Fetched s c.base_location bytes) (parsed o) (Read s) (Refused s)
  parsed_lem s bytes none e = Triple-raise _ (λ t h. (inl refl, h.0.files))
  parsed_lem s bytes (some m) e = Triple-pure m (λ t h. ((bytes, h.1, e), h.0.files))

  fetch_manifest_lem :
      (s : Machine) → Triple (Follows s) (fetch_manifest env crates c) (Read s) (Refused s)
  unfolding fetch_manifest
  fetch_manifest_lem s =
      Triple-bind _ _
        (Triple-weaken _ (fetch_lem s c.base_location) (λ t h. h) (λ b t h. h)
          (λ e t h. (h.0, h.1.files)))
        λ bytes. parsed_lem s bytes (crates.from_json bytes) refl

  check_triple :
      (s : Machine) (info : VersionInfo)
      → Triple (Follows s) (check_for_update env crates c info) (Offered info s) (Refused s)
  unfolding check_for_update
  check_triple s info = Triple-bind _ _ (fetch_manifest_lem s) λ m.
      Triple-bind {Q = λ _ t. Read s m t × Signed m} _ _
        (Triple-lift _ (λ u h t f. (f, h))
          (λ e h t f. (inl (verify_signature-integrity m e h), f.1)))
        λ _.
          Triple-if (not (is_newer_than m.version info.current)) _ _
            (λ old. Triple-pure _ (λ t h. ((m, h.1, ground arith, h.0.0), h.0.1)))
            (λ new. Triple-pure _ (λ t h. (((h.1, ground arith), h.0.0), h.0.1)))

  -- Checking for an update, whatever the transport serves: a manifest is offered only when it was
  -- read at the base location, its signature verifies and its version is strictly newer than the
  -- installed one; nothing is offered only when a manifest was read there whose signature verifies
  -- and whose version is not newer. An error is one of integrity or one that the transport
  -- answered. No file is touched.
  pub check_for_update_lem :
      (info : VersionInfo) (s : Machine)
      → Post
          (Offered info s)
          (Refused s)
          (check_for_update env crates c info s).0
          (check_for_update env crates c info s).1
  check_for_update_lem info s = (check_triple s info).at s (Follows-refl s)
