-- ===== src/Update/Client.antt =====
-- `SignedUpdateClient` of crates/update-client/src/lib.rs: the manifest, its signature, and the
-- artifacts' hashes.
use aegis_private_browser.Prelude.{
  ◌==◌, length, Bool, not, Option, none, some, List, [], ◌∷◌, String, str_eq, Result, ok, err,
  if◌then◌else◌,
}
use aegis_private_browser.Prelude.Exec.{pure, raise, lift, ◌>>=◌, ◌>>◌}
use aegis_private_browser.Prelude.Text.{trim, to_ascii_lowercase}
use aegis_private_browser.Core.Error.{Error}
use aegis_private_browser.Core.Update.{
  Artifact, UpdateManifest, VerifiedArtifact, VersionInfo, is_newer_than,
}
use aegis_private_browser.Files.FilePath.{FilePath, path, join, file_name}
use aegis_private_browser.Update.Host.{Bytes, Action, Environment, Crates, fetch}

pub record SignedUpdateClient : Type 0 where
  pub base_location : String
  pub verifying_key : Bytes
  pub install_dir : Option FilePath

abbrev or_config : Option Bytes → Result Bytes Error
or_config none = err Error.config
or_config (some key) = ok key

-- The conversion of the decoded bytes to an array of 32.
abbrev key_of : Crates → Option Bytes → Result Bytes Error
key_of crates none = err Error.config
key_of crates (some raw) =
    if length raw == 32 then or_config (crates.key_from_bytes raw) else err Error.config

unfoldable pub parse_verifying_key : Crates → String → Result Bytes Error
unfolding trim
parse_verifying_key crates hex = key_of crates (crates.hex_decode (trim hex))

unfoldable pub new : Crates → String → String → Result SignedUpdateClient Error
unfolding parse_verifying_key
new crates location hex = elim (parse_verifying_key crates hex) [
  | err e ↦ err e
  | ok key ↦ ok (record { base_location = location; verifying_key = key; install_dir = none })
]

abbrev pub with_install_dir : SignedUpdateClient → FilePath → SignedUpdateClient
with_install_dir c dir = record c { install_dir = some dir }

abbrev or_default : Option Bytes → Bytes
or_default none = []
or_default (some bytes) = bytes

-- What is signed: the manifest without its signature.
unfoldable pub signing_bytes : Crates → UpdateManifest → Bytes
signing_bytes crates m = or_default (crates.to_json (record m { signature = "" }))

unfoldable pub sha256_hex : Crates → Bytes → String
sha256_hex crates bytes = crates.hex_encode (crates.sha256 bytes)

-- The hash that the manifest asks for.
unfoldable pub wanted : Artifact → String
wanted a = to_ascii_lowercase (trim a.sha256)

unfoldable pub hash_matches : Crates → Artifact → Bytes → Bool
unfolding sha256_hex wanted
hash_matches crates a bytes = str_eq (sha256_hex crates bytes) (wanted a)

abbrev signed_by : Crates → Bytes → UpdateManifest → Option Bytes → Result (Unit {0}) Error
signed_by crates key m none = err Error.integrity
signed_by crates key m (some sig) =
    if length sig == 64
    then (if crates.verifies key (signing_bytes crates m) sig then ok tt else err Error.integrity)
    else err Error.integrity

unfoldable pub verify_signature :
    Crates → SignedUpdateClient → UpdateManifest → Result (Unit {0}) Error
unfolding signing_bytes
verify_signature crates c m =
    signed_by crates c.verifying_key m (crates.hex_decode (trim m.signature))

abbrev pub named_in : FilePath → Option String → Result FilePath Error
named_in dir none = err Error.system
named_in dir (some name) = ok (join dir (path name))

-- Under an install directory only the file name counts.
unfoldable pub install_path : SignedUpdateClient → Artifact → Result FilePath Error
install_path c a = elim c.install_dir [
  | some dir ↦ named_in dir (file_name (path a.location))
  | none ↦ ok (path a.location)
]

abbrev pub parsed : Option UpdateManifest → Action UpdateManifest
parsed none = raise Error.integrity
parsed (some m) = pure m

module _ (env : Environment) (crates : Crates) (c : SignedUpdateClient) where
  unfoldable pub fetch_manifest : Action UpdateManifest
  unfolding fetch
  fetch_manifest = do bytes ← fetch env c.base_location; parsed (crates.from_json bytes)

  unfoldable pub check_for_update : VersionInfo → Action (Option UpdateManifest)
  unfolding fetch_manifest verify_signature
  check_for_update info = do
    manifest ← fetch_manifest
    lift (verify_signature crates c manifest)
    if not (is_newer_than manifest.version info.current) then pure none else pure (some manifest)

  -- The loop of `verify`.
  unfoldable pub check_artifacts : List Artifact → Action (Unit {0})
  unfolding fetch hash_matches
  check_artifacts [] = pure tt
  check_artifacts (a ∷ more) = do
    bytes ← fetch env a.location
    if not (hash_matches crates a bytes) then raise Error.integrity else pure tt
    check_artifacts more

  unfoldable pub verify : UpdateManifest → VersionInfo → Action VerifiedArtifact
  unfolding check_artifacts verify_signature
  verify m info = do
    lift (verify_signature crates c m)
    if not (is_newer_than m.version info.current) then raise Error.integrity else pure tt
    check_artifacts m.artifacts
    pure (record { version = m.version; artifacts = m.artifacts })
