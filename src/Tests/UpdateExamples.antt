-- ===== src/Tests/UpdateExamples.antt =====
-- The update client's theorems at concrete inputs.
use aegis_private_browser.Prelude.{
  zero, suc, ℕ, ◌≡◌, ◌↔◌, ◌≢◌, refl, Bool, true, false, none, some, List, [], ◌∷◌, ◌++◌, String,
  str_eq, length, leb, if◌then◌else◌, ok, err, arith,
}
use aegis_private_browser.Prelude.Exec.{◌>>=◌}
use aegis_private_browser.Prelude.Exec.Triple.{Post}
use aegis_private_browser.Prelude.Text.{trim, to_ascii_lowercase, splitn}
use aegis_private_browser.Core.Error.{Error}
use aegis_private_browser.Core.Update.{
  is_newer_than, display, from_str, next, ArtifactKind, Artifact, UpdateKind, UpdateManifest,
  VerifiedArtifact, ApplyOutcome,
}
use aegis_private_browser.Core.Update.Order.{version, Upgrade, is_newer_than-Upgrade_iff}
use aegis_private_browser.Core.Update.Printed.{from_str-display}
use aegis_private_browser.Files.FilePath.{
  FilePath, path, file_name, parent, with_file_name, same_path, same_path_iff, join,
}
use aegis_private_browser.Update.Host.{Bytes, Machine, Environment, Crates}
use aegis_private_browser.Update.Client.{
  SignedUpdateClient, verify, check_for_update, verify_signature, check_artifacts, fetch_manifest,
  signing_bytes, install_path, hash_matches,
}
use aegis_private_browser.Update.Apply.{apply, backup_path_for, tmp_path_for}
use aegis_private_browser.Update.Checked.{Refused, Offered, check_for_update_lem}
use aegis_private_browser.Update.Applied.{AllOrNothing, apply_lem}
use aegis_private_browser.Update.Progress.{Distinct, touched}
use aegis_private_browser.Update.Transport.{
  resolve, inside, read_body, resolve-inside, read_body_lem, resolve_url,
}

is_newer_than-Upgrade_iff_example :
    (is_newer_than (version 2 0 7) (version 1 9 3) ≡ true) ↔ Upgrade (version 1 9 3) (version 2 0 7)
is_newer_than-Upgrade_iff_example = is_newer_than-Upgrade_iff (version 1 9 3) (version 2 0 7)

from_str_tests :
    (from_str " 2.3.4 " ≡ ok (version 2 3 4))
    × (from_str "2.x" ≡ err Error.config)
    × (from_str "1.2.3.4" ≡ err Error.config)
unfolding from_str next trim splitn
from_str_tests = (refl, refl, refl)

from_str-display_example : from_str (display (version 12 0 345)) ≡ ok (version 12 0 345)
from_str-display_example = from_str-display (version 12 0 345) (omega arith)

abbrev image : Artifact
image = record {
  kind = ArtifactKind.browser_image;
  location = "images/browser.img";
  sha256 = " AB ";
  size = 1;
}

abbrev manifest : UpdateManifest
manifest = record {
  schema = 1;
  version = version 1 2 0;
  delta_base = none;
  kind = UpdateKind.full;
  artifacts = image ∷ [];
  sbom = none;
  signature = "00";
}

zeros : ℕ → Bytes
zeros zero = []
zeros (suc n) = 0 ∷ zeros n

-- Every signature reads as 64 bytes and verifies, and every hash is "ab".
abbrev trusting : Crates
trusting = record {
  sha256 = λ bytes. bytes;
  hex_encode = λ bytes. "ab";
  hex_decode = λ text. some (zeros 64);
  key_from_bytes = λ raw. some raw;
  verifies = λ key message signature. true;
  to_json = λ m. some [];
  from_json = λ bytes. some manifest;
}

abbrev granting : Environment
granting = record {
  refuses = λ calls c. false;
  torn = λ calls p. none;
  served = λ calls location. ok (7 ∷ []);
}

abbrev client : SignedUpdateClient
client = record {
  base_location = "manifest.json";
  verifying_key = [];
  install_dir = some (record { absolute = true; parts = "opt" ∷ "aegis" ∷ [] });
}

abbrev at : FilePath
at = record { absolute = true; parts = "opt" ∷ "aegis" ∷ "browser.img" ∷ [] }

-- An older image stands at the target.
abbrev disk : Machine
disk = record {
  files = λ p. if same_path at p then some (1 ∷ []) else none;
  calls = [];
  backups = [];
}

abbrev update : VerifiedArtifact
update = record { version = version 1 2 0; artifacts = image ∷ [] }

differ : (p q : FilePath) → same_path p q ≡ false → p ≢ q
differ p q h = ground (arith, same_path_iff p q)

update-Distinct : Distinct (touched client (image ∷ []))
unfolding install_path backup_path_for tmp_path_for path join file_name with_file_name same_path
update-Distinct = ((differ _ _ refl, (differ _ _ refl, tt)), ((differ _ _ refl, tt), (tt, tt)))

apply_example :
    Post
      (AllOrNothing granting trusting client (image ∷ []) disk)
      (λ (e : Error) x. ⊥)
      (apply granting trusting client update disk).0
      (apply granting trusting client update disk).1
apply_example = apply_lem granting trusting client update disk update-Distinct

apply_test :
    ((apply granting trusting client update disk).0 ≡ ok ApplyOutcome.applied)
    × ((apply granting trusting client update disk).1.files at ≡ some (7 ∷ []))
unfolding apply install_path backup_path_for tmp_path_for path join file_name with_file_name
    same_path ◌>>=◌ parent hash_matches to_ascii_lowercase trim
apply_test = (refl, refl)

-- A second artifact with the same file name, which the transport does not have.
abbrev twin : Artifact
twin = record {
  kind = ArtifactKind.app_package;
  location = "packages/browser.img";
  sha256 = "ab";
  size = 1;
}

abbrev halting : Environment
halting = record {
  refuses = λ calls c. false;
  torn = λ calls p. none;
  served =
      λ calls location. if str_eq location twin.location then err Error.system else ok (7 ∷ []);
}

-- Without distinct paths the second backup replaces the first, and the roll back loses the old file.
twin_test :
    let ended =
      apply halting trusting client (record update { artifacts = image ∷ twin ∷ [] }) disk in
    (ended.0 ≡ ok ApplyOutcome.rolled_back) × (ended.1.files at ≡ none)
unfolding apply install_path backup_path_for tmp_path_for path join file_name with_file_name
    same_path ◌>>=◌ parent hash_matches to_ascii_lowercase trim
twin_test = (refl, refl)

verify_test :
    (verify granting trusting client manifest (record { current = version 1 1 9 }) disk).0
    ≡ ok update
unfolding verify verify_signature check_artifacts hash_matches is_newer_than to_ascii_lowercase trim
    signing_bytes zeros ◌>>=◌
verify_test = refl

check_for_update_test :
    (check_for_update granting trusting client (record { current = version 1 1 9 }) disk).0
    ≡ ok (some manifest)
unfolding check_for_update fetch_manifest verify_signature is_newer_than signing_bytes trim zeros
    ◌>>=◌
check_for_update_test = refl

check_for_update_example :
    Post
      (Offered granting trusting client (record { current = version 1 1 9 }) disk)
      (Refused granting trusting client disk)
      (check_for_update granting trusting client (record { current = version 1 1 9 }) disk).0
      (check_for_update granting trusting client (record { current = version 1 1 9 }) disk).1
check_for_update_example =
    check_for_update_lem granting trusting client (record { current = version 1 1 9 }) disk

abbrev base : FilePath
base = record { absolute = true; parts = "srv" ∷ [] }

resolve_test : resolve base "a/../b" ≡ err Error.system
unfolding resolve path
resolve_test = refl

resolved : resolve base "a//b" ≡ ok (record { absolute = true; parts = "srv" ∷ "a" ∷ "b" ∷ [] })
unfolding resolve path
resolved = refl

resolve-inside_example :
    ◌≡◌ {A = Bool} true true
    × ((rest : List String) × ("srv" ∷ "a" ∷ "b" ∷ [] ≡ ("srv" ∷ []) ++ rest)
        × (inside rest ≡ true))
resolve-inside_example =
    resolve-inside base "a//b" (record { absolute = true; parts = "srv" ∷ "a" ∷ "b" ∷ [] }) resolved

abbrev body : Bytes
body = 1 ∷ 2 ∷ 3 ∷ []

read_body_example : read_body 2 body ≡ (if leb (length body) 2 then ok body else err Error.system)
read_body_example = read_body_lem 2 body (omega arith)

resolve_url_test :
    (resolve_url "https://a.example//" "/m.json" ≡ "https://a.example/m.json")
    × (resolve_url "https://a.example" "http://b/x" ≡ "http://b/x")
unfolding resolve_url
resolve_url_test = (refl, refl)
