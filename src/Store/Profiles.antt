-- ===== src/Store/Profiles.antt =====
-- FileProfileStore of crates/profile-store/src/store.rs. The operations run one after the other, so
-- that its mutex is always free.
use aegis_private_browser.Prelude.{
  ℕ, ltb, leb, ◌==◌, Bool, true, false, not, ◌&&◌, ◌||◌, Option, none, some, List, [], ◌∷◌, String,
  lookup, insert, remove, Result, ok, err, if◌then◌else◌, nat_eq,
}
use aegis_private_browser.Prelude.Exec.{pure, raise, lift, gets, ignore, attempt, ◌>>=◌, ◌>>◌}
use aegis_private_browser.Prelude.Text.{◌+s◌}
use aegis_private_browser.Core.Error.{Error}
use aegis_private_browser.Core.Profile.{Profile, ProfileSpec, ProfilePatch, is_empty, validate}
use aegis_private_browser.Daemon.Calls.{ProfileLease}
use aegis_private_browser.Store.Tree.{Bytes, Entries}
use aegis_private_browser.Store.Disk.{
  Call, Disk, Outside, Action, check, stat_dir, stat, read, write, open_new, rename, remove_file,
  make_dir, make_folder,
}
use aegis_private_browser.Store.Size.{dir_size}
use aegis_private_browser.Store.Token.{as_bytes, bytes_eq, new_token}

abbrev pub meta_file : String
meta_file = "profile.json"

abbrev pub lock_file : String
lock_file = "profile.lock"

abbrev pub data_dir : String
data_dir = "data"

abbrev or_keep : {A : Type 0} → Option A → A → A
or_keep none old = old
or_keep (some new) old = new

-- The spec after a patch.
abbrev pub patched : ProfilePatch → ProfileSpec → ProfileSpec
patched patch spec = record spec {
  name = or_keep patch.name spec.name;
  network = or_keep patch.network spec.network;
  protection = or_keep patch.protection spec.protection;
  permissions = or_keep patch.permissions spec.permissions;
}

abbrev pub checked : ProfileSpec → Result (Unit {0}) Error → Result ProfileSpec Error
checked spec (ok _) = ok spec
checked spec (err e) = err e

unfoldable pub apply_patch : ProfileSpec → ProfilePatch → Result ProfileSpec Error
apply_patch spec patch = checked (patched patch spec) (validate (patched patch spec))

abbrev pub or_not_found : {A : Type 0} → Option A → Result A Error
or_not_found none = err Error.not_found
or_not_found (some a) = ok a

abbrev pub or_corrupt : {A : Type 0} → Option A → Result A Error
or_corrupt none = err Error.config
or_corrupt (some a) = ok a

-- A dot, a random name and `.tmp`.
abbrev pub temp_path : String → String
temp_path name = "." +s name +s ".tmp"

abbrev pub is_ok : {A : Type 0} → Result A Error → Bool
is_ok (ok _) = true
is_ok (err _) = false

-- `metadata(..)` that errs or finds nothing.
abbrev pub found : Result Bool Error → Bool
found (ok b) = b
found (err _) = false

module _ (out : Outside) where
  unfoldable pub read_meta : ℕ → Action Profile
  unfolding read
  read_meta id = do
    bytes ← read out id meta_file
    b ← lift (or_not_found bytes)
    lift (or_corrupt (out.decode b))

  -- A refused rename leaves the metadata as it was; the temporary file is then removed if the host
  -- lets it be.
  abbrev pub renamed : ℕ → String → Result (Unit {0}) Error → Action (Unit {0})
  renamed id temp (ok _) = pure tt
  renamed id temp (err e) = ignore (remove_file out id temp) >> raise e

  unfoldable pub write_meta : Profile → Action (Unit {0})
  unfolding make_dir write rename remove_file
  write_meta p = do
    make_dir out p.id
    json ← lift (out.encode p)
    name ← gets (λ d. out.temp_name d.calls)
    write out p.id (temp_path name) json
    attempt (rename out p.id (temp_path name) meta_file) >>= renamed p.id (temp_path name)

  unfoldable pub is_locked : ℕ → Action Bool
  unfolding stat
  is_locked id = stat out id lock_file

  unfoldable pub load_refreshed : ℕ → Action Profile
  unfolding read_meta dir_size is_locked
  load_refreshed id = do
    profile ← read_meta id
    storage ← dir_size out id
    locked ← is_locked id
    pure (record profile { storage = storage; locked = locked })

  abbrev pub fresh_profile : ProfileSpec → ℕ → Disk → Profile
  fresh_profile spec id d = record {
    id = id;
    spec = spec;
    created_at = out.now d.calls;
    last_launched = none;
    storage = 0;
    locked = false;
  }

  -- What follows the validation.
  unfoldable pub create_valid : ProfileSpec → Action Profile
  unfolding stat_dir make_folder write_meta load_refreshed
  create_valid spec = do
    id ← gets (λ d. out.fresh d.calls)
    present ← attempt (stat_dir out id)
    if found present then raise Error.internal else pure tt
    make_folder out id data_dir
    profile ← gets (fresh_profile spec id)
    write_meta profile
    load_refreshed id

  unfoldable pub create : ProfileSpec → Action Profile
  unfolding create_valid
  create spec = lift (validate spec) >>= λ _. create_valid spec

  unfoldable pub get : ℕ → Action Profile
  unfolding load_refreshed
  get = load_refreshed

  -- An empty patch writes nothing.
  abbrev pub write_patched : Profile → ProfilePatch → Bool → Action (Unit {0})
  write_patched profile patch true = pure tt
  write_patched profile patch false =
      lift (apply_patch profile.spec patch) >>= λ spec. write_meta (record profile { spec = spec })

  unfoldable pub update : ℕ → ProfilePatch → Action Profile
  unfolding read_meta apply_patch write_meta load_refreshed
  update id patch = do
    profile ← read_meta id
    write_patched profile patch (is_empty patch)
    load_refreshed id

  unfoldable pub touch_launch : ℕ → ℕ → Action (Unit {0})
  unfolding read_meta write_meta
  touch_launch id at = do
    profile ← read_meta id
    write_meta (record profile { last_launched = some at })

  abbrev pub kept : Option Entries → List (ℕ × Entries) → ℕ → List (ℕ × Entries)
  kept none dirs id = remove id dirs
  kept (some es) dirs id = insert id es dirs

  abbrev pub shred_found : ℕ → Option Entries → Action (Unit {0})
  shred_found id none d = (ok tt, d)
  shred_found id (some es) d = (
    (out.shred_dir d.calls es).0,
    record d {
      profiles = kept (out.shred_dir d.calls es).1 d.profiles id;
      calls = Call.shreds id ∷ d.calls;
    },
  )

  -- The shredder is a trait object: what it answers and leaves of the directory is its own affair.
  unfoldable pub shred : ℕ → Action (Unit {0})
  shred id = gets (λ d. lookup id d.profiles) >>= shred_found id

  unfoldable pub delete : ℕ → Action (Unit {0})
  unfolding stat_dir shred
  delete id = do
    present ← attempt (stat_dir out id)
    if not (found present) then raise Error.not_found else pure tt
    shred id

  abbrev pub lease : ℕ → String → ProfileLease
  lease id token = record { profile = id; token = token }

  -- The token is written after the file was created.
  abbrev pub granted : ℕ → String → Bool → Action ProfileLease
  granted id token true = do
    write out id lock_file (as_bytes token)
    check out (Call.flushes id lock_file)
    pure (lease id token)
  granted id token false = raise Error.busy

  unfoldable pub acquire_lock : ℕ → Action ProfileLease
  unfolding stat_dir open_new write check
  acquire_lock id = do
    present ← attempt (stat_dir out id)
    if not (found present) then raise Error.not_found else pure tt
    token ← gets (λ d. new_token (out.random d.calls))
    opened ← open_new out id lock_file
    granted id token opened

  abbrev pub held_or_precondition : Option Bytes → Result Bytes Error
  held_or_precondition none = err Error.precondition
  held_or_precondition (some b) = ok b

  unfoldable pub release_lock : ProfileLease → Action (Unit {0})
  unfolding read remove_file
  release_lock l = do
    found ← read out l.profile lock_file
    held ← lift (held_or_precondition found)
    if bytes_eq held (as_bytes l.token) then pure tt else raise Error.precondition
    remove_file out l.profile lock_file

-- Newest first, then by the identifier, which as a text of fixed width compares like the number.
abbrev pub comes_before : Profile → Profile → Bool
comes_before p q = ltb q.created_at p.created_at || (q.created_at == p.created_at && leb p.id q.id)

unfoldable pub insert_sorted : Profile → List Profile → List Profile
insert_sorted p [] = p ∷ []
insert_sorted p (q ∷ more) =
    let rest = insert_sorted p more in if comes_before p q then p ∷ q ∷ more else q ∷ rest

unfoldable pub sort : List Profile → List Profile
unfolding insert_sorted
sort [] = []
sort (p ∷ more) = insert_sorted p (sort more)

module _ (out : Outside) where
  -- A profile that is not found is left out; another error ends the listing.
  abbrev pub listed : Result Profile Error → List Profile → Result (List Profile) Error
  listed (ok p) out_list = ok (p ∷ out_list)
  listed (err Error.not_found) out_list = ok out_list
  listed (err e) out_list = err e

  unfoldable pub load_all : List (ℕ × Entries) → Action (List Profile)
  unfolding load_refreshed check
  load_all [] = pure []
  load_all ((id, es) ∷ more) = do
    check out Call.visits
    profile ← attempt (load_refreshed out id)
    lift (listed profile [])
    rest ← load_all more
    lift (listed profile rest)

  -- Entries of the root that are no directories named by an identifier are skipped by the source,
  -- and have no place on the disk of the model.
  unfoldable pub list : Action (List Profile)
  unfolding check load_all sort
  list = do
    check out Call.reads_root
    dirs ← gets (λ d. d.profiles)
    profiles ← load_all dirs
    check out Call.visits
    pure (sort profiles)
