-- ===== src/Tests/StoreExamples.antt =====
-- The profile store's theorems at concrete inputs.
use aegis_private_browser.Prelude.{
  ◌≡◌, ◌≢◌, refl, subst, false, Option, none, some, List, [], ◌∷◌, ok, lookup, insert, inl, arith,
}
use aegis_private_browser.Prelude.Exec.{◌>>=◌}
use aegis_private_browser.Prelude.Exec.Triple.{Post}
use aegis_private_browser.Core.Profile.{
  Profile, ephemeral_spec, validate, is_blank, validate-eq-ok_iff,
}
use aegis_private_browser.Daemon.Calls.{ProfileLease}
use aegis_private_browser.Store.Tree.{Bytes, Node, Entries, bytes_in, folders_in, find, place}
use aegis_private_browser.Store.Tree.Entries.{vacant, entry}
use aegis_private_browser.Store.Disk.{Disk, Outside}
use aegis_private_browser.Store.Size.{saturated, dir_size}
use aegis_private_browser.Store.Profiles.{acquire_lock}
use aegis_private_browser.Store.Token.{as_bytes, new_token}
use aegis_private_browser.Store.Held.{Held}
use aegis_private_browser.Store.Exclusive.{Operation, after_all, acquire_lock_lem}
use aegis_private_browser.Store.Sound.{IsSound, RoundTrips}
use aegis_private_browser.Store.Lasting.{RemovesOrLeaves, metadata-IsSound}
use aegis_private_browser.Store.Sized.{Failed, dir_size_lem}

abbrev sample_profile : Profile
sample_profile = record {
  id = 1;
  spec = ephemeral_spec "Quick";
  created_at = 5;
  last_launched = none;
  storage = 0;
  locked = false;
}

-- A text that keeps the identifier only.
abbrev only_id : Bytes → Option Profile
only_id [] = none
only_id (i ∷ []) = some (record sample_profile { id = i })
only_id (i ∷ j ∷ more) = none

-- The host refuses nothing.
abbrev willing : Outside
willing = record {
  refuses = λ before c. false;
  torn = λ before. none;
  half = λ before. false;
  shred_dir = λ before es. (ok tt, none);
  fresh = λ before. 1;
  temp_name = λ before. "00";
  random = λ before. 0x1f ∷ 0xa0 ∷ [];
  now = λ before. 5;
  encode = λ p. ok (p.id ∷ []);
  decode = only_id;
}

abbrev stored : Entries
stored =
    entry "profile.json" (Node.file (1 ∷ []))
      (entry "data" (Node.folder (entry "cookies" (Node.file (1 ∷ 2 ∷ 3 ∷ [])) vacant)) vacant)

abbrev with_profile : Disk
with_profile = record { profiles = (1, stored) ∷ []; calls = [] }

abbrev sample_lease : ProfileLease
sample_lease = record { profile = 1; token = "1fa0" }

locked_disk : Disk
locked_disk = (acquire_lock willing 1 with_profile).1

taken : acquire_lock willing 1 with_profile ≡ (ok sample_lease, locked_disk)
unfolding acquire_lock locked_disk new_token lookup find place insert ◌>>=◌ as_bytes
taken = refl

-- Another profile is taken and deleted, and a lease with a wrong token is refused.
abbrev foreign : List Operation
foreign =
    Operation.acquires 2
    ∷ Operation.deletes 2
    ∷ Operation.releases (record { profile = 1; token = "0000" })
    ∷ Operation.lists
    ∷ []

acquire_lock_example :
    (sample_lease.profile ≡ 1)
    × Held 1 (as_bytes "1fa0") (after_all willing foreign locked_disk)
    × ((other : ProfileLease) (t : Disk)
        → acquire_lock willing 1 (after_all willing foreign locked_disk) ≢ (ok other, t))
unfolding as_bytes
acquire_lock_example =
    acquire_lock_lem willing 1 with_profile locked_disk sample_lease taken foreign
      (tt, ((λ e. omega (arith, e)), ((λ same e. ground (arith, e)), (tt, tt))))

dir_size_example :
    Post
      (λ n d. n ≡ 4)
      (Failed willing)
      (dir_size willing 1 with_profile).0
      (dir_size willing 1 with_profile).1
unfolding saturated lookup bytes_in
dir_size_example = dir_size_lem willing 1 with_profile

dir_size_run : (dir_size willing 1 with_profile).0 ≡ ok 4
unfolding dir_size ◌>>=◌ lookup saturated folders_in
dir_size_run = refl

reads_back : RoundTrips willing
unfolding is_blank ephemeral_spec
reads_back p q b e h =
    subst (λ (r : Profile). (r.id ≡ p.id) × (validate p.spec ≡ ok tt → validate r.spec ≡ ok tt))
      read (refl, λ _. valid)
  where
    text : b ≡ p.id ∷ []
    text = ground (arith, e)

    read : record sample_profile { id = p.id } ≡ q
    read = ground (arith, subst (λ c. only_id c ≡ some q) text h)

    valid : validate sample_profile.spec ≡ ok tt
    valid = (validate-eq-ok_iff sample_profile.spec).1 refl

removes : RemovesOrLeaves willing
removes before es = inl refl

abbrev life : List Operation
life =
    Operation.creates sample_profile.spec
    ∷ Operation.acquires 1
    ∷ Operation.touches 1 9
    ∷ Operation.releases sample_lease
    ∷ Operation.deletes 1
    ∷ []

abbrev empty_disk : Disk
empty_disk = record { profiles = []; calls = [] }

empty_disk-IsSound : IsSound willing empty_disk
unfolding lookup
empty_disk-IsSound id node seen = absurd (ground (arith, seen))

metadata-IsSound_example : IsSound willing (after_all willing life empty_disk)
metadata-IsSound_example =
    metadata-IsSound willing reads_back removes life empty_disk empty_disk-IsSound
