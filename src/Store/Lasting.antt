-- ===== src/Store/Lasting.antt =====
-- Every metadata file is whole, over sequences of the store's operations.
use aegis_private_browser.Prelude.{
  ◌≡◌, refl, sym, ap, ◌∙◌, subst, ℕ, ◌==◌, Bool, true, false, Option, none, some, List, [], ◌∷◌,
  ◌⊎◌, inl, inr, String, lookup, insert, Result, ok, err, nat_eq, if◌then◌else◌, lookup-insert,
  lookup-remove, arith,
}
use aegis_private_browser.Prelude.Exec.Triple.{
  Post, Triple, Keeps, Triple-bind, Triple-gets, Triple-lift, Triple-pure, Triple-final,
}
use aegis_private_browser.Core.Error.{Error}
use aegis_private_browser.Core.Profile.{Profile, ProfileSpec, ProfilePatch, is_empty, validate}
use aegis_private_browser.Daemon.Calls.{ProfileLease}
use aegis_private_browser.Store.Tree.{Node, Entries}
use aegis_private_browser.Store.Disk.{Call, Disk, Outside, node_at, find_in}
use aegis_private_browser.Store.Profiles.{
  meta_file, lock_file, patched, apply_patch, checked, create_valid, create, write_patched, update,
  touch_launch, kept, shred_found, shred, delete, granted, lease, acquire_lock, release_lock,
}
use aegis_private_browser.Store.Token.{as_bytes}
use aegis_private_browser.Store.Kept.{
  gets-Kept, lift-Kept, pure-Kept, raise-Kept, attempt-Kept, bind-Kept, check-Kept, read-Kept,
  when-Kept, get-Kept, list-Kept, unless-Kept, stat_dir-Kept, load_refreshed-Kept,
}
use aegis_private_browser.Store.Written.{
  write-Kept, open_new-Kept, remove_file-Kept, make_folder-Kept,
}
use aegis_private_browser.Store.Exclusive.{Operation, after, after_all}
use aegis_private_browser.Store.Sound.{IsSound, RoundTrips, sound, write_meta-IsSound}
use aegis_private_browser.Store.ReadBack.{Mine, read_meta-Mine}

module _ (out : Outside) where
  -- The shredder removes the directory or, when it fails, leaves it as it was.
  abbrev pub RemovesOrLeaves : Type 0
  RemovesOrLeaves =
      (before : List Call) (es : Entries)
      → ((out.shred_dir before es).1 ≡ none) ⊎ ((out.shred_dir before es).1 ≡ some es)

  noted : (c : Call) (d : Disk) → IsSound out d → IsSound out (record d { calls = c ∷ d.calls })
  noted c d h = h

  valid-IsSound :
      (spec : ProfileSpec) → validate spec ≡ ok tt → Keeps (IsSound out) (create_valid out spec)
  unfolding create_valid
  valid-IsSound spec valid = bind-Kept _ _ (gets-Kept _) λ i.
      bind-Kept _ _ (attempt-Kept _ (stat_dir-Kept out noted i)) λ present.
        bind-Kept _ _ (unless-Kept _ _) λ _.
          bind-Kept _ _ (make_folder-Kept out (sound out i) refl) λ _.
            Triple-bind {Q = λ p d. IsSound out d × (validate p.spec ≡ ok tt)} _ _
              (Triple-gets _ λ d h. (h, valid))
              λ p.
                Triple-bind {Q = λ _. IsSound out} _ _
                  (record { at = λ d h. (write_meta-IsSound out p h.1).at d h.0 })
                  λ _. load_refreshed-Kept out noted i

  create-IsSound : (spec : ProfileSpec) → Keeps (IsSound out) (create out spec)
  unfolding create
  create-IsSound spec =
      Triple-bind {Q = λ _ d. IsSound out d × (validate spec ≡ ok tt)} _ _
        (Triple-lift _ (λ a e d h. (h, e)) λ x e d h. h)
        λ _. record { at = λ d h. (valid-IsSound spec h.1).at d h.0 }

  checked_valid :
      (spec new : ProfileSpec) (v : Result (Unit {0}) Error)
      → validate spec ≡ v
      → checked spec v ≡ ok new
      → validate new ≡ ok tt
  checked_valid spec new (ok _) e h = subst (λ s. validate s ≡ ok tt) (ground (arith, h)) e
  checked_valid spec new (err x) e h = absurd (ground (arith, h))

  module _ (round_trips : RoundTrips out) where
    write_patched-IsSound :
        (id : ℕ) (p : Profile) (patch : ProfilePatch) (empty : Bool)
        → Triple
            (Mine out round_trips id p)
            (write_patched out p patch empty)
            (λ _. IsSound out)
            (λ _. IsSound out)
    unfolding apply_patch
    write_patched-IsSound id p patch true = Triple-pure tt λ d h. h.0
    write_patched-IsSound id p patch false =
        Triple-bind {Q = λ spec d. IsSound out d × (validate spec ≡ ok tt)} _ _
          (Triple-lift _ (λ spec e d h. (h.0, checked_valid (patched patch p.spec) spec _ refl e))
            λ x e d h. h.0)
          λ spec. record {
            at = λ d h. (write_meta-IsSound out (record p { spec = spec }) h.1).at d h.0;
          }

    update-IsSound : (id : ℕ) (patch : ProfilePatch) → Keeps (IsSound out) (update out id patch)
    unfolding update
    update-IsSound id patch = Triple-bind _ _ (read_meta-Mine out round_trips id) λ p.
        Triple-bind {Q = λ _. IsSound out} _ _ (write_patched-IsSound id p patch (is_empty patch))
          λ _. load_refreshed-Kept out noted id

    touch_launch-IsSound : (id at : ℕ) → Keeps (IsSound out) (touch_launch out id at)
    unfolding touch_launch
    touch_launch-IsSound id at = Triple-bind _ _ (read_meta-Mine out round_trips id) λ p. record {
      at = λ d h. (write_meta-IsSound out (record p { last_launched = some at }) h.2).at d h.0;
    }

  acquire_lock-IsSound : (id : ℕ) → Keeps (IsSound out) (acquire_lock out id)
  unfolding acquire_lock
  acquire_lock-IsSound id = bind-Kept _ _ (attempt-Kept _ (stat_dir-Kept out noted id)) λ present.
      bind-Kept _ _ (unless-Kept _ _) λ _.
        bind-Kept _ _ (gets-Kept _)
          λ token. bind-Kept _ _ (open_new-Kept out (sound out id) refl) λ b. either token b
    where
      either : (token : String) (b : Bool) → Keeps (IsSound out) (granted out id token b)
      either token true =
          bind-Kept _ _ (write-Kept out (sound out id) {name = lock_file} (as_bytes token) refl)
            λ _.
              bind-Kept _ _ (check-Kept out noted (Call.flushes id lock_file))
                λ _. pure-Kept (lease out id token)
      either token false = raise-Kept Error.busy

  release_lock-IsSound : (l : ProfileLease) → Keeps (IsSound out) (release_lock out l)
  unfolding release_lock
  release_lock-IsSound l = bind-Kept _ _ (read-Kept out noted _ _) λ bytes.
      bind-Kept _ _ (lift-Kept _)
        λ held. bind-Kept _ _ (when-Kept _ _) λ _. remove_file-Kept out (sound out l.profile) refl

  module _ (shreds : RemovesOrLeaves) where
    delete-IsSound : (id : ℕ) → Keeps (IsSound out) (delete out id)
    unfolding delete shred
    delete-IsSound id = bind-Kept _ _ (attempt-Kept _ (stat_dir-Kept out noted id)) λ present.
        bind-Kept _ _ (unless-Kept _ _) λ _.
          Triple-bind {Q = λ dir d. IsSound out d × (lookup id d.profiles ≡ dir)} _ _
            (Triple-gets _ λ d h. (h, refl)) shredded
      where
        same_or_less :
            (left : Option Entries) (es : Entries) (d : Disk)
            → lookup id d.profiles ≡ some es
            → (left ≡ none) ⊎ (left ≡ some es)
            → (j : ℕ) (node : Node)
            → find_in meta_file (lookup j (kept out left d.profiles id)) ≡ some node
            → node_at j meta_file d ≡ some node
        same_or_less left es d e (inl gone) j node seen = after_removal (id == j) (
            sym (ap (find_in meta_file) (lookup-remove id j d.profiles))
            ∙ subst (λ l. find_in meta_file (lookup j (kept out l d.profiles id)) ≡ some node) gone
                seen)
          where
            after_removal :
                (b : Bool)
                → find_in meta_file (if b then none else lookup j d.profiles) ≡ some node
                → node_at j meta_file d ≡ some node
            after_removal true h = absurd (ground (arith, h))
            after_removal false h = h
        same_or_less left es d e (inr stays) j node seen =
            sym (ap (find_in meta_file) unmoved)
            ∙ subst (λ l. find_in meta_file (lookup j (kept out l d.profiles id)) ≡ some node) stays
                seen
          where
            unmoved : lookup j (insert id es d.profiles) ≡ lookup j d.profiles
            unmoved = grind (arith, lookup-insert id j es d.profiles, nat_eq.beq_iff id j, e)

        either :
            (r : Result (Unit {0}) Error) (t : Disk)
            → IsSound out t
            → Post (λ _. IsSound out) (λ _. IsSound out) r t
        either (ok _) t h = h
        either (err e) t h = h

        shredded :
            (dir : Option Entries)
            → Triple
                (λ d. IsSound out d × (lookup id d.profiles ≡ dir))
                (shred_found out id dir)
                (λ _. IsSound out)
                (λ _. IsSound out)
        shredded none = record { at = λ d h. h.0 }
        shredded (some es) = record {
          at = λ d h. either (out.shred_dir d.calls es).0 _ (λ j node seen.
              h.0 j node (
                same_or_less (out.shred_dir d.calls es).1 es d h.1 (shreds d.calls es) j node
                  seen));
        }

  -- After any sequence of operations that starts where every metadata file is whole, on an empty
  -- disk for instance, every metadata file is whole: it is exactly what serde_json writes of one
  -- profile, which has the identifier of its directory and a spec that validates. The conditions
  -- are that serde_json reads back the identifier that it wrote and a valid spec as a valid one, and
  -- that the shredder removes a directory or
  -- leaves it as it was. The host may refuse any call, and a refused write may leave anything.
  pub metadata-IsSound :
      RoundTrips out
      → RemovesOrLeaves
      → (ops : List Operation) (d : Disk) → IsSound out d
      → IsSound out (after_all out ops d)
  metadata-IsSound round_trips shreds [] d h = h
  metadata-IsSound round_trips shreds (op ∷ more) d h =
      metadata-IsSound round_trips shreds more (after out op d) (step op)
    where
      step : (op : Operation) → IsSound out (after out op d)
      step (Operation.creates spec) = Triple-final _ d (create-IsSound spec) h
      step (Operation.gets_one id) = Triple-final _ d (get-Kept out noted id) h
      step Operation.lists = Triple-final _ d (list-Kept out noted) h
      step (Operation.updates id patch) = Triple-final _ d (update-IsSound round_trips id patch) h
      step (Operation.deletes id) = Triple-final _ d (delete-IsSound shreds id) h
      step (Operation.acquires id) = Triple-final _ d (acquire_lock-IsSound id) h
      step (Operation.releases l) = Triple-final _ d (release_lock-IsSound l) h
      step (Operation.touches id at) = Triple-final _ d (touch_launch-IsSound round_trips id at) h
