-- ===== src/Store/Exclusive.antt =====
-- A lock has one holder, over sequences of the store's operations.
use aegis_private_browser.Prelude.{
  ◌≡◌, ◌≢◌, refl, sym, subst, ℕ, Bool, true, false, List, [], ◌∷◌, String, Result, ok, nat_eq, All,
}
use aegis_private_browser.Prelude.Exec.Triple.{
  Post, Triple, Triple-bind, Triple-pure, Triple-raise, Triple-final, Triple-any, Triple-weaken,
}
use aegis_private_browser.Core.Error.{Error}
use aegis_private_browser.Core.Profile.{ProfileSpec, ProfilePatch}
use aegis_private_browser.Daemon.Calls.{ProfileLease}
use aegis_private_browser.Store.Disk.{Call, Disk, Outside}
use aegis_private_browser.Store.Profiles.{
  lock_file, granted, lease, create, get, update, touch_launch, delete, acquire_lock, release_lock,
  list,
}
use aegis_private_browser.Store.Token.{as_bytes}
use aegis_private_browser.Store.Writes.{write_lem}
use aegis_private_browser.Store.Kept.{get-Kept, list-Kept, check-Kept}
use aegis_private_browser.Store.Held.{Held, create-Held, update-Held, touch_launch-Held}
use aegis_private_browser.Store.Locking.{
  noted, acquire_lock-Held, acquire_lock_Keeps, release_lock-Held, delete-Held,
}

pub data Operation : Type 0 where
  creates : ProfileSpec → Operation
  gets_one : ℕ → Operation
  lists : Operation
  updates : ℕ → ProfilePatch → Operation
  deletes : ℕ → Operation
  acquires : ℕ → Operation
  releases : ProfileLease → Operation
  touches : ℕ → ℕ → Operation

-- Neither a delete of the profile nor a release by the lease's own token.
abbrev pub Spares : ProfileLease → Operation → Type 0
Spares l (Operation.deletes id) = id ≢ l.profile
Spares l (Operation.releases m) = m.profile ≡ l.profile → as_bytes m.token ≢ as_bytes l.token
Spares l (Operation.creates spec) = Unit
Spares l (Operation.gets_one id) = Unit
Spares l Operation.lists = Unit
Spares l (Operation.updates id patch) = Unit
Spares l (Operation.acquires id) = Unit
Spares l (Operation.touches id at) = Unit

module _ (out : Outside) where
  -- The disk after the operation, whatever it answered.
  abbrev pub after : Operation → Disk → Disk
  after (Operation.creates spec) d = (create out spec d).1
  after (Operation.gets_one id) d = (get out id d).1
  after Operation.lists d = (list out d).1
  after (Operation.updates id patch) d = (update out id patch d).1
  after (Operation.deletes id) d = (delete out id d).1
  after (Operation.acquires id) d = (acquire_lock out id d).1
  after (Operation.releases l) d = (release_lock out l d).1
  after (Operation.touches id at) d = (touch_launch out id at d).1

  abbrev pub after_all : List Operation → Disk → Disk
  after_all [] d = d
  after_all (op ∷ more) d = after_all more (after op d)

  acquire_lock-Taken :
      (id : ℕ)
      → Triple
          (λ _. Unit {0})
          (acquire_lock out id)
          (λ l d. (l.profile ≡ id) × Held id (as_bytes l.token) d)
          (λ _ _. Unit {0})
  unfolding acquire_lock
  acquire_lock-Taken id = Triple-bind {Q = λ _ _. Unit} _ _ (Triple-any _) λ present.
      Triple-bind {Q = λ _ _. Unit} _ _ (Triple-any _) λ _.
        Triple-bind {Q = λ _ _. Unit} _ _ (Triple-any _)
          λ token. Triple-bind {Q = λ _ _. Unit} _ _ (Triple-any _) λ b. either token b
    where
      either :
          (token : String) (b : Bool)
          → Triple
              (λ _. Unit {0})
              (granted out id token b)
              (λ l d. (l.profile ≡ id) × Held id (as_bytes l.token) d)
              (λ _ _. Unit {0})
      either token true = Triple-bind _ _ (write_lem out id lock_file (as_bytes token)) λ _.
          Triple-bind {Q = λ _ d. Held id (as_bytes token) d} _ _
            (Triple-weaken _ (check-Kept out (λ c d h. h) (Call.flushes id lock_file)) (λ d h. h)
              (λ a d h. h) λ e d h. tt)
            λ _. Triple-pure (lease out id token) λ d h. (refl, h)
      either token false = Triple-raise _ λ d h. tt

  module _ (l : ProfileLease) where
    abbrev pub Holds : Disk → Type 0
    Holds = Held l.profile (as_bytes l.token)

    after-Holds : (op : Operation) → Spares l op → (d : Disk) → Holds d → Holds (after op d)
    after-Holds (Operation.creates spec) _ d h =
        Triple-final _ d (create-Held out l.profile _ spec) h
    after-Holds (Operation.gets_one id) _ d h =
        Triple-final _ d (get-Kept out (noted out l.profile (as_bytes l.token)) id) h
    after-Holds Operation.lists _ d h =
        Triple-final _ d (list-Kept out (noted out l.profile (as_bytes l.token))) h
    after-Holds (Operation.updates id patch) _ d h =
        Triple-final _ d (update-Held out l.profile _ id patch) h
    after-Holds (Operation.deletes id) spares d h =
        Triple-final _ d (delete-Held out l.profile _ id spares) h
    after-Holds (Operation.acquires id) _ d h =
        Triple-final _ d (acquire_lock_Keeps out l.profile _ id) h
    after-Holds (Operation.releases m) spares d h =
        Triple-final _ d (release_lock-Held out l.profile _ m spares) h
    after-Holds (Operation.touches id at) _ d h =
        Triple-final _ d (touch_launch-Held out l.profile _ id at) h

    after_all-Holds :
        (ops : List Operation) → All (Spares l) ops → (d : Disk) → Holds d → Holds (after_all ops d)
    after_all-Holds [] spares d h = h
    after_all-Holds (op ∷ more) spares d h =
        after_all-Holds more spares.1 (after op d) (after-Holds op spares.0 d h)

  -- Once a lock of a profile was given, it is not given again: after any sequence of operations
  -- that neither deletes the profile nor releases the lock by a lease with the same token, whatever
  -- the host answers, the lock file still holds the token, and no attempt to take the lock returns
  -- a lease. The lease is for the profile that was asked for.
  pub acquire_lock_lem :
      (id : ℕ) (d s : Disk) (l : ProfileLease)
      → acquire_lock out id d ≡ (ok l, s)
      → (ops : List Operation) → All (Spares l) ops
      → (l.profile ≡ id)
        × Held id (as_bytes l.token) (after_all ops s)
        × ((other : ProfileLease) (t : Disk)
            → acquire_lock out id (after_all ops s) ≢ (ok other, t))
  acquire_lock_lem id d s l given ops spares =
      (taken.0, subst (λ i. Held i (as_bytes l.token) end) taken.0 still, again)
    where
      end : Disk
      end = after_all ops s

      taken : (l.profile ≡ id) × Held id (as_bytes l.token) s
      taken =
          subst
            (λ (r : Result ProfileLease Error × Disk).
              Post (λ l d. (l.profile ≡ id) × Held id (as_bytes l.token) d) (λ _ _. Unit {0}) r.0
                r.1)
            given ((acquire_lock-Taken id).at d tt)

      still : Held l.profile (as_bytes l.token) end
      still =
          after_all-Holds l ops spares s
            (subst (λ i. Held i (as_bytes l.token) s) (sym taken.0) taken.1)

      again : (other : ProfileLease) (t : Disk) → acquire_lock out id end ≢ (ok other, t)
      again other t e =
          subst
            (λ (r : Result ProfileLease Error × Disk).
              Post (λ _ _. ⊥) (λ _. Held id (as_bytes l.token)) r.0 r.1)
            e
            ((acquire_lock-Held out id (as_bytes l.token)).at end
              (subst (λ i. Held i (as_bytes l.token) end) taken.0 still))
