-- ===== src/Store/Locking.antt =====
-- What taking, releasing and deleting do to a lock that is held.
use aegis_private_browser.Prelude.{
  ◌≡◌, ◌≢◌, refl, sym, subst, ap, ◌∙◌, ℕ, ◌==◌, Bool, true, false, Option, none, some, [], ◌∷◌,
  String, lookup, Result, ok, err, nat_eq, if◌then◌else◌, lookup-insert, lookup-remove, arith,
}
use aegis_private_browser.Prelude.Exec.{pure, raise, lift, ◌>>=◌}
use aegis_private_browser.Prelude.Exec.Triple.{
  Post, Triple, Keeps, Triple-bind, Triple-gets, Triple-lift, Triple-pure, Triple-raise,
  Triple-weaken, Triple-if,
}
use aegis_private_browser.Core.Error.{Error}
use aegis_private_browser.Daemon.Calls.{ProfileLease}
use aegis_private_browser.Store.Tree.{Bytes, Node, Entries}
use aegis_private_browser.Store.Disk.{
  Call, Disk, Outside, note, find_in, read, contents, open_new, opened, remove_file,
}
use aegis_private_browser.Store.Profiles.{
  lock_file, granted, lease, held_or_precondition, kept, shred_found, shred, delete, acquire_lock,
  release_lock,
}
use aegis_private_browser.Store.Token.{as_bytes, bytes_eq}
use aegis_private_browser.Store.Changes.{node_at-put, node_at-unlink, node_at-make}
use aegis_private_browser.Store.Kept.{
  gets-Kept, lift-Kept, pure-Kept, raise-Kept, attempt-Kept, bind-Kept, check-Kept, read-Kept,
  when-Kept, unless-Kept, stat_dir-Kept,
}
use aegis_private_browser.Store.Written.{Apart, write-Kept, open_new-Kept, remove_file-Kept}
use aegis_private_browser.Store.Held.{Held}

bytes_eq_sound : (x y : Bytes) → bytes_eq x y ≡ true → x ≡ y
unfolding bytes_eq
bytes_eq_sound [] [] h = refl
bytes_eq_sound [] (b ∷ y) h = ground (arith, h)
bytes_eq_sound (a ∷ x) [] h = ground (arith, h)
bytes_eq_sound (a ∷ x) (b ∷ y) h = ground (arith, nat_eq.beq_iff a b, bytes_eq_sound x y, h)

module _ (out : Outside) (id : ℕ) (token : Bytes) where
  pub noted : (c : Call) (d : Disk) → Held id token d → Held id token (note c d)
  noted c d h = h

  -- In another directory every name is free.
  other-Apart : (i : ℕ) → i ≢ id → Apart (Held id token) i (λ _. Unit {0})
  other-Apart i differs = record {
    noted = noted;
    put_free =
        λ name node d free h. node_at-put i id lock_file d name node (λ e. absurd (differs e)) ∙ h;
    unlink_free =
        λ name d free h. node_at-unlink i id lock_file d name (λ e. absurd (differs e)) ∙ h;
    made_dir = λ d h. node_at-make i id lock_file d ∙ h;
  }

  open_new-Held :
      Triple
        (Held id token)
        (open_new out id lock_file)
        (λ b d. Held id token d × (b ≡ false))
        (λ _. Held id token)
  unfolding open_new
  open_new-Held = Triple-bind {Q = λ _. Held id token} _ _ (check-Kept out noted _) λ _.
      Triple-bind {Q = λ _. Held id token} _ _ (gets-Kept _) λ dir.
        Triple-bind {Q = λ node d. Held id token d × (node ≡ some (Node.file token))} _ _
          (Triple-gets _ λ d h. (h, h)) λ node. either dir node
    where
      either :
          (dir : Option Entries) (node : Option Node)
          → Triple
              (λ d. Held id token d × (node ≡ some (Node.file token)))
              (opened out id lock_file dir node)
              (λ b d. Held id token d × (b ≡ false))
              (λ _. Held id token)
      either none old = Triple-raise _ λ d h. h.0
      either (some es) none = record { at = λ d h. absurd (ground (arith, h.1)) }
      either (some es) (some old) = Triple-pure _ λ d h. (h.0, refl)

  -- A held lock is not given again.
  pub acquire_lock-Held :
      Triple (Held id token) (acquire_lock out id) (λ _ _. ⊥) (λ _. Held id token)
  unfolding acquire_lock
  acquire_lock-Held =
      Triple-bind {Q = λ _. Held id token} _ _ (attempt-Kept _ (stat_dir-Kept out noted id))
        λ present. Triple-bind {Q = λ _. Held id token} _ _ (unless-Kept _ _) λ _.
          Triple-bind {Q = λ _. Held id token} _ _ (gets-Kept _)
            λ fresh. Triple-bind _ _ open_new-Held λ b. either fresh b
    where
      either :
          (fresh : String) (b : Bool)
          → Triple
              (λ d. Held id token d × (b ≡ false))
              (granted out id fresh b)
              (λ _ _. ⊥)
              (λ _. Held id token)
      either fresh true = record { at = λ d h. absurd (ground (arith, h.1)) }
      either fresh false = Triple-raise _ λ d h. h.0

  -- The lock of another profile.
  acquire_lock_other : (i : ℕ) → i ≢ id → Keeps (Held id token) (acquire_lock out i)
  unfolding acquire_lock
  acquire_lock_other i differs =
      bind-Kept _ _ (attempt-Kept _ (stat_dir-Kept out noted i)) λ present.
        bind-Kept _ _ (unless-Kept _ _) λ _.
          bind-Kept _ _ (gets-Kept _) λ fresh.
            bind-Kept _ _ (open_new-Kept out (other-Apart i differs) tt) λ b. either fresh b
    where
      either : (fresh : String) (b : Bool) → Keeps (Held id token) (granted out i fresh b)
      either fresh true =
          bind-Kept _ _
            (write-Kept out (other-Apart i differs) {name = lock_file} (as_bytes fresh) tt)
            λ _.
              bind-Kept _ _ (check-Kept out noted (Call.flushes i lock_file))
                λ _. pure-Kept (lease out i fresh)
      either fresh false = raise-Kept Error.busy

  -- The lock of whichever profile.
  pub acquire_lock_Keeps : (i : ℕ) → Keeps (Held id token) (acquire_lock out i)
  acquire_lock_Keeps i = chosen (i == id) refl
    where
      chosen : (b : Bool) → (i == id) ≡ b → Keeps (Held id token) (acquire_lock out i)
      chosen true e =
          subst (λ j. Keeps (Held id token) (acquire_lock out j)) (sym ((nat_eq.beq_iff i id).0 e))
            (Triple-weaken _ acquire_lock-Held (λ d h. h) (λ a d h. absurd h) (λ x d h. h))
      chosen false e = acquire_lock_other i λ same. ground (arith, e, same)

  read-Held :
      Triple
        (Held id token)
        (read out id lock_file)
        (λ b d. Held id token d × (b ≡ some token))
        (λ _. Held id token)
  unfolding read lift
  read-Held =
      Triple-bind {Q = λ node d. Held id token d × (node ≡ some (Node.file token))} _ _
        (Triple-bind {Q = λ _. Held id token} _ _ (check-Kept out noted _)
          λ _. Triple-gets _ λ d h. (h, h))
        λ node. record {
          at = λ d h.
              subst
                (λ n.
                  Post (λ b d. Held id token d × (b ≡ some token)) (λ _. Held id token)
                    (contents out n) d)
                (sym h.1) (h.0, refl);
        }

  -- A lease with another token, or of another profile.
  pub release_lock-Held :
      (l : ProfileLease)
      → (l.profile ≡ id → as_bytes l.token ≢ token)
      → Keeps (Held id token) (release_lock out l)
  unfolding release_lock lift
  release_lock-Held l spares = chosen (l.profile == id) refl
    where
      refused :
          l.profile ≡ id
          → (held : Bytes)
          → Triple
              (λ d. Held id token d × (held ≡ token))
              ((if bytes_eq held (as_bytes l.token) then pure tt else raise Error.precondition)
                >>= λ _. remove_file out l.profile lock_file)
              (λ _. Held id token)
              (λ _. Held id token)
      refused same held =
          Triple-bind {Q = λ _ d. (bytes_eq held (as_bytes l.token) ≡ true) × (held ≡ token)} _ _
            (Triple-if _ _ _ (λ equal. Triple-pure tt λ d h. (equal, h.1))
              λ _. Triple-raise _ λ d h. h.0)
            λ _. record { at = λ d h. absurd (spares same (sym (bytes_eq_sound held _ h.0) ∙ h.1)) }

      mine :
          l.profile ≡ id
          → Triple
              (Held id token)
              (read out l.profile lock_file)
              (λ b d. Held id token d × (b ≡ some token))
              (λ _. Held id token)
      mine same =
          subst
            (λ j.
              Triple (Held id token) (read out j lock_file)
                (λ b d. Held id token d × (b ≡ some token)) (λ _. Held id token))
            (sym same) read-Held

      present :
          (b : Option Bytes)
          → Triple
              (λ d. Held id token d × (b ≡ some token))
              (lift (held_or_precondition out b))
              (λ held d. Held id token d × (held ≡ token))
              (λ _. Held id token)
      present none = Triple-lift _ (λ a e d h. absurd (ground (arith, h.1))) λ x e d h. h.0
      present (some held) = record { at = λ d h. (h.0, ground (arith, h.1)) }

      chosen : (b : Bool) → (l.profile == id) ≡ b → Keeps (Held id token) (release_lock out l)
      chosen true e =
          let same = (nat_eq.beq_iff l.profile id).0 e in
          Triple-bind _ _ (mine same) λ b. Triple-bind _ _ (present b) (refused same)
      chosen false e = bind-Kept _ _ (read-Kept out noted _ _) λ bytes.
          bind-Kept _ _ (lift-Kept _) λ held. bind-Kept _ _ (when-Kept _ _) λ _.
            remove_file-Kept out (other-Apart l.profile λ same. ground (arith, e, same))
              {name = lock_file} tt

  -- Deleting another profile.
  pub delete-Held : (i : ℕ) → i ≢ id → Keeps (Held id token) (delete out i)
  unfolding delete shred
  delete-Held i differs =
      bind-Kept _ _ (attempt-Kept _ (stat_dir-Kept out noted i))
        λ present. bind-Kept _ _ (unless-Kept _ _) λ _. bind-Kept _ _ (gets-Kept _) shreds
    where
      elsewhere :
          (left : Option Entries) (d : Disk)
          → lookup id (kept out left d.profiles i) ≡ lookup id d.profiles
      elsewhere none d = ground (arith, lookup-remove i id d.profiles, nat_eq.beq_iff i id, differs)
      elsewhere (some es) d =
          ground (arith, lookup-insert i id es d.profiles, nat_eq.beq_iff i id, differs)

      both :
          (r : Result (Unit {0}) Error) (d : Disk)
          → Held id token d
          → Post (λ _. Held id token) (λ _. Held id token) r d
      both (ok _) d h = h
      both (err e) d h = h

      shreds : (dir : Option Entries) → Keeps (Held id token) (shred_found out i dir)
      shreds none = record { at = λ d h. h }
      shreds (some es) = record {
        at = λ d h.
            both (out.shred_dir d.calls es).0 _
              (ap (find_in lock_file) (elsewhere (out.shred_dir d.calls es).1 d) ∙ h);
      }
