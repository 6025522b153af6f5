-- ===== src/Store/ReadBack.antt =====
-- What the store reads back from a whole metadata file.
use aegis_private_browser.Prelude.{
  ◌≡◌, refl, sym, ap, ◌∙◌, subst, ℕ, Option, none, some, ok, nat_eq, string_eq, arith,
}
use aegis_private_browser.Prelude.Exec.{lift}
use aegis_private_browser.Prelude.Exec.Triple.{Triple, Triple-bind, Triple-gets}
use aegis_private_browser.Core.Profile.{Profile, validate}
use aegis_private_browser.Store.Tree.{Bytes, Node}
use aegis_private_browser.Store.Disk.{Call, Disk, Outside, node_at, read, contents}
use aegis_private_browser.Store.Profiles.{meta_file, or_not_found, or_corrupt, read_meta}
use aegis_private_browser.Store.Kept.{check-Kept}
use aegis_private_browser.Store.Sound.{Whole, IsSound, RoundTrips}

module _ (out : Outside) where
  module _ (round_trips : RoundTrips out) where
    -- What is read is what was written.
    abbrev pub Mine : ℕ → Profile → Disk → Type 0
    Mine id p d = IsSound out d × (p.id ≡ id) × (validate p.spec ≡ ok tt)

    unfoldable Read : ℕ → Option Bytes → Disk → Type 0
    Read id bytes d = IsSound out d × ((b : Bytes) → bytes ≡ some b → Whole out id (Node.file b))

    contents-Read :
        (id : ℕ) (node : Option Node)
        → Triple
            (λ d. IsSound out d × (node_at id meta_file d ≡ node))
            (lift (contents out node))
            (Read id)
            (λ _. IsSound out)
    unfolding lift Read
    contents-Read id none = record { at = λ d h. (h.0, λ b e. absurd (ground (arith, e))) }
    contents-Read id (some (Node.file c)) = record {
      at = λ d h. (
        h.0,
        λ b e.
            subst (λ x. Whole out id (Node.file x)) (ground (arith, e)) (h.0 id (Node.file c) h.1),
      );
    }
    contents-Read id (some (Node.folder es)) = record { at = λ d h. h.0 }
    contents-Read id (some Node.other) = record { at = λ d h. h.0 }

    read-Read : (id : ℕ) → Triple (IsSound out) (read out id meta_file) (Read id) (λ _. IsSound out)
    unfolding read
    read-Read id =
        Triple-bind {Q = λ node d. IsSound out d × (node_at id meta_file d ≡ node)} _ _
          (Triple-bind {Q = λ _. IsSound out} _ _
            (check-Kept out (λ c d h. h) (Call.reads id meta_file))
            λ _. Triple-gets _ λ d h. (h, refl))
          λ node. contents-Read id node

    decoded :
        (id : ℕ) (b : Bytes)
        → Whole out id (Node.file b)
        → Triple (IsSound out) (lift (or_corrupt (out.decode b))) (Mine id) (λ _. IsSound out)
    unfolding lift
    decoded id b w = case (out.decode b) refl
      where
        same : b ≡ w.bytes
        same = ground (arith, w.is_file)

        case :
            (o : Option Profile)
            → out.decode b ≡ o
            → Triple (IsSound out) (lift (or_corrupt o)) (Mine id) (λ _. IsSound out)
        case none e = record { at = λ d h. h }
        case (some q) e =
            let back = round_trips w.profile q b (w.encoded ∙ ap (λ c. ok c) (sym same)) e in
            record { at = λ d h. (h, back.0 ∙ w.own_id, back.1 w.valid) }

    pub read_meta-Mine :
        (id : ℕ) → Triple (IsSound out) (read_meta out id) (Mine id) (λ _. IsSound out)
    unfolding read_meta Read lift
    read_meta-Mine id = Triple-bind _ _ (read-Read id) λ bytes.
        Triple-bind {Q = λ b d. IsSound out d × Whole out id (Node.file b)} _ _ (present bytes)
          λ b. record { at = λ d h. (decoded id b h.1).at d h.0 }
      where
        present :
            (bytes : Option Bytes)
            → Triple
                (Read id bytes)
                (lift (or_not_found bytes))
                (λ b d. IsSound out d × Whole out id (Node.file b))
                (λ _. IsSound out)
        present none = record { at = λ d h. h.0 }
        present (some b) = record { at = λ d h. (h.0, h.1 b refl) }
