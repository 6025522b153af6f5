-- ===== src/Store/Sound.antt =====
-- The metadata files of the store, over sequences of its operations.
use aegis_private_browser.Prelude.{
  ◌≡◌, refl, sym, ap, ◌∙◌, subst, ℕ, ◌==◌, Bool, true, false, Option, none, some, String, lookup,
  Result, ok, err, nat_eq, string_eq, beq_refl, if◌then◌else◌, str_eq, lookup-insert, arith,
}
use aegis_private_browser.Prelude.Exec.{attempt, ◌>>=◌}
use aegis_private_browser.Prelude.Exec.Triple.{
  Triple, Keeps, Triple-bind, Triple-gets, Triple-lift, Triple-raise, Triple-weaken, Triple-both,
  Triple-attempt,
}
use aegis_private_browser.Core.Error.{Error}
use aegis_private_browser.Core.Profile.{Profile, validate}
use aegis_private_browser.Store.Tree.{Bytes, Node, Entries, place, find-place}
use aegis_private_browser.Store.Disk.{
  Disk, Outside, node_at, find_in, put, unlink, changed, change, write, rename, moved,
}
use aegis_private_browser.Store.Profiles.{meta_file, temp_path, write_meta, renamed}
use aegis_private_browser.Store.Changes.{node_at-put, node_at-unlink, node_at-make}
use aegis_private_browser.Store.Writes.{write_lem}
use aegis_private_browser.Store.Kept.{pure-Kept, raise-Kept, ignore-Kept, bind-Kept, check-Kept}
use aegis_private_browser.Store.Written.{Apart, write-Kept, remove_file-Kept, make_dir-Kept}
use aegis_private_browser.Store.Held.{temp_path-differs}

module _ (out : Outside) where
  -- A whole metadata file: the text of a profile with the directory's identifier and a valid spec.
  pub record Whole (id : ℕ) (node : Node) : Type 0 where
    pub profile : Profile
    pub bytes : Bytes
    pub is_file : node ≡ Node.file bytes
    pub encoded : out.encode profile ≡ ok bytes
    pub own_id : profile.id ≡ id
    pub valid : validate profile.spec ≡ ok tt

  abbrev pub IsSound : Disk → Type 0
  IsSound d = (id : ℕ) (node : Node) → node_at id meta_file d ≡ some node → Whole id node

  -- Any other name.
  abbrev pub IsFree : String → Type 0
  IsFree name = str_eq name meta_file ≡ false

  pub sound : (i : ℕ) → Apart IsSound i IsFree
  sound i = record {
    noted = λ c d h. h;
    put_free = λ name node d free h id old e.
        h id old (sym (node_at-put i id meta_file d name node λ _. free) ∙ e);
    unlink_free = λ name d free h id old e.
        h id old (sym (node_at-unlink i id meta_file d name λ _. free) ∙ e);
    made_dir = λ d h id old e. h id old (sym (node_at-make i id meta_file d) ∙ e);
  }

  temp_path-IsFree : (name : String) → IsFree (temp_path name)
  temp_path-IsFree name = temp_path-differs name meta_file λ e. omega (arith, e)

  -- serde_json reads back the identifier that it wrote, and a valid spec as a valid one.
  abbrev pub RoundTrips : Type 0
  RoundTrips =
      (p q : Profile) (b : Bytes)
      → out.encode p ≡ ok b
      → out.decode b ≡ some q
      → (q.id ≡ p.id) × (validate p.spec ≡ ok tt → validate q.spec ≡ ok tt)

  module _ (id : ℕ) (node : Node) (whole : Whole id node) (d : Disk) (h : IsSound d) where
    new_or_old :
        (es : Entries) (i : ℕ) (old : Node) (b : Bool)
        → (id == i) ≡ b
        → find_in meta_file (if b then some (place meta_file node es) else lookup i d.profiles)
          ≡ some old
        → Whole i old
    new_or_old es i old false e seen = h i old seen
    new_or_old es i old true e seen =
        subst (λ n. Whole i n) same (subst (λ k. Whole k node) ((nat_eq.beq_iff id i).0 e) whole)
      where
        same : node ≡ old
        same = ground (arith, seen, find-place meta_file meta_file node es, beq_refl meta_file)

    stored : (dir : Option Entries) → IsSound (changed (place meta_file node) id dir d)
    stored none = h
    stored (some es) = λ i old seen. new_or_old es i old (id == i) refl (
        sym (ap (find_in meta_file) (lookup-insert id i (place meta_file node es) d.profiles))
        ∙ seen)

    put_meta-IsSound : IsSound (put id meta_file node d)
    put_meta-IsSound = stored (lookup id d.profiles)

  -- Renaming a whole file to the metadata's name.
  rename-IsSound :
      (id : ℕ) (name : String) (b : Bytes)
      → Whole id (Node.file b)
      → Triple
          (λ d. IsSound d × (node_at id (temp_path name) d ≡ some (Node.file b)))
          (rename out id (temp_path name) meta_file)
          (λ _. IsSound)
          (λ _. IsSound)
  unfolding rename change
  rename-IsSound id name b whole =
      Triple-bind {Q = λ _ d. IsSound d × (node_at id (temp_path name) d ≡ some (Node.file b))} _ _
        (Triple-weaken _
          (check-Kept out
            {K = λ d. IsSound d × (node_at id (temp_path name) d ≡ some (Node.file b))} (λ c d h. h)
            _)
          (λ d h. h) (λ a d h. h) λ e d h. h.0)
        λ _.
          Triple-bind {Q = λ node d. IsSound d × (node ≡ some (Node.file b))} _ _
            (Triple-gets _ λ d h. h)
            λ node.
              Triple-bind {Q = λ _ d. IsSound d × (node ≡ some (Node.file b))} _ _
                (Triple-gets _ λ d h. h) λ target. either node target
    where
      placed :
          (node : Node)
          → Triple
              (λ d. IsSound d × (some node ≡ some (Node.file b)))
              (change (λ d. put id meta_file node (unlink id (temp_path name) d)))
              (λ _. IsSound)
              (λ _. IsSound)
      placed node = record {
        at = λ d h.
            put_meta-IsSound id node (subst (Whole id) (sym (ground (arith, h.1))) whole)
              (unlink id (temp_path name) d)
              ((sound id).unlink_free (temp_path name) d (temp_path-IsFree name) h.0);
      }

      either :
          (node target : Option Node)
          → Triple
              (λ d. IsSound d × (node ≡ some (Node.file b)))
              (moved out id (temp_path name) meta_file node target)
              (λ _. IsSound)
              (λ _. IsSound)
      either none target = Triple-raise _ λ d h. h.0
      either (some node) none = placed node
      either (some node) (some (Node.file b)) = placed node
      either (some node) (some (Node.folder es)) = Triple-raise _ λ d h. h.0
      either (some node) (some Node.other) = placed node

  pub write_meta-IsSound :
      (p : Profile) → validate p.spec ≡ ok tt → Keeps IsSound (write_meta out p)
  unfolding write_meta
  write_meta-IsSound p valid = bind-Kept _ _ (make_dir-Kept out (sound p.id)) λ _.
      Triple-bind {Q = λ json d. IsSound d × (out.encode p ≡ ok json)} _ _
        (Triple-lift _ (λ json e d h. (h, e)) λ x e d h. h)
        λ json.
          Triple-bind {Q = λ name d. IsSound d × (out.encode p ≡ ok json)} _ _
            (Triple-gets _ λ d h. h) λ name. record { at = λ d h. (written name json h.1).at d h.0 }
    where
      cleaned :
          (name : String) (r : Result (Unit {0}) Error)
          → Keeps IsSound (renamed out p.id (temp_path name) r)
      cleaned name (ok _) = pure-Kept tt
      cleaned name (err e) =
          bind-Kept _ _ (ignore-Kept _ (remove_file-Kept out (sound p.id) (temp_path-IsFree name)))
            λ _. raise-Kept e

      put_temp :
          (name : String) (json : Bytes)
          → Triple IsSound
              (write out p.id (temp_path name) json)
              (λ _ d. IsSound d × (node_at p.id (temp_path name) d ≡ some (Node.file json)))
              (λ _. IsSound)
      put_temp name json =
          Triple-weaken _
            (Triple-both _ (write-Kept out (sound p.id) json (temp_path-IsFree name))
              (write_lem out p.id (temp_path name) json))
            (λ d h. (h, tt)) (λ a d h. h) λ e d h. h.0

      written :
          (name : String) (json : Bytes)
          → out.encode p ≡ ok json
          → Keeps IsSound (
              write out p.id (temp_path name) json >>= λ _.
              (attempt (rename out p.id (temp_path name) meta_file)
                >>= renamed out p.id (temp_path name)))
      written name json e = Triple-bind _ _ (put_temp name json) λ _.
          Triple-bind {Q = λ _. IsSound} _ _
            (Triple-attempt {Q = λ _. IsSound} _ (
              rename-IsSound p.id name json (record {
                profile = p;
                bytes = json;
                is_file = refl;
                encoded = e;
                own_id = refl;
                valid = valid;
              })))
            (cleaned name)
