-- ===== src/Store/Held.antt =====
-- The lock of a profile, over sequences of the store's operations.
use Prim.Native.Char.{code, char}
use text.Mathlib.TextLemmas.{cons-append}
use aegis_private_browser.Prelude.Text.{◌+s◌}
use aegis_private_browser.Prelude.{
  ◌≡◌, ◌≢◌, refl, sym, ap, ◌∙◌, ℕ, Bool, true, false, some, String, nat_eq, str_eq, eq_iff, arith,
}
use aegis_private_browser.Prelude.Exec.Triple.{Keeps}
use aegis_private_browser.Core.Profile.{Profile, ProfileSpec, ProfilePatch, is_empty}
use aegis_private_browser.Store.Tree.{Bytes, Node}
use aegis_private_browser.Store.Disk.{Disk, Outside, node_at}
use aegis_private_browser.Store.Profiles.{
  lock_file, temp_path, write_meta, write_patched, create, create_valid, update, touch_launch,
}
use aegis_private_browser.Store.Changes.{node_at-put, node_at-unlink, node_at-make}
use aegis_private_browser.Store.Written.{Apart, make_folder-Kept, write_meta-Kept}
use aegis_private_browser.Store.Kept.{
  gets-Kept, lift-Kept, pure-Kept, attempt-Kept, bind-Kept, unless-Kept, stat_dir-Kept,
  read_meta-Kept, load_refreshed-Kept,
}

-- The lock file has the token's bytes.
abbrev pub Held : ℕ → Bytes → Disk → Type 0
Held id token d = node_at id lock_file d ≡ some (Node.file token)

-- A name other than the lock's.
abbrev pub IsFree : String → Type 0
IsFree name = str_eq name lock_file ≡ false

pub Held-Apart : (id : ℕ) (token : Bytes) (i : ℕ) → Apart (Held id token) i IsFree
Held-Apart id token i = record {
  noted = λ c d h. h;
  put_free = λ name node d free h. node_at-put i id lock_file d name node (λ _. free) ∙ h;
  unlink_free = λ name d free h. node_at-unlink i id lock_file d name (λ _. free) ∙ h;
  made_dir = λ d h. node_at-make i id lock_file d ∙ h;
}

abbrev first : String → ℕ
first String.[] = 0
first (String.◌∷◌ c s) = code c

-- A temporary name starts with a dot.
pub temp_path-differs : (name key : String) → first key ≢ 46 → str_eq (temp_path name) key ≡ false
temp_path-differs name key h = ground (arith, eq_iff (temp_path name) key, different)
  where
    different : temp_path name ≢ key
    different e = h (sym (ap first e) ∙ ap first (cons-append (char 46 tt) "" (name +s ".tmp")))

module _ (out : Outside) (id : ℕ) (token : Bytes) where
  temp_path-IsFree : (name : String) → IsFree (temp_path name)
  temp_path-IsFree name = temp_path-differs name lock_file λ e. omega (arith, e)

  locked : (i : ℕ) → Apart (Held id token) i IsFree
  locked = Held-Apart id token

  written-Held : (p : Profile) → Keeps (Held id token) (write_meta out p)
  written-Held p = write_meta-Kept out (locked p.id) p refl temp_path-IsFree refl

  pub create-Held : (spec : ProfileSpec) → Keeps (Held id token) (create out spec)
  unfolding create create_valid
  create-Held spec = bind-Kept _ _ (lift-Kept _) λ _. bind-Kept _ _ (gets-Kept _) λ i.
      bind-Kept _ _ (attempt-Kept _ (stat_dir-Kept out (locked i).noted i)) λ present.
        bind-Kept _ _ (unless-Kept _ _) λ _.
          bind-Kept _ _ (make_folder-Kept out (locked i) refl) λ _.
            bind-Kept _ _ (gets-Kept _)
              λ p. bind-Kept _ _ (written-Held p) λ _. load_refreshed-Kept out (locked i).noted i

  write_patched-Held :
      (p : Profile) (patch : ProfilePatch) (empty : Bool)
      → Keeps (Held id token) (write_patched out p patch empty)
  write_patched-Held p patch true = pure-Kept tt
  write_patched-Held p patch false =
      bind-Kept _ _ (lift-Kept _) λ spec. written-Held (record p { spec = spec })

  pub update-Held : (i : ℕ) (patch : ProfilePatch) → Keeps (Held id token) (update out i patch)
  unfolding update
  update-Held i patch = bind-Kept _ _ (read_meta-Kept out (locked i).noted i) λ p.
      bind-Kept _ _ (write_patched-Held p patch (is_empty patch))
        λ _. load_refreshed-Kept out (locked i).noted i

  pub touch_launch-Held : (i at : ℕ) → Keeps (Held id token) (touch_launch out i at)
  unfolding touch_launch
  touch_launch-Held i at = bind-Kept _ _ (read_meta-Kept out (locked i).noted i) λ p. written-Held _
