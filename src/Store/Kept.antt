-- ===== src/Store/Kept.antt =====
-- What the store's calls keep, for whatever depends on some names of a directory only.
use aegis_private_browser.Prelude.{
  ℕ, Bool, true, false, Option, none, some, List, [], ◌∷◌, String, Result, if◌then◌else◌, nat_eq,
  length, ◌+◌, zero, suc,
}
use aegis_private_browser.Prelude.Exec.{pure, raise, lift, gets, ignore, attempt, ◌>>=◌}
use aegis_private_browser.Prelude.Exec.Triple.{
  Keeps, Triple-pure, Triple-raise, Triple-lift, Triple-gets, Triple-ignore, Triple-attempt,
  Triple-bind,
}
use aegis_private_browser.Core.Error.{Error}
use aegis_private_browser.Store.Tree.{Node, Entries, folders_in}
use aegis_private_browser.Store.Tree.Entries.{vacant, entry}
use aegis_private_browser.Store.Disk.{
  Call, Disk, Outside, Action, note, ask, check, stat_dir, stat, read,
}
use aegis_private_browser.Store.Size.{saturated, scan, walk, size_of, dir_size}
use aegis_private_browser.Store.Profiles.{
  get, list, load_all, listed, read_meta, is_locked, load_refreshed,
}

module _ {K : Disk → Type 0} where
  pub gets-Kept : {A : Type 0} (f : Disk → A) → Keeps {E = Error} K (gets f)
  gets-Kept f = Triple-gets f λ d h. h

  pub lift-Kept : {A : Type 0} (r : Result A Error) → Keeps K (lift r)
  lift-Kept r = Triple-lift r (λ a e d h. h) (λ x e d h. h)

  pub pure-Kept : {A : Type 0} (a : A) → Keeps {E = Error} K (pure a)
  pure-Kept a = Triple-pure a λ d h. h

  pub raise-Kept : {A : Type 0} (e : Error) → Keeps {A = A} K (raise e)
  raise-Kept e = Triple-raise e λ d h. h

  pub attempt-Kept : {A : Type 0} (m : Action A) → Keeps K m → Keeps {E = Error} K (attempt m)
  attempt-Kept m k = Triple-attempt {Q = λ _. K} m k

  pub ignore-Kept : {A : Type 0} (m : Action A) → Keeps K m → Keeps {E = Error} K (ignore m)
  ignore-Kept m k = Triple-ignore {Q = K} m k

  pub bind-Kept :
      {A B : Type 0} (m : Action A) (f : A → Action B)
      → Keeps K m
      → ((a : A) → Keeps K (f a))
      → Keeps K (m >>= f)
  bind-Kept m f k l = Triple-bind {Q = λ _. K} m f k l

  pub when-Kept : (b : Bool) (e : Error) → Keeps K (if b then pure tt else raise e)
  when-Kept true e = pure-Kept tt
  when-Kept false e = raise-Kept e

  pub unless-Kept : (b : Bool) (e : Error) → Keeps K (if b then raise e else pure tt)
  unless-Kept true e = raise-Kept e
  unless-Kept false e = pure-Kept tt

module _ (out : Outside) {K : Disk → Type 0}
    (noted : (c : Call) (d : Disk) → K d → K (note c d)) where
  pub ask-Kept : (c : Call) → Keeps K (ask out c)
  unfolding ask
  ask-Kept c = record { at = λ d h. noted c d h }

  pub check-Kept : (c : Call) → Keeps K (check out c)
  unfolding check
  check-Kept c = bind-Kept _ _ (ask-Kept c) λ refused. lift-Kept _

  pub stat_dir-Kept : (id : ℕ) → Keeps K (stat_dir out id)
  unfolding stat_dir
  stat_dir-Kept id = bind-Kept _ _ (check-Kept _) λ _. gets-Kept _

  pub stat-Kept : (id : ℕ) (name : String) → Keeps K (stat out id name)
  unfolding stat
  stat-Kept id name = bind-Kept _ _ (check-Kept _) λ _. gets-Kept _

  pub read-Kept : (id : ℕ) (name : String) → Keeps K (read out id name)
  unfolding read
  read-Kept id name =
      bind-Kept _ _ (bind-Kept _ _ (check-Kept _) λ _. gets-Kept _) λ found. lift-Kept _

  scan-Kept : (es : Entries) (total : ℕ) (stack : List Entries) → Keeps K (scan out es total stack)
  unfolding scan
  scan-Kept vacant total stack = bind-Kept _ _ (check-Kept _) λ _. pure-Kept _
  scan-Kept (entry name (Node.folder es) more) total stack =
      bind-Kept _ _ (check-Kept _) λ _. scan-Kept more total (es ∷ stack)
  scan-Kept (entry name (Node.file b) more) total stack =
      bind-Kept _ _ (bind-Kept _ _ (check-Kept _) λ _. check-Kept _)
        λ _. scan-Kept more (saturated (total + length b)) stack
  scan-Kept (entry name Node.other more) total stack =
      bind-Kept _ _ (check-Kept _) λ _. scan-Kept more total stack

  walk-Kept : (fuel total : ℕ) (stack : List Entries) → Keeps K (walk out fuel total stack)
  unfolding walk
  walk-Kept fuel total [] = pure-Kept total
  walk-Kept zero total (es ∷ stack) = raise-Kept _
  walk-Kept (suc fuel) total (es ∷ stack) =
      bind-Kept _ _ (bind-Kept _ _ (check-Kept _) λ _. scan-Kept es total stack)
        λ r. walk-Kept fuel r.0 r.1

  size_of-Kept : (found : Option Entries) → Keeps K (size_of out found)
  size_of-Kept none = bind-Kept _ _ (check-Kept _) λ _. pure-Kept 0
  size_of-Kept (some es) = walk-Kept (suc (folders_in es)) 0 (es ∷ [])

  pub read_meta-Kept : (id : ℕ) → Keeps K (read_meta out id)
  unfolding read_meta
  read_meta-Kept id =
      bind-Kept _ _ (read-Kept _ _) λ bytes. bind-Kept _ _ (lift-Kept _) λ b. lift-Kept _

  pub load_refreshed-Kept : (id : ℕ) → Keeps K (load_refreshed out id)
  unfolding load_refreshed dir_size is_locked
  load_refreshed-Kept id = bind-Kept _ _ (read_meta-Kept id) λ p.
      bind-Kept _ _ (bind-Kept _ _ (gets-Kept _) size_of-Kept)
        λ storage. bind-Kept _ _ (stat-Kept _ _) λ locked. pure-Kept _

  load_all-Kept : (dirs : List (ℕ × Entries)) → Keeps K (load_all out dirs)
  unfolding load_all
  load_all-Kept [] = pure-Kept _
  load_all-Kept ((id, es) ∷ more) = bind-Kept _ _ (check-Kept Call.visits) λ _.
      bind-Kept _ _ (attempt-Kept _ (load_refreshed-Kept id)) λ p.
        bind-Kept _ _ (lift-Kept (listed out p []))
          λ _. bind-Kept _ _ (load_all-Kept more) λ rest. lift-Kept _

  pub list-Kept : Keeps K (list out)
  unfolding list
  list-Kept = bind-Kept _ _ (check-Kept Call.reads_root) λ _. bind-Kept _ _ (gets-Kept _) λ dirs.
      bind-Kept _ _ (load_all-Kept dirs)
        λ profiles. bind-Kept _ _ (check-Kept Call.visits) λ _. pure-Kept _

  pub get-Kept : (id : ℕ) → Keeps K (get out id)
  unfolding get
  get-Kept id = load_refreshed-Kept id
