-- ===== src/Store/Writes.antt =====
-- What a write that returns has done.
use aegis_private_browser.Prelude.{
  ◌≡◌, refl, ℕ, Bool, true, false, Option, none, some, String, lookup, nat_eq, arith,
}
use aegis_private_browser.Prelude.Exec.Triple.{
  Triple, Triple-bind, Triple-gets, Triple-raise, Triple-any,
}
use aegis_private_browser.Core.Error.{Error}
use aegis_private_browser.Store.Tree.{Bytes, Node, Entries}
use aegis_private_browser.Store.Disk.{Outside, node_at, change, write, written, writable}
use aegis_private_browser.Store.Changes.{node_at-put_same}
use aegis_private_browser.Store.Kept.{ask-Kept}

module _ (out : Outside) where
  -- A write that returns has put the bytes there.
  pub write_lem :
      (id : ℕ) (name : String) (b : Bytes)
      → Triple
          (λ _. Unit {0})
          (write out id name b)
          (λ _ d. node_at id name d ≡ some (Node.file b))
          (λ _ _. Unit {0})
  unfolding write change
  write_lem id name b = Triple-bind {Q = λ _ _. Unit} _ _ (ask-Kept out (λ c d h. h) _) λ refused.
      Triple-bind
        {Q = λ possible d. possible ≡ true → (es : Entries) × (lookup id d.profiles ≡ some es)} _ _
        (Triple-gets _ λ d h e. there (lookup id d.profiles) (node_at id name d) e)
        λ possible. either possible refused
    where
      there :
          (dir : Option Entries) (old : Option Node)
          → writable out dir old ≡ true
          → (es : Entries) × (dir ≡ some es)
      there none old e = absurd (ground (arith, e))
      there (some es) old e = (es, refl)

      either :
          (possible refused : Bool)
          → Triple
              (λ d. possible ≡ true → (es : Entries) × (lookup id d.profiles ≡ some es))
              (written out id name b possible refused)
              (λ _ d. node_at id name d ≡ some (Node.file b))
              (λ _ _. Unit {0})
      either false refused = Triple-raise _ λ d h. tt
      either true true =
          Triple-bind {Q = λ _ _. Unit} _ _ (Triple-gets (λ d. out.torn d.calls) λ d h. tt) λ torn.
            Triple-bind {Q = λ _ _. Unit} _ _ (Triple-any _)
              λ _. Triple-raise Error.system λ d h. tt
      either true false = record {
        at = λ d h. node_at-put_same id name (Node.file b) (h refl).0 d (h refl).1;
      }
