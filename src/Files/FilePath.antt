-- ===== src/Files/FilePath.antt =====
-- `std::path::Path` on Unix, by its components: `..` stands in `parts` as a text of its own, and `.`
-- only at the start of a relative path, as `Path::components` has it.
use Prim.Native.Char.{code}
use aegis_private_browser.Prelude.{
  ◌≡◌, ◌↔◌, refl, ◌==◌, Bool, true, false, not, ◌&&◌, ◌||◌, Option, none, some, List, [], ◌∷◌, ◌++◌,
  String, str_eq, eq_iff, Eq, if◌then◌else◌, arith,
}
use aegis_private_browser.Prelude.Text.{is_empty}

pub record FilePath : Type 0 where
  pub absolute : Bool
  pub parts : List String

-- `str::split('/')`
unfoldable pub split_slash : String → List String
split_slash String.[] = "" ∷ []
split_slash (String.◌∷◌ c s) =
    let rest = split_slash s in
    if code c == b'/'
    then "" ∷ rest
    else elim rest [ [] ↦ [] | first ∷ more ↦ String.◌∷◌ c first ∷ more ]

-- Empty components and `.` are dropped.
unfoldable pub named : List String → List String
named [] = []
named (s ∷ more) = let rest = named more in if is_empty s || str_eq s "." then rest else s ∷ rest

abbrev starts_with_dot : List String → Bool
starts_with_dot [] = false
starts_with_dot (s ∷ _) = str_eq s "."

abbrev starts_with_slash : String → Bool
starts_with_slash String.[] = false
starts_with_slash (String.◌∷◌ c _) = code c == b'/'

-- `Path::new`
unfoldable pub path : String → FilePath
unfolding split_slash named
path s = record {
  absolute = starts_with_slash s;
  parts =
      if starts_with_dot (split_slash s)
      then "." ∷ named (split_slash s)
      else named (split_slash s);
}

abbrev pub is_parent_dir : String → Bool
is_parent_dir s = str_eq s ".."

abbrev pub without_dot : List String → List String
without_dot [] = []
without_dot (s ∷ more) = if str_eq s "." then more else s ∷ more

abbrev pub is_nil : List String → Bool
is_nil [] = true
is_nil (_ ∷ _) = false

-- `Path::join`
unfoldable pub join : FilePath → FilePath → FilePath
join a b =
    if b.absolute || (not a.absolute && is_nil a.parts)
    then b
    else record a { parts = a.parts ++ without_dot b.parts }

unfoldable pub last : List String → Option String
last [] = none
last (s ∷ []) = some s
last (s ∷ t ∷ more) = last (t ∷ more)

unfoldable pub front : List String → List String
front [] = []
front (s ∷ []) = []
front (s ∷ t ∷ more) = s ∷ front (t ∷ more)

abbrev normal : Option String → Option String
normal none = none
normal (some s) = if str_eq s "." || is_parent_dir s then none else some s

-- `Path::file_name`
unfoldable pub file_name : FilePath → Option String
unfolding last
file_name p = normal (last p.parts)

-- `Path::parent`
unfoldable pub parent : FilePath → Option FilePath
unfolding front
parent p = elim p.parts [ [] ↦ none | s ∷ more ↦ some (record p { parts = front (s ∷ more) }) ]

abbrev pub or_empty : Option String → String
or_empty none = ""
or_empty (some s) = s

abbrev kept : Option String → List String → List String
kept none parts = parts
kept (some _) parts = front parts

-- `Path::with_file_name` with a single name
unfoldable pub with_file_name : FilePath → String → FilePath
unfolding file_name front
with_file_name p name = record p { parts = kept (file_name p) p.parts ++ (name ∷ []) }

unfoldable pub same_parts : List String → List String → Bool
same_parts [] [] = true
same_parts [] (_ ∷ _) = false
same_parts (_ ∷ _) [] = false
same_parts (s ∷ a) (t ∷ b) = str_eq s t && same_parts a b

abbrev same_bool : Bool → Bool → Bool
same_bool true b = b
same_bool false b = not b

same_parts_iff : (a b : List String) → (same_parts a b ≡ true) ↔ (a ≡ b)
unfolding same_parts
same_parts_iff [] [] = ground arith
same_parts_iff [] (_ ∷ _) = ground arith
same_parts_iff (_ ∷ _) [] = ground arith
same_parts_iff (s ∷ a) (t ∷ b) = ground (arith, eq_iff s t, same_parts_iff a b)

unfoldable pub same_path : FilePath → FilePath → Bool
unfolding same_parts
same_path p q = same_bool p.absolute q.absolute && same_parts p.parts q.parts

same_bool_iff : (a b : Bool) → (same_bool a b ≡ true) ↔ (a ≡ b)
same_bool_iff true true = ground arith
same_bool_iff true false = ground arith
same_bool_iff false true = ground arith
same_bool_iff false false = ground arith

pub same_path_iff : (p q : FilePath) → (same_path p q ≡ true) ↔ (p ≡ q)
unfolding same_path
same_path_iff p q =
    ground (arith, same_parts_iff p.parts q.parts, same_bool_iff p.absolute q.absolute)

instance unfoldable pub path_eq : Eq FilePath
unfolding same_path
path_eq = record { beq = same_path; beq_iff = same_path_iff }

path_tests :
    (path "/a//b/./c/" ≡ record { absolute = true; parts = "a" ∷ "b" ∷ "c" ∷ [] })
    × (path "./../x" ≡ record { absolute = false; parts = "." ∷ ".." ∷ "x" ∷ [] })
    × (path "" ≡ record { absolute = false; parts = [] })
    × (file_name (path "a/b.img") ≡ some "b.img")
    × (file_name (path "a/..") ≡ none)
    × (with_file_name (path "a/b") "c" ≡ path "a/c")
    × (join (path "/x") (path "./y/z") ≡ path "/x/y/z")
    × (join (path "/x") (path "/y") ≡ path "/y")
unfolding path file_name with_file_name join
path_tests = (refl, refl, refl, refl, refl, refl, refl, refl)
