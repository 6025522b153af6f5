-- ===== src/Vm/Xml/Tags.antt =====
-- The tags of a text, and how they are put together from those of its pieces.
use Prim.Native.Char.{Char, code}
use text.Mathlib.TextLemmas.{nil-append, cons-append}
use aegis_private_browser.Prelude.{
  ◌≡◌, refl, ap, ◌∙◌, ℕ, ◌==◌, Bool, true, false, not, ◌&&◌, ◌||◌, List, [], ◌∷◌, ◌++◌, String, All,
  if◌then◌else◌, arith,
}
use aegis_private_browser.Prelude.Text.{◌+s◌, every, every-append}
use aegis_private_browser.Vm.Xml.{entity, xml_escape, concat}

abbrev ends : ℕ → Bool
ends c = (c == b' ') || (c == b'>')

-- What stands after a `<`, up to a blank or a `>`.
unfoldable pub tag_name : String → String
tag_name String.[] = String.[]
tag_name (String.◌∷◌ c s) = let rest = tag_name s in if ends (code c) then "" else String.◌∷◌ c rest

-- The names of the tags in their order, an end tag with its `/`.
unfoldable pub tags : String → List String
unfolding tag_name
tags String.[] = []
tags (String.◌∷◌ c s) = let rest = tags s in if code c == b'<' then tag_name s ∷ rest else rest

has_end : String → Bool
has_end String.[] = false
has_end (String.◌∷◌ c s) = ends (code c) || has_end s

-- Every tag's name ends inside the text.
unfoldable pub closed : String → Bool
unfolding has_end
closed String.[] = true
closed (String.◌∷◌ c s) = (not (code c == b'<') || has_end s) && closed s

tag_name-append : (s t : String) → has_end s ≡ true → tag_name (s +s t) ≡ tag_name s
unfolding tag_name has_end
tag_name-append String.[] t h = cc
tag_name-append (String.◌∷◌ c s) t h = ground (arith, cons-append c s t, tag_name-append s t)

tags-append : (s t : String) → closed s ≡ true → tags (s +s t) ≡ tags s ++ tags t
unfolding tags closed
tags-append String.[] t h = ap tags (nil-append t)
tags-append (String.◌∷◌ c s) t h =
    ground (arith, cons-append c s t, tags-append s t, tag_name-append s t)

abbrev pub all_tags : List String → List String
all_tags [] = []
all_tags (s ∷ more) = tags s ++ all_tags more

pub tags-concat : (l : List String) → All (λ s. closed s ≡ true) l → tags (concat l) ≡ all_tags l
unfolding concat tags
tags-concat [] h = refl
tags-concat (s ∷ more) h =
    tags-append s (concat more) h.0 ∙ ap (λ r. tags s ++ r) (tags-concat more h.1)

abbrev pub is_plain : ℕ → Bool
is_plain c = not (c == b'<')

pub closed-plain : (s : String) → every is_plain s ≡ true → closed s ≡ true
unfolding closed
closed-plain String.[] h = refl
closed-plain (String.◌∷◌ c s) h = ground (arith, closed-plain s)

pub tags-plain : (s : String) → every is_plain s ≡ true → tags s ≡ []
unfolding tags
tags-plain String.[] h = refl
tags-plain (String.◌∷◌ c s) h = ground (arith, tags-plain s)

every-if :
    (p : ℕ → Bool) (b : Bool) (s t : String)
    → every p (if b then s else t) ≡ (if b then every p s else every p t)
every-if p true s t = refl
every-if p false s t = refl

entity-plain : (c : Char) → every is_plain (entity c) ≡ true
entity-plain c = simp every-if (ground arith)

-- What is escaped opens no tag.
pub xml_escape-plain : (s : String) → every is_plain (xml_escape s) ≡ true
unfolding xml_escape
xml_escape-plain String.[] = refl
xml_escape-plain (String.◌∷◌ c s) =
    ground
      (arith, every-append is_plain (entity c) (xml_escape s), entity-plain c, xml_escape-plain s)
