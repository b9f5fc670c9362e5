-- ===== src/Text/Sort.antt =====
-- sort.Strings, in the byte order of Go's strings, which is the order of their code points.
pub mod Least
use Prim.Native.String
use registration_service.Prelude.{
  Bool, true, false, List, [], ◌∷◌, String, code, ltb, eqb, if◌then◌else◌,
}

-- s <= t
unfoldable pub le_text : String → String → Bool
le_text String.[] t = true
le_text (String.◌∷◌ c s) String.[] = false
le_text (String.◌∷◌ c s) (String.◌∷◌ d t) =
    let rest = le_text s t in
    if ltb (code c) (code d) then true else if eqb (code c) (code d) then rest else false

unfoldable pub insert_text : String → List String → List String
unfolding le_text
insert_text s [] = s ∷ []
insert_text s (t ∷ ts) = let rest = insert_text s ts in if le_text s t then s ∷ t ∷ ts else t ∷ rest

unfoldable pub sort : List String → List String
unfolding insert_text
sort [] = []
sort (s ∷ ss) = insert_text s (sort ss)
