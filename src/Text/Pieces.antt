-- ===== src/Text/Pieces.antt =====
-- strings.Fields, and strings.Split at a separator of several characters.
pub mod Bare
use Prim.Native.String
use registration_service.Prelude.{
  ℕ, zero, suc, ◌-◌, ◌+◌, Bool, true, false, ◌&&◌, ◌||◌, List, [], ◌∷◌, String, code, leb, eqb,
  if◌then◌else◌,
}
use registration_service.Text.{◌⧺◌, single, is_empty, has_prefix}

-- unicode.IsSpace
abbrev pub is_space : ℕ → Bool
is_space c =
    (leb 9 c && leb c 13)
    || eqb c 32
    || eqb c 133
    || eqb c 160
    || eqb c 5760
    || (leb 8192 c && leb c 8202)
    || eqb c 8232
    || eqb c 8233
    || eqb c 8239
    || eqb c 8287
    || eqb c 12288

-- A field that is not empty, in front of others.
abbrev pub add_field : String → List String → List String
add_field cur fs = if is_empty cur then fs else cur ∷ fs

unfoldable pub fields_from : String → String → List String
fields_from cur String.[] = add_field cur []
fields_from cur (String.◌∷◌ c s) =
    let closed = add_field cur (fields_from "" s) in
    let longer = fields_from (cur ⧺ single c) s in if is_space (code c) then closed else longer

-- strings.Fields(s)
unfoldable pub fields : String → List String
unfolding fields_from
fields s = fields_from "" s

unfoldable pub text_length : String → ℕ
text_length String.[] = 0
text_length (String.◌∷◌ c s) = suc (text_length s)

-- The pieces, `skip` characters of a separator being still to pass over.
unfoldable pub pieces : String → ℕ → String → String → List String
unfolding has_prefix text_length
pieces sep skip cur String.[] = cur ∷ []
pieces sep (suc n) cur (String.◌∷◌ c s) = pieces sep n cur s
pieces sep zero cur (String.◌∷◌ c s) =
    let closed = cur ∷ pieces sep (text_length sep - 1) "" s in
    let longer = pieces sep zero (cur ⧺ single c) s in
    if has_prefix (String.◌∷◌ c s) sep then closed else longer

-- strings.Split(s, sep), for a separator that is not empty.
unfoldable pub split_text : String → String → List String
unfolding pieces
split_text sep s = pieces sep 0 "" s
