-- ===== src/Text/Fold.antt =====
-- Comparisons with strings.ToLower of a text.
use registration_service.Prelude.{ℕ, ◌+◌, Bool, true, false, ◌&&◌, ◌||◌, String, code, leb, eqb}

-- Is `c`, of lower case, the lower case of the character `d`? Beyond ASCII, those of the capital i
-- with a dot and of the Kelvin sign are letters of ASCII.
abbrev pub is_letter : ℕ → ℕ → Bool
is_letter c d =
    eqb c d
    || (leb b'a' c && leb c b'z' && eqb c (d + 32))
    || (eqb c b'i' && eqb d 304)
    || (eqb c b'k' && eqb d 8490)

-- strings.ToLower(s) == t, for a `t` of ASCII in lower case
unfoldable pub equals_lower : String → String → Bool
equals_lower String.[] String.[] = true
equals_lower String.[] (String.◌∷◌ c t) = false
equals_lower (String.◌∷◌ d s) String.[] = false
equals_lower (String.◌∷◌ d s) (String.◌∷◌ c t) = is_letter (code c) (code d) && equals_lower s t
