-- ===== src/Text.antt =====
-- Text as the Go source uses it: concatenation, splitting at a separator, prefixes.
-- A Go string is walked by bytes in the source and by code points here: each function below
-- singles out ASCII characters only, and a byte of a longer character is never one of these.
pub mod Decimal
pub mod Sort
pub mod Pieces
pub mod Fold
pub use Decimal.{is_empty}
use Prim.Native.String
use text.Mathlib.TextLemmas.{nil-append, cons-append, append-nil, append_assoc}
use text.Mathlib.TextEquality.{Char-path}
use registration_service.Prelude.{
  ℕ, suc, ◌+◌, ◌-◌, ◌≡◌, refl, sym, ap, ◌∙◌, Bool, true, false, ◌&&◌, ◌⊎◌, inl, inr, Option, none,
  some, List, [], ◌∷◌, Char, code, String, arith, eqb, eqb_iff, leb, if◌then◌else◌, Bool-cases,
}

-- s + t
infixr 65 ◌⧺◌
abbrev pub ◌⧺◌ : String → String → String
s ⧺ t = String.◌++◌ s t

pub nil-⧺ : (s : String) → "" ⧺ s ≡ s
nil-⧺ s = nil-append s

pub ⧺-nil : (s : String) → s ⧺ "" ≡ s
⧺-nil s = append-nil s

pub cons-⧺ : (c : Char) (s t : String) → String.◌∷◌ c s ⧺ t ≡ String.◌∷◌ c (s ⧺ t)
cons-⧺ c s t = cons-append c s t

pub ⧺_assoc : (s t u : String) → (s ⧺ t) ⧺ u ≡ s ⧺ (t ⧺ u)
⧺_assoc s t u = append_assoc s t u

-- The text of one character.
abbrev pub single : Char → String
single c = String.◌∷◌ c String.[]

-- What follows the prefix `p`, if the text starts with it.
unfoldable pub strip_prefix? : String → String → Option String
strip_prefix? String.[] s = some s
strip_prefix? (String.◌∷◌ c p) String.[] = none
strip_prefix? (String.◌∷◌ c p) (String.◌∷◌ d s) =
    let rest = strip_prefix? p s in if eqb (code c) (code d) then rest else none

abbrev rest_or : Option String → String → String
rest_or none s = s
rest_or (some r) s = r

abbrev is_found : Option String → Bool
is_found none = false
is_found (some r) = true

-- strings.HasPrefix(s, p)
unfoldable pub has_prefix : String → String → Bool
unfolding strip_prefix?
has_prefix s p = is_found (strip_prefix? p s)

-- strings.TrimPrefix(s, p)
unfoldable pub trim_prefix : String → String → String
unfolding strip_prefix?
trim_prefix s p = rest_or (strip_prefix? p s) s

pub strip_prefix?-eq-some : (p s : String) (r : String) → strip_prefix? p s ≡ some r → s ≡ p ⧺ r
unfolding strip_prefix?
strip_prefix?-eq-some String.[] s r h = ground (arith, nil-⧺ r)
strip_prefix?-eq-some (String.◌∷◌ c p) String.[] r h = cc
strip_prefix?-eq-some (String.◌∷◌ c p) (String.◌∷◌ d s) r h =
    elim (Bool-cases (eqb (code c) (code d))) [
      | inl same ↦ cc (
        Char-path c d ((eqb_iff _ _).0 same),
        strip_prefix?-eq-some p s r (rw same at h),
        cons-⧺ c p r,
      )
      | inr other ↦ cc (rw other at h)
    ]

pub strip_prefix?-⧺ : (p r : String) → strip_prefix? p (p ⧺ r) ≡ some r
unfolding strip_prefix?
strip_prefix?-⧺ String.[] r = rw nil-⧺
strip_prefix?-⧺ (String.◌∷◌ c p) r =
    rw (cons-⧺ c p r) (rw ((eqb_iff (code c) (code c)).1 refl) (strip_prefix?-⧺ p r))

-- The pieces of a text between the separators, `cur` being the piece that is open.
unfoldable pub split_from : ℕ → String → String → List String
split_from sep cur String.[] = cur ∷ []
split_from sep cur (String.◌∷◌ c s) =
    let closed = cur ∷ split_from sep "" s in
    let longer = split_from sep (cur ⧺ single c) s in if eqb (code c) sep then closed else longer

-- strings.Split(s, sep), the separator one ASCII character.
unfoldable pub split : ℕ → String → List String
unfolding split_from
split sep s = split_from sep "" s

-- strings.Join(parts, sep)
unfoldable pub join : String → List String → String
join sep [] = ""
join sep (s ∷ []) = s
join sep (s ∷ t ∷ ts) = s ⧺ sep ⧺ join sep (t ∷ ts)
