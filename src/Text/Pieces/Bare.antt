-- ===== src/Text/Pieces/Bare.antt =====
-- Texts without spaces are one field, and one piece between separators that have a space.
use registration_service.Prelude.{
  ◌-◌, ◌≡◌, refl, sym, ap, ◌∙◌, Bool, true, false, not, ◌&&◌, inl, inr, [], ◌∷◌, Char, String, code,
  arith, if◌then◌else◌, Option-cases,
}
use registration_service.Text.{
  ◌⧺◌, single, has_prefix, nil-⧺, cons-⧺, ⧺-nil, ⧺_assoc, strip_prefix?, strip_prefix?-eq-some,
}
use registration_service.Text.Pieces.{is_space, fields_from, text_length, pieces}

-- Has the text no space?
unfoldable pub is_bare : String → Bool
is_bare String.[] = true
is_bare (String.◌∷◌ c s) = not (is_space (code c)) && is_bare s

is_bare-⧺ : (a b : String) → is_bare (a ⧺ b) ≡ (is_bare a && is_bare b)
unfolding is_bare
is_bare-⧺ String.[] b = ap is_bare (nil-⧺ b)
is_bare-⧺ (String.◌∷◌ c a) b = ap is_bare (cons-⧺ c a b) ∙ ground (arith, is_bare-⧺ a b)

longer : (cur : String) (c : Char) (a : String) → (cur ⧺ single c) ⧺ a ≡ cur ⧺ String.◌∷◌ c a
longer cur c a =
    ⧺_assoc cur (single c) a ∙ ap (λ x. cur ⧺ x) (cons-⧺ c "" a ∙ ap (String.◌∷◌ c) (nil-⧺ a))

pub fields_from-bare :
    (cur a b : String) → is_bare a ≡ true → fields_from cur (a ⧺ b) ≡ fields_from (cur ⧺ a) b
unfolding is_bare fields_from
fields_from-bare cur String.[] b h = rw (nil-⧺ b) (rw (⧺-nil cur) refl)
fields_from-bare cur (String.◌∷◌ c a) b h =
    let here : is_space (code c) ≡ false = ground (arith, h) in
    let rest : is_bare a ≡ true = ground (arith, h) in
    rw (cons-⧺ c a b) (
      rw here
        (fields_from-bare (cur ⧺ single c) a b rest ∙ ap (λ x. fields_from x b) (longer cur c a)))

-- A text without spaces does not start with one that has a space.
no_prefix : (sep s : String) → is_bare sep ≡ false → is_bare s ≡ true → has_prefix s sep ≡ false
unfolding has_prefix
no_prefix sep s spaced bare = elim (Option-cases (strip_prefix? sep s)) [
  | inl missing ↦ rw missing refl
  | inr (r, found) ↦ absurd (
      ground
        (arith, spaced, bare, ap is_bare (strip_prefix?-eq-some sep s r found), is_bare-⧺ sep r))
]

bare_tail : (c : Char) (s : String) → is_bare (String.◌∷◌ c s) ≡ true → is_bare s ≡ true
unfolding is_bare
bare_tail c s h = ground (arith, h)

pieces-longer :
    (sep cur : String) (c : Char) (s : String)
    → has_prefix (String.◌∷◌ c s) sep ≡ false
    → pieces sep 0 cur (String.◌∷◌ c s) ≡ pieces sep 0 (cur ⧺ single c) s
unfolding pieces
pieces-longer sep cur c s h =
    ap
      (λ b.
        if b then cur ∷ pieces sep (text_length sep - 1) "" s else pieces sep 0 (cur ⧺ single c) s)
      h

pub pieces-here :
    (sep cur : String) (c : Char) (s : String)
    → has_prefix (String.◌∷◌ c s) sep ≡ true
    → pieces sep 0 cur (String.◌∷◌ c s) ≡ cur ∷ pieces sep (text_length sep - 1) "" s
unfolding pieces
pieces-here sep cur c s h =
    ap
      (λ b.
        if b then cur ∷ pieces sep (text_length sep - 1) "" s else pieces sep 0 (cur ⧺ single c) s)
      h

pieces_end : (sep cur : String) → pieces sep 0 cur String.[] ≡ cur ∷ []
unfolding pieces
pieces_end sep cur = refl

pub pieces-bare :
    (sep cur a : String)
    → is_bare sep ≡ false
    → is_bare a ≡ true
    → pieces sep 0 cur a ≡ (cur ⧺ a) ∷ []
pieces-bare sep cur String.[] spaced h = pieces_end sep cur ∙ ap (λ x. x ∷ []) (sym (⧺-nil cur))
pieces-bare sep cur (String.◌∷◌ c a) spaced h =
    pieces-longer sep cur c a (no_prefix sep (String.◌∷◌ c a) spaced h)
    ∙ pieces-bare sep (cur ⧺ single c) a spaced (bare_tail c a h)
    ∙ ap (λ x. x ∷ []) (longer cur c a)

-- The characters of a separator are passed over.
pub pieces-skip :
    (sep cur a b : String) → pieces sep (text_length a) cur (a ⧺ b) ≡ pieces sep 0 cur b
unfolding pieces text_length
pieces-skip sep cur String.[] b = rw (nil-⧺ b) refl
pieces-skip sep cur (String.◌∷◌ c a) b = rw (cons-⧺ c a b) (pieces-skip sep cur a b)
