-- ===== src/Proxy/Paths/Split.antt =====
-- Splitting and prefixes of paths put together with slashes.
use registration_service.Prelude.{
  ◌≡◌, refl, sym, ap, ◌∙◌, Bool, true, false, not, ◌&&◌, ◌∷◌, String, code, arith, eqb, length, ◌≤◌,
}
use registration_service.Text.{
  ◌⧺◌, single, nil-⧺, cons-⧺, ⧺-nil, ⧺_assoc, split, split_from, has_prefix, trim_prefix,
  strip_prefix?-⧺,
}

-- Has the text no slash?
unfoldable pub has_no_slash : String → Bool
has_no_slash String.[] = true
has_no_slash (String.◌∷◌ c s) = not (eqb (code c) b'/') && has_no_slash s

split_from_slash :
    (cur a b : String)
    → has_no_slash a ≡ true
    → split_from b'/' cur (a ⧺ "/" ⧺ b) ≡ (cur ⧺ a) ∷ split_from b'/' "" b
unfolding split_from has_no_slash
split_from_slash cur String.[] b h =
    rw (nil-⧺ ("/" ⧺ b)) (rw (cons-⧺ "/" "" b) (rw (nil-⧺ b) (rw (⧺-nil cur) refl)))
split_from_slash cur (String.◌∷◌ c a) b h =
    let other : eqb (code c) b'/' ≡ false = ground (arith, h) in
    let rest : has_no_slash a ≡ true = ground (arith, h) in
    rw (cons-⧺ c a ("/" ⧺ b)) (
      rw other (
        split_from_slash (cur ⧺ single c) a b rest
        ∙ ap (λ x. x ∷ split_from b'/' "" b)
            (⧺_assoc cur (single c) a
              ∙ ap (λ x. cur ⧺ x) (cons-⧺ c "" a ∙ ap (String.◌∷◌ c) (nil-⧺ a)))))

pub split_slash :
    (a b : String) → has_no_slash a ≡ true → split b'/' (a ⧺ "/" ⧺ b) ≡ a ∷ split b'/' b
unfolding split
split_slash a b h = split_from_slash "" a b h ∙ ap (λ x. x ∷ split_from b'/' "" b) (nil-⧺ a)

-- A path below a folder: its first segments.
pub split_below :
    (folder b : String)
    → has_no_slash folder ≡ true
    → split b'/' ("/" ⧺ folder ⧺ "/" ⧺ b) ≡ "" ∷ folder ∷ split b'/' b
unfolding has_no_slash
split_below folder b h =
    ap (split b'/') (sym (nil-⧺ ("/" ⧺ folder ⧺ "/" ⧺ b)))
    ∙ split_slash "" (folder ⧺ "/" ⧺ b) refl
    ∙ ap (λ x. "" ∷ x) (split_slash folder b h)

split_from_some : (cur s : String) → 1 ≤ length (split_from b'/' cur s)
unfolding split_from
split_from_some cur String.[] = omega arith
split_from_some cur (String.◌∷◌ c s) = ground (arith, split_from_some (cur ⧺ single c) s)

pub split_some : (s : String) → 1 ≤ length (split b'/' s)
unfolding split
split_some s = split_from_some "" s

pub has_prefix-⧺ : (p r : String) → has_prefix (p ⧺ r) p ≡ true
unfolding has_prefix
has_prefix-⧺ p r = rw (strip_prefix?-⧺ p r)

pub trim_prefix-⧺ : (p r : String) → trim_prefix (p ⧺ r) p ≡ r
unfolding trim_prefix
trim_prefix-⧺ p r = rw (strip_prefix?-⧺ p r)
