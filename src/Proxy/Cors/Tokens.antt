-- ===== src/Proxy/Cors/Tokens.antt =====
-- What parseHeaderList lets through.
use registration_service.Prelude.{
  ℕ, zero, suc, ◌-◌, ◌≡◌, refl, Bool, true, false, ◌&&◌, ◌||◌, String, Char, code, All, arith, eqb,
  Bool-cases, inl, inr,
}
use registration_service.Text.{◌⧺◌, is_empty, single, nil-⧺, cons-⧺}
use registration_service.Text.Decimal.{char_at}
use registration_service.Proxy.Cors.{
  is_lower, is_upper, is_mark, upper_case, lower_case, append_char, parse_from, parse_header_list,
}

-- A letter, a digit, or one of the marks of a header name.
abbrev pub is_token_char : ℕ → Bool
is_token_char c = is_lower c || is_upper c || is_mark c

unfoldable pub is_token : String → Bool
is_token String.[] = true
is_token (String.◌∷◌ c s) = is_token_char (code c) && is_token s

is_token-append :
    (s : String) (c : Char)
    → is_token s ≡ true
    → is_token_char (code c) ≡ true
    → is_token (s ⧺ single c) ≡ true
unfolding is_token
is_token-append String.[] c h k = rw (nil-⧺ (single c)) (ground (arith, k))
is_token-append (String.◌∷◌ d s) c h k =
    rw (cons-⧺ d s (single c)) (ground (arith, h, is_token-append s c (ground (arith, h)) k))

is_token-char_at :
    (s : String) (i : ℕ) (c : Char)
    → is_token s ≡ true
    → is_token_char (code c) ≡ true
    → is_token_char (code (char_at s i c)) ≡ true
unfolding is_token
is_token-char_at String.[] i c h k = k
is_token-char_at (String.◌∷◌ d s) zero c h k = ground (arith, h)
is_token-char_at (String.◌∷◌ d s) (suc i) c h k = is_token-char_at s i c (ground (arith, h)) k

is_token-append_char :
    (h : String) (upper : Bool) (c : Char)
    → is_token h ≡ true
    → is_token (append_char h upper c) ≡ true
unfolding append_char is_token
is_token-append_char h true c token = ground (
  arith,
  token,
  is_token-append h (upper_case c) token,
  is_token-append h c token,
  is_token-char_at "ABCDEFGHIJKLMNOPQRSTUVWXYZ" (code c - b'a') c refl,
)
is_token-append_char h false c token = ground (
  arith,
  token,
  is_token-append h (lower_case c) token,
  is_token-append h c token,
  is_token-char_at "abcdefghijklmnopqrstuvwxyz" (code c - b'A') c refl,
)

-- A header that is not empty and has characters of header names only.
abbrev pub IsToken : String → Type 0
IsToken s = (is_token s ≡ true) × (is_empty s ≡ false)

parse_from-tokens :
    (h : String) (upper : Bool) (s : String)
    → is_token h ≡ true
    → All IsToken (parse_from h upper s)
unfolding parse_from
parse_from-tokens h upper String.[] token = tt
parse_from-tokens h upper (String.◌∷◌ c s) token =
    let h' = append_char h upper c in
    let next = is_token-append_char h upper c token in
    elim (Bool-cases (eqb (code c) b' ' || eqb (code c) b',' || is_empty s)) [
      | inr inside ↦
          rw inside (parse_from-tokens h' (eqb (code c) b'-' || eqb (code c) b'_') s next)
      | inl ended ↦ elim (Bool-cases (is_empty h')) [
        | inl bare ↦ rw ended (rw bare (parse_from-tokens h' upper s next))
        | inr full ↦
            rw ended (rw full ((next, full), parse_from-tokens "" true s (unfold is_token in refl)))
      ]
    ]

-- Each header that is parsed from any text is not empty and consists of letters, digits, and the
-- characters - _ and dot.
pub parse_header_list-tokens : (s : String) → All IsToken (parse_header_list s)
unfolding parse_header_list is_token
parse_header_list-tokens s = parse_from-tokens "" true s refl
