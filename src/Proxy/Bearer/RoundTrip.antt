-- ===== src/Proxy/Bearer/RoundTrip.antt =====
-- Both servers read the same token of an ordinary request.
use registration_service.Prelude.{◌≡◌, refl, sym, ap, ◌∙◌, true, false, [], ◌∷◌, String, arith}
use registration_service.Text.{◌⧺◌, is_empty, has_prefix, nil-⧺, ⧺-nil, cons-⧺, ⧺_assoc}
use registration_service.Text.Pieces.{fields, fields_from, split_text, pieces, text_length}
use registration_service.Text.Pieces.Bare.{
  is_bare, fields_from-bare, pieces-bare, pieces-here, pieces-skip,
}
use registration_service.Action.{ok}
use registration_service.Auth.Middleware.{extract_token}
use registration_service.Proxy.Paths.Split.{has_prefix-⧺}
use registration_service.Proxy.Bearer.{extract_bearer_token}

one_field :
    (token : String)
    → is_bare token ≡ true
    → is_empty token ≡ false
    → fields_from "" token ≡ token ∷ []
unfolding fields_from
one_field token bare given =
    ap (fields_from "") (sym (⧺-nil token))
    ∙ fields_from-bare "" token "" bare
    ∙ ap (λ x. fields_from x "") (nil-⧺ token)
    ∙ ground (arith, given)

fields-bearer :
    (token : String)
    → is_bare token ≡ true
    → is_empty token ≡ false
    → fields ("Bearer " ⧺ token) ≡ "Bearer" ∷ token ∷ []
unfolding fields is_bare
fields-bearer token bare given =
    ap (fields_from "") (⧺_assoc "Bearer" " " token)
    ∙ fields_from-bare "" "Bearer" (" " ⧺ token) refl
    ∙ ap (fields_from "Bearer") (cons-⧺ " " "" token ∙ ap (String.◌∷◌ " ") (nil-⧺ token))
    ∙ ap (λ fs. "Bearer" ∷ fs) (one_field token bare given)

split-bearer :
    (token : String)
    → is_bare token ≡ true
    → split_text "Bearer " ("Bearer " ⧺ token) ≡ "" ∷ token ∷ []
unfolding split_text text_length is_bare
split-bearer token bare =
    let whole : "Bearer " ⧺ token ≡ String.◌∷◌ "B" ("earer " ⧺ token) = cons-⧺ "B" "earer " token in
    ap (pieces "Bearer " 0 "") whole
    ∙ pieces-here "Bearer " "" "B" ("earer " ⧺ token)
        (ap (λ x. has_prefix x "Bearer ") (sym whole) ∙ has_prefix-⧺ "Bearer " token)
    ∙ ap (λ ps. "" ∷ ps)
        (pieces-skip "Bearer " "" "earer " token
          ∙ pieces-bare "Bearer " "" token refl bare
          ∙ ap (λ x. x ∷ []) (nil-⧺ token))

not_empty : (token : String) → is_empty ("Bearer " ⧺ token) ≡ false
not_empty token = ap is_empty (cons-⧺ "B" "earer " token)

-- The header "Bearer <token>" is read as the token by the registration service and by the proxy, for a
-- token that is not empty and has no space.
pub bearer_round_trip :
    (token : String)
    → is_bare token ≡ true
    → is_empty token ≡ false
    → (extract_token ("Bearer " ⧺ token) ≡ ok token)
      × (extract_bearer_token ("Bearer " ⧺ token) ≡ ok token)
unfolding extract_token extract_bearer_token
bearer_round_trip token bare given = (
  ground (arith, fields-bearer token bare given, has_prefix-⧺ "Bearer " token, not_empty token),
  ground (arith, split-bearer token bare),
)
