-- ===== src/Auth/Middleware/Passed.antt =====
-- Which requests pass the middleware.
use registration_service.Prelude.{◌≡◌, ap, ◌∙◌, ◌⊎◌, inl, inr, ℕ, String}
use registration_service.Errors.{unauthorized, error_text}
use registration_service.Action.{ok, Result-cases}
use registration_service.Api.{Claims}
use registration_service.Auth.Keys.{KeyMap}
use registration_service.Auth.Parser.{Jwt, from_string}
use registration_service.Auth.Parser.Trusted.{Trusted, from_string-Trusted}
use registration_service.Auth.Middleware.{extract_token, parse_then, continue_with, handler_func}

module _ {K W : Type 0} (jwt : Jwt K) (keys : KeyMap K) (respond_with_error : ℕ → String → W → W)
    (next : Claims → W → W) where
  -- The next handler ran, with the claims of a token that is to be trusted.
  pub record Passed (header : String) (w w' : W) : Type 0 where
    pub token : String
    pub claims : Claims
    pub extracted : extract_token header ≡ ok token
    pub trusted : Trusted jwt keys token claims
    pub served : w' ≡ next claims w

  -- A request is answered with "unauthorized", or its header has a token that is signed by a key of
  -- the key manager and has a username, an email and a subject, and the next handler gets its claims.
  pub handler_func-Passed :
      (header : String) (w : W)
      → ((message : String) × (handler_func jwt keys respond_with_error next header w
            ≡ respond_with_error unauthorized message w))
        ⊎ Passed header w (handler_func jwt keys respond_with_error next header w)
  unfolding handler_func
  handler_func-Passed header w = elim (Result-cases (extract_token header)) [
    | inr (e, bad) ↦
        inl (error_text e, ap (λ r. parse_then jwt keys respond_with_error next r w) bad)
    | inl (token, good) ↦ elim (Result-cases (from_string jwt keys token)) [
      | inr (e, bad) ↦ inl (
        error_text e,
        ap (λ r. parse_then jwt keys respond_with_error next r w) good
            ∙ ap (λ r. continue_with jwt keys respond_with_error next r w) bad,
      )
      | inl (c, parsed) ↦ inr (record {
        token = token;
        claims = c;
        extracted = good;
        trusted = from_string-Trusted jwt keys token c parsed;
        served =
            ap (λ r. parse_then jwt keys respond_with_error next r w) good
            ∙ ap (λ r. continue_with jwt keys respond_with_error next r w) parsed;
      })
    ]
  ]
