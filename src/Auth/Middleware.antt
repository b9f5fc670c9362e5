-- ===== src/Auth/Middleware.antt =====
-- pkg/middleware/jwt_middleware.go: the token of a request, and the handler that gets its claims.
pub mod Passed
use registration_service.Prelude.{ℕ, Bool, true, false, List, [], ◌∷◌, String, if◌then◌else◌}
use registration_service.Text.{◌⧺◌, is_empty, has_prefix}
use registration_service.Text.Pieces.{fields}
use registration_service.Errors.{Err, plain, error_text, unauthorized}
use registration_service.Action.{Result, ok, err}
use registration_service.Api.{Claims}
use registration_service.Auth.Keys.{KeyMap}
use registration_service.Auth.Parser.{Jwt, from_string}

abbrev second_field : String → List String → Result String
second_field header (bearer ∷ token ∷ []) = ok token
second_field header fs = err (plain ("found bearer token header, but no token:" ⧺ header))

-- extractToken, of the header Authorization, the empty text if there is none
unfoldable pub extract_token : String → Result String
unfolding fields has_prefix
extract_token header =
    if is_empty header
    then err (plain "no token found")
    else if has_prefix header "Bearer "
    then second_field header (fields header)
    else err (plain ("found unknown authorization header:" ⧺ header))

module _ {K W : Type 0} (jwt : Jwt K) (keys : KeyMap K)
    -- AbortWithStatusJSON of a code and {"error": ...}, and the handler that follows
    (respond_with_error : ℕ → String → W → W) (next : Claims → W → W) where
  abbrev pub continue_with : Result Claims → W → W
  continue_with (err e) w = respond_with_error unauthorized (error_text e) w
  continue_with (ok c) w = next c w

  abbrev pub parse_then : Result String → W → W
  parse_then (err e) w = respond_with_error unauthorized (error_text e) w
  parse_then (ok token) w = continue_with (from_string jwt keys token) w

  -- HandlerFunc; the claims that it puts into the context are an argument of the next handler.
  unfoldable pub handler_func : String → W → W
  unfolding extract_token from_string error_text
  handler_func header w = parse_then (extract_token header) w
