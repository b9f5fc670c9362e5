-- ===== src/Proxy/Bearer.antt =====
-- pkg/proxy/proxy.go: the user's token in a request, in the header Authorization or among the
-- protocols of a websocket request.
pub mod Websocket
pub mod RoundTrip
use registration_service.Prelude.{
  Bool, true, false, not, List, [], ◌∷◌, ◌++◌, String, if◌then◌else◌,
}
use registration_service.Text.{◌⧺◌, is_empty, split, has_prefix, trim_prefix}
use registration_service.Text.Pieces.{split_text}
use registration_service.Errors.{Err, plain, wrapped, error_text, new_unauthorized_error}
use registration_service.Action.{Result, ok, err}
use registration_service.Api.{Claims}
use registration_service.Auth.Keys.{KeyMap}
use registration_service.Auth.Parser.{Jwt, from_string}
use registration_service.Proxy.Headers.{
  Headers, values, trim_left, trim_right, trim_space, bearer_protocol_prefix,
}

-- base64.RawURLEncoding.DecodeString, utf8.Valid, and string() of its bytes.
pub record Base64 (B : Type 0) : Type 0 where
  pub decode : String → Result B
  pub valid : B → Bool
  pub text : B → String

-- Header.Get(name): the first value, or the empty text
abbrev pub first_value : List String → String
first_value [] = ""
first_value (v ∷ vs) = v

abbrev second_piece : List String → Result String
second_piece (before ∷ token ∷ rest) = ok token
second_piece _ = err (new_unauthorized_error "no token found" "a Bearer token is expected")

-- The function extractUserToken, of the header Authorization
unfoldable pub extract_bearer_token : String → Result String
unfolding split_text
extract_bearer_token header = second_piece (split_text "Bearer " header)

-- The protocols of all the values of the header.
unfoldable pub protocols_of : List String → List String
unfolding split
protocols_of [] = []
protocols_of (v ∷ vs) = split b',' v ++ protocols_of vs

module _ {B : Type 0} (base64 : Base64 B) where
  abbrev checked : Result B → Result String
  checked (err e) = err (wrapped "invalid base64.bearer.authorization token encoding" e)
  checked (ok b) =
      if base64.valid b
      then ok (base64.text b)
      else err (plain "invalid base64.bearer.authorization token: contains non UTF-8-encoded runes")

  -- The token of a protocol that carries one.
  unfoldable pub protocol_token : String → Result String
  unfolding trim_prefix trim_left trim_right
  protocol_token protocol =
      checked (base64.decode (trim_prefix (trim_space protocol) bearer_protocol_prefix))

  unfoldable pub carries_token : String → Bool
  unfolding has_prefix trim_left trim_right
  carries_token protocol = has_prefix (trim_space protocol) bearer_protocol_prefix

  -- The loop over the protocols, with its variables sawTokenProtocol and token.
  unfoldable pub scan_protocols : Bool → String → List String → Result String
  unfolding protocol_token carries_token
  scan_protocols saw token [] = ok token
  scan_protocols saw token (p ∷ ps) =
      let rest = scan_protocols saw token ps in
      let found : Result String = elim (protocol_token p) [
        | ok t ↦ scan_protocols true t ps
        | err e ↦ err e
      ] in
      if not (carries_token p)
      then rest
      else if saw
      then err (plain "multiple base64.bearer.authorization tokens specified")
      else found

  abbrev pub require_token : Result String → Result String
  require_token (err e) = err e
  require_token (ok token) =
      if is_empty token then err (plain "no base64.bearer.authorization token found") else ok token

  unfoldable pub extract_token_from_websocket_request : Headers → Result String
  unfolding scan_protocols protocols_of
  extract_token_from_websocket_request h =
      require_token (scan_protocols false "" (protocols_of (values h "Sec-Websocket-Protocol")))

  module _ {K : Type 0} (jwt : Jwt K) (keys : KeyMap K) (is_websocket : Headers → Bool) where
    abbrev pub claims_error : Err → Err
    claims_error e = new_unauthorized_error "unable to extract claims from token" (error_text e)

    abbrev pub parsed : Result Claims → Result Claims
    parsed (ok c) = ok c
    parsed (err e) = err (claims_error e)

    abbrev pub parse_user_token : Result String → Result Claims
    parse_user_token (err e) = err e
    parse_user_token (ok token) = parsed (from_string jwt keys token)

    -- The method extractUserToken; `is_websocket` is wsstream.IsWebSocketRequest.
    unfoldable pub extract_user_token : Headers → Result Claims
    unfolding extract_bearer_token extract_token_from_websocket_request from_string error_text
    extract_user_token h = parse_user_token (
        if is_websocket h
        then extract_token_from_websocket_request h
        else extract_bearer_token (first_value (values h "Authorization")))
