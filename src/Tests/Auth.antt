-- ===== src/Tests/Auth.antt =====
-- The theorems on tokens at concrete requests. Keys are numbers; a token is the name of its user, and
-- is signed by 7.
use registration_service.Prelude.{
  ◌≡◌, refl, ◌⊎◌, ℕ, true, false, none, some, List, [], ◌∷◌, String, arith, eqb, ◌==◌,
  if◌then◌else◌, Bool-cases, inl, inr,
}
use mathlib.Core.List.{Mem}
use registration_service.Text.{◌⧺◌}
use registration_service.Text.Pieces.Bare.{is_bare}
use registration_service.Errors.{Err, plain}
use registration_service.Action.{Action, Result, ok, err}
use registration_service.Api.{Claims}
use registration_service.Auth.Keys.{
  AuthSpec, PublicKey, KeyMap, KeyEnv, key_of, new_key_manager, add_keys, empty_map, environment,
}
use registration_service.Auth.Keys.Fetched.{Answered, new_key_manager-Answered}
use registration_service.Auth.Parser.{Header, text_key_id, Token, Jwt}
use registration_service.Auth.Parser.Trusted.{Trusted}
use registration_service.Auth.Default.{first, initialize_default_token_parser, initialize_twice}
use registration_service.Auth.Middleware.{extract_token, handler_func}
use registration_service.Auth.Middleware.Passed.{Passed, handler_func-Passed}
use registration_service.Proxy.Headers.{Headers, values}
use registration_service.Proxy.Bearer.{
  Base64, extract_bearer_token, extract_user_token, extract_token_from_websocket_request,
  protocols_of,
}
use registration_service.Proxy.Bearer.RoundTrip.{bearer_round_trip}
use registration_service.Proxy.Bearer.Websocket.{Sole, websocket-Sole}
use registration_service.Proxy.Guard.{TokenClaims, unsecured, guarded}
use registration_service.Proxy.Guard.Banned.{Admitted}
use registration_service.Proxy.Guard.Trusted.{kept_claims, token_of, guarded_request-Trusted}
use registration_service.Tests.World.{World, claims_of}
use registration_service.Tests.Service.{service, world}

abbrev header : Header
header = record { alg = "RS256"; is_rsa = true; kid = text_key_id "main" }

abbrev token : String → Token
token name = record { claims = some (claims_of name); is_valid = true }

abbrev verify : String → Result ℕ → Result Token
verify name (err e) = err e
verify name (ok k) = if eqb k 7 then ok (token name) else err (plain "signature is invalid")

verify-signed :
    (name : String) (r : Result ℕ) (t : Token)
    → verify name r ≡ ok t
    → (k : ℕ) × (r ≡ ok k) × (k ≡ 7)
verify-signed name (err e) t h = absurd (ground (arith, h))
verify-signed name (ok k) t h = elim (Bool-cases (eqb k 7)) [
  | inl good ↦ (k, refl, ground (arith, good))
  | inr bad ↦ absurd (ground (arith, h, bad))
]

abbrev jwt : Jwt ℕ
jwt = record {
  parse_with_claims = λ get_key name. verify name (get_key header);
  header_of = λ name. header;
  IsSignedBy = λ name k. k ≡ 7;
  parse_with_claims-signed = λ get_key name t h. verify-signed name (get_key header) t h;
}

abbrev main_key : PublicKey ℕ
main_key = record { key_id = "main"; key = 7 }

abbrev keys : KeyEnv ℕ ℕ String
keys = record {
  unmarshal_document = λ s. ok (s ∷ []);
  marshal = λ j. ok j;
  unmarshal_json = λ s. ok (s, some 7);
  http_get = λ insecure url w. (ok (record { status_code = 200; body = ok "main" }), w);
  e2e_keys = [];
}

abbrev prod : AuthSpec
prod = record { environment = none; auth_client_public_keys_url = none }

abbrev key_map : KeyMap ℕ
key_map = add_keys (main_key ∷ []) empty_map

key_found : key_of key_map "main" ≡ ok 7
unfolding key_of add_keys empty_map
key_found = refl

fetched : new_key_manager keys prod 0 ≡ (ok key_map, 0)
unfolding new_key_manager add_keys empty_map
fetched = refl

new_key_manager-Answered_example :
    (ks : List (PublicKey ℕ)) × Mem (record { key_id = "main"; key = 7 }) ks
    × (((environment prod ≡ "e2e-tests") × (ks ≡ keys.e2e_keys)) ⊎ Answered keys prod ks)
new_key_manager-Answered_example =
    new_key_manager-Answered keys prod key_map "main" 7 0 0 fetched key_found

initialize_twice_example :
    ((m : KeyMap ℕ) × (w : ℕ) × (new_key_manager keys prod 0 ≡ (ok m, w))
      × ((first keys prod 0).0 ≡ ok (some m))
      × ((initialize_default_token_parser keys prod (first keys prod 0).1).0 ≡ ok (some m)))
    ⊎ ((e : Err) × (w : ℕ) × (new_key_manager keys prod 0 ≡ (err e, w))
        × ((first keys prod 0).0 ≡ err e)
        × ((initialize_default_token_parser keys prod (first keys prod 0).1).0 ≡ ok none))
initialize_twice_example = initialize_twice keys prod 0

-- The middleware writes down what it does.
abbrev answer_error : ℕ → String → List String → List String
answer_error code message w = message ∷ w

abbrev serve : Claims → List String → List String
serve c w = c.sub ∷ w

handler_func-Passed_example :
    ((message : String) × (handler_func jwt key_map answer_error serve "Bearer ann" []
        ≡ answer_error 401 message []))
    ⊎ Passed jwt key_map answer_error serve "Bearer ann" []
        (handler_func jwt key_map answer_error serve "Bearer ann" [])
handler_func-Passed_example = handler_func-Passed jwt key_map answer_error serve "Bearer ann" []

bearer_round_trip_example :
    (extract_token ("Bearer " ⧺ "ann") ≡ ok "ann")
    × (extract_bearer_token ("Bearer " ⧺ "ann") ≡ ok "ann")
unfolding is_bare
bearer_round_trip_example = bearer_round_trip "ann" refl refl

-- Text that is its own encoding.
abbrev base64 : Base64 String
base64 = record { decode = λ s. ok s; valid = λ s. true; text = λ s. s }

abbrev upgrade : Headers
upgrade k =
    if k == "Sec-Websocket-Protocol"
    then some ("v4.channel.k8s.io, base64url.bearer.authorization.k8s.io.ann" ∷ [])
    else none

upgrade_runs : extract_token_from_websocket_request base64 upgrade ≡ ok "ann"
unfolding extract_token_from_websocket_request
upgrade_runs = refl

websocket-Sole_example :
    (false ≡ false) × Sole base64 (protocols_of (values upgrade "Sec-Websocket-Protocol")) "ann"
websocket-Sole_example = websocket-Sole base64 upgrade "ann" upgrade_runs

abbrev answer : TokenClaims → Action World String
answer c w = (ok c.preferred_username, w)

secured_api : unsecured "/api" ≡ false
unfolding unsecured
secured_api = refl

guarded_runs :
    guarded service "/api"
      (kept_claims (extract_user_token base64 jwt key_map (λ h. true) upgrade))
      answer
      (world [])
    ≡ (ok "ann", world [])
unfolding guarded extract_user_token key_of add_keys empty_map
guarded_runs = refl

guarded_request-Trusted_example :
    (t : String) × (c : Claims) × (token_of base64 jwt key_map (λ h. true) upgrade ≡ ok t)
    × Trusted jwt key_map t c
    × Admitted service (kept_claims (ok c)) answer (world []) "ann" (world [])
guarded_request-Trusted_example =
    guarded_request-Trusted base64 jwt key_map (λ h. true) service "/api" upgrade answer (world [])
      (world []) "ann" secured_api guarded_runs
