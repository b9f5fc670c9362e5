-- ===== src/Auth/Parser.antt =====
-- pkg/auth/tokenparser.go: the claims of a token that is to be trusted.
pub mod Trusted
use registration_service.Prelude.{
  Bool, true, false, not, Option, none, some, List, String, if◌then◌else◌, ◌≡◌,
}
use registration_service.Text.{◌⧺◌, is_empty}
use registration_service.Errors.{Err, plain}
use registration_service.Action.{Result, ok, err}
use registration_service.Api.{Claims}
use registration_service.Auth.Keys.{KeyMap, key_of}

-- The entry `kid` of a token's header.
pub data KeyId : Type 0 where
  no_key_id : KeyId
  text_key_id : String → KeyId
  other_key_id : KeyId

-- A token's method, by its text and whether it is an RSA one, and its key id.
pub record Header : Type 0 where
  pub alg : String
  pub is_rsa : Bool
  pub kid : KeyId

-- The Claims of a token, if they are TokenClaims, and its field Valid.
pub record Token : Type 0 where
  pub claims : Option Claims
  pub is_valid : Bool

-- The library jwt: ParseWithClaims with the leeway of five seconds. Where it returns no error, it
-- has called the function for the key on the token's header, and the token's signature is verified
-- by that key.
pub record Jwt (K : Type 0) : Type 1 where
  pub parse_with_claims : (Header → Result K) → String → Result Token
  pub header_of : String → Header
  pub IsSignedBy : String → K → Type 0
  pub parse_with_claims-signed :
      (get_key : Header → Result K) (encoded : String) (token : Token)
      → parse_with_claims get_key encoded ≡ ok token
      → (k : K) × (get_key (header_of encoded) ≡ ok k) × IsSignedBy encoded k

abbrev pub key_for : {K : Type 0} → KeyMap K → KeyId → Result K
key_for keys no_key_id = err (plain "no key id given in the token")
key_for keys (text_key_id kid) = key_of keys kid
key_for keys other_key_id = err (plain "given key id has unknown type")

-- The function that finds the key for a token.
unfoldable pub find_key : {K : Type 0} → KeyMap K → Header → Result K
unfolding key_of
find_key keys h =
    if h.is_rsa then key_for keys h.kid else err (plain ("unexpected signing method: " ⧺ h.alg))

abbrev missing_claim : String → Err
missing_claim claim = plain ("token does not comply to expected claims: " ⧺ claim ⧺ " missing")

-- The claims that the service needs.
unfoldable pub check_claims : Claims → Result Claims
check_claims c =
    if is_empty c.preferred_username
    then err (missing_claim "username")
    else if is_empty c.email
    then err (missing_claim "email")
    else if is_empty c.sub
    then err (missing_claim "subject")
    else ok c

abbrev claims_of : Option Claims → Bool → Result Claims
claims_of none valid = err (plain "token does not comply to expected claims")
claims_of (some c) valid =
    if valid then check_claims c else err (plain "token does not comply to expected claims")

abbrev pub judge_token : Result Token → Result Claims
judge_token (err e) = err e
judge_token (ok t) = claims_of t.claims t.is_valid

-- FromString
unfoldable pub from_string : {K : Type 0} → Jwt K → KeyMap K → String → Result Claims
unfolding find_key check_claims
from_string jwt keys encoded = judge_token (jwt.parse_with_claims (find_key keys) encoded)
