-- ===== src/Auth/Keys.antt =====
-- pkg/auth/keymanager.go: the public keys of the token's issuer.
pub mod Fetched
use registration_service.Prelude.{
  ℕ, Bool, true, false, not, Option, none, some, List, [], ◌∷◌, String, eqb, if◌then◌else◌, ◌==◌,
}
use registration_service.Text.{is_empty}
use registration_service.Errors.{Err, plain}
use registration_service.Action.{Action, Result, ok, err, pure, raise, lift, ◌>>=◌}
use registration_service.Configuration.{default}
use registration_service.Signup.Env.{HttpResponse}

-- RegistrationServiceConfig, by what the key manager reads.
pub record AuthSpec : Type 0 where
  pub environment : Option String
  pub auth_client_public_keys_url : Option String

unfoldable pub environment : AuthSpec → String
environment c = default c.environment "prod"

unfoldable pub is_prod_environment : AuthSpec → Bool
unfolding environment
is_prod_environment c = environment c == "prod"

unfoldable pub auth_client_public_keys_url : AuthSpec → String
auth_client_public_keys_url c =
    default c.auth_client_public_keys_url
      "https://sso.devsandbox.dev/auth/realms/sandbox-dev/protocol/openid-connect/certs"

-- PublicKey, `K` being *rsa.PublicKey.
pub record PublicKey (K : Type 0) : Type 0 where
  pub key_id : String
  pub key : K

-- The map of the key manager.
abbrev pub KeyMap : Type 0 → Type 0
KeyMap K = String → Option K

-- What the key manager calls: JSON values `J`, go-jose, HTTP, and the keys of the end-to-end tests.
pub record KeyEnv (W K J : Type 0) : Type 0 where
  -- json.Unmarshal of the document, and json.Marshal of one of its keys
  pub unmarshal_document : String → Result (List J)
  pub marshal : J → Result String
  -- JSONWebKey.UnmarshalJSON: the id, and the key if it is an RSA key
  pub unmarshal_json : String → Result (String × Option K)
  -- GET of a URL; are the certificates of the server left unchecked?
  pub http_get : Bool → String → Action W HttpResponse
  pub e2e_keys : List (PublicKey K)

unfoldable pub empty_map : {K : Type 0} → KeyMap K
empty_map kid = none

-- km.keyMap[key.KeyID] = key.Key, for each key
unfoldable pub add_keys : {K : Type 0} → List (PublicKey K) → KeyMap K → KeyMap K
add_keys [] m = m
add_keys (k ∷ ks) m = add_keys ks (λ kid. if k.key_id == kid then some k.key else m kid)

abbrev pub or_unknown : {K : Type 0} → Option K → Result K
or_unknown none = err (plain "unknown kid")
or_unknown (some k) = ok k

-- Key
unfoldable pub key_of : {K : Type 0} → KeyMap K → String → Result K
key_of m kid = or_unknown (m kid)

module _ {W K J : Type 0} (env : KeyEnv W K J) where
  abbrev rsa_only : Result (String × Option K) → Result (PublicKey K)
  rsa_only (err e) = err e
  rsa_only (ok (id, none)) = err (plain "Key is not an *rsa.PublicKey")
  rsa_only (ok (id, some k)) = ok (record { key_id = id; key = k })

  unfoldable pub unmarshal_key : String → Result (PublicKey K)
  unmarshal_key document = rsa_only (env.unmarshal_json document)

  abbrev and_then : {A B : Type 0} → Result A → (A → Result B) → Result B
  and_then (err e) f = err e
  and_then (ok a) f = f a

  unfoldable pub unmarshal_each : List J → Result (List (PublicKey K))
  unfolding unmarshal_key
  unmarshal_each [] = ok []
  unmarshal_each (j ∷ js) = and_then (env.marshal j) λ document.
      and_then (unmarshal_key document) λ k. and_then (unmarshal_each js) λ ks. ok (k ∷ ks)

  unfoldable pub unmarshal_keys : String → Result (List (PublicKey K))
  unfolding unmarshal_each
  unmarshal_keys document = and_then (env.unmarshal_document document) unmarshal_each

  -- fetchKeys, with fetchKeysFromBytes
  unfoldable pub fetch_keys : AuthSpec → String → Action W (List (PublicKey K))
  unfolding unmarshal_keys is_prod_environment
  fetch_keys cfg url = do
    res ← env.http_get (not (is_prod_environment cfg)) url
    body ← lift res.body
    if eqb res.status_code 200
        then lift (unmarshal_keys body)
        else raise (plain "unable to obtain public keys from remote service")

  unfoldable pub new_key_manager : AuthSpec → Action W (KeyMap K)
  unfolding fetch_keys add_keys empty_map environment auth_client_public_keys_url
  new_key_manager cfg =
      if is_empty (auth_client_public_keys_url cfg)
      then pure empty_map
      else if environment cfg == "e2e-tests"
      then pure (add_keys env.e2e_keys empty_map)
      else (do
        keys ← fetch_keys cfg (auth_client_public_keys_url cfg)
        pure (add_keys keys empty_map))
