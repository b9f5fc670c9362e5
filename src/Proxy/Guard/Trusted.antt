-- ===== src/Proxy/Guard/Trusted.antt =====
-- The guards of the proxy, with the token that a request carries.
use registration_service.Prelude.{◌≡◌, refl, false, String, if◌then◌else◌, arith, subst, Bool}
use registration_service.Action.{Action, Result, ok, err}
use registration_service.Api.{Claims}
use registration_service.Signup.Env.{ServiceEnv}
use registration_service.Auth.Keys.{KeyMap}
use registration_service.Auth.Parser.{Jwt, from_string}
use registration_service.Auth.Parser.Trusted.{Trusted, from_string-Trusted}
use registration_service.Proxy.Headers.{Headers, values}
use registration_service.Proxy.Bearer.{
  Base64, first_value, extract_bearer_token, extract_token_from_websocket_request, parse_user_token,
  parsed, extract_user_token,
}
use registration_service.Proxy.Guard.{TokenClaims, unsecured, guarded}
use registration_service.Proxy.Guard.Banned.{Admitted, guarded-Admitted}

-- The claims that addUserContext puts into the context.
abbrev pub kept_claims : Result Claims → Result TokenClaims
kept_claims (err e) = err e
kept_claims (ok c) =
    ok (record { subject = c.sub; preferred_username = c.preferred_username; email = c.email })

module _ {B K : Type 0} (base64 : Base64 B) (jwt : Jwt K) (keys : KeyMap K)
    (is_websocket : Headers → Bool) where
  -- The token of a request.
  abbrev pub token_of : Headers → Result String
  token_of h =
      if is_websocket h
      then extract_token_from_websocket_request base64 h
      else extract_bearer_token (first_value (values h "Authorization"))

  parse_user_token_ok :
      (r : Result String) (c : Claims)
      → parse_user_token base64 jwt keys is_websocket r ≡ ok c
      → (token : String) × (r ≡ ok token) × (from_string jwt keys token ≡ ok c)
  parse_user_token_ok (err e) c h = absurd (ground (arith, h))
  parse_user_token_ok (ok token) c h = (token, refl, parsed_ok (from_string jwt keys token) h)
    where
      parsed_ok : (r : Result Claims) → parsed base64 jwt keys is_websocket r ≡ ok c → r ≡ ok c
      parsed_ok (ok d) e = e
      parsed_ok (err d) e = absurd (ground (arith, e))

  kept_ok : (r : Result Claims) (t : TokenClaims) → kept_claims r ≡ ok t → (c : Claims) × (r ≡ ok c)
  kept_ok (err e) t h = absurd (ground (arith, h))
  kept_ok (ok c) t h = (c, refl)

  module _ {S W F A : Type 0} (env : ServiceEnv S W F) where
    -- If a request that needs authentication succeeds, then it carries a token that is signed by a key
    -- of the key manager and has a username, an email and a subject; no BannedUser is listed for that
    -- email; and the answer is that of the handler, which gets those claims.
    pub guarded_request-Trusted :
        (uri : String) (h : Headers) (next : TokenClaims → Action W A) (w w' : W) (a : A)
        → unsecured uri ≡ false
        → guarded env uri (kept_claims (extract_user_token base64 jwt keys is_websocket h)) next w
          ≡ (ok a, w')
        → (token : String) × (c : Claims) × (token_of h ≡ ok token)
          × Trusted jwt keys token c
          × Admitted env (kept_claims (ok c)) next w a w'
    unfolding extract_user_token
    guarded_request-Trusted uri h next w w' a secured run =
        let claims = extract_user_token base64 jwt keys is_websocket h in
        let admitted = guarded-Admitted env uri (kept_claims claims) next w w' a secured run in
        let (c, got) = kept_ok claims admitted.claims admitted.is_read in
        let (token, carried, parsed_to) = parse_user_token_ok (token_of h) c got in
        (
          token,
          c,
          carried,
          from_string-Trusted jwt keys token c parsed_to,
          subst (λ r. Admitted env (kept_claims r) next w a w') got admitted,
        )
