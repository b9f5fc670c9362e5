-- ===== src/Proxy/Cors/Answered.antt =====
-- How a preflight request is answered.
use registration_service.Prelude.{
  ℕ, ◌≡◌, refl, ap, ◌∙◌, any, ◌⊎◌, inl, inr, Bool, true, false, not, ◌||◌, some, List, [], ◌∷◌,
  ◌++◌, String, All, arith, Bool-cases, ◌==◌, if◌then◌else◌,
}
use registration_service.Text.{is_empty, join}
use registration_service.Proxy.Headers.{Headers, get, set, values}
use registration_service.Proxy.Cors.{
  parse_header_list, set_allow_headers, add_vary, is_method_allowed, handle_preflight, is_preflight,
  cors_preflight_handler, allowed_methods,
}
use registration_service.Proxy.Cors.Tokens.{IsToken, parse_header_list-tokens}

-- The headers that a granting answer may set.
abbrev pub cors_names : List String
cors_names =
    "Vary" ∷ "Access-Control-Allow-Origin" ∷ "Access-Control-Allow-Methods"
    ∷ "Access-Control-Allow-Headers" ∷ "Access-Control-Allow-Credentials" ∷ []

-- The headers of an answer that grants the origin some header names, on a response that has the
-- headers `out`.
pub record Granted (origin : String) (names : List String) (out granted : Headers) : Type 0 where
  pub allow_origin : granted "Access-Control-Allow-Origin" ≡ some (origin ∷ [])
  pub allow_methods :
      granted "Access-Control-Allow-Methods" ≡ some ("PUT, PATCH, POST, GET, DELETE, OPTIONS" ∷ [])
  pub allow_credentials : granted "Access-Control-Allow-Credentials" ≡ some ("true" ∷ [])
  pub allow_headers : granted "Access-Control-Allow-Headers" ≡ elim names [
    | [] ↦ out "Access-Control-Allow-Headers"
    | n ∷ ns ↦ some (join ", " (n ∷ ns) ∷ [])
  ]
  pub vary :
      granted "Vary"
      ≡ some (
          ((values out "Vary" ++ "Origin" ∷ []) ++ "Access-Control-Request-Method" ∷ [])
          ++ "Access-Control-Request-Headers" ∷ [])
  pub tokens : All IsToken names
  pub others : (k : String) → any (λ n. n == k) cors_names ≡ false → granted k ≡ out k

unfoldable grant : String → List String → Headers → Headers
grant origin names out = set "Access-Control-Allow-Credentials" "true" (
    set_allow_headers names (
      set "Access-Control-Allow-Methods" (join ", " allowed_methods)
        (set "Access-Control-Allow-Origin" origin (add_vary out))))

grant-Granted :
    (origin : String) (names : List String) (out : Headers)
    → All IsToken names
    → Granted origin names out (grant origin names out)
unfolding grant set_allow_headers join
grant-Granted origin [] out tokens = record {
  allow_origin = refl;
  allow_methods = refl;
  allow_credentials = refl;
  allow_headers = refl;
  vary = refl;
  tokens = tokens;
  others = λ k h. ground (arith, h);
}
grant-Granted origin (n ∷ ns) out tokens = record {
  allow_origin = refl;
  allow_methods = refl;
  allow_credentials = refl;
  allow_headers = refl;
  vary = refl;
  tokens = tokens;
  others = λ k h. ground (arith, h);
}

abbrev pub origin_of : Headers → String
origin_of request = get request "Origin"

abbrev pub refused : Headers → Bool
refused request =
    is_empty (origin_of request)
    || not (is_method_allowed (get request "Access-Control-Request-Method"))

-- The three ways in which a request is answered: passed on, refused, granted.
abbrev pub CorsAnswer :
    {R : Type 0} → (ℕ → Headers → R) → (Headers → R) → String → Headers → Headers → Type 0
CorsAnswer write_header next method request out =
    ((is_preflight method request ≡ false)
      × (cors_preflight_handler write_header next method request out ≡ next out))
    ⊎ ((is_preflight method request ≡ true)
        × (refused request ≡ true)
        × (cors_preflight_handler write_header next method request out ≡ write_header 204 out))
    ⊎ ((is_preflight method request ≡ true)
        × (refused request ≡ false)
        × (granted : Headers) × Granted (origin_of request)
            (parse_header_list (get request "Access-Control-Request-Headers")) out granted
        × (cors_preflight_handler write_header next method request out ≡ write_header 204 granted))

-- A request is passed on with the response as it is where it is no preflight request, and
-- answered with 204 where it is one. That answer is the response as it is where the request has no
-- origin or asks for a method that is not allowed. Else it grants the origin, the six methods and
-- the header names that were parsed, each of which is a token, and allows credentials; it
-- adds three header names to Vary, and leaves every other header as it is.
pub cors_answers :
    {R : Type 0} (write_header : ℕ → Headers → R) (next : Headers → R) (method : String)
    (request out : Headers)
    → CorsAnswer write_header next method request out
unfolding cors_preflight_handler handle_preflight grant
cors_answers write_header next method request out =
    let names = parse_header_list (get request "Access-Control-Request-Headers") in
    elim (Bool-cases (is_preflight method request)) [
      | inr passed ↦ inl (
        passed,
        ap (λ b. if b then write_header 204 (handle_preflight request out) else next out) passed,
      )
      | inl asked ↦ elim (Bool-cases (refused request)) [
        | inl no_grant ↦ inr (
            inl (
              asked,
              no_grant,
              ap (λ b. if b then write_header 204 (handle_preflight request out) else next out)
                    asked
                  ∙ ap
                      (λ b.
                        write_header 204 (if b then out else grant (origin_of request) names out))
                      no_grant,
            ))
        | inr fine ↦ inr (
            inr (
              asked,
              fine,
              grant (origin_of request) names out,
              grant-Granted (origin_of request) names out
                  (parse_header_list-tokens (get request "Access-Control-Request-Headers")),
              ap (λ b. if b then write_header 204 (handle_preflight request out) else next out)
                    asked
                  ∙ ap
                      (λ b.
                        write_header 204 (if b then out else grant (origin_of request) names out))
                      fine,
            ))
      ]
    ]
