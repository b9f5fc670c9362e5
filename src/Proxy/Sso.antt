-- ===== src/Proxy/Sso.antt =====
-- pkg/proxy/proxy.go: the requests of a web login, which go to the SSO server, and the transport that
-- requests are forwarded with; with the getters of pkg/configuration/configuration.go.
pub mod Login
use registration_service.Prelude.{
  ℕ, Bool, true, false, not, Option, none, some, List, [], ◌∷◌, String, if◌then◌else◌,
}
use registration_service.Text.{◌⧺◌}
use registration_service.Action.{Result, ok, err}
use registration_service.Configuration.{default}
use registration_service.Auth.Keys.{AuthSpec, is_prod_environment}
use registration_service.Proxy.Env.{Url}
use registration_service.Proxy.Headers.{Headers, Forwarded, get, has_prefix_fold}

pub record SsoSpec : Type 0 where
  pub sso_base_url : Option String
  pub sso_realm : Option String

unfoldable pub sso_base_url : SsoSpec → String
sso_base_url c = default c.sso_base_url "https://sso.devsandbox.dev"

unfoldable pub sso_realm : SsoSpec → String
sso_realm c = default c.sso_realm "sandbox-dev"

unfoldable pub sso_well_known_target : SsoSpec → String
unfolding sso_base_url sso_realm
sso_well_known_target c =
    sso_base_url c ⧺ "/auth/realms/" ⧺ sso_realm c ⧺ "/.well-known/openid-configuration"

unfoldable pub openid_auth_endpoint : SsoSpec → String
unfolding sso_realm
openid_auth_endpoint c = "/auth/realms/" ⧺ sso_realm c ⧺ "/protocol/openid-connect/auth"

unfoldable pub authorization_endpoint_target : SsoSpec → String
unfolding sso_base_url openid_auth_endpoint
authorization_endpoint_target c = sso_base_url c ⧺ openid_auth_endpoint c

-- The director of handleSSORequest.
unfoldable pub handle_sso_request : Url → Forwarded → Forwarded
handle_sso_request target req = record req { url = target; host = target.host }

-- A request is proxied, or redirected with a code.
pub data SsoAnswer : Type 0 where
  proxied_to_sso : Forwarded → SsoAnswer
  redirected : ℕ → Url → SsoAnswer

abbrev answer_of : (Url → SsoAnswer) → Result Url → Result SsoAnswer
answer_of f (ok target) = ok (f target)
answer_of f (err e) = err e

-- The URL with the path and the query of the request.
abbrev pub at_path_of : Forwarded → Url → Url
at_path_of req target = record target { path = req.url.path; raw_query = req.url.raw_query }

-- `parse_url` is url.Parse.
module _ (parse_url : String → Result Url) (c : SsoSpec) where
  unfoldable pub auth : Forwarded → Result SsoAnswer
  unfolding sso_base_url handle_sso_request
  auth req =
      answer_of (λ target. proxied_to_sso (handle_sso_request (at_path_of req target) req))
        (parse_url (sso_base_url c))

  unfoldable pub oauth_configuration : Forwarded → Result SsoAnswer
  unfolding sso_well_known_target handle_sso_request
  oauth_configuration req =
      answer_of (λ target. proxied_to_sso (handle_sso_request target req))
        (parse_url (sso_well_known_target c))

  unfoldable pub openid_auth : Forwarded → Result SsoAnswer
  unfolding authorization_endpoint_target
  openid_auth req =
      answer_of (λ target. redirected 303 (at_path_of req target))
        (parse_url (authorization_endpoint_target c))

-- What getTransport sets in its clone of the default transport, which attempts HTTP/2 and has no
-- TLS settings.
pub record TlsConfig : Type 0 where
  pub insecure_skip_verify : Bool
  pub next_protos : List String

pub record Transport : Type 0 where
  pub tls_client_config : Option TlsConfig
  pub force_attempt_http2 : Bool

abbrev environment_tls : AuthSpec → Option TlsConfig
environment_tls c =
    if is_prod_environment c
    then none
    else some (record { insecure_skip_verify = true; next_protos = [] })

unfoldable pub get_transport : AuthSpec → Headers → Transport
unfolding has_prefix_fold is_prod_environment
get_transport c h =
    if has_prefix_fold "spdy/" (get h "Upgrade")
    then record {
      tls_client_config =
          some (record { insecure_skip_verify = false; next_protos = "http/1.1" ∷ [] });
      force_attempt_http2 = false;
    }
    else record { tls_client_config = environment_tls c; force_attempt_http2 = true }
