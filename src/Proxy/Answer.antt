-- ===== src/Proxy/Answer.antt =====
-- pkg/proxy/proxy.go: `customHTTPErrorHandler`, and what becomes of a request that is no request to
-- SSO: the middleware, `processRequest`, and the answer to an error.
pub mod Denials
pub mod Codes
use registration_service.Prelude.{ℕ, Bool, Option, none, some, String}
use registration_service.Errors.{Err, as_crt, error_text, internal_server_error}
use registration_service.Action.{Result, ok, err, Action}
use registration_service.Proxy.Env.{ProxyEnv}
use registration_service.Proxy.Guard.{TokenClaims, guarded}
use registration_service.Proxy.Request.{Routed, process_request}

unfoldable pub error_code : Err → ℕ
unfolding as_crt
error_code e = elim (as_crt e) [ none ↦ internal_server_error | some c ↦ c.code ]

-- A request is forwarded, or answered with a code and a text.
pub data ProxyAnswer : Type 0 where
  forwarded : Routed → ProxyAnswer
  answered : ℕ → String → ProxyAnswer

abbrev pub custom_http_error_handler : Err → ProxyAnswer
custom_http_error_handler e = answered (error_code e) (error_text e)

abbrev pub answer_to : Result Routed → ProxyAnswer
answer_to (ok r) = forwarded r
answer_to (err e) = custom_http_error_handler e

module _ {S W F : Type 0} (env : ProxyEnv S W F) (quote : String → String) where
  -- The request, for its URI, its path and the claims of its token; the first argument is the
  -- setting that addPublicViewerContext puts into the context.
  unfoldable pub proxied : Bool → String → Result TokenClaims → String → Action W Routed
  unfolding guarded process_request
  proxied public_viewer_enabled uri token path =
      guarded env.service uri token
        λ c. process_request env quote public_viewer_enabled c.preferred_username path

  -- A request that the router gives to handleRequestAndRedirect.
  unfoldable pub handle_request : Bool → String → Result TokenClaims → String → W → ProxyAnswer × W
  unfolding proxied
  handle_request public_viewer_enabled uri token path w =
      let (r, w') = proxied public_viewer_enabled uri token path w in (answer_to r, w')
