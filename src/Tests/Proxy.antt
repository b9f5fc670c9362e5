-- ===== src/Tests/Proxy.antt =====
-- The theorems on the proxy at concrete inputs.
use registration_service.Prelude.{
  not, ◌&&◌, ℕ, ◌≡◌, refl, false, none, some, [], ◌∷◌, if◌then◌else◌, ◌==◌,
}
use registration_service.Text.{◌⧺◌}
use registration_service.Action.{Result, ok, err}
use registration_service.Signup.Poll.{poll_update_signup}
use registration_service.Proxy.Paths.{get_workspace_context}
use registration_service.Proxy.Paths.Split.{has_no_slash}
use registration_service.Proxy.Paths.RoundTrip.{context_round_trip}
use registration_service.Proxy.Request.{Routed, process_request, process_request-Served}
use registration_service.Proxy.Access.Granted.{Served}
use registration_service.Proxy.Headers.{Headers, Forwarded, has_prefix_fold}
use registration_service.Proxy.Headers.HopByHop.{is_connection_named, sent_headers}
use registration_service.Proxy.Headers.Sent.{sent_impersonates}
use registration_service.Proxy.Cors.{handle_preflight, is_method_allowed, to_upper}
use registration_service.Proxy.Cors.Answered.{CorsAnswer, refused, cors_answers}
use registration_service.Tests.World.{World}
use registration_service.Tests.Service.{active_ann, world, proxy}

context_round_trip_example :
    (get_workspace_context (λ s. s) ("/workspaces/" ⧺ "team" ⧺ "/" ⧺ "api/v1")
      ≡ ok (record { plugin = ""; workspace = "team"; path = "/" ⧺ "api/v1" }))
    × (get_workspace_context
          (λ s. s)
          ("/plugins/" ⧺ "tekton" ⧺ "/workspaces/" ⧺ "team" ⧺ "/" ⧺ "api/v1")
        ≡ ok (record { plugin = "tekton"; workspace = "team"; path = "/" ⧺ "api/v1" }))
unfolding has_no_slash
context_round_trip_example = context_round_trip (λ s. s) "tekton" "team" "api/v1" refl refl

abbrev granted : Result Routed × World
granted =
    process_request proxy (λ s. s) false "ann" ("/workspaces/" ⧺ "team" ⧺ "/" ⧺ "api")
      (world (active_ann ∷ []))

abbrev routed_of : Result Routed → Routed
routed_of (ok r) = r
routed_of (err e) = record {
  path = "";
  plugin = "";
  access = record {
    api_url = record { scheme = ""; host = ""; path = ""; raw_query = "" };
    impersonator_token = "";
    username = "";
  };
}

granted_runs : granted ≡ (ok (routed_of granted.0), granted.1)
unfolding process_request poll_update_signup
granted_runs = refl

process_request-Served_example :
    ((routed_of granted.0).path ≡ "/" ⧺ "api")
    × Served proxy false "ann" "" "team" (routed_of granted.0).access
unfolding has_no_slash
process_request-Served_example =
    process_request-Served proxy (λ s. s) false "ann" "team" "api" (routed_of granted.0)
      (world (active_ann ∷ [])) granted.1 refl refl granted_runs

-- A client that tries to impersonate an administrator.
abbrev forged : Headers
forged k = if k == "Impersonate-User" then some ("admin" ∷ []) else none

abbrev forwarded : Forwarded
forwarded = record {
  url = record { scheme = "https"; host = "proxy"; path = "/api"; raw_query = "" };
  host = "proxy";
  headers = forged;
}

sent_impersonates_example :
    sent_headers
      (λ h. false)
      (λ s. s)
      (routed_of granted.0).access
      "ann"
      false
      forwarded
      "Impersonate-User"
    ≡ (if "Impersonate-User" == "Impersonate-User"
          && not (is_connection_named forwarded.headers "Impersonate-User")
        then some ((routed_of granted.0).access.username ∷ [])
        else none)
unfolding has_prefix_fold
sent_impersonates_example =
    sent_impersonates (λ h. false) (λ s. s) (routed_of granted.0).access "ann" false forwarded
      "Impersonate-User" refl

-- A client that has the header removed, which leaves the token of the member cluster alone.
abbrev hop_by_hop : Headers
hop_by_hop k = if k == "Connection" then some ("close, impersonate-user" ∷ []) else none

impersonation_removed :
    sent_headers
      (λ h. false)
      (λ s. s)
      (routed_of granted.0).access
      "ann"
      false
      (record forwarded { headers = hop_by_hop })
      "Impersonate-User"
    ≡ none
unfolding sent_headers
impersonation_removed = refl

-- A preflight request for a header.
abbrev preflight_request : Headers
preflight_request k =
    if k == "Origin"
    then some ("https://console" ∷ [])
    else if k == "Access-Control-Request-Method"
    then some ("patch" ∷ [])
    else if k == "Access-Control-Request-Headers"
    then some ("x-user-ID, content-type" ∷ [])
    else none

preflight_is_granted : refused preflight_request ≡ false
unfolding is_method_allowed to_upper
preflight_is_granted = refl

preflight_names :
    (handle_preflight preflight_request λ k. none) "Access-Control-Allow-Headers"
    ≡ some ("X-User-Id, Content-Type" ∷ [])
unfolding handle_preflight
preflight_names = refl

cors_answers_example :
    CorsAnswer {R = ℕ × Headers}
      (λ code h. (code, h))
      (λ h. (200, h))
      "OPTIONS"
      preflight_request
      (λ k. none)
cors_answers_example =
    cors_answers (λ code h. (code, h)) (λ h. (200, h)) "OPTIONS" preflight_request (λ k. none)
