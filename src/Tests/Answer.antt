-- ===== src/Tests/Answer.antt =====
-- The theorem on the proxy's answers at a concrete request.
use registration_service.Prelude.{◌≡◌, false, [], ◌∷◌, refl}
use registration_service.Errors.{plain}
use registration_service.Action.{err}
use registration_service.Proxy.Answer.{answered, error_code, handle_request}
use registration_service.Proxy.Answer.Codes.{Rejection, handle_request-Rejection}
use registration_service.Tests.Service.{active_ann, world, proxy}

-- A request without a token.
answered_unauthorized :
    handle_request proxy
      (λ s. s)
      false
      "/api"
      (err (plain "no token found"))
      "/api"
      (world (active_ann ∷ []))
    ≡ (answered 401 "invalid bearer token: no token found", world (active_ann ∷ []))
unfolding handle_request error_code
answered_unauthorized = refl

handle_request-Rejection_example : Rejection "/api" (err (plain "no token found")) 401
handle_request-Rejection_example =
    handle_request-Rejection proxy (λ s. s) false "/api" (err (plain "no token found")) "/api"
      (world (active_ann ∷ [])) (world (active_ann ∷ [])) 401 "invalid bearer token: no token found"
      answered_unauthorized
