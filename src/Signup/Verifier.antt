-- ===== src/Signup/Verifier.antt =====
-- `callAccountVerifier` and `verifyAccount` of pkg/signup/service/signup_service.go.
use registration_service.Prelude.{
  Bool, false, ◌||◌, Option, none, some, String, eqb, if◌then◌else◌, ◌==◌,
}
use registration_service.Text.{◌⧺◌, is_empty}
use registration_service.Errors.{plain, wrapped}
use registration_service.Action.{
  Action, Result, ok, err, pure, raise, lift, attempt, map_err, ◌>>=◌,
}
use registration_service.Configuration.{default}
use registration_service.Signup.Env.{
  ServiceEnv, ServiceSpec, HttpResponse, VerifierResponse, Request,
}

unfoldable pub account_verifier_mode : ServiceSpec → String
account_verifier_mode cfg = default cfg.account_verifier_mode "log"

unfoldable pub account_verifier_url : ServiceSpec → String
account_verifier_url cfg = default cfg.account_verifier_url ""

-- The response that is used: only in the mode `enabled`, and only if the call did not fail.
abbrev used_response : Bool → Result VerifierResponse → Option VerifierResponse
used_response is_enabled (err e) = none
used_response is_enabled (ok r) = if is_enabled then some r else none

module _ {S W F : Type 0} (env : ServiceEnv S W F) where
  -- The body of a response with the status 200, decoded.
  unfoldable pub decode_body : String → HttpResponse → String → Action W VerifierResponse
  decode_body email resp body =
      if eqb resp.status_code 200
      then map_err (wrapped ("failed to unmarshal account verifier response for email " ⧺ email))
          (lift (env.unmarshal_response body))
      else raise (
          plain (
            "account verifier returned status "
            ⧺ env.show_code resp.status_code
            ⧺ " for email "
            ⧺ email
            ⧺ ": "
            ⧺ body))

  unfoldable pub decode_response : String → HttpResponse → Action W VerifierResponse
  unfolding decode_body
  decode_response email resp = do
    body ←
        map_err (wrapped ("failed to read account verifier response for email " ⧺ email))
          (lift resp.body)
    decode_body email resp body

  unfoldable pub call_account_verifier : String → String → Action W VerifierResponse
  unfolding decode_response
  call_account_verifier url email = do
    body ←
        map_err (wrapped "failed to marshal account verifier request")
          (lift (env.marshal_email email))
    resp ←
        map_err (wrapped ("failed to call account verifier for email " ⧺ email))
          (env.post (url ⧺ "/verify-account") body)
    decode_response email resp

  unfoldable pub is_account_verifier_rejected : Option VerifierResponse → Bool
  is_account_verifier_rejected none = false
  is_account_verifier_rejected (some r) = r.result == env.result_rejected

  -- The response of the verifier that the signup takes into account.
  unfoldable pub verify_account : ServiceSpec → Request → Action W (Option VerifierResponse)
  unfolding call_account_verifier account_verifier_mode account_verifier_url
  verify_account cfg req =
      if account_verifier_mode cfg == "disabled"
        || is_empty (account_verifier_url cfg)
        || is_empty req.claims.email
      then pure none
      else (do
        r ← attempt (call_account_verifier (account_verifier_url cfg) req.claims.email)
        pure (used_response (account_verifier_mode cfg == "enabled") r))
