-- ===== src/Signup/Service.antt =====
-- `Signup`, `createUserSignup` and `reactivateUserSignup` of pkg/signup/service/signup_service.go.
pub mod Origin
pub mod Allowed
pub mod Recorded
pub mod Refused
use registration_service.Prelude.{
  Bool, true, false, ◌&&◌, Option, none, some, String, if◌then◌else◌, ◌==◌,
}
use registration_service.Text.{◌⧺◌}
use registration_service.Errors.{Err, is_not_found}
use registration_service.Action.{Action, Result, ok, err, pure, raise, attempt, check, ◌>>=◌, ◌>>◌}
use registration_service.Api.{
  UserSignup, Dict, Key, Condition, ConditionStatus, true_status, complete, insert,
  activation_counter, last_target_cluster,
}
use registration_service.Signup.Env.{
  Request, ServiceEnv, ServiceSpec, VerifierResponse, rejected_error, conflict_status,
}
use registration_service.Signup.Verifier.{verify_account, is_account_verifier_rejected}
use registration_service.Signup.New.{new_user_signup}

-- if c, exists := existing.Annotations[a]; exists { annotations[a] = c }
abbrev retain : Key → Dict → Dict → Dict
retain k old m = elim (old k) [ none ↦ m | some v ↦ insert k v m ]

abbrev pub is_true : ConditionStatus → Bool
is_true true_status = true
is_true _ = false

-- The loop over annotationsToRetain, then the annotations, labels and spec of the new resource.
unfoldable pub renew : {S : Type 0} → UserSignup S → UserSignup S → UserSignup S
renew existing u = record existing {
  annotations =
      retain last_target_cluster existing.annotations
        (retain activation_counter existing.annotations u.annotations);
  labels = u.labels;
  claims = u.claims;
  target_cluster = u.target_cluster;
  states = u.states;
}

module _ {S W F : Type 0} (env : ServiceEnv S W F) where
  -- Does the condition `complete` say that the signup is deactivated?
  unfoldable pub is_deactivated : UserSignup S → Bool
  is_deactivated u = elim (env.find_condition u.conditions complete) [
    | none ↦ false
    | some c ↦ is_true c.status && c.reason == env.user_deactivated_reason
  ]

  -- The error after a signup of a rejected user was recorded.
  abbrev pub rejection : Option VerifierResponse → Option Err
  rejection resp = if is_account_verifier_rejected env resp then some (rejected_error env) else none

  abbrev pub active_error : String → Err
  active_error username = conflict_status env (
      "UserSignup [username: " ⧺ username
      ⧺ "]. Unable to create UserSignup because there is already an active UserSignup with such a username")

  module _ (cfg : ServiceSpec) where
    unfoldable pub create_user_signup : Request → Option VerifierResponse → Action W (UserSignup S)
    unfolding new_user_signup
    create_user_signup req resp = do
      u ← new_user_signup env cfg.verification req resp
      env.client.create_signup u
      pure u

    unfoldable pub reactivate_user_signup :
        Request → UserSignup S → Option VerifierResponse → Action W (UserSignup S)
    unfolding new_user_signup renew
    reactivate_user_signup req existing resp = do
      u ← new_user_signup env cfg.verification req resp
      env.client.update_signup (renew existing u)
      pure (renew existing u)

    -- A user without a UserSignup.
    unfoldable pub sign_up_new : Request → Action W (UserSignup S)
    unfolding verify_account create_user_signup is_account_verifier_rejected
    sign_up_new req = do
      resp ← verify_account env cfg req
      u ← create_user_signup req resp
      check (rejection resp)
      pure u

    -- A deactivated user.
    unfoldable pub sign_up_again : Request → UserSignup S → Action W (UserSignup S)
    unfolding verify_account reactivate_user_signup is_account_verifier_rejected
    sign_up_again req existing = do
      resp ← verify_account env cfg req
      u ← reactivate_user_signup req existing resp
      check (rejection resp)
      pure u

    unfoldable pub sign_up_existing : Request → UserSignup S → Action W (UserSignup S)
    unfolding is_deactivated sign_up_again
    sign_up_existing req u =
        if env.states.rejected u.states
        then raise (rejected_error env)
        else if is_deactivated u
        then sign_up_again req u
        else raise (active_error req.claims.preferred_username)

    abbrev sign_up_found : Request → Result (UserSignup S) → Action W (UserSignup S)
    sign_up_found req (ok u) = sign_up_existing req u
    sign_up_found req (err e) = if is_not_found e then sign_up_new req else raise e

    -- Signup
    unfoldable pub sign_up : Request → Action W (UserSignup S)
    unfolding sign_up_new sign_up_existing is_not_found
    sign_up req = do
      r ← attempt (env.client.get_signup (env.encode_user_identifier req.claims.preferred_username))
      sign_up_found req r
