-- ===== src/Verification/Verify.antt =====
-- `VerifyPhoneCode` and `checkRequiredManualApproval` of verification_service.go.
pub mod Checks
pub mod Applied
pub mod Stored
pub mod Lockout
use registration_service.Prelude.{
  ℕ, Bool, true, false, not, ◌&&◌, Option, none, some, String, eqb, ltb, if◌then◌else◌, ◌==◌,
}
use registration_service.Prelude.Int.{ℤ, pos, negsuc, lebℤ, increment}
use registration_service.Text.{◌⧺◌}
use registration_service.Text.Decimal.{atoi, itoa}
use registration_service.Errors.{
  Err, plain, is_not_found, new_forbidden_error, new_internal_error, new_not_found_error,
  new_bad_request, new_too_many_requests_error,
}
use registration_service.Action.{Action, Result, ok, err, map_err, check, ◌>>=◌, ◌>>◌}
use registration_service.Api.{
  UserSignup, Dict, empty, insert, insert_all, delete, value, activation_counter, captcha_score,
  user_phone_hash, verification_attempts, verification_code, verification_counter,
  verification_expiry, verification_init_timestamp,
}
use registration_service.Configuration.{
  VerificationSpec, attempts_allowed, captcha_required_score, captcha_allow_low_score_reactivation,
}
use registration_service.Signup.Poll.{poll_update_signup}
use registration_service.Verification.Env.{Env}
use registration_service.Verification.Phone.{phone_number_already_in_use}

abbrev pub update_error : Err
update_error = plain (
    "there was an error while updating your account - please wait a moment before "
    ⧺ "trying again. If this error persists, please contact the Developer Sandbox team at devsandbox@redhat.com for "
    ⧺ "assistance: error while verifying phone code")

-- What the checks decide before the update: the annotations to set, whether the code was accepted
-- (the flag `unsetVerificationRequired` and the list `annotationsToDelete`), and the error.
pub record Outcome : Type 0 where
  pub values : Dict
  pub accepted : Bool
  pub error : Option Err

abbrev pub too_many : Err
too_many = new_too_many_requests_error "too many verification attempts" ""

abbrev pub invalid_code : Err
invalid_code = new_forbidden_error "invalid code" "the provided code is invalid"

abbrev pub expired : Err
expired = new_forbidden_error "expired" "verification code expired"

abbrev pub approval_error : Err
approval_error =
    new_forbidden_error "verification failed" "verification is not available at this time"

abbrev is_one : ℤ → Bool
is_one (pos n) = eqb n 1
is_one (negsuc n) = false

-- The annotations deleted after a match.
abbrev pub clear : Dict → Dict
clear m = delete verification_expiry (
    delete verification_init_timestamp
      (delete verification_counter (delete verification_attempts (delete verification_code m))))

module _ {S W F : Type 0} (env : Env S W F) (cfg : VerificationSpec) where
  -- The error of a stored captcha score below the required one.
  unfoldable pub check_required_manual_approval : UserSignup S → Option Err
  unfolding captcha_required_score
  check_required_manual_approval signup = elim (signup.annotations captcha_score) [
    | none ↦ none
    | some score ↦ elim (env.floats.parse_float score) [
      | none ↦ none
      | some s ↦
          if env.floats.less s (captcha_required_score env.floats cfg)
          then some approval_error
          else none
    ]
  ]

  -- The score of a reactivation (an activation counter other than 1) is not checked.
  unfoldable pub check_approval : UserSignup S → Option Err
  unfolding check_required_manual_approval captcha_allow_low_score_reactivation atoi
  check_approval signup = elim (signup.annotations activation_counter) [
    | none ↦ check_required_manual_approval signup
    | some counter ↦
        if captcha_allow_low_score_reactivation cfg
        then elim (atoi counter) [
          | none ↦ check_required_manual_approval signup
          | some n ↦ if is_one n then check_required_manual_approval signup else none
        ]
        else check_required_manual_approval signup
  ]

  -- The expiry and the comparison of the code, after the check of the attempts.
  compare_code : ℕ → String → UserSignup S → ℤ → Dict → Outcome
  unfolding itoa
  compare_code now code signup attempts values =
      elim (env.parse_time (value signup.annotations verification_expiry)) [
        | err e ↦ record {
          values = values;
          accepted = false;
          error = some (new_internal_error e "error parsing expiry timestamp");
        }
        | ok exp ↦
            if ltb exp now
            then record { values = values; accepted = false; error = some expired }
            else if code == value signup.annotations verification_code
            then record { values = values; accepted = true; error = none }
            else record {
              values = insert verification_attempts (itoa (increment attempts)) values;
              accepted = false;
              error = some invalid_code;
            }
      ]

  -- The check of the attempts made, and what follows it.
  limit_attempts : ℕ → String → UserSignup S → ℤ → Dict → Outcome
  unfolding compare_code
  limit_attempts now code signup attempts values =
      if lebℤ (attempts_allowed cfg) attempts
      then record { values = values; accepted = false; error = some too_many }
      else compare_code now code signup attempts values

  -- The checks, from the attempts to the comparison of the code.
  unfoldable pub assess : ℕ → String → UserSignup S → Outcome
  unfolding limit_attempts attempts_allowed atoi
  assess now code signup = elim (atoi (value signup.annotations verification_attempts)) [
    | none ↦
        limit_attempts now code signup (attempts_allowed cfg)
          (insert verification_attempts (itoa (attempts_allowed cfg)) empty)
    | some attempts ↦ limit_attempts now code signup attempts empty
  ]

  -- The changes that `doUpdate` makes to the signup that it reads.
  unfoldable pub apply_outcome : Outcome → UserSignup S → UserSignup S
  apply_outcome o signup =
      if o.accepted
      then record signup {
        states = env.states.set_verification_required false signup.states;
        annotations = clear (insert_all o.values signup.annotations);
      }
      else record signup { annotations = insert_all o.values signup.annotations }

  unfoldable pub verify_update : String → Outcome → Action W (Unit {0})
  unfolding apply_outcome
  verify_update username o = do
    signup ← env.client.get_signup (env.encode_user_identifier username)
    env.client.update_signup (apply_outcome o signup)

  get_error : String → Err → Err
  get_error username e =
      if is_not_found e
      then new_not_found_error e "user not found"
      else new_internal_error e ("error retrieving usersignup with username '" ⧺ username ⧺ "'")

  in_use_error : Err → Err
  in_use_error e =
      new_bad_request "phone number already in use"
        "the phone number provided for this signup is already in use by an active account"

  -- The part after the reads: the checks at the world's time, the update, the verification error.
  unfoldable pub conclude : String → String → UserSignup S → Action W (Unit {0})
  unfolding assess verify_update
  conclude username code signup w =
      let o = assess (env.client.now w) code signup in
      (do
        map_err (λ _. update_error) (poll_update_signup (verify_update username o))
        check o.error)
        w

  unfoldable pub verify_phone_code : String → String → Action W (Unit {0})
  unfolding get_error in_use_error check_approval conclude
  verify_phone_code username code = do
    signup ←
        map_err (get_error username) (env.client.get_signup (env.encode_user_identifier username))
    check (check_approval signup)
    map_err in_use_error
        (phone_number_already_in_use env username (value signup.labels user_phone_hash))
    conclude username code signup
