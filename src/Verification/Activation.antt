-- ===== src/Verification/Activation.antt =====
-- `VerifyActivationCode` and `checkAttempts` of verification_service.go. The variables
-- `attemptsMade` and `errToReturn` outlive the retries of the update, so they are part of the
-- state that the update passes on.
pub mod Stored
pub mod Retries
pub mod NewUser
use registration_service.Prelude.{ℕ, Bool, true, false, Option, none, some, String, if◌then◌else◌}
use registration_service.Prelude.Int.{ℤ, pos, lebℤ, increment}
use registration_service.Text.{◌⧺◌, is_empty}
use registration_service.Text.Decimal.{atoi, itoa}
use registration_service.Errors.{
  Err, plain, is_not_found, new_internal_error, new_too_many_requests_error,
}
use registration_service.Action.{
  Action, Result, ok, err, raise, attempt, lift, map_err, check, ◌>>=◌, ◌>>◌,
}
use registration_service.Api.{UserSignup, SocialEvent, insert, delete, verification_attempts, value}
use registration_service.Configuration.{VerificationSpec, attempts_allowed}
use registration_service.Signup.Poll.{poll_update_signup}
use registration_service.Signup.Event.{
  get_and_validate_social_event, update_user_signup_with_social_event,
}
use registration_service.Verification.Env.{Env}

-- The variables of the closure, beside the world.
pub record Locals (W : Type 0) : Type 0 where
  pub attempts_made : ℤ
  pub to_return : Option Err
  pub world : W

-- A call that leaves the variables alone.
abbrev pub on_world : {W A : Type 0} → Action W A → Action (Locals W) A
on_world m l = let (r, w) = m l.world in (r, record l { world = w })

module _ {S W F : Type 0} (env : Env S W F) (cfg : VerificationSpec) where
  not_a_number : UserSignup S → String → Err
  not_a_number signup v = new_internal_error (plain (env.atoi_error v)) (
      "error converting annotation [" ⧺ env.attempts_key ⧺ "] value [" ⧺ v
      ⧺ "] to integer, on UserSignup: [" ⧺ signup.name ⧺ "]")

  -- The attempts made, or the error of a value that is no number or has reached the limit.
  unfoldable pub check_attempts : UserSignup S → Result ℤ
  unfolding atoi attempts_allowed not_a_number
  check_attempts signup =
      let v = value signup.annotations verification_attempts in
      if is_empty v then ok (pos 0) else elim (atoi v) [
        | none ↦ err (not_a_number signup v)
        | some attempts ↦
            if lebℤ (attempts_allowed cfg) attempts
            then err (new_too_many_requests_error "too many verification attempts" v)
            else ok attempts
      ]

  -- The changes to the signup for a refused code, and for the event of an accepted one.
  unfoldable pub count_attempt : ℤ → UserSignup S → UserSignup S
  unfolding itoa
  count_attempt attempts signup = record signup {
    annotations = insert verification_attempts (itoa attempts) signup.annotations;
  }

  unfoldable pub approve : SocialEvent → UserSignup S → UserSignup S
  unfolding update_user_signup_with_social_event
  approve event signup =
      let approved = update_user_signup_with_social_event env.states event signup in
      record approved { annotations = delete verification_attempts approved.annotations }

  -- The variables and the signup after the validation of the event.
  unfoldable pub judge_event :
      Result SocialEvent → UserSignup S → Locals W → UserSignup S × Locals W
  unfolding count_attempt approve
  judge_event (err e) signup l =
      let attempts = increment l.attempts_made in
      (count_attempt attempts signup, record l { attempts_made = attempts; to_return = some e })
  judge_event (ok event) signup l = (approve event signup, l)

  unfoldable pub activation_update : String → String → Action (Locals W) (Unit {0})
  unfolding judge_event
  activation_update username code = do
    signup ← on_world (env.client.get_signup (env.encode_user_identifier username))
    event ← on_world (attempt (get_and_validate_social_event env.client code))
    λ l.
        let (signup', l') = judge_event event signup l in
        on_world (env.client.update_signup signup') l'

  abbrev first_error : Option Err → Result (Unit {0}) → Option Err
  first_error (some e) r = some e
  first_error none (ok _) = none
  first_error none (err e) = some e

  -- The update with its retries, and the error to return.
  unfoldable pub activate : String → String → ℤ → Action W (Unit {0})
  unfolding activation_update
  activate username code attempts w =
      let (r, l) =
        poll_update_signup (activation_update username code)
          (record { attempts_made = attempts; to_return = none; world = w }) in
      check (first_error l.to_return r) l.world

  retrieve_error : String → Err → Err
  retrieve_error username e =
      new_internal_error e ("error retrieving usersignup with username '" ⧺ username ⧺ "'")

  -- A user without a UserSignup is signed up with the code.
  unfoldable pub with_signup : String → String → Result (UserSignup S) → Action W (Unit {0})
  unfolding check_attempts activate retrieve_error
  with_signup username code (err e) =
      if is_not_found e then env.signup_with_event code else raise (retrieve_error username e)
  with_signup username code (ok signup) = do
    attempts ← lift (check_attempts signup)
    activate username code attempts

  unfoldable pub verify_activation_code : String → String → Action W (Unit {0})
  unfolding with_signup
  verify_activation_code username code = do
    found ← attempt (env.client.get_signup (env.encode_user_identifier username))
    with_signup username code found
