-- ===== src/Controller/Signup.antt =====
-- pkg/controller/signup.go: the handlers of the signup endpoint.
pub mod Answered
use registration_service.Prelude.{
  ℕ, Bool, true, false, Option, none, some, List, [], ◌∷◌, String, if◌then◌else◌,
}
use registration_service.Prelude.Int.{ℤ}
use registration_service.Text.{is_empty}
use registration_service.Text.Decimal.{atoi, itoa}
use registration_service.Errors.{
  Err, Error, plain, as_crt, as_status, internal_server_error, bad_request, not_found,
}
use registration_service.Action.{Action, Result, ok, err}
use registration_service.Api.{UserSignup, Claims}
use registration_service.Configuration.{VerificationSpec}
use registration_service.Signup.Env.{ServiceEnv, ServiceSpec, Request}
use registration_service.Signup.Service.{sign_up}
use registration_service.Signup.Status.{SignupResponse, do_get_signup}
use registration_service.Verification.Env.{Env}
use registration_service.Verification.Init.{init_verification}
use registration_service.Verification.Verify.{verify_phone_code}
use registration_service.Verification.Activation.{verify_activation_code}
use registration_service.Controller.Answer.{
  Answer, abort_json, abort, status, json, abort_with_error,
}

-- The body of a request for a verification.
pub record Phone : Type 0 where
  pub country_code : String
  pub phone_number : String

-- The library phonenumbers: GetRegionCodeForCountryCode, Parse, and Format as E164.
pub record PhoneNumbers (N : Type 0) : Type 0 where
  pub get_region_code_for_country_code : ℤ → String
  pub parse : String → String → Result N
  pub format_e164 : N → String

abbrev pub None : Type 0
None = Unit {0}

-- The code of a `*crterrors.Error`, if there is one in the error, with its text.
abbrev pub crt_answer : {B : Type 0} → (Error → String) → String → Err → Option Error → Answer B
crt_answer text otherwise e (some c) = abort_with_error c.code e (text c)
crt_answer text otherwise e none = abort_with_error internal_server_error e otherwise

-- The code of a `*StatusError`, if there is one in the error.
abbrev pub status_answer : {B : Type 0} → String → Err → Option ℕ → Answer B
status_answer text e (some code) = abort_with_error code e text
status_answer text e none = abort_with_error internal_server_error e text

module _ {S W F : Type 0} (env : ServiceEnv S W F) where
  abbrev pub created : Result (UserSignup S) → List (Answer None)
  created (ok u) = status 202 ∷ []
  created (err e) = status_answer "error creating UserSignup resource" e (as_status e) ∷ []

  unfoldable pub post_handler : ServiceSpec → Request → W → List (Answer None) × W
  unfolding sign_up as_status abort_with_error
  post_handler cfg req w = let (r, w') = sign_up env cfg req w in (created r, w')

  abbrev pub shown : Option SignupResponse → List (Answer SignupResponse)
  shown none = abort not_found ∷ []
  shown (some r) = json 200 r ∷ []

  -- After an error that is no status error the handler goes on, with no signup.
  abbrev pub got_error : Err → Option ℕ → List (Answer SignupResponse)
  got_error e (some code) = abort_with_error code e "error getting UserSignup resource" ∷ []
  got_error e none =
      abort_with_error internal_server_error e "error getting UserSignup resource" ∷ shown none

  abbrev pub got : Result (Option SignupResponse) → List (Answer SignupResponse)
  got (ok o) = shown o
  got (err e) = got_error e (as_status e)

  unfoldable pub get_handler : Claims → W → List (Answer SignupResponse) × W
  unfolding do_get_signup as_status abort_with_error
  get_handler claims w =
      let (r, w') = do_get_signup env (some claims) claims.preferred_username true w in (got r, w')

module _ {S W F : Type 0} (env : Env S W F) (cfg : VerificationSpec) where
  abbrev pub initiated : Result (Unit {0}) → List (Answer None)
  initiated (ok _) = status 204 ∷ []
  initiated (err e) =
      crt_answer (λ c. c.message) "error while initiating verification" e (as_crt e) ∷ []

  module _ {N : Type 0} (numbers : PhoneNumbers N) where
    abbrev pub init_number : String → ℤ → Result N → W → List (Answer None) × W
    init_number username country_code (err e) w =
        (abort_with_error bad_request e "invalid phone number provided" ∷ [], w)
    init_number username country_code (ok number) w =
        let (r, w') =
          init_verification env cfg username (numbers.format_e164 number) (itoa country_code) w in
        (initiated r, w')

    abbrev pub init_country : String → Phone → Option ℤ → W → List (Answer None) × W
    init_country username phone none w = (
      abort_with_error bad_request (plain (env.atoi_error phone.country_code))
            "invalid country_code"
          ∷ [],
      w,
    )
    init_country username phone (some country_code) w =
        init_number username country_code
          (numbers.parse phone.phone_number (numbers.get_region_code_for_country_code country_code))
          w

    -- `body` is what BindJSON reads.
    unfoldable pub init_verification_handler : String → Result Phone → W → List (Answer None) × W
    unfolding init_verification as_crt abort_with_error
    init_verification_handler username (err e) w =
        (abort_with_error bad_request e "error reading request body" ∷ [], w)
    init_verification_handler username (ok phone) w =
        init_country username phone (atoi phone.country_code) w

  abbrev pub verified : Result (Unit {0}) → List (Answer None)
  verified (ok _) = status 200 ∷ []
  verified (err e) =
      crt_answer (λ c. "error while verifying phone code")
        "unexpected error while verifying phone code" e (as_crt e)
      ∷ []

  unfoldable pub verify_phone_code_handler : String → String → W → List (Answer None) × W
  unfolding verify_phone_code as_crt abort_with_error
  verify_phone_code_handler username code w =
      let (r, w') = verify_phone_code env cfg username code w in
      if is_empty code then (abort bad_request ∷ [], w) else (verified r, w')

  abbrev pub activated : Result (Unit {0}) → List (Answer None)
  activated (ok _) = status 200 ∷ []
  activated (err e) =
      crt_answer (λ c. "error while verifying activation code")
        "unexpected error while verifying activation code" e (as_crt e)
      ∷ []

  -- `body` is what BindJSON reads: the text of the field `code`, if it is one.
  unfoldable pub verify_activation_code_handler :
      String → Result (Option String) → W → List (Answer None) × W
  unfolding verify_activation_code as_crt abort_with_error
  verify_activation_code_handler username (err e) w = (abort bad_request ∷ [], w)
  verify_activation_code_handler username (ok none) w = (abort bad_request ∷ [], w)
  verify_activation_code_handler username (ok (some code)) w =
      let (r, w') = verify_activation_code env cfg username code w in (activated r, w')
