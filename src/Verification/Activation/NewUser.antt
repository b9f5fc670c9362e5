-- ===== src/Verification/Activation/NewUser.antt =====
-- VerifyActivationCode for a user without a UserSignup, with the signup service in place of its
-- interface.
use registration_service.Prelude.{◌≡◌, ap, ◌∙◌, String, arith, true}
use registration_service.Errors.{Err, is_not_found}
use registration_service.Action.{Action, pure, ok, err, ◌>>=◌, >>=-eq-ok}
use registration_service.Api.{UserSignup}
use registration_service.Configuration.{VerificationSpec}
use registration_service.Signup.Env.{Request, ServiceEnv, ServiceSpec}
use registration_service.Signup.Service.{sign_up}
use registration_service.Signup.Service.Origin.{Coded}
use registration_service.Signup.Service.Recorded.{Signed, sign_up-Signed}
use registration_service.Verification.Env.{Env}
use registration_service.Verification.Activation.{verify_activation_code}

-- ctx.Set(context.SocialEvent, code)
abbrev pub with_code : String → Request → Request
with_code code req = record req { social_event = code }

module _ {S W F : Type 0} (service : ServiceEnv S W F) (spec : ServiceSpec) (req : Request) where
  -- SignupService.Signup(ctx), without its resource.
  unfoldable pub signup_with_code : String → Action W (Unit {0})
  unfolding sign_up
  signup_with_code code = sign_up service spec (with_code code req) >>= λ u. pure tt

  -- The service of the verification, with the signup service.
  abbrev pub with_signup_service : Env S W F → Env S W F
  with_signup_service env = record env { signup_with_event = signup_with_code }

  -- If VerifyActivationCode returns no error for a user whose UserSignup is not found, then Signup,
  -- with the code in its request, has returned a UserSignup that the cluster holds under the name
  -- of the request's user, who is neither banned nor an administrator nor refused by the verifier;
  -- and where the code is not empty, it names a valid event, whose label that UserSignup has.
  pub new_user-Signed :
      (env : Env S W F) (cfg : VerificationSpec) (username code : String) (e : Err) (w w1 w' : W)
      → env.client.get_signup (env.encode_user_identifier username) w ≡ (err e, w1)
      → is_not_found e ≡ true
      → verify_activation_code (with_signup_service env) cfg username code w ≡ (ok tt, w')
      → (u : UserSignup S) × Signed service spec (with_code code req) w1 u w' × Coded service code u
  unfolding verify_activation_code signup_with_code
  new_user-Signed env cfg username code e w w1 w' got missing h =
      let signed : (sign_up service spec (with_code code req) >>= λ u. pure tt) w1 ≡ (ok tt, w') =
        ground (arith, h, got, missing) in
      let (u, w2, done, rest) = >>=-eq-ok (sign_up service spec (with_code code req)) _ w1 signed in
      let same : w2 ≡ w' = ap (λ x. x.1) rest in
      let signed =
        sign_up-Signed service spec (with_code code req) w1 w' u
          (done ∙ ap (λ v. (ok u, v)) same) in
      (u, signed, signed.coded)
