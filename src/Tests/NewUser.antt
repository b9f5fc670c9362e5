-- ===== src/Tests/NewUser.antt =====
-- A new user with an activation code.
use registration_service.Prelude.{◌≡◌, refl, true, [], ◌∷◌}
use registration_service.Prelude.Int.{pos}
use registration_service.Errors.{status, is_not_found}
use registration_service.Action.{Result, ok}
use registration_service.Api.{SocialEvent}
use registration_service.Signup.Service.Origin.{Coded}
use registration_service.Signup.Service.Recorded.{Signed}
use registration_service.Verification.Activation.{verify_activation_code}
use registration_service.Verification.Activation.NewUser.{
  signup_with_code, with_code, with_signup_service, new_user-Signed,
}
use registration_service.Tests.World.{User, World, env, cfg}
use registration_service.Tests.Service.{service, spec, request, world}

abbrev party : SocialEvent
party = record {
  name = "party";
  activation_count = pos 0;
  max_attendees = pos 5;
  start_time = 0;
  end_time = 100;
  verification_required = true;
  target_cluster = "";
}

abbrev invited : World
invited = record (world []) { events = party ∷ [] }

abbrev activated : Result (Unit {0}) × World
activated =
    verify_activation_code (with_signup_service service (spec "disabled") (request "ann") env) cfg
      "ann" "party" invited

activated_runs : activated ≡ (ok tt, activated.1)
unfolding verify_activation_code signup_with_code is_not_found
activated_runs = refl

new_user-Signed_example :
    (u : User) × Signed service
      (spec "disabled")
      (with_code "party" (request "ann"))
      invited
      u
      activated.1
    × Coded service "party" u
new_user-Signed_example =
    new_user-Signed service (spec "disabled") (request "ann") env cfg "ann" "party"
      (status 404 "not found") invited invited activated.1 refl (unfold is_not_found in refl)
      activated_runs
