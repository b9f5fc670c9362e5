-- ===== src/Tests/Controller.antt =====
-- The theorem on a handler at a concrete request.
use registration_service.Prelude.{some, [], ◌∷◌, true}
use registration_service.Signup.Status.{do_get_signup}
use registration_service.Controller.Signup.{get_handler}
use registration_service.Controller.Signup.Answered.{GetAnswers, get_handler-GetAnswers}
use registration_service.Tests.World.{claims_of}
use registration_service.Tests.Service.{service, world, active_ann}

get_handler-GetAnswers_example :
    GetAnswers service
      (do_get_signup service (some (claims_of "ann")) "ann" true (world (active_ann ∷ []))).0
      (get_handler service (claims_of "ann") (world (active_ann ∷ []))).0
get_handler-GetAnswers_example =
    get_handler-GetAnswers service (claims_of "ann") (world (active_ann ∷ []))
