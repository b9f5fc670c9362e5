-- ===== src/Tests/Activation.antt =====
-- The theorems on the update loop, the events and activation codes at concrete requests.
use registration_service.Prelude.{ℕ, zero, suc, ◌≤◌, ◌≡◌, ◌⊎◌, refl, false, none, some, [], ◌∷◌}
use registration_service.Prelude.Int.{pos, increment}
use registration_service.Errors.{Err, plain, status, new_forbidden_error}
use registration_service.Action.{Action, Result, ok, err}
use registration_service.Api.{SocialEvent, empty, insert, verification_attempts}
use registration_service.Text.Decimal.{itoa}
use registration_service.Signup.Poll.{poll_update_signup, poll_outcome, Failed}
use registration_service.Signup.Event.{get_and_validate_social_event}
use registration_service.Verification.Activation.{
  count_attempt, approve, activate, verify_activation_code,
}
use registration_service.Verification.Activation.Stored.{
  Activated, BelowLimit, verify_activation_code-Activated,
}
use registration_service.Verification.Activation.Retries.{
  Run, retry_counts_again, approved_with_error,
}
use registration_service.Tests.World.{no_flags, User, World, cfg, env, user}

-- A counter down to success.
abbrev countdown : Action ℕ (Unit {0})
countdown n = elim n [ zero ↦ (ok tt, 0) | suc k ↦ (err (plain "busy"), k) ]

poll_outcome_example :
    ((k : ℕ) × (t s' : ℕ) × (k ≤ 4)
      × Failed countdown 3 k t
      × (countdown t ≡ (ok tt, s'))
      × (poll_update_signup countdown 3 ≡ (ok tt, s')))
    ⊎ ((e : Err) × (t s' : ℕ) × Failed countdown 3 4 t
        × (countdown t ≡ (err e, s'))
        × (poll_update_signup countdown 3 ≡ (err e, s')))
poll_outcome_example = poll_outcome countdown 3

abbrev event : SocialEvent
event = record {
  name = "summit";
  activation_count = pos 3;
  max_attendees = pos 10;
  start_time = 4_000_000;
  end_time = 8_000_000;
  verification_required = false;
  target_cluster = "";
}

abbrev ann : User
ann = user "ann" no_flags empty

abbrev world : World
world = record {
  signups = ann ∷ [];
  events = event ∷ [];
  banned_emails = [];
  clock = 5_000_000;
  failures = 1;
  messages = [];
  lookup = none;
}

abbrev activated : Result (Unit {0}) × World
activated = verify_activation_code env cfg "ann" "summit" world

activated_runs : activated ≡ (ok tt, activated.1)
unfolding verify_activation_code get_and_validate_social_event poll_update_signup
activated_runs = refl

verify_activation_code-Activated_example :
    BelowLimit env cfg ann × Activated env cfg "summit" activated.1 "ann"
verify_activation_code-Activated_example =
    verify_activation_code-Activated env cfg "ann" "summit" ann world world activated.1 refl
      activated_runs

abbrev after_failure : World
after_failure = record world { failures = 0; clock = 6_000_000 }

abbrev refused : Err
refused = new_forbidden_error "invalid code" "the provided code is invalid"

abbrev twice_counted : User
twice_counted = count_attempt env cfg (pos 2) ann

first_refused :
    Run env cfg "ann" "zzz"
      (err refused)
      (count_attempt env cfg (increment (pos 0)))
      world
      after_failure
      (err (status 409 "conflict"))
unfolding get_and_validate_social_event
first_refused = record {
  signup = ann;
  after_get = world;
  after_event = world;
  got = refl;
  judged = refl;
  updated = refl;
}

then_refused :
    Run env cfg "ann" "zzz"
      (err refused)
      (count_attempt env cfg (increment (increment (pos 0))))
      after_failure
      (record after_failure { signups = twice_counted ∷ ann ∷ [] })
      (ok tt)
unfolding get_and_validate_social_event
then_refused = record {
  signup = ann;
  after_get = after_failure;
  after_event = after_failure;
  got = refl;
  judged = refl;
  updated = refl;
}

retry_counts_again_example :
    (activate env cfg "ann" "zzz" (pos 0) world
      ≡ (err refused, record after_failure { signups = twice_counted ∷ ann ∷ [] }))
    × (env.client.stored
          (record after_failure { signups = twice_counted ∷ ann ∷ [] })
          then_refused.signup.name
        ≡ some (record then_refused.signup {
          annotations = insert verification_attempts (itoa (pos 2)) then_refused.signup.annotations;
        }))
retry_counts_again_example =
    retry_counts_again env cfg "ann" "zzz" (pos 0) refused refused (status 409 "conflict") world
      after_failure (record after_failure { signups = twice_counted ∷ ann ∷ [] }) first_refused
      then_refused

-- The event starts between the two tries.
abbrev later_event : SocialEvent
later_event = record event { start_time = 6_000_000 }

abbrev early_world : World
early_world = record world { events = later_event ∷ [] }

abbrev late_world : World
late_world = record early_world { failures = 0; clock = 6_000_000 }

abbrev too_early : Err
too_early = new_forbidden_error "invalid code" "the provided code is not valid yet"

abbrev approved_world : World
approved_world = record late_world { signups = approve env cfg later_event ann ∷ ann ∷ [] }

first_too_early :
    Run env cfg "ann" "summit"
      (err too_early)
      (count_attempt env cfg (increment (pos 0)))
      early_world
      late_world
      (err (status 409 "conflict"))
unfolding get_and_validate_social_event
first_too_early = record {
  signup = ann;
  after_get = early_world;
  after_event = early_world;
  got = refl;
  judged = refl;
  updated = refl;
}

then_approved :
    Run env cfg "ann" "summit"
      (ok later_event)
      (approve env cfg later_event)
      late_world
      approved_world
      (ok tt)
unfolding get_and_validate_social_event
then_approved = record {
  signup = ann;
  after_get = late_world;
  after_event = late_world;
  got = refl;
  judged = refl;
  updated = refl;
}

approved_with_error_example :
    (activate env cfg "ann" "summit" (pos 0) early_world ≡ (err too_early, approved_world))
    × (env.client.stored approved_world then_approved.signup.name
        ≡ some (approve env cfg later_event then_approved.signup))
approved_with_error_example =
    approved_with_error env cfg "ann" "summit" (pos 0) too_early (status 409 "conflict") later_event
      early_world late_world approved_world first_too_early then_approved
