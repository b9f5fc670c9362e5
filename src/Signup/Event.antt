-- ===== src/Signup/Event.antt =====
-- pkg/signup/socialevent.go: activation codes. Reads of the wall clock are reads of the world.
pub mod Window
use registration_service.Prelude.{ℕ, ◌≡◌, Bool, true, false, String, ltb, if◌then◌else◌}
use registration_service.Prelude.Int.{lebℤ}
use registration_service.Text.{◌⧺◌, is_empty}
use registration_service.Errors.{Err, is_not_found, new_forbidden_error, new_internal_error}
use registration_service.Action.{Action, Result, ok, err, lift, map_err, ◌>>=◌}
use registration_service.Api.{UserSignup, SocialEvent, States, Client, social_event, insert}

-- The error of a failed look-up.
event_error : String → Err → Err
event_error code e =
    if is_not_found e
    then new_forbidden_error "invalid code" "the provided code is invalid"
    else new_internal_error e ("error retrieving event '" ⧺ code ⧺ "'")

-- The room and the time window of an event, at a time.
unfoldable pub validate_event : SocialEvent → ℕ → Result SocialEvent
validate_event event now =
    if lebℤ event.max_attendees event.activation_count
    then err (new_forbidden_error "invalid code" "the event is full")
    else if ltb now event.start_time
    then err (new_forbidden_error "invalid code" "the provided code is not valid yet")
    else if ltb event.end_time now
    then err (new_forbidden_error "invalid code" "the provided code has expired")
    else ok event

module _ {S W : Type 0} (client : Client S W) where
  unfoldable pub get_and_validate_social_event : String → Action W SocialEvent
  unfolding event_error validate_event is_not_found
  get_and_validate_social_event code = do
    event ← map_err (event_error code) (client.get_event code)
    λ w. lift (validate_event event (client.now w)) w

module _ {S : Type 0} (states : States S) where
  -- `states.SetApprovedManually` where the event needs no phone verification, then
  -- `states.SetDeactivated(false)`.
  event_states : SocialEvent → S → S
  event_states event s =
      states.set_deactivated false
        (if event.verification_required then s else states.set_approved_manually true s)

  unfoldable pub update_user_signup_with_social_event : SocialEvent → UserSignup S → UserSignup S
  unfolding event_states
  update_user_signup_with_social_event event u = record u {
    states = event_states event u.states;
    labels = insert social_event event.name u.labels;
    target_cluster =
        if is_empty event.target_cluster then u.target_cluster else event.target_cluster;
  }
