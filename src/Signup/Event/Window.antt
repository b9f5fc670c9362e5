-- ===== src/Signup/Event/Window.antt =====
-- Which activation codes GetAndValidateSocialEvent accepts.
use mathlib.Core.Path.{subst₂}
use registration_service.Prelude.{ℕ, ◌≤◌, ◌≡◌, ◌↔◌, ap, arith, String}
use registration_service.Prelude.Int.{◌<ℤ◌}
use registration_service.Action.{ok, map_err, >>=-eq-ok, map_err-eq-ok}
use registration_service.Api.{SocialEvent, Client}
use registration_service.Signup.Event.{event_error, validate_event, get_and_validate_social_event}

-- There is room, and the time is within the event's, both ends included.
pub record Valid (event : SocialEvent) (now : ℕ) : Type 0 where
  pub has_room : event.activation_count <ℤ event.max_attendees
  pub has_started : event.start_time ≤ now
  pub not_ended : now ≤ event.end_time

validate_event-Valid :
    (event : SocialEvent) (now : ℕ) (e : SocialEvent)
    → validate_event event now ≡ ok e
    → (event ≡ e) × Valid event now
unfolding validate_event
validate_event-Valid event now e h = (
  ground (arith, h),
  record {
    has_room = ground (arith, h);
    has_started = ground (arith, h);
    not_ended = ground (arith, h);
  },
)

validate_event_complete :
    (event : SocialEvent) (now : ℕ) → Valid event now → validate_event event now ≡ ok event
unfolding validate_event
validate_event_complete event now v = ground arith

-- An event is accepted exactly where it has room and the time is within its window.
validate_event_iff :
    (event : SocialEvent) (now : ℕ) → (validate_event event now ≡ ok event) ↔ Valid event now
validate_event_iff event now =
    (λ h. (validate_event-Valid event now event h).1, validate_event_complete event now)

-- The code of an accepted event names an event of the cluster that is valid at the time of the call.
pub get_and_validate-Valid :
    {S W : Type 0} (client : Client S W) (code : String) (w w' : W) (event : SocialEvent)
    → get_and_validate_social_event client code w ≡ (ok event, w')
    → (client.get_event code w ≡ (ok event, w')) × Valid event (client.now w')
unfolding get_and_validate_social_event
get_and_validate-Valid client code w w' event h =
    let (e, w1, got, rest) = >>=-eq-ok (map_err (event_error code) (client.get_event code)) _ w h in
    let found = map_err-eq-ok (event_error code) (client.get_event code) w got in
    let same : w1 ≡ w' = ap (λ p. p.1) rest in
    let valid : validate_event e (client.now w1) ≡ ok event = ap (λ p. p.0) rest in
    let (named, window) = validate_event-Valid e (client.now w1) event valid in
    subst₂ (λ x v. (client.get_event code w ≡ (ok x, v)) × Valid x (client.now v)) named same
      (found, window)
