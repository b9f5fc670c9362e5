-- ===== src/Verification/Activation/Retries.antt =====
-- What a retry of the update does to the variables of VerifyActivationCode.
use registration_service.Prelude.{◌≡◌, subst, ◌∙◌, none, some, String, arith}
use registration_service.Prelude.Int.{ℤ, increment}
use registration_service.Errors.{Err}
use registration_service.Action.{Result, ok, err}
use registration_service.Api.{UserSignup, SocialEvent, insert, verification_attempts}
use registration_service.Text.Decimal.{itoa}
use registration_service.Configuration.{VerificationSpec}
use registration_service.Signup.Poll.{poll_second}
use registration_service.Signup.Event.{get_and_validate_social_event}
use registration_service.Verification.Env.{Env}
use registration_service.Verification.Activation.{
  Locals, judge_event, count_attempt, approve, activation_update, activate,
}
use registration_service.Verification.Activation.Stored.{activation_update-run, name-approve}

module _ {S W F : Type 0} (env : Env S W F) (cfg : VerificationSpec) (username code : String) where
  -- One run of the update: the signup that it reads, how the event is judged, and how the write
  -- of the signup `u'` ends.
  pub record Run (r : Result SocialEvent) (written : UserSignup S → UserSignup S) (w w' : W)
      (ended : Result (Unit {0})) : Type 0 where
    pub signup : UserSignup S
    pub after_get : W
    pub after_event : W
    pub got : env.client.get_signup (env.encode_user_identifier username) w ≡ (ok signup, after_get)
    pub judged : get_and_validate_social_event env.client code after_get ≡ (r, after_event)
    pub updated : env.client.update_signup (written signup) after_event ≡ (ended, w')

  refused_run :
      (e : Err) (l : Locals W) (w' : W) (ended : Result (Unit {0}))
      → Run (err e) (count_attempt env cfg (increment l.attempts_made)) l.world w' ended
      → activation_update env cfg username code l ≡ (
        ended,
        record { attempts_made = increment l.attempts_made; to_return = some e; world = w' },
      )
  unfolding judge_event
  refused_run e l w' ended run =
      activation_update-run env cfg username code l run.signup (err e) run.after_get run.after_event
        run.got run.judged
      ∙ ground (arith, run.updated)

  accepted_run :
      (event : SocialEvent) (l : Locals W) (w' : W) (ended : Result (Unit {0}))
      → Run (ok event) (approve env cfg event) l.world w' ended
      → activation_update env cfg username code l ≡ (ended, record l { world = w' })
  unfolding judge_event
  accepted_run event l w' ended run =
      activation_update-run env cfg username code l run.signup (ok event) run.after_get
        run.after_event run.got run.judged
      ∙ ground (arith, run.updated)

  -- A refused code whose update fails once and then succeeds counts two attempts in one request:
  -- the stored signup is the one that was last read with the counter given plus two, and no other
  -- change.
  pub retry_counts_again :
      (attempts : ℤ) (e e' failure : Err) (w w1 w2 : W)
      → Run (err e) (count_attempt env cfg (increment attempts)) w w1 (err failure)
      → (last : Run (err e') (count_attempt env cfg (increment (increment attempts))) w1 w2 (ok tt))
      → (activate env cfg username code attempts w ≡ (err e', w2))
        × (env.client.stored w2 last.signup.name
            ≡ some (record last.signup {
              annotations =
                  insert verification_attempts
                    (itoa (increment (increment attempts)))
                    last.signup.annotations;
            }))
  unfolding activate count_attempt
  retry_counts_again attempts e e' failure w w1 w2 first last =
      let l0 : Locals W = record { attempts_made = attempts; to_return = none; world = w } in
      let l1 : Locals W = record {
        attempts_made = increment attempts;
        to_return = some e;
        world = w1;
      } in
      let l2 : Locals W = record {
        attempts_made = increment (increment attempts);
        to_return = some e';
        world = w2;
      } in
      let polled =
        poll_second (activation_update env cfg username code) l0 l1 l2 failure
          (refused_run e l0 w1 (err failure) first) (refused_run e' l1 w2 (ok tt) last) in
      (ground (arith, polled), env.client.update-stored _ last.after_event w2 last.updated)

  -- A code that is refused on a failed try and accepted on the next one approves the stored signup,
  -- and the request still returns the error of the refused try.
  pub approved_with_error :
      (attempts : ℤ) (e failure : Err) (event : SocialEvent) (w w1 w2 : W)
      → Run (err e) (count_attempt env cfg (increment attempts)) w w1 (err failure)
      → (last : Run (ok event) (approve env cfg event) w1 w2 (ok tt))
      → (activate env cfg username code attempts w ≡ (err e, w2))
        × (env.client.stored w2 last.signup.name ≡ some (approve env cfg event last.signup))
  unfolding activate
  approved_with_error attempts e failure event w w1 w2 first last =
      let l0 : Locals W = record { attempts_made = attempts; to_return = none; world = w } in
      let l1 : Locals W = record {
        attempts_made = increment attempts;
        to_return = some e;
        world = w1;
      } in
      let polled =
        poll_second (activation_update env cfg username code) l0 l1 (record l1 { world = w2 })
          failure (refused_run e l0 w1 (err failure) first)
          (accepted_run event l1 w2 (ok tt) last) in
      (
        ground (arith, polled),
        subst (λ n. env.client.stored w2 n ≡ some (approve env cfg event last.signup))
            (name-approve env cfg event last.signup)
            (env.client.update-stored _ last.after_event w2 last.updated),
      )
