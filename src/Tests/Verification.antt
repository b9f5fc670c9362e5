-- ===== src/Tests/Verification.antt =====
-- The theorems on phone verification and activation codes at concrete requests.
use registration_service.Prelude.{
  ℕ, ◌+◌, ◌≤◌, ◌≡◌, refl, true, false, none, some, List, [], ◌∷◌, String, arith, eq_iff, All, ◌⊎◌,
}
use registration_service.Prelude.Int.{pos}
use registration_service.Text.Decimal.{read, itoa}
use registration_service.Errors.{Err}
use registration_service.Signup.Poll.{Failed}
use registration_service.Action.{Result, ok, err}
use registration_service.Api.{
  empty, insert, verification_attempts, verification_code, verification_counter,
  verification_expiry, verification_init_timestamp, user_phone_hash, value,
}
use registration_service.Configuration.{attempts_allowed, daily_limit, phone_lookup_mode}
use registration_service.Signup.Poll.{poll_update_signup}
use registration_service.Verification.Code.{
  generate_verification_code, generate_verification_code_shape, count, AllDigits,
}
use registration_service.Verification.Env.{LookupResult}
use registration_service.Verification.Init.{
  Pending, add_minutes, prepare, open_window, apply_pending, is_window_over, init_verification,
  start, init_update, rejected_error, skips_lookup, is_high_risk_phone,
}
use registration_service.Verification.Init.Counter.{Sends, no_send, send, daily_bound}
use registration_service.Verification.Init.Stored.{Started, init_verification-Started}
use registration_service.Verification.Init.Rejected.{RejectedAt, start_rejects}
use registration_service.Verification.Phone.{phone_number_already_in_use}
use registration_service.Verification.Verify.{
  verify_phone_code, assess, too_many, check_approval, update_error,
}
use registration_service.Verification.Verify.Checks.{Accepts}
use registration_service.Verification.Verify.Applied.{Applied}
use registration_service.Verification.Verify.Lockout.{
  Waiting, IsWrong, lockout, early_enough, guess_all,
}
use registration_service.Verification.Verify.Stored.{Verified, verify_phone_code-Verified}
use registration_service.Tests.World.{Flags, no_flags, User, World, cfg, env, user}

abbrev to_verify : Flags
to_verify = record no_flags { verification = true }

-- A user to whom the code "123456" was sent; it expires at 9 milliseconds.
abbrev waiting : User
waiting = user "ann" to_verify (
    insert verification_expiry "9"
      (insert verification_code "123456" (insert verification_attempts "0" empty)))

abbrev world : World
world = record {
  signups = waiting ∷ [];
  events = [];
  banned_emails = [];
  clock = 5_000_000;
  failures = 1;
  messages = [];
  lookup = none;
}

abbrev accepted : Result (Unit {0}) × World
accepted = verify_phone_code env cfg "ann" "123456" world

accepted_runs : accepted ≡ (ok tt, accepted.1)
unfolding verify_phone_code phone_number_already_in_use poll_update_signup
accepted_runs = refl

verify_phone_code-Verified_example :
    (s : User) × (w1 w2 : World) × (env.client.get_signup "ann" world ≡ (ok s, w1))
    × (check_approval env cfg s ≡ none)
    × (phone_number_already_in_use env "ann" (value s.labels user_phone_hash) w1 ≡ (ok tt, w2))
    × Accepts env cfg w2.clock "123456" s
    × Verified env cfg accepted.1 "ann"
verify_phone_code-Verified_example =
    verify_phone_code-Verified env cfg "ann" "123456" world accepted.1 accepted_runs

waiting-Waiting : Waiting env cfg "123456" 9_000_000 0 waiting
unfolding itoa
waiting-Waiting = record { counted = refl; code_stored = refl; expiry_stored = unfold read in refl }

abbrev wrong_guesses : List (ℕ × String)
wrong_guesses = (5, "000000") ∷ (6, "111111") ∷ []

wrong : All (IsWrong env cfg "123456" 9_000_000) wrong_guesses
wrong = (
  (omega arith, ground (arith, eq_iff "000000" "123456")),
  ((omega arith, ground (arith, eq_iff "111111" "123456")), tt),
)

lockout_example :
    (assess env cfg 8 "123456"
      (guess_all env cfg (guess_all env cfg waiting wrong_guesses) ((7, "222222") ∷ []))).error
    ≡ some too_many
unfolding attempts_allowed
lockout_example =
    lockout env cfg 2 "123456" 9_000_000 waiting wrong_guesses ((7, "222222") ∷ []) 8 "123456" refl
      (omega arith) waiting-Waiting refl wrong

early_enough_example :
    (assess env cfg 8 "123456" (guess_all env cfg waiting ((5, "000000") ∷ []))).error ≡ none
unfolding attempts_allowed
early_enough_example =
    early_enough env cfg 2 "123456" 9_000_000 waiting ((5, "000000") ∷ []) 8 refl (omega arith)
      waiting-Waiting (omega arith) (wrong.0, tt) (omega arith)

-- A user who was asked for a phone number.
abbrev fresh : User
fresh = user "ann" to_verify (insert verification_counter "0" empty)

abbrev fresh_world : World
fresh_world = record world { signups = fresh ∷ [] }

abbrev started : Result (Unit {0}) × World
started = init_verification env cfg "ann" "+15551234" "1" fresh_world

started_runs : started ≡ (ok tt, started.1)
unfolding init_verification phone_number_already_in_use poll_update_signup
started_runs = refl

init_verification-Started_example :
    (s : User) × (w1 w2 : World) × (env.client.get_signup "ann" fresh_world ≡ (ok s, w1))
    × (s.states.verification ≡ true)
    × (s.states.reject ≡ false)
    × (phone_number_already_in_use env "ann" "+15551234" w1 ≡ (ok tt, w2))
    × Started env cfg "ann" "+15551234" "1" s w2 started.1
init_verification-Started_example =
    init_verification-Started env cfg "ann" "+15551234" "1" fresh_world started.1 started_runs

generate_verification_code_shape_example : (count "543210" ≡ 6) × AllDigits "543210"
unfolding generate_verification_code
generate_verification_code_shape_example =
    generate_verification_code_shape env world world "543210" refl

risky : LookupResult
risky = record {
  risk_score = pos 90;
  carrier_name = "c";
  line_type = "voip";
  carrier_risk_category = "high";
  number_blocked = false;
}

abbrev risky_world : World
risky_world = record fresh_world { lookup = some risky; failures = 0 }

start_rejects_example :
    (p : Pending) × (w' : World) × (p.reject ≡ true)
    × (((start env cfg "ann" "+15551234" "1" fresh risky_world ≡ (err rejected_error, w'))
          × (poll_update_signup (init_update env cfg "ann" "+15551234" p) risky_world ≡ (ok tt, w'))
          × RejectedAt env cfg w' "ann")
        ⊎ ((e : Err) × (t : World) × (start env cfg "ann" "+15551234" "1" fresh risky_world
              ≡ (err update_error, w'))
            × Failed (init_update env cfg "ann" "+15551234" p) risky_world 4 t
            × (init_update env cfg "ann" "+15551234" p t ≡ (err e, w'))))
unfolding open_window skips_lookup is_high_risk_phone phone_lookup_mode daily_limit risky
start_rejects_example =
    start_rejects env cfg "ann" "+15551234" "1" fresh risky risky_world risky_world refl refl refl
      refl refl

-- A user in the middle of a window, and one more code sent.
abbrev counted : User
counted =
    user "ann" to_verify
      (insert verification_counter "1" (insert verification_init_timestamp "1" empty))

abbrev next : Result Pending × World
next =
    prepare env cfg 5_000_000 counted "+15551234" "+15551234" "1"
      (open_window env cfg 5_000_000 counted).0 (open_window env cfg 5_000_000 counted).1
      fresh_world

abbrev sent_pending : Result Pending → Pending
sent_pending (ok p) = p
sent_pending (err e) = record { values = empty; reject = false; error = some e }

next_runs : next ≡ (ok (sent_pending next.0), next.1)
unfolding prepare open_window
next_runs = refl

abbrev after_next : User
after_next = apply_pending env cfg "+15551234" (sent_pending next.0) counted

next-Sends : Sends env cfg counted 1 after_next
unfolding is_window_over prepare open_window
next-Sends =
    send 5_000_000 "+15551234" "+15551234" "1" fresh_world next.1 (sent_pending next.0) no_send refl
      next_runs refl

daily_bound_example :
    (1 + 1 ≤ 2) × (after_next.annotations verification_counter ≡ some (itoa (pos 2)))
unfolding daily_limit
daily_bound_example =
    daily_bound env cfg 2 1 1 counted after_next (refl) (omega arith) (unfold itoa in refl)
      (omega arith) next-Sends

-- Five minutes, and minutes that overflow an int64 of nanoseconds.
five_minutes : add_minutes 7 (pos 5) ≡ 300_000_000_007
five_minutes = refl

overflow : add_minutes 9_300_000_000_000_000_000 (pos 153_722_868) ≡ 76_628_006_290_448_384
overflow = refl
