-- ===== src/Verification/Init.antt =====
-- `InitVerification` and `performPhoneLookup` of verification_service.go.
pub mod Sent
pub mod Counter
pub mod Stored
pub mod Rejected
use registration_service.Prelude.{
  ℕ, suc, ◌+◌, ◌-◌, ◌*◌, ◌%◌, ◌^◌, Bool, true, false, not, ◌&&◌, ◌||◌, Option, none, some, List,
  String, ltb, eqb, any, if◌then◌else◌, ◌==◌,
}
use registration_service.Prelude.Int.{ℤ, pos, negsuc, pos_part, neg_part, lebℤ, increment}
use registration_service.Text.{◌⧺◌, is_empty}
use registration_service.Text.Decimal.{atoi, itoa}
use registration_service.Errors.{
  Err, wrapped, is_not_found, as_crt, forbidden, new_forbidden_error, new_internal_error,
  new_not_found_error, new_bad_request,
}
use registration_service.Action.{
  Action, Result, ok, err, pure, raise, attempt, map_err, check, ◌>>=◌, ◌>>◌,
}
use registration_service.Api.{
  UserSignup, Dict, empty, insert, insert_all, value, user_phone_hash, verification_attempts,
  verification_code, verification_counter, verification_expiry, verification_init_timestamp,
  phone_lookup_carrier_risk, phone_lookup_number_blocked, phone_lookup_details,
}
use registration_service.Configuration.{
  VerificationSpec, PhoneLookupMode, lookup_disabled, lookup_log, lookup_enabled, daily_limit,
  code_expires_in_min, message_template, phone_lookup_mode, phone_lookup_excluded_countries,
}
use registration_service.Signup.Poll.{poll_update_signup}
use registration_service.Verification.Env.{Env, LookupResult}
use registration_service.Verification.Phone.{phone_number_already_in_use}
use registration_service.Verification.Code.{generate_verification_code}
use registration_service.Verification.Verify.{update_error}

-- time.Minute and 24*time.Hour, in nanoseconds.
abbrev pub minute : ℕ
minute = 60_000_000_000

abbrev pub day : ℕ
day = 86_400_000_000_000

-- The int64 whose lowest 64 bits are those of a number.
abbrev int64 : ℕ → ℤ
int64 n = let r = n % 2 ^ 64 in if ltb r (2 ^ 63) then pos r else negsuc (2 ^ 64 - 1 - r)

-- time.Duration(minutes) * time.Minute, which wraps
abbrev minutes_of : ℤ → ℤ
minutes_of (pos n) = int64 (n * minute)
minutes_of (negsuc n) = int64 (2 ^ 64 - (suc n * minute) % 2 ^ 64)

-- t.Add(minutes * time.Minute), not before the epoch.
abbrev pub add_minutes : ℕ → ℤ → ℕ
add_minutes t m = let d = minutes_of m in t + pos_part d - neg_part d

abbrev pub format_bool : Bool → String
format_bool true = "true"
format_bool false = "false"

-- The values for the update: the annotations to set, whether to reject, and the error to return.
pub record Pending : Type 0 where
  pub values : Dict
  pub reject : Bool
  pub error : Option Err

abbrev pub rejected_error : Err
rejected_error =
    new_forbidden_error "phone verification rejected" "cannot proceed with verification"

abbrev pub limit_error : Err
limit_error = new_forbidden_error "daily limit exceeded" "cannot generate new verification code"

-- isHighRiskPhone
unfoldable pub is_high_risk_phone : LookupResult → Bool
is_high_risk_phone r = r.carrier_risk_category == "high" || r.number_blocked

abbrev is_disabled : PhoneLookupMode → Bool
is_disabled lookup_disabled = true
is_disabled _ = false

abbrev is_enabled : PhoneLookupMode → Bool
is_enabled lookup_enabled = true
is_enabled _ = false

module _ {S W F : Type 0} (env : Env S W F) (cfg : VerificationSpec) where
  -- The verification counter of the signup, and the annotation that replaces one that is no
  -- number.
  unfoldable pub read_counter : UserSignup S → ℤ × Dict
  unfolding atoi itoa daily_limit
  read_counter signup =
      let counter = value signup.annotations verification_counter in
      if is_empty counter then (pos 0, empty) else elim (atoi counter) [
        | some n ↦ (n, empty)
        | none ↦ (daily_limit cfg, insert verification_counter (itoa (daily_limit cfg)) empty)
      ]

  -- Has the window of 24 hours passed, or is its start unreadable?
  unfoldable pub is_window_over : ℕ → UserSignup S → Bool
  is_window_over now signup =
      elim (env.parse_time (value signup.annotations verification_init_timestamp)) [
        | err e ↦ true
        | ok start ↦ ltb (start + day) now
      ]

  -- The counter and the annotations after the window is restarted where it is over.
  unfoldable pub open_window : ℕ → UserSignup S → ℤ × Dict
  unfolding read_counter is_window_over
  open_window now signup =
      let (counter, values) = read_counter signup in
      if is_window_over now signup
      then (
        pos 0,
        insert verification_counter "0"
            (insert verification_init_timestamp (env.format_time now) values),
      )
      else (counter, values)

  -- countryCodeFromE164, whose error leaves the empty code.
  unfoldable pub country_code_from_e164 : String → String
  country_code_from_e164 number = elim (env.region_code_of number) [ ok c ↦ c | err e ↦ "" ]

  -- The annotations of a lookup result.
  unfoldable pub lookup_values : LookupResult → Dict → Dict
  lookup_values r values =
      let basic =
        insert phone_lookup_number_blocked (format_bool r.number_blocked)
          (insert phone_lookup_carrier_risk r.carrier_risk_category values) in
      elim (env.marshal_details r) [
        | err e ↦ basic
        | ok details ↦ insert phone_lookup_details details basic
      ]

  -- Is the lookup left out: by its mode, by the country, or for a number already looked up?
  unfoldable pub skips_lookup : UserSignup S → String → String → Bool
  unfolding country_code_from_e164 phone_lookup_mode phone_lookup_excluded_countries
  skips_lookup signup number phone_hash =
      is_disabled (phone_lookup_mode cfg)
      || any (λ c. c == country_code_from_e164 number) (phone_lookup_excluded_countries cfg)
      || value signup.labels user_phone_hash == phone_hash

  -- What a lookup means for the signup; a failed lookup lets it proceed.
  unfoldable pub judge_lookup : Dict → Result LookupResult → Pending
  unfolding lookup_values is_high_risk_phone phone_lookup_mode
  judge_lookup values (err e) = record { values = values; reject = false; error = none }
  judge_lookup values (ok r) =
      if is_high_risk_phone r && is_enabled (phone_lookup_mode cfg)
      then record { values = lookup_values r values; reject = true; error = some rejected_error }
      else record { values = lookup_values r values; reject = false; error = none }

  unfoldable pub perform_phone_lookup : UserSignup S → String → String → Dict → Action W Pending
  unfolding skips_lookup judge_lookup
  perform_phone_lookup signup number phone_hash values =
      if skips_lookup signup number phone_hash
      then pure (record { values = values; reject = false; error = none })
      else (do r ← attempt (env.lookup_phone number); pure (judge_lookup values r))

  -- The annotations of a code that was sent.
  unfoldable pub sent_values : ℕ → ℤ → String → Dict → Dict
  unfolding itoa code_expires_in_min
  sent_values now counter code values =
      insert verification_expiry (env.format_time (add_minutes now (code_expires_in_min cfg))) (
        insert verification_code code (
          insert verification_counter (itoa (increment counter))
            (insert verification_attempts "0" values)))

  -- The values after an attempt to send the code.
  unfoldable pub judge_sent : ℕ → ℤ → String → Pending → Result (Unit {0}) → Pending
  unfolding sent_values
  judge_sent now counter code p (ok _) = record p { values = sent_values now counter code p.values }
  judge_sent now counter code p (err e) = record p {
    error = some (new_internal_error e "error while sending verification code");
  }

  -- Generates a code and sends it.
  unfoldable pub send_code : ℕ → ℤ → String → String → Pending → Action W Pending
  unfolding judge_sent message_template generate_verification_code
  send_code now counter number country_code p = do
    code ←
        map_err (λ e. new_internal_error e "error while generating verification code")
          (generate_verification_code env)
    sent ←
        attempt (
          env.send_notification (env.format_message (message_template cfg) code) number
            country_code)
    pure (judge_sent now counter code p sent)

  -- A code is sent where the lookup left no error.
  unfoldable pub send_unless : ℕ → ℤ → String → String → Pending → Action W Pending
  unfolding send_code
  send_unless now counter number country_code p = elim p.error [
    | none ↦ send_code now counter number country_code p
    | some e ↦ pure p
  ]

  -- What the handler does below the daily limit, and at it.
  unfoldable pub prepare : ℕ → UserSignup S → String → String → String → ℤ → Dict → Action W Pending
  unfolding perform_phone_lookup send_unless daily_limit
  prepare now signup number phone_hash country_code counter values =
      if lebℤ (daily_limit cfg) counter
      then pure (record { values = values; reject = false; error = some limit_error })
      else (do
        p ← perform_phone_lookup signup number phone_hash values
        send_unless now counter number country_code p)

  -- The changes that `doUpdate` makes to the signup that it reads.
  unfoldable pub apply_pending : String → Pending → UserSignup S → UserSignup S
  apply_pending phone_hash p signup = record signup {
    labels = insert user_phone_hash phone_hash signup.labels;
    annotations = insert_all p.values signup.annotations;
    states = if p.reject then env.states.set_rejected true signup.states else signup.states;
  }

  unfoldable pub init_update : String → String → Pending → Action W (Unit {0})
  unfolding apply_pending
  init_update username phone_hash p = do
    signup ← env.client.get_signup (env.encode_user_identifier username)
    env.client.update_signup (apply_pending phone_hash p signup)

  get_error : String → Err → Err
  get_error username e =
      if is_not_found e
      then new_not_found_error e "usersignup not found"
      else new_internal_error e ("error retrieving usersignup with username '" ⧺ username ⧺ "'")

  abbrev is_forbidden : Err → Bool
  is_forbidden e = elim (as_crt e) [ none ↦ false | some c ↦ eqb c.code forbidden ]

  phone_error : String → Err → Err
  unfolding as_crt
  phone_error number e =
      if is_forbidden e
      then new_forbidden_error "phone number already in use"
          ("cannot register using phone number: " ⧺ number)
      else new_internal_error e "could not lookup users by phone number"

  -- The guards on the states of the signup.
  unfoldable pub states_error : UserSignup S → Option Err
  states_error signup =
      if not (env.states.verification_required signup.states)
      then some (new_bad_request "forbidden request" "verification code will not be sent")
      else if env.states.rejected signup.states
      then some rejected_error
      else none

  -- The part after the guards, at the world's time.
  unfoldable pub start : String → String → String → UserSignup S → Action W (Unit {0})
  unfolding open_window prepare init_update
  start username number country_code signup w =
      let now = env.client.now w in
      let phone_hash = env.encode_string number in
      let (counter, values) = open_window now signup in
      (do
        p ← prepare now signup number phone_hash country_code counter values
        map_err (λ _. update_error) (poll_update_signup (init_update username phone_hash p))
        check p.error)
        w

  unfoldable pub init_verification : String → String → String → Action W (Unit {0})
  unfolding get_error phone_error states_error start
  init_verification username number country_code = do
    signup ←
        map_err (get_error username) (env.client.get_signup (env.encode_user_identifier username))
    check (states_error signup)
    map_err (phone_error number) (phone_number_already_in_use env username number)
    start username number country_code signup
