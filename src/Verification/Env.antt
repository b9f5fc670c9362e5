-- ===== src/Verification/Env.antt =====
-- What the verification service calls and does not implement: the cluster, the SMS gateway, the
-- phone lookup, random bytes, hashing, the phone number library and text formats.
use registration_service.Prelude.{ℕ, ◌*◌, ◌/◌, ◌≡◌, Bool, List, String, length}
use registration_service.Prelude.Int.{ℤ}
use registration_service.Action.{Action, Result, ok}
use registration_service.Api.{States, Client}
use registration_service.Configuration.{Floats}

-- PhoneLookupResult and its details.
pub record LookupResult : Type 0 where
  pub risk_score : ℤ
  pub carrier_name : String
  pub line_type : String
  pub carrier_risk_category : String
  pub number_blocked : Bool

pub record Env (S W F : Type 0) : Type 0 where
  pub client : Client S W
  pub states : States S
  pub floats : Floats F
  -- hash.EncodeString
  pub encode_string : String → String
  -- usersignup.EncodeUserIdentifier
  pub encode_user_identifier : String → String
  -- NotificationService.SendNotification: content, phone number, country code
  pub send_notification : String → String → String → Action W (Unit {0})
  -- PhoneLookupService.LookupPhone
  pub lookup_phone : String → Action W LookupResult
  -- phonenumbers.Parse, then GetRegionCodeForNumber
  pub region_code_of : String → Result String
  -- json.Marshal of the details
  pub marshal_details : LookupResult → Result String
  -- the annotation key of the attempts, and the text of strconv.Atoi's error for a value
  pub attempts_key : String
  pub atoi_error : String → String
  -- rand.Read of a number of bytes
  pub read_random : ℕ → Action W (List ℕ)
  pub read_random-length :
      (n : ℕ) (w w' : W) (bytes : List ℕ) → read_random n w ≡ (ok bytes, w') → length bytes ≡ n
  -- fmt.Sprintf(template, code)
  pub format_message : String → String → String
  -- time.Format and time.Parse with TimestampLayout, whose precision is a millisecond
  pub format_time : ℕ → String
  pub parse_time : String → Result ℕ
  pub parse-format_time : (t : ℕ) → parse_time (format_time t) ≡ ok (t / 1_000_000 * 1_000_000)
  -- Signup of the signup service, with the activation code set in the request's context
  pub signup_with_event : String → Action W (Unit {0})
