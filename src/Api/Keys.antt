-- ===== src/Api/Keys.antt =====
-- The keys of labels and annotations that the source names, and any other key.
use registration_service.Prelude.{ℕ, Bool, ◌&&◌, String, eqb, ◌==◌}

pub data Key : Type 0 where
  verification_counter verification_init_timestamp verification_code : Key
  verification_attempts verification_expiry : Key
  phone_lookup_carrier_risk phone_lookup_number_blocked phone_lookup_details : Key
  activation_counter last_target_cluster captcha_score captcha_assessment_id : Key
  account_verifier_result account_verifier_reasons : Key
  request_received_time skip_auto_create_space : Key
  user_email_hash user_phone_hash social_event : Key
  other : String → Key

-- A number for each named key, so that two keys are compared by evaluation.
abbrev rank : Key → ℕ
rank verification_counter = 0
rank verification_init_timestamp = 1
rank verification_code = 2
rank verification_attempts = 3
rank verification_expiry = 4
rank phone_lookup_carrier_risk = 5
rank phone_lookup_number_blocked = 6
rank phone_lookup_details = 7
rank activation_counter = 8
rank last_target_cluster = 9
rank captcha_score = 10
rank captcha_assessment_id = 11
rank account_verifier_result = 12
rank account_verifier_reasons = 13
rank request_received_time = 14
rank skip_auto_create_space = 15
rank user_email_hash = 16
rank user_phone_hash = 17
rank social_event = 18
rank (other s) = 19

abbrev text : Key → String
text (other s) = s
text _ = ""

abbrev pub key_eq : Key → Key → Bool
key_eq a b = eqb (rank a) (rank b) && text a == text b
