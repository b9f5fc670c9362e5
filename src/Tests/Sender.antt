-- ===== src/Tests/Sender.antt =====
-- The theorem on the notification senders at a concrete configuration.
use registration_service.Prelude.{
  ◌≡◌, ◌⊎◌, true, false, Option, none, some, List, [], ◌∷◌, String, ◌==◌, refl, if◌then◌else◌,
}
use registration_service.Text.Fold.{equals_lower}
use registration_service.Action.{pure}
use registration_service.Verification.Sender.{
  SenderConfig, PublishInput, Gateway, notification_sender, twilio_account_sid, twilio_auth_token,
  twilio_from_number, twilio_sender_configs, create_notification_sender, send_by_sns,
  send_notification, send_by_twilio, twilio_from, registration_service_secret, add_configs,
  add_codes,
}
use registration_service.Verification.Sender.Chosen.{LastListed, notification_sender_sends}

data Sent : Type 0 where
  by_twilio : String → String → String → String → String → Sent
  by_sns : String → PublishInput → Sent

-- What was sent is written down.
abbrev gateway : Gateway String (List Sent)
gateway = record {
  send_message = λ sid token from to content w. pure tt (by_twilio sid token from to content ∷ w);
  new_session = λ key secret region. pure key;
  publish = λ session m w. pure tt (by_sns session m ∷ w);
}

-- Two configurations list the country 44.
abbrev two_ids : Option String → SenderConfig
two_ids s = record {
  spec = record {
    notification_sender = s;
    secret_ref = some "sms";
    twilio_account_sid = some "sid";
    twilio_auth_token = some "token";
    twilio_from_number = some "from";
    twilio_sender_configs =
        record { sender_id = "RED"; country_codes = "44" ∷ "1" ∷ [] }
        ∷ record { sender_id = "HAT"; country_codes = "44" ∷ [] }
        ∷ [];
    aws_access_key_id = none;
    aws_secret_access_key = none;
    aws_region = none;
    aws_sender_id = none;
    aws_sms_type = none;
  };
  secrets = λ name key. if name == "sms" then key else "";
}

last_id_wins :
    (send_notification gateway (create_notification_sender (two_ids none)) "hi" "123" "44" []).1
    ≡ by_twilio "sid" "token" "HAT" "123" "hi" ∷ []
unfolding send_notification create_notification_sender send_by_twilio twilio_account_sid
    twilio_auth_token twilio_from registration_service_secret add_configs twilio_sender_configs
    add_codes
last_id_wins = refl

aws_in_capitals : equals_lower (notification_sender (two_ids (some "AWS"))) "aws" ≡ true
unfolding equals_lower notification_sender
aws_in_capitals = refl

notification_sender_sends_example :
    ((equals_lower (notification_sender (two_ids none)) "aws" ≡ true)
      × (send_notification gateway (create_notification_sender (two_ids none)) "hi" "123" "44"
          ≡ send_by_sns gateway (two_ids none) "hi" "123"))
    ⊎ ((equals_lower (notification_sender (two_ids none)) "aws" ≡ false)
        × (from : String) × LastListed
            (λ c. c.sender_id)
            (twilio_from_number (two_ids none))
            "44"
            (twilio_sender_configs (two_ids none))
            from
        × (send_notification gateway (create_notification_sender (two_ids none)) "hi" "123" "44"
            ≡ gateway.send_message
                (twilio_account_sid (two_ids none))
                (twilio_auth_token (two_ids none))
                from
                "123"
                "hi"))
notification_sender_sends_example = notification_sender_sends gateway (two_ids none) "hi" "123" "44"
