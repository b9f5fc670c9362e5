-- ===== src/Verification/Sender.antt =====
-- pkg/verification/sender: sender.go, twilio_sender.go and amazon_sns_sender.go, with the getters
-- of pkg/configuration/configuration.go that they read. The libraries of Twilio and of AWS are
-- `Gateway`; logging is left out.
pub mod Chosen
use registration_service.Prelude.{Option, none, some, List, [], ◌∷◌, String, ◌==◌, if◌then◌else◌}
use registration_service.Text.Fold.{equals_lower}
use registration_service.Action.{Action, ◌>>=◌}
use registration_service.Configuration.{default}

pub record TwilioSenderConfig : Type 0 where
  pub sender_id : String
  pub country_codes : List String

-- The fields of RegistrationServiceVerificationConfig on notifications. The names of the secrets'
-- keys are those of its field Secret.
pub record SenderSpec : Type 0 where
  pub notification_sender : Option String
  pub secret_ref : Option String
  pub twilio_account_sid : Option String
  pub twilio_auth_token : Option String
  pub twilio_from_number : Option String
  pub twilio_sender_configs : List TwilioSenderConfig
  pub aws_access_key_id : Option String
  pub aws_secret_access_key : Option String
  pub aws_region : Option String
  pub aws_sender_id : Option String
  pub aws_sms_type : Option String

-- VerificationConfig: the fields, and the secrets by their name and key, where a missing one is
-- empty.
pub record SenderConfig : Type 0 where
  pub spec : SenderSpec
  pub secrets : String → String → String

unfoldable pub registration_service_secret : SenderConfig → String → String
registration_service_secret c key = c.secrets (default c.spec.secret_ref "") key

unfoldable pub notification_sender : SenderConfig → String
notification_sender c = default c.spec.notification_sender "twilio"

unfoldable pub twilio_account_sid : SenderConfig → String
twilio_account_sid c = registration_service_secret c (default c.spec.twilio_account_sid "")

unfoldable pub twilio_auth_token : SenderConfig → String
twilio_auth_token c = registration_service_secret c (default c.spec.twilio_auth_token "")

unfoldable pub twilio_from_number : SenderConfig → String
twilio_from_number c = registration_service_secret c (default c.spec.twilio_from_number "")

unfoldable pub twilio_sender_configs : SenderConfig → List TwilioSenderConfig
twilio_sender_configs c = c.spec.twilio_sender_configs

unfoldable pub aws_access_key_id : SenderConfig → String
aws_access_key_id c = registration_service_secret c (default c.spec.aws_access_key_id "")

unfoldable pub aws_secret_access_key : SenderConfig → String
aws_secret_access_key c = registration_service_secret c (default c.spec.aws_secret_access_key "")

unfoldable pub aws_region : SenderConfig → String
aws_region c = default c.spec.aws_region ""

unfoldable pub aws_sender_id : SenderConfig → String
aws_sender_id c = default c.spec.aws_sender_id ""

unfoldable pub aws_sms_type : SenderConfig → String
aws_sms_type c = default c.spec.aws_sms_type "Transactional"

-- sns.PublishInput, with the string values of its two attributes.
pub record PublishInput : Type 0 where
  pub message : String
  pub phone_number : String
  pub attribute_sender_id : String
  pub attribute_sms_type : String

-- The libraries: Messages.SendMessage of a Twilio client made from an account and its token, from
-- a sender to a number; NewSession of AWS from a key, its secret and a region; and Publish of SNS.
pub record Gateway (Session W : Type 0) : Type 0 where
  pub send_message : String → String → String → String → String → Action W (Unit {0})
  pub new_session : String → String → String → Action W Session
  pub publish : Session → PublishInput → Action W (Unit {0})

-- The map from a country code to a sender id.
abbrev pub SenderIds : Type 0
SenderIds = String → Option String

-- senderIDs[code] = id for each code
unfoldable pub add_codes : String → List String → SenderIds → SenderIds
add_codes id [] ids = ids
add_codes id (k ∷ codes) ids = add_codes id codes λ c. if c == k then some id else ids c

unfoldable pub add_configs : List TwilioSenderConfig → SenderIds → SenderIds
add_configs [] ids = ids
add_configs (c ∷ configs) ids = add_configs configs (add_codes c.sender_id c.country_codes ids)

-- TwilioNotificationSender and AmazonSNSSender
pub data NotificationSender : Type 0 where
  twilio : SenderConfig → SenderIds → NotificationSender
  amazon_sns : SenderConfig → NotificationSender

unfoldable pub new_twilio_sender : SenderConfig → NotificationSender
new_twilio_sender cfg = twilio cfg (add_configs (twilio_sender_configs cfg) λ c. none)

unfoldable pub create_notification_sender : SenderConfig → NotificationSender
unfolding notification_sender new_twilio_sender equals_lower
create_notification_sender cfg =
    if equals_lower (notification_sender cfg) "aws" then amazon_sns cfg else new_twilio_sender cfg

-- The sender of a text for a country.
unfoldable pub twilio_from : SenderConfig → SenderIds → String → String
twilio_from cfg ids country_code = default (ids country_code) (twilio_from_number cfg)

module _ {Session W : Type 0} (gateway : Gateway Session W) where
  unfoldable pub send_by_twilio :
      SenderConfig → SenderIds → String → String → String → Action W (Unit {0})
  send_by_twilio cfg ids content phone_number country_code =
      gateway.send_message (twilio_account_sid cfg) (twilio_auth_token cfg)
        (twilio_from cfg ids country_code) phone_number content

  unfoldable pub send_by_sns : SenderConfig → String → String → Action W (Unit {0})
  send_by_sns cfg content phone_number = do
    session ←
        gateway.new_session (aws_access_key_id cfg) (aws_secret_access_key cfg) (aws_region cfg)
    gateway.publish session (record {
      message = content;
      phone_number = phone_number;
      attribute_sender_id = aws_sender_id cfg;
      attribute_sms_type = aws_sms_type cfg;
    })

  -- SendNotification of either sender.
  unfoldable pub send_notification :
      NotificationSender → String → String → String → Action W (Unit {0})
  send_notification (twilio cfg ids) content phone_number country_code =
      send_by_twilio cfg ids content phone_number country_code
  send_notification (amazon_sns cfg) content phone_number country_code =
      send_by_sns cfg content phone_number
