-- ===== src/Verification/Sender/Chosen.antt =====
-- Which sender sends, and under which name.
use registration_service.Prelude.{
  ◌≡◌, refl, ap, ◌⊎◌, inl, inr, Bool, true, false, none, some, List, [], ◌∷◌, ◌++◌, String, ◌==◌,
  any, All, arith, Bool-cases, if◌then◌else◌,
}
use registration_service.Text.Fold.{equals_lower}
use registration_service.Configuration.{default}
use registration_service.Verification.Sender.{
  TwilioSenderConfig, SenderConfig, SenderIds, Gateway, notification_sender, twilio_account_sid,
  twilio_auth_token, twilio_from_number, twilio_sender_configs, amazon_sns, add_codes, add_configs,
  new_twilio_sender, create_notification_sender, twilio_from, send_by_twilio, send_by_sns,
  send_notification,
}

abbrev pub lists : String → TwilioSenderConfig → Bool
lists country_code c = any (λ k. country_code == k) c.country_codes

-- Taken from the last of the configurations that lists the country, or the fallback where none
-- does.
unfoldable pub LastListed :
    {A : Type 0} → (TwilioSenderConfig → A) → A → String → List TwilioSenderConfig → A → Type 0
LastListed f fallback country_code configs a =
    (All (λ c. lists country_code c ≡ false) configs × (a ≡ fallback))
    ⊎ ((before : List TwilioSenderConfig) × (c : TwilioSenderConfig) × (after : List
          TwilioSenderConfig)
        × (configs ≡ before ++ c ∷ after)
        × (lists country_code c ≡ true)
        × All (λ d. lists country_code d ≡ false) after
        × (a ≡ f c))

add_codes-eq :
    (id : String) (codes : List String) (ids : SenderIds) (country_code : String)
    → add_codes id codes ids country_code
      ≡ (if any (λ k. country_code == k) codes then some id else ids country_code)
unfolding add_codes
add_codes-eq id [] ids country_code = refl
add_codes-eq id (k ∷ codes) ids country_code = elim (Bool-cases (country_code == k)) [
  | inl listed ↦
      ground
        (arith, listed, add_codes-eq id codes (λ c. if c == k then some id else ids c) country_code)
  | inr unlisted_here ↦ ground (
    arith,
    unlisted_here,
    add_codes-eq id codes (λ c. if c == k then some id else ids c) country_code,
  )
]

add_configs-LastListed :
    (configs : List TwilioSenderConfig) (ids : SenderIds) (country_code : String)
    → LastListed
        (λ c. some c.sender_id)
        (ids country_code)
        country_code
        configs
        (add_configs configs ids country_code)
unfolding add_configs LastListed
add_configs-LastListed [] ids country_code = inl (tt, refl)
add_configs-LastListed (c ∷ configs) ids country_code =
    elim (add_configs-LastListed configs (add_codes c.sender_id c.country_codes ids) country_code) [
      | inl (unlisted, same) ↦ elim (Bool-cases (lists country_code c)) [
        | inl listed ↦ inr (
          [],
          c,
          configs,
          refl,
          listed,
          unlisted,
          ground (arith, listed, same, add_codes-eq c.sender_id c.country_codes ids country_code),
        )
        | inr unlisted_here ↦ inl (
          (unlisted_here, unlisted),
          ground (
            arith,
            unlisted_here,
            same,
            add_codes-eq c.sender_id c.country_codes ids country_code,
          ),
        )
      ]
      | inr (before, d, after, parts, listed, unlisted, same) ↦
          inr (c ∷ before, d, after, ap (λ l. c ∷ l) parts, listed, unlisted, same)
    ]

twilio_from-LastListed :
    (cfg : SenderConfig) (country_code : String)
    → LastListed
        (λ c. c.sender_id)
        (twilio_from_number cfg)
        country_code
        (twilio_sender_configs cfg)
        (twilio_from cfg (add_configs (twilio_sender_configs cfg) λ c. none) country_code)
unfolding LastListed twilio_from
twilio_from-LastListed cfg country_code =
    elim (add_configs-LastListed (twilio_sender_configs cfg) (λ c. none) country_code) [
      | inl (unlisted, same) ↦ inl (unlisted, ap (λ o. default o (twilio_from_number cfg)) same)
      | inr (before, d, after, parts, listed, unlisted, same) ↦ inr (
        before,
        d,
        after,
        parts,
        listed,
        unlisted,
        ap (λ o. default o (twilio_from_number cfg)) same,
      )
    ]

-- The sender that is made for a configuration is that of AWS exactly where the configuration
-- names it, in any case. Otherwise a text is sent by one call of Twilio, with the configured
-- account, as the sender id of the last sender configuration that lists the country, or from the
-- configured number where none does.
pub notification_sender_sends :
    {Session W : Type 0} (gateway : Gateway Session W) (cfg : SenderConfig)
    (content phone_number country_code : String)
    → ((equals_lower (notification_sender cfg) "aws" ≡ true)
        × (send_notification gateway
              (create_notification_sender cfg)
              content
              phone_number
              country_code
            ≡ send_by_sns gateway cfg content phone_number))
      ⊎ ((equals_lower (notification_sender cfg) "aws" ≡ false)
          × (from : String) × LastListed
              (λ c. c.sender_id)
              (twilio_from_number cfg)
              country_code
              (twilio_sender_configs cfg)
              from
          × (send_notification gateway
                (create_notification_sender cfg)
                content
                phone_number
                country_code
              ≡ gateway.send_message
                  (twilio_account_sid cfg)
                  (twilio_auth_token cfg)
                  from
                  phone_number
                  content))
unfolding send_notification create_notification_sender new_twilio_sender send_by_twilio
notification_sender_sends gateway cfg content phone_number country_code =
    elim (Bool-cases (equals_lower (notification_sender cfg) "aws")) [
      | inl named ↦ inl (
        named,
        ap
            (λ b.
              send_notification gateway (if b then amazon_sns cfg else new_twilio_sender cfg)
                content phone_number country_code)
            named,
      )
      | inr other ↦ inr (
        other,
        twilio_from cfg (add_configs (twilio_sender_configs cfg) λ c. none) country_code,
        twilio_from-LastListed cfg country_code,
        ap
            (λ b.
              send_notification gateway (if b then amazon_sns cfg else new_twilio_sender cfg)
                content phone_number country_code)
            other,
      )
    ]
