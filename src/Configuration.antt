-- ===== src/Configuration.antt =====
-- pkg/configuration/configuration.go: the values that the services read, with their defaults. A
-- field of the ToolchainConfig resource that is not set is `none`. Scores are `float32`, a type
-- that is a parameter with the operations that the source uses.
use registration_service.Prelude.{
  Bool, true, false, Option, none, some, List, [], ◌∷◌, String, if◌then◌else◌,
}
use registration_service.Prelude.Int.{ℤ, pos}
use registration_service.Text.{split, is_empty}

pub data PhoneLookupMode : Type 0 where
  lookup_disabled lookup_log lookup_enabled : PhoneLookupMode

-- float32: strconv.ParseFloat(s, 32), a < b, the constants, and Sprintf("%.1f").
pub record Floats (F : Type 0) : Type 0 where
  pub parse_float : String → Option F
  pub less : F → F → Bool
  pub zero_score : F
  pub default_score_threshold : F
  -- -1
  pub no_score : F
  pub show_score : F → String

-- RegistrationServiceVerificationConfig
pub record VerificationSpec : Type 0 where
  pub enabled : Option Bool
  pub daily_limit : Option ℤ
  pub attempts_allowed : Option ℤ
  pub message_template : Option String
  pub excluded_email_domains : Option String
  pub code_expires_in_min : Option ℤ
  pub captcha_enabled : Option Bool
  pub captcha_score_threshold : Option String
  pub captcha_required_score : Option String
  pub captcha_allow_low_score_reactivation : Option Bool
  pub phone_lookup_mode : Option PhoneLookupMode
  pub phone_lookup_excluded_countries : List String

-- GetBool, GetInt and GetString: the value or its default.
abbrev pub default {ℓ} : {A : Type ℓ} → Option A → A → A
default none d = d
default (some v) d = v

unfoldable pub enabled : VerificationSpec → Bool
enabled c = default c.enabled false

unfoldable pub daily_limit : VerificationSpec → ℤ
daily_limit c = default c.daily_limit (pos 5)

unfoldable pub attempts_allowed : VerificationSpec → ℤ
attempts_allowed c = default c.attempts_allowed (pos 3)

unfoldable pub message_template : VerificationSpec → String
message_template c = default c.message_template "Your Developer Sandbox verification code is %s"

drop_empty : List String → List String
drop_empty [] = []
drop_empty (s ∷ ss) = let rest = drop_empty ss in if is_empty s then rest else s ∷ rest

-- strings.FieldsFunc at commas: the pieces that are not empty.
unfoldable pub excluded_email_domains : VerificationSpec → List String
unfolding drop_empty split
excluded_email_domains c = drop_empty (split b',' (default c.excluded_email_domains ""))

unfoldable pub code_expires_in_min : VerificationSpec → ℤ
code_expires_in_min c = default c.code_expires_in_min (pos 5)

unfoldable pub captcha_enabled : VerificationSpec → Bool
captcha_enabled c = default c.captcha_enabled false

unfoldable pub captcha_allow_low_score_reactivation : VerificationSpec → Bool
captcha_allow_low_score_reactivation c = default c.captcha_allow_low_score_reactivation true

unfoldable pub phone_lookup_mode : VerificationSpec → PhoneLookupMode
phone_lookup_mode c = default c.phone_lookup_mode lookup_log

unfoldable pub phone_lookup_excluded_countries : VerificationSpec → List String
phone_lookup_excluded_countries c = c.phone_lookup_excluded_countries

module _ {F : Type 0} (floats : Floats F) where
  unfoldable pub captcha_score_threshold : VerificationSpec → F
  captcha_score_threshold c =
      default (floats.parse_float (default c.captcha_score_threshold ""))
        floats.default_score_threshold

  unfoldable pub captcha_required_score : VerificationSpec → F
  captcha_required_score c =
      default (floats.parse_float (default c.captcha_required_score "0")) floats.zero_score
