-- ===== src/Signup/Captcha.antt =====
-- `IsPhoneVerificationRequired` of pkg/signup/service/signup_service.go.
pub mod Exempt
use registration_service.Prelude.{
  Bool, true, false, not, Option, none, some, List, [], ◌∷◌, String, any, code, eqb, if◌then◌else◌,
}
use registration_service.Action.{Action, Result, ok, err, pure, attempt, ◌>>=◌}
use registration_service.Configuration.{
  VerificationSpec, enabled, excluded_email_domains, captcha_enabled, captcha_score_threshold,
}
use registration_service.Signup.Env.{Request, Assessment, ServiceEnv}
use Prim.Native.String

-- What follows the last `@`, `none` if there is none.
after_last_at : String → Option String
after_last_at String.[] = none
after_last_at (String.◌∷◌ c s) =
    let later = after_last_at s in
    elim later [ some host ↦ some host | none ↦ if eqb (code c) b'@' then some s else none ]

-- The whole address, where it has no `@`.
unfoldable pub extract_email_host : String → String
unfolding after_last_at
extract_email_host email = elim (after_last_at email) [ none ↦ email | some host ↦ host ]

-- The three results of IsPhoneVerificationRequired.
pub record PhoneRequirement (F : Type 0) : Type 0 where
  pub required : Bool
  pub score : F
  pub assessment_id : String

-- The token of a header that has exactly one.
abbrev pub only_token : Option (List String) → Option String
only_token (some (t ∷ [])) = some t
only_token _ = none

module _ {S W F : Type 0} (env : ServiceEnv S W F) (cfg : VerificationSpec) where
  -- A result without an assessment.
  abbrev pub without_score : Bool → PhoneRequirement F
  without_score b = record { required = b; score = env.floats.no_score; assessment_id = "" }

  -- What an assessment means.
  unfoldable pub judge_assessment : Result (Assessment F) → PhoneRequirement F
  unfolding captcha_score_threshold
  judge_assessment (err e) = without_score true
  judge_assessment (ok a) = record {
    required = env.floats.less a.score (captcha_score_threshold env.floats cfg);
    score = a.score;
    assessment_id = a.name;
  }

  -- Is the domain of the address excluded from the verification?
  unfoldable pub is_excluded : String → Bool
  unfolding extract_email_host excluded_email_domains
  is_excluded email =
      any (λ d. env.equal_fold d (extract_email_host email)) (excluded_email_domains cfg)

  unfoldable pub assess_token : Request → Action W (PhoneRequirement F)
  unfolding judge_assessment
  assess_token req =
      if not req.has_request
      then pure (without_score true)
      else elim (only_token req.captcha_tokens) [
        | none ↦ pure (without_score true)
        | some token ↦ do a ← attempt (env.complete_assessment token); pure (judge_assessment a)
      ]

  unfoldable pub is_phone_verification_required : Request → Action W (PhoneRequirement F)
  unfolding is_excluded assess_token enabled captcha_enabled
  is_phone_verification_required req =
      if not (enabled cfg)
      then pure (without_score false)
      else if is_excluded req.claims.email
      then pure (without_score false)
      else if not (captcha_enabled cfg)
      then pure (without_score true)
      else assess_token req
