-- ===== src/Signup/Captcha/Exempt.antt =====
-- For whom no phone verification is required.
use registration_service.Prelude.{
  ◌≡◌, refl, inl, inr, Bool, true, false, Option, none, some, List, [], ◌∷◌, String, arith,
  Bool-cases, ◌↔◌,
}
use registration_service.Action.{Result, ok, err, outcome_cases}
use registration_service.Configuration.{
  VerificationSpec, enabled, captcha_enabled, captcha_score_threshold,
}
use registration_service.Signup.Env.{Request, Assessment, ServiceEnv}
use registration_service.Signup.Captcha.{
  PhoneRequirement, is_excluded, judge_assessment, assess_token, is_phone_verification_required,
}

module _ {S W F : Type 0} (env : ServiceEnv S W F) (cfg : VerificationSpec) where
  -- The three reasons: verification is switched off, the email's domain is excluded, or the one
  -- captcha token of the request was assessed with a score that is not below the threshold.
  pub data Exempt (req : Request) (w : W) : Type 0 where
    switched_off : enabled cfg ≡ false → Exempt req w
    excluded : enabled cfg ≡ true → is_excluded env cfg req.claims.email ≡ true → Exempt req w
    trusted :
        {w' : W} {token : String} {a : Assessment F}
        → enabled cfg ≡ true
        → is_excluded env cfg req.claims.email ≡ false
        → captcha_enabled cfg ≡ true
        → req.has_request ≡ true
        → req.captcha_tokens ≡ some (token ∷ [])
        → env.complete_assessment token w ≡ (ok a, w')
        → env.floats.less a.score (captcha_score_threshold env.floats cfg) ≡ false
        → Exempt req w

  abbrev pub is_required : Result (PhoneRequirement F) × W → Bool
  is_required (ok r, w) = r.required
  is_required (err e, w) = true

  phone_verification_sound :
      (req : Request) (w : W)
      → Exempt req w
      → is_required (is_phone_verification_required env cfg req w) ≡ false
  unfolding is_phone_verification_required assess_token judge_assessment
  phone_verification_sound req w (switched_off h) = ground (arith, h)
  phone_verification_sound req w (excluded h1 h2) = ground (arith, h1, h2)
  phone_verification_sound req w (trusted h1 h2 h3 h4 h5 h6 h7) =
      ground (arith, h1, h2, h3, h4, h5, h6, h7)

  assessed :
      (req : Request) (w : W) (tokens : Option (List String))
      → req.captcha_tokens ≡ tokens
      → enabled cfg ≡ true
      → is_excluded env cfg req.claims.email ≡ false
      → captcha_enabled cfg ≡ true
      → req.has_request ≡ true
      → is_required (assess_token env cfg req w) ≡ false
      → Exempt req w
  unfolding assess_token judge_assessment
  assessed req w (some (token ∷ [])) has h1 h2 h3 h4 h =
      elim (outcome_cases (env.complete_assessment token w)) [
        | inl (a, w', done) ↦ trusted h1 h2 h3 h4 has done (ground (arith, h, h4, has, done))
        | inr (e, w', failed) ↦ absurd (ground (arith, h, h4, has, failed))
      ]
  assessed req w none has h1 h2 h3 h4 h = absurd (ground (arith, h, h4, has))
  assessed req w (some []) has h1 h2 h3 h4 h = absurd (ground (arith, h, h4, has))
  assessed req w (some (s ∷ t ∷ ts)) has h1 h2 h3 h4 h = absurd (ground (arith, h, h4, has))

  phone_verification_complete :
      (req : Request) (w : W)
      → is_required (is_phone_verification_required env cfg req w) ≡ false
      → Exempt req w
  unfolding is_phone_verification_required assess_token
  phone_verification_complete req w h = elim (Bool-cases (enabled cfg)) [
    | inr off ↦ switched_off off
    | inl on ↦ elim (Bool-cases (is_excluded env cfg req.claims.email)) [
      | inl out ↦ excluded on out
      | inr kept ↦ elim (Bool-cases (captcha_enabled cfg)) [
        | inr off ↦ absurd (ground (arith, h, on, kept, off))
        | inl captcha ↦ elim (Bool-cases req.has_request) [
          | inr bare ↦ absurd (ground (arith, h, on, kept, captcha, bare))
          | inl has ↦
              assessed req w req.captcha_tokens refl on kept captcha has
                (ground (arith, h, on, kept, captcha, has))
        ]
      ]
    ]
  ]

  -- No phone verification is required exactly where verification is switched off, the email's domain
  -- is excluded, or the one captcha token of the request was assessed with a score that is not below
  -- the threshold.
  pub phone_verification_iff :
      (req : Request) (w : W)
      → (is_required (is_phone_verification_required env cfg req w) ≡ false) ↔ Exempt req w
  phone_verification_iff req w = (phone_verification_complete req w, phone_verification_sound req w)
