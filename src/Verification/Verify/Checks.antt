-- ===== src/Verification/Verify/Checks.antt =====
-- When the checks of VerifyPhoneCode accept a code.
use registration_service.Prelude.{
  ℕ, ◌≤◌, ◌≡◌, ◌↔◌, true, none, some, String, arith, eq_iff, inl, inr, Option-cases,
}
use registration_service.Prelude.Int.{ℤ, ◌<ℤ◌}
use registration_service.Text.Decimal.{atoi}
use registration_service.Action.{ok, Result-cases}
use registration_service.Api.{
  UserSignup, value, verification_attempts, verification_code, verification_expiry,
}
use registration_service.Configuration.{VerificationSpec, attempts_allowed}
use registration_service.Verification.Env.{Env}
use registration_service.Verification.Verify.{assess}

module _ {S W F : Type 0} (env : Env S W F) (cfg : VerificationSpec) where
  -- A readable number of attempts below the limit, a readable expiry time that is not past, and
  -- the stored code.
  pub record Accepts (now : ℕ) (code : String) (signup : UserSignup S) : Type 0 where
    pub attempts : ℤ
    pub attempts_read : atoi (value signup.annotations verification_attempts) ≡ some attempts
    pub below_limit : attempts <ℤ attempts_allowed cfg
    pub expiry : ℕ
    pub expiry_read : env.parse_time (value signup.annotations verification_expiry) ≡ ok expiry
    pub in_time : now ≤ expiry
    pub matches : code ≡ value signup.annotations verification_code

  assess_sound :
      (now : ℕ) (code : String) (signup : UserSignup S)
      → (assess env cfg now code signup).error ≡ none
      → Accepts now code signup
  unfolding assess
  assess_sound now code signup h =
      elim (Option-cases (atoi (value annotations verification_attempts))) [
        | inl missing ↦ absurd (ground (arith, missing))
        | inr (n, read) ↦
            elim (Result-cases (env.parse_time (value annotations verification_expiry))) [
              | inr (e, bad) ↦ absurd (ground (arith, read, bad))
              | inl (expiry, parsed) ↦ record {
                attempts = n;
                attempts_read = read;
                below_limit = ground (arith, read, parsed);
                expiry = expiry;
                expiry_read = parsed;
                in_time = ground (arith, read, parsed);
                matches =
                    ground (arith, read, parsed, eq_iff code (value annotations verification_code));
              }
            ]
      ]
    where
      open signup use {annotations}

  -- The flag that clears the annotations and unsets `VerificationRequired` is set exactly where
  -- there is no error.
  accepted_iff :
      (now : ℕ) (code : String) (signup : UserSignup S)
      → (assess env cfg now code signup).accepted ≡ true
      → (assess env cfg now code signup).error ≡ none
  unfolding assess
  accepted_iff now code signup h = ground arith

  assess_complete :
      (now : ℕ) (code : String) (signup : UserSignup S)
      → Accepts now code signup
      → ((assess env cfg now code signup).error ≡ none)
        × ((assess env cfg now code signup).accepted ≡ true)
  unfolding assess
  assess_complete now code signup a =
      ground (arith, eq_iff code (value signup.annotations verification_code))

  -- The checks pass exactly where `Accepts` holds, and the flag for a match is set exactly there too.
  pub assess_iff :
      (now : ℕ) (code : String) (signup : UserSignup S)
      → (((assess env cfg now code signup).error ≡ none) ↔ Accepts now code signup)
        × (((assess env cfg now code signup).accepted ≡ true) ↔ Accepts now code signup)
  assess_iff now code signup = (
    (assess_sound now code signup, λ a. (assess_complete now code signup a).0),
    (
      λ h. assess_sound now code signup (accepted_iff now code signup h),
      λ a. (assess_complete now code signup a).1,
    ),
  )
