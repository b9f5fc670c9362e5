-- ===== src/Verification/Verify/Applied.antt =====
-- What the checks of VerifyPhoneCode change in the signup.
use registration_service.Prelude.{ℕ, ◌≡◌, ◌⊎◌, false, none, some, String}
use registration_service.Errors.{Err}
use registration_service.Api.{
  UserSignup, Key, key_eq, verification_attempts, verification_code, verification_expiry,
  verification_counter, verification_init_timestamp,
}
use registration_service.Configuration.{VerificationSpec}
use registration_service.Verification.Env.{Env}
use registration_service.Verification.Verify.{assess, apply_outcome}
use registration_service.Verification.Verify.Checks.{Accepts}

module _ {S W F : Type 0} (env : Env S W F) (cfg : VerificationSpec) where
  -- The signup is no longer asked for a verification, and all that belonged to it is gone.
  pub record Cleared (s s' : UserSignup S) : Type 0 where
    pub unset : s'.states ≡ env.states.set_verification_required false s.states
    pub no_code : s'.annotations verification_code ≡ none
    pub no_attempts : s'.annotations verification_attempts ≡ none
    pub no_expiry : s'.annotations verification_expiry ≡ none
    pub no_counter : s'.annotations verification_counter ≡ none
    pub no_timestamp : s'.annotations verification_init_timestamp ≡ none

  -- Nothing but the number of attempts is changed.
  pub record Kept (s s' : UserSignup S) : Type 0 where
    pub same_states : s'.states ≡ s.states
    pub same_annotations :
        (k : Key) → key_eq verification_attempts k ≡ false → s'.annotations k ≡ s.annotations k

  -- The signup after the checks at a time.
  abbrev pub Applied : ℕ → String → UserSignup S → Type 0
  Applied now code s =
      (Accepts env cfg now code s
        × ((assess env cfg now code s).error ≡ none)
        × Cleared s (apply_outcome env cfg (assess env cfg now code s) s))
      ⊎ ((¬ Accepts env cfg now code s)
          × (e : Err) × ((assess env cfg now code s).error ≡ some e)
          × Kept s (apply_outcome env cfg (assess env cfg now code s) s))
