-- ===== src/Controller/Answer.antt =====
-- What a handler asks gin to write, one after the other, and `AbortWithError` of
-- pkg/errors/error.go. Which of several writes gin sends is gin's.
use registration_service.Prelude.{ℕ, String}
use registration_service.Errors.{Err, Error, error_text}

pub data Answer {ℓ} (B : Type ℓ) : Type ℓ where
  -- AbortWithStatusJSON of an error
  abort_json : ℕ → Error → Answer B
  -- AbortWithStatus
  abort : ℕ → Answer B
  -- Status, with WriteHeaderNow or at the end of the request
  status : ℕ → Answer B
  -- JSON
  json : ℕ → B → Answer B

unfoldable pub abort_with_error {ℓ} : {B : Type ℓ} → ℕ → Err → String → Answer B
unfolding error_text
abort_with_error code e details =
    abort_json code (record { code = code; message = error_text e; details = details })
