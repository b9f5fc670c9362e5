-- ===== src/Verification/Verify/Lockout.antt =====
-- How many codes VerifyPhoneCode compares: guesses in a row against one stored code.
use registration_service.Prelude.{
  ℕ, ◌+◌, ◌≤◌, ◌<◌, ◌≡◌, ◌≢◌, subst, none, some, List, [], ◌∷◌, String, arith, eq_iff, length, All,
}
use registration_service.Prelude.Int.{pos, max_int}
use registration_service.Text.Decimal.{itoa, atoi-itoa}
use registration_service.Action.{ok}
use registration_service.Api.{
  UserSignup, value, verification_attempts, verification_code, verification_expiry,
}
use registration_service.Configuration.{VerificationSpec, attempts_allowed}
use registration_service.Verification.Env.{Env}
use registration_service.Verification.Verify.{assess, apply_outcome, too_many}

module _ {S W F : Type 0} (env : Env S W F) (cfg : VerificationSpec) where
  -- One request for the code at a time, with no other write between.
  pub guess : UserSignup S → ℕ × String → UserSignup S
  guess s (now, code) = apply_outcome env cfg (assess env cfg now code s) s

  pub guess_all : UserSignup S → List (ℕ × String) → UserSignup S
  guess_all s [] = s
  guess_all s (g ∷ gs) = guess_all (guess s g) gs

  -- `k` wrong codes have been counted against the code `c`, which expires at `e`.
  pub record Waiting (c : String) (e k : ℕ) (s : UserSignup S) : Type 0 where
    pub counted : value s.annotations verification_attempts ≡ itoa (pos k)
    pub code_stored : value s.annotations verification_code ≡ c
    pub expiry_stored : env.parse_time (value s.annotations verification_expiry) ≡ ok e

  -- A guess in time that is not the code.
  abbrev pub IsWrong : String → ℕ → ℕ × String → Type 0
  IsWrong c e (now, code) = (now ≤ e) × (code ≢ c)

  module _ (n : ℕ) (limit : attempts_allowed cfg ≡ pos n) (small : n ≤ max_int) where
    guess-Waiting :
        (c : String) (e k now : ℕ) (code : String) (s : UserSignup S)
        → Waiting c e k s
        → k < n
        → IsWrong c e (now, code)
        → Waiting c e (k + 1) (guess s (now, code))
    unfolding guess assess apply_outcome
    guess-Waiting c e k now code s h below wrong = record {
      counted =
          ground (arith, atoi-itoa (pos k), eq_iff code (value s.annotations verification_code));
      code_stored =
          ground (arith, atoi-itoa (pos k), eq_iff code (value s.annotations verification_code));
      expiry_stored =
          ground (arith, atoi-itoa (pos k), eq_iff code (value s.annotations verification_code));
    }

    guess_all-Waiting :
        (c : String) (e k m : ℕ) (gs : List (ℕ × String)) (s : UserSignup S)
        → k + length gs ≡ m
        → m ≤ n
        → Waiting c e k s
        → All (IsWrong c e) gs
        → Waiting c e m (guess_all s gs)
    unfolding guess_all
    guess_all-Waiting c e k m [] s eq le h wrong =
        let same : k ≡ m = omega arith in subst (λ i. Waiting c e i s) same h
    guess_all-Waiting c e k m (g ∷ gs) s eq le h wrong =
        guess_all-Waiting c e (k + 1) m gs (guess s g) (omega arith) le
          (guess-Waiting c e k g.0 g.1 s h (omega arith) wrong.0) wrong.1

    IsLocked : UserSignup S → Type 0
    IsLocked s = value s.annotations verification_attempts ≡ itoa (pos n)

    locked_refuses :
        (now : ℕ) (code : String) (s : UserSignup S)
        → IsLocked s
        → (assess env cfg now code s).error ≡ some too_many
    unfolding assess IsLocked
    locked_refuses now code s h = ground (arith, atoi-itoa (pos n))

    guess-IsLocked : (s : UserSignup S) (g : ℕ × String) → IsLocked s → IsLocked (guess s g)
    unfolding guess assess apply_outcome IsLocked
    guess-IsLocked s (now, code) h = ground (arith, atoi-itoa (pos n))

    guess_all-IsLocked :
        (s : UserSignup S) (gs : List (ℕ × String)) → IsLocked s → IsLocked (guess_all s gs)
    unfolding guess_all
    guess_all-IsLocked s [] h = h
    guess_all-IsLocked s (g ∷ gs) h = guess_all-IsLocked (guess s g) gs (guess-IsLocked s g h)

  -- With a limit of n attempts, on a signup whose code has been sent and whose counter says 0:
  -- after n wrong guesses in time, and any further guesses, every guess is refused with
  -- "too many verification attempts", the right code too.
  pub lockout :
      (n : ℕ) (c : String) (e : ℕ) (s : UserSignup S) (wrong more : List (ℕ × String)) (now : ℕ)
      (code : String)
      → attempts_allowed cfg ≡ pos n
      → n ≤ max_int
      → Waiting c e 0 s
      → length wrong ≡ n
      → All (IsWrong c e) wrong
      → (assess env cfg now code (guess_all (guess_all s wrong) more)).error ≡ some too_many
  unfolding IsLocked
  lockout n c e s wrong more now code limit small h len bad =
      let w = guess_all-Waiting n limit small c e 0 n wrong s (omega arith) (omega arith) h bad in
      locked_refuses n limit small now code (guess_all (guess_all s wrong) more)
        (guess_all-IsLocked n limit small (guess_all s wrong) more w.counted)

  -- And as long as fewer than n wrong guesses were made in time, the right code is accepted: no
  -- attempt is lost.
  pub early_enough :
      (n : ℕ) (c : String) (e : ℕ) (s : UserSignup S) (wrong : List (ℕ × String)) (now : ℕ)
      → attempts_allowed cfg ≡ pos n
      → n ≤ max_int
      → Waiting c e 0 s
      → length wrong < n
      → All (IsWrong c e) wrong
      → now ≤ e
      → (assess env cfg now c (guess_all s wrong)).error ≡ none
  unfolding assess
  early_enough n c e s wrong now limit small h len bad in_time =
      let w =
        guess_all-Waiting n limit small c e 0 (length wrong) wrong s (omega arith) (omega arith) h
          bad in
      ground (
        arith,
        w.counted,
        w.code_stored,
        w.expiry_stored,
        atoi-itoa (pos (length wrong)),
        eq_iff c (value (guess_all s wrong).annotations verification_code),
      )
