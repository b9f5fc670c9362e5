-- ===== src/Verification/Code.antt =====
-- `generateVerificationCode` of verification_service.go.
use registration_service.Prelude.{
  ℕ, suc, ◌%◌, ◌<◌, ◌≡◌, refl, ◌∙◌, ap, subst, true, List, [], ◌∷◌, String, code, arith, length,
}
use registration_service.Text.Decimal.{char_at, is_digit, digit, code-digit}
use registration_service.Action.{Action, ok, pure, ◌>>=◌, >>=-eq-ok}
use registration_service.Verification.Env.{Env}

abbrev pub code_charset : String
code_charset = "0123456789"

abbrev pub code_length : ℕ
code_length = 6

-- The loop `buf[i] = codeCharset[int(buf[i]) % charsetLen]`.
unfoldable pub encode_code : List ℕ → String
encode_code [] = String.[]
encode_code (b ∷ bs) = String.◌∷◌ (char_at code_charset (b % 10) "0") (encode_code bs)

-- The length of a text in characters.
abbrev pub count : String → ℕ
count String.[] = 0
count (String.◌∷◌ c s) = suc (count s)

abbrev pub AllDigits : String → Type 0
AllDigits String.[] = Unit
AllDigits (String.◌∷◌ c s) = (is_digit (code c) ≡ true) × AllDigits s

module _ {S W F : Type 0} (env : Env S W F) where
  unfoldable pub generate_verification_code : Action W String
  unfolding encode_code
  generate_verification_code = do bytes ← env.read_random code_length; pure (encode_code bytes)

count-encode_code : (bs : List ℕ) → count (encode_code bs) ≡ length bs
unfolding encode_code
count-encode_code [] = refl
count-encode_code (b ∷ bs) = ap suc (count-encode_code bs)

is_digit-digit : (d : ℕ) → d < 10 → is_digit (code (digit d)) ≡ true
is_digit-digit d h = ground (arith, code-digit d)

encode_code-AllDigits : (bs : List ℕ) → AllDigits (encode_code bs)
unfolding encode_code digit
encode_code-AllDigits [] = tt
encode_code-AllDigits (b ∷ bs) = (is_digit-digit (b % 10) (omega arith), encode_code-AllDigits bs)

-- A generated code has six characters, each a decimal digit.
pub generate_verification_code_shape :
    {S W F : Type 0} (env : Env S W F) (w w' : W) (c : String)
    → generate_verification_code env w ≡ (ok c, w')
    → (count c ≡ 6) × AllDigits c
unfolding generate_verification_code
generate_verification_code_shape env w w' c h =
    let (bytes, w1, got, rest) = >>=-eq-ok (env.read_random 6) (λ b. pure (encode_code b)) w h in
    let same : encode_code bytes ≡ c = ground arith in
    let n : length bytes ≡ 6 = env.read_random-length 6 w w1 bytes got in
    subst (λ s. (count s ≡ 6) × AllDigits s) same
      (count-encode_code bytes ∙ n, encode_code-AllDigits bytes)
