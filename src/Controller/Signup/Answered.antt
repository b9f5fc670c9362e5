-- ===== src/Controller/Signup/Answered.antt =====
-- What an answer of the signup endpoint says of the services.
use registration_service.Prelude.{
  ℕ, List, ◌≡◌, refl, sym, ap, ◌∙◌, subst, inl, inr, true, false, Option, none, some, [], ◌∷◌,
  String, arith, Option-cases, Bool-cases,
}
use registration_service.Text.{is_empty}
use registration_service.Errors.{Err, Error, error_text, as_status, as_crt}
use registration_service.Action.{Result, ok, err, outcome_cases}
use registration_service.Api.{UserSignup, Claims}
use registration_service.Configuration.{VerificationSpec}
use registration_service.Signup.Env.{ServiceEnv, ServiceSpec, Request}
use registration_service.Signup.Service.{sign_up}
use registration_service.Signup.Service.Recorded.{Signed, sign_up-Signed}
use registration_service.Signup.Status.{SignupResponse, do_get_signup}
use registration_service.Verification.Env.{Env}
use registration_service.Verification.Verify.{verify_phone_code}
use registration_service.Verification.Verify.Stored.{Verified, verify_phone_code-Verified}
use registration_service.Controller.Answer.{
  Answer, abort_json, json, abort, status, abort_with_error,
}
use registration_service.Controller.Signup.{
  created, got, got_error, verified, post_handler, get_handler, verify_phone_code_handler,
}

abbrev pub get_error_text : String
get_error_text = "error getting UserSignup resource"

module _ {S W F : Type 0} (env : ServiceEnv S W F) where
  created_of :
      (r : Result (UserSignup S))
      → created env r ≡ status 202 ∷ []
      → (u : UserSignup S) × (r ≡ ok u)
  unfolding abort_with_error
  created_of (ok u) h = (u, refl)
  created_of (err e) h = elim (Option-cases (as_status e)) [
    | inl codeless ↦ absurd (ground (arith, h, codeless))
    | inr (code, has) ↦ absurd (ground (arith, h, has))
  ]

  -- If the answer to a signup is "accepted", then the account verifier did not refuse the user, who
  -- is neither an administrator of the toolchain nor banned, and the cluster holds a UserSignup
  -- under the user's name that is new, or renews one that was deactivated and not rejected.
  pub post_handler-Signed :
      (cfg : ServiceSpec) (req : Request) (w w' : W)
      → post_handler env cfg req w ≡ (status 202 ∷ [], w')
      → (u : UserSignup S) × Signed env cfg req w u w'
  unfolding post_handler
  post_handler-Signed cfg req w w' h = elim (outcome_cases (sign_up env cfg req w)) [
    | inl (u, w1, signed) ↦
        let same : w1 ≡ w' = ap (λ p. p.1) (sym signed) ∙ ap (λ p. p.1) h in
        (u, subst (Signed env cfg req w u) same (sign_up-Signed env cfg req w w1 u signed))
    | inr (e, w1, failed) ↦
        let (u, is_ok) =
          created_of (err e) (ap (λ p. created env p.0) (sym failed) ∙ ap (λ p. p.0) h) in
        absurd (ground (arith, is_ok))
  ]

  -- The body of an error.
  abbrev error_body : ℕ → Err → Error
  error_body code e = record { code = code; message = error_text e; details = get_error_text }

  -- What is written, by how the service ended.
  pub data GetAnswers (ended : Result (Option SignupResponse))
      (written : List (Answer SignupResponse)) : Type 0 where
    found :
        (s : SignupResponse)
        → ended ≡ ok (some s)
        → written ≡ json 200 s ∷ []
        → GetAnswers ended written
    missing : ended ≡ ok none → written ≡ abort 404 ∷ [] → GetAnswers ended written
    refused :
        (e : Err) (code : ℕ)
        → ended ≡ err e
        → as_status e ≡ some code
        → written ≡ abort_json code (error_body code e) ∷ []
        → GetAnswers ended written
    failed :
        (e : Err)
        → ended ≡ err e
        → as_status e ≡ none
        → written ≡ abort_json 500 (error_body 500 e) ∷ abort 404 ∷ []
        → GetAnswers ended written

  got-GetAnswers : (r : Result (Option SignupResponse)) → GetAnswers r (got env r)
  unfolding abort_with_error
  got-GetAnswers (ok none) = missing refl refl
  got-GetAnswers (ok (some s)) = found s refl refl
  got-GetAnswers (err e) = elim (Option-cases (as_status e)) [
    | inl codeless ↦ failed e refl codeless (ap (got_error env e) codeless)
    | inr (code, has) ↦ refused e code refl has (ap (got_error env e) has)
  ]

  -- The answer to a question for a signup is the signup with the code 200, or 404 where there is none.
  -- An error that carries the HTTP code of a status error is answered with that code and the error.
  -- Any other error is answered with 500 and the error, and then 404 is written too.
  pub get_handler-GetAnswers :
      (claims : Claims) (w : W)
      → GetAnswers
          (do_get_signup env (some claims) claims.preferred_username true w).0
          (get_handler env claims w).0
  unfolding get_handler
  get_handler-GetAnswers claims w =
      got-GetAnswers (do_get_signup env (some claims) claims.preferred_username true w).0

module _ {S W F : Type 0} (env : Env S W F) (cfg : VerificationSpec) where
  verified_of : (r : Result (Unit {0})) → verified env cfg r ≡ status 200 ∷ [] → r ≡ ok tt
  unfolding abort_with_error
  verified_of (ok tt) h = refl
  verified_of (err e) h = elim (Option-cases (as_crt e)) [
    | inl codeless ↦ absurd (ground (arith, h, codeless))
    | inr (c, has) ↦ absurd (ground (arith, h, has))
  ]

  -- If the answer to a code sent by phone is "OK", then a code was given, and the cluster holds under
  -- the user's name a UserSignup that does not require verification and has no code, attempts or
  -- expiry annotation.
  pub verify_phone_code_handler-Verified :
      (username code : String) (w w' : W)
      → verify_phone_code_handler env cfg username code w ≡ (status 200 ∷ [], w')
      → (is_empty code ≡ false) × Verified env cfg w' (env.encode_user_identifier username)
  unfolding verify_phone_code_handler
  verify_phone_code_handler-Verified username code w w' h = elim (Bool-cases (is_empty code)) [
    | inl nothing ↦ absurd (ground (arith, rw nothing at h))
    | inr given ↦
        let run = rw given at h in
        let done = verified_of (verify_phone_code env cfg username code w).0 (ap (λ p. p.0) run) in
        let there : verify_phone_code env cfg username code w ≡ (ok tt, w') =
          ap (λ r. (r, (verify_phone_code env cfg username code w).1)) done
          ∙ ap (λ v. (ok tt, v)) (ap (λ p. p.1) run) in
        let (_, _, _, _, _, _, _, v) =
          verify_phone_code-Verified env cfg username code w w' there in
        (given, v)
  ]
