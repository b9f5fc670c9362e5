-- ===== src/Verification/Verify/Stored.antt =====
-- What a successful VerifyPhoneCode has read, checked and stored.
use registration_service.Prelude.{◌≡◌, sym, ◌∙◌, subst, true, false, none, some, String, arith}
use registration_service.Action.{ok, map_err, check, >>=-eq-ok, map_err-eq-ok, check-eq-ok}
use registration_service.Api.{
  UserSignup, value, verification_attempts, verification_code, verification_expiry, user_phone_hash,
}
use registration_service.Configuration.{VerificationSpec}
use registration_service.Signup.Poll.{poll_update_signup, poll_last}
use registration_service.Verification.Env.{Env}
use registration_service.Verification.Phone.{phone_number_already_in_use}
use registration_service.Verification.Verify.{
  Outcome, assess, apply_outcome, verify_update, conclude, check_approval, verify_phone_code,
  update_error,
}
use registration_service.Verification.Verify.Checks.{Accepts, assess_iff}

module _ {S W F : Type 0} (env : Env S W F) (cfg : VerificationSpec) where
  -- The signup that is stored no longer needs verification, and its code is gone.
  pub record Verified (w : W) (name : String) : Type 0 where
    pub signup : UserSignup S
    pub is_stored : env.client.stored w name ≡ some signup
    pub not_required : env.states.verification_required signup.states ≡ false
    pub no_code : signup.annotations verification_code ≡ none
    pub no_attempts : signup.annotations verification_attempts ≡ none
    pub no_expiry : signup.annotations verification_expiry ≡ none

  name-apply_outcome : (o : Outcome) (s : UserSignup S) → (apply_outcome env cfg o s).name ≡ s.name
  unfolding apply_outcome
  name-apply_outcome o s = ground arith

  apply_outcome-Verified :
      (o : Outcome) (s : UserSignup S) (w : W) (name : String)
      → o.accepted ≡ true
      → s.name ≡ name
      → env.client.stored w (apply_outcome env cfg o s).name ≡ some (apply_outcome env cfg o s)
      → Verified w name
  unfolding apply_outcome
  apply_outcome-Verified o s w name acc named stored = record {
    signup = apply_outcome env cfg o s;
    is_stored =
        subst (λ n. env.client.stored w n ≡ some (apply_outcome env cfg o s))
          (name-apply_outcome o s ∙ named) stored;
    not_required = ground (arith, env.states.verification_required-set false s.states);
    no_code = ground arith;
    no_attempts = ground arith;
    no_expiry = ground arith;
  }

  verify_update-Verified :
      (username : String) (o : Outcome) (w w' : W)
      → o.accepted ≡ true
      → verify_update env cfg username o w ≡ (ok tt, w')
      → Verified w' (env.encode_user_identifier username)
  unfolding verify_update
  verify_update-Verified username o w w' acc h =
      let (s, w1, got, rest) =
        >>=-eq-ok (env.client.get_signup (env.encode_user_identifier username)) _ w h in
      apply_outcome-Verified o s w' (env.encode_user_identifier username) acc
        (env.client.get-stored _ w w1 s got).1
        (env.client.update-stored (apply_outcome env cfg o s) w1 w' rest)

  conclude-Verified :
      (username code : String) (s : UserSignup S) (w w' : W)
      → conclude env cfg username code s w ≡ (ok tt, w')
      → Accepts env cfg (env.client.now w) code s
        × Verified w' (env.encode_user_identifier username)
  unfolding conclude
  conclude-Verified username code s w w' h =
      let o = assess env cfg (env.client.now w) code s in
      let (_, w1, polled, rest) =
        >>=-eq-ok
          (map_err (λ _. update_error) (poll_update_signup (verify_update env cfg username o)))
          (λ _. check o.error) w h in
      let (clean, same) = check-eq-ok o.error w1 rest in
      let checks = assess_iff env cfg (env.client.now w) code s in
      let accepts = checks.0.0 clean in
      let (_, t, _, _, last) =
        poll_last (verify_update env cfg username o) w w1
          (map_err-eq-ok _ (poll_update_signup (verify_update env cfg username o)) w polled) in
      (
        accepts,
        subst (λ v. Verified v (env.encode_user_identifier username)) same
            (verify_update-Verified username o t w1 (checks.1.1 accepts) last),
      )

  -- If VerifyPhoneCode returns no error, then the UserSignup was found; its captcha score or its
  -- activation counter let it pass; its phone number is not in use; the code was accepted at the
  -- time of the checks (attempts below the limit, not expired, the stored code); and the cluster
  -- holds under the user's name a UserSignup that does not require verification and has no code,
  -- attempts or expiry annotation.
  pub verify_phone_code-Verified :
      (username code : String) (w w' : W)
      → verify_phone_code env cfg username code w ≡ (ok tt, w')
      → (s : UserSignup S) × (w1 w2 : W) × (env.client.get_signup
            (env.encode_user_identifier username)
            w
          ≡ (ok s, w1))
        × (check_approval env cfg s ≡ none)
        × (phone_number_already_in_use env username (value s.labels user_phone_hash) w1
            ≡ (ok tt, w2))
        × Accepts env cfg (env.client.now w2) code s
        × Verified w' (env.encode_user_identifier username)
  unfolding verify_phone_code
  verify_phone_code-Verified username code w w' h =
      let (s, w1, got, rest) =
        >>=-eq-ok (map_err _ (env.client.get_signup (env.encode_user_identifier username))) _ w h in
      let (_, w1', checked, rest') = >>=-eq-ok (check (check_approval env cfg s)) _ w1 rest in
      let (approved, same) = check-eq-ok (check_approval env cfg s) w1 checked in
      let (_, w2, free, last) =
        >>=-eq-ok
          (map_err _ (phone_number_already_in_use env username (value s.labels user_phone_hash))) _
          w1' rest' in
      let (accepts, verified) = conclude-Verified username code s w2 w' last in
      (
        s,
        w1,
        w2,
        map_err-eq-ok _ (env.client.get_signup (env.encode_user_identifier username)) w got,
        approved,
        subst
            (λ v.
              phone_number_already_in_use env username (value s.labels user_phone_hash) v
              ≡ (ok tt, w2))
            (sym same)
            (map_err-eq-ok _
              (phone_number_already_in_use env username (value s.labels user_phone_hash)) w1' free),
        accepts,
        verified,
      )
