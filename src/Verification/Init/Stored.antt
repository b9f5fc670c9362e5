-- ===== src/Verification/Init/Stored.antt =====
-- What InitVerification stores: after a code was sent, and for a high risk phone number.
use registration_service.Prelude.{
  ℕ, ◌≡◌, refl, sym, ap, subst, ◌∙◌, true, false, some, String, arith,
}
use registration_service.Prelude.Int.{ℤ, increment}
use registration_service.Text.Decimal.{itoa}
use registration_service.Action.{ok, map_err, check, >>=-eq-ok, map_err-eq-ok, check-eq-ok}
use registration_service.Api.{
  UserSignup, Key, user_phone_hash, verification_attempts, verification_code, verification_counter,
  verification_expiry,
}
use registration_service.Configuration.{VerificationSpec, code_expires_in_min}
use registration_service.Signup.Poll.{poll_update_signup, poll_last}
use registration_service.Verification.Env.{Env}
use registration_service.Verification.Phone.{phone_number_already_in_use}
use registration_service.Verification.Verify.{update_error}
use registration_service.Verification.Init.{
  Pending, add_minutes, prepare, sent_values, open_window, apply_pending, init_update, start,
  states_error, init_verification,
}
use registration_service.Verification.Init.Sent.{Sent, Prepared, prepare-Prepared}

module _ {S W F : Type 0} (env : Env S W F) (cfg : VerificationSpec) where
  name-apply_pending :
      (phone_hash : String) (p : Pending) (s : UserSignup S)
      → (apply_pending env cfg phone_hash p s).name ≡ s.name
  unfolding apply_pending
  name-apply_pending phone_hash p s = refl

  -- A successful update has stored the changes to the signup that it read.
  pub init_update-stored :
      (username phone_hash : String) (p : Pending) (w w' : W)
      → init_update env cfg username phone_hash p w ≡ (ok tt, w')
      → (u : UserSignup S) × (env.client.stored w' (env.encode_user_identifier username)
          ≡ some (apply_pending env cfg phone_hash p u))
  unfolding init_update
  init_update-stored username phone_hash p w w' h =
      let (u, w1, got, rest) =
        >>=-eq-ok (env.client.get_signup (env.encode_user_identifier username)) _ w h in
      (
        u,
        subst (λ n. env.client.stored w' n ≡ some (apply_pending env cfg phone_hash p u))
            (name-apply_pending phone_hash p u ∙ (env.client.get-stored _ w w1 u got).1)
            (env.client.update-stored (apply_pending env cfg phone_hash p u) w1 w' rest),
      )

  -- The stored signup records the phone number and the code that was sent.
  pub record Recorded (w : W) (username number code : String) (counter : ℤ) (now : ℕ) : Type 0 where
    pub signup : UserSignup S
    pub is_stored : env.client.stored w (env.encode_user_identifier username) ≡ some signup
    pub phone : signup.labels user_phone_hash ≡ some (env.encode_string number)
    pub code_stored : signup.annotations verification_code ≡ some code
    pub counted : signup.annotations verification_counter ≡ some (itoa (increment counter))
    pub no_attempts : signup.annotations verification_attempts ≡ some "0"
    pub expires :
        signup.annotations verification_expiry
        ≡ some (env.format_time (add_minutes now (code_expires_in_min cfg)))

  Sent-Recorded :
      (now : ℕ) (counter : ℤ) (number country_code username : String) (p p' : Pending)
      (u : UserSignup S) (w1 w2 w : W)
      (sent : Sent env cfg now counter number country_code p p' w1 w2)
      → env.client.stored w (env.encode_user_identifier username)
        ≡ some (apply_pending env cfg (env.encode_string number) p' u)
      → Recorded w username number sent.code counter now
  unfolding apply_pending sent_values
  Sent-Recorded now counter number country_code username p p' u w1 w2 w sent stored = record {
    signup = apply_pending env cfg (env.encode_string number) p' u;
    is_stored = stored;
    phone = refl;
    code_stored = by_key verification_code (at verification_code);
    counted = by_key verification_counter (at verification_counter);
    no_attempts = by_key verification_attempts (at verification_attempts);
    expires = by_key verification_expiry (at verification_expiry);
  }
    where
      at : (k : Key) → p'.values k ≡ sent_values env cfg now counter sent.code p.values k
      at k = ap (λ (q : Pending). q.values k) sent.recorded

      by_key :
          (k : Key) {v : String}
          → p'.values k ≡ some v
          → (apply_pending env cfg (env.encode_string number) p' u).annotations k ≡ some v
      by_key k h = ground (arith, h)

  -- From the signup that was read to the code that was sent and the signup that is stored.
  pub record Started (username number country_code : String) (s : UserSignup S) (w w' : W)
      : Type 0 where
    pub pending : Pending
    pub after : W
    pub prepared :
        Prepared env cfg
          (env.client.now w)
          s
          number
          (env.encode_string number)
          country_code
          (open_window env cfg (env.client.now w) s).0
          (open_window env cfg (env.client.now w) s).1
          pending
          w
          after
    pub recorded :
        Recorded w' username number prepared.sent.code
          (open_window env cfg (env.client.now w) s).0
          (env.client.now w)

  start-Started :
      (username number country_code : String) (s : UserSignup S) (w w' : W)
      → start env cfg username number country_code s w ≡ (ok tt, w')
      → Started username number country_code s w w'
  unfolding start
  start-Started username number country_code s w w' h =
      let now = env.client.now w in
      let ph = env.encode_string number in
      let counter = (open_window env cfg now s).0 in
      let values = (open_window env cfg now s).1 in
      let (p, w1, done, rest) =
        >>=-eq-ok (prepare env cfg now s number ph country_code counter values) _ w h in
      let (_, w2, polled, rest') =
        >>=-eq-ok
          (map_err (λ _. update_error) (poll_update_signup (init_update env cfg username ph p)))
          (λ _. check p.error) w1 rest in
      let (clean, same) = check-eq-ok p.error w2 rest' in
      let (_, t, _, _, last) =
        poll_last (init_update env cfg username ph p) w1 w2
          (map_err-eq-ok _ (poll_update_signup (init_update env cfg username ph p)) w1 polled) in
      let (u, stored) = init_update-stored username ph p t w2 last in
      let r =
        prepare-Prepared env cfg now s number ph country_code counter values p w w1 done clean in
      record {
        pending = p;
        after = w1;
        prepared = r;
        recorded =
            subst (λ v. Recorded v username number r.sent.code counter now) same
              (Sent-Recorded now counter number country_code username r.looked_up p u r.between w1
                w2 r.sent stored);
      }

  -- If InitVerification returns no error, then the UserSignup was found, requires verification and
  -- is not rejected; the phone number is not in use; the counter of the current window was below
  -- the daily limit; the phone lookup did not refuse; a generated code was put into the message
  -- and delivered; and the stored UserSignup has the phone number's hash, that code, the counter
  -- plus one, no attempts and the expiry time.
  pub init_verification-Started :
      (username number country_code : String) (w w' : W)
      → init_verification env cfg username number country_code w ≡ (ok tt, w')
      → (s : UserSignup S) × (w1 w2 : W) × (env.client.get_signup
            (env.encode_user_identifier username)
            w
          ≡ (ok s, w1))
        × (env.states.verification_required s.states ≡ true)
        × (env.states.rejected s.states ≡ false)
        × (phone_number_already_in_use env username number w1 ≡ (ok tt, w2))
        × Started username number country_code s w2 w'
  unfolding init_verification states_error
  init_verification-Started username number country_code w w' h =
      let (s, w1, got, rest) =
        >>=-eq-ok (map_err _ (env.client.get_signup (env.encode_user_identifier username))) _ w h in
      let (_, w1', checked, rest') = >>=-eq-ok (check (states_error env cfg s)) _ w1 rest in
      let (fine, same) = check-eq-ok (states_error env cfg s) w1 checked in
      let (_, w2, free, last) =
        >>=-eq-ok (map_err _ (phone_number_already_in_use env username number)) _ w1' rest' in
      (
        s,
        w1,
        w2,
        map_err-eq-ok _ (env.client.get_signup (env.encode_user_identifier username)) w got,
        ground (arith, fine),
        ground (arith, fine),
        subst (λ v. phone_number_already_in_use env username number v ≡ (ok tt, w2)) (sym same)
            (map_err-eq-ok _ (phone_number_already_in_use env username number) w1' free),
        start-Started username number country_code s w2 w' last,
      )
