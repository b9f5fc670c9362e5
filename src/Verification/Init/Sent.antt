-- ===== src/Verification/Init/Sent.antt =====
-- What InitVerification has done where its preparation left no error.
use registration_service.Prelude.{
  ℕ, ◌≡◌, inl, inr, false, none, Option-cases, Bool-cases, String, arith,
}
use registration_service.Prelude.Int.{ℤ, lebℤ}
use registration_service.Action.{Action, ok, map_err, >>=-eq-ok, map_err-eq-ok, outcome_cases}
use registration_service.Api.{UserSignup, Dict}
use registration_service.Configuration.{VerificationSpec, daily_limit, message_template}
use registration_service.Verification.Env.{Env}
use registration_service.Verification.Code.{generate_verification_code}
use registration_service.Verification.Init.{
  Pending, prepare, perform_phone_lookup, send_unless, send_code, judge_sent, sent_values,
}

module _ {S W F : Type 0} (env : Env S W F) (cfg : VerificationSpec) where
  -- A code was sent: generated, put into the message, and recorded in the annotations.
  pub record Sent (now : ℕ) (counter : ℤ) (number country_code : String) (p p' : Pending) (w w' : W)
      : Type 0 where
    pub code : String
    pub before : W
    pub generated : generate_verification_code env w ≡ (ok code, before)
    pub delivered :
        env.send_notification
          (env.format_message (message_template cfg) code)
          number
          country_code
          before
        ≡ (ok tt, w')
    pub recorded : p' ≡ record p { values = sent_values env cfg now counter code p.values }

  send_code-Sent :
      (now : ℕ) (counter : ℤ) (number country_code : String) (p p' : Pending) (w w' : W)
      → p.error ≡ none
      → send_code env cfg now counter number country_code p w ≡ (ok p', w')
      → p'.error ≡ none
      → Sent now counter number country_code p p' w w'
  unfolding send_code judge_sent
  send_code-Sent now counter number country_code p p' w w' clean h clean' =
      let (code, w1, made, rest) = >>=-eq-ok (map_err _ (generate_verification_code env)) _ w h in
      let delivery : Action W (Unit {0}) =
        env.send_notification (env.format_message (message_template cfg) code) number
          country_code in
      elim (outcome_cases (delivery w1)) [
        | inl (a, t, done) ↦ record {
          code = code;
          before = w1;
          generated = map_err-eq-ok _ (generate_verification_code env) w made;
          delivered = ground (arith, done, rest);
          recorded = ground (arith, done, rest);
        }
        | inr (e, t, failed) ↦ absurd (ground (arith, failed, rest))
      ]

  send_unless-Sent :
      (now : ℕ) (counter : ℤ) (number country_code : String) (p p' : Pending) (w w' : W)
      → send_unless env cfg now counter number country_code p w ≡ (ok p', w')
      → p'.error ≡ none
      → (p.error ≡ none) × Sent now counter number country_code p p' w w'
  unfolding send_unless
  send_unless-Sent now counter number country_code p p' w w' h clean' =
      elim (Option-cases p.error) [
        | inl clean ↦ (
          clean,
          send_code-Sent now counter number country_code p p' w w' clean (ground (arith, clean, h))
              clean',
        )
        | inr (e, bad) ↦ absurd (ground (arith, bad, h))
      ]

  -- Below the limit: the lookup, which left no error, and the code that was sent.
  pub record Prepared (now : ℕ) (s : UserSignup S) (number phone_hash country_code : String)
      (counter : ℤ) (values : Dict) (p : Pending) (w w' : W) : Type 0 where
    pub below : lebℤ (daily_limit cfg) counter ≡ false
    pub looked_up : Pending
    pub between : W
    pub lookup : perform_phone_lookup env cfg s number phone_hash values w ≡ (ok looked_up, between)
    pub clean : looked_up.error ≡ none
    pub sent : Sent now counter number country_code looked_up p between w'

  pub prepare-Prepared :
      (now : ℕ) (s : UserSignup S) (number phone_hash country_code : String) (counter : ℤ)
      (values : Dict) (p : Pending) (w w' : W)
      → prepare env cfg now s number phone_hash country_code counter values w ≡ (ok p, w')
      → p.error ≡ none
      → Prepared now s number phone_hash country_code counter values p w w'
  unfolding prepare
  prepare-Prepared now s number phone_hash country_code counter values p w w' h clean =
      elim (Bool-cases (lebℤ (daily_limit cfg) counter)) [
        | inl full ↦ absurd (ground (arith, full, h))
        | inr room ↦
            let h' = rw room at h in
            let (p0, w1, looked, rest) =
              >>=-eq-ok (perform_phone_lookup env cfg s number phone_hash values) _ w h' in
            let (clean0, sent) =
              send_unless-Sent now counter number country_code p0 p w1 w' rest clean in
            record {
              below = room;
              looked_up = p0;
              between = w1;
              lookup = looked;
              clean = clean0;
              sent = sent;
            }
      ]
