-- ===== src/Signup/Service/Recorded.antt =====
-- What a Signup that is answered with a resource has stored.
use registration_service.Prelude.{
  String, ◌≡◌, refl, sym, ap, ◌∙◌, inl, inr, Bool-cases, subst, true, false, Option, none, some,
  arith,
}
use registration_service.Errors.{Err, is_not_found}
use registration_service.Action.{
  Action, ok, err, check, pure, ◌>>=◌, ◌>>◌, outcome_cases, >>=-eq-ok,
}
use registration_service.Api.{UserSignup}
use registration_service.Signup.Env.{Request, ServiceEnv, ServiceSpec, VerifierResponse}
use registration_service.Signup.Verifier.{is_account_verifier_rejected, verify_account}
use registration_service.Signup.New.{new_user_signup}
use registration_service.Signup.Service.Origin.{
  Origin, fresh, renewed, Renews, renew-Renews, Coded, is_deactivated-Deactivated,
}
use registration_service.Signup.Service.{
  is_deactivated, renew, rejection, create_user_signup, reactivate_user_signup, sign_up_new,
  sign_up_again, sign_up_existing, sign_up,
}
use registration_service.Signup.Service.Allowed.{Allowed, no_ban_of, new_user_signup-Allowed}

module _ {S W F : Type 0} (env : ServiceEnv S W F) where
  pub written_then :
      (m : Action W (Unit {0})) (x u : UserSignup S) (w w' : W)
      → (m >> pure x) w ≡ (ok u, w')
      → (m w ≡ (ok tt, w')) × (x ≡ u)
  written_then m x u w w' h = ground (arith, h)

  checked_then :
      (o : Option Err) (x u : UserSignup S) (w w' : W)
      → (check o >> pure x) w ≡ (ok u, w')
      → (o ≡ none) × (x ≡ u) × (w ≡ w')
  checked_then none x u w w' h = (refl, ground (arith, h), ground (arith, h))
  checked_then (some e) x u w w' h = absurd (ground (arith, h))

  -- The verifier did not refuse, before the resource was written.
  pub record Asked (cfg : ServiceSpec) (req : Request) (response : Option VerifierResponse)
      (answered : W) : Type 0 where
    pub asked : W
    pub verified : verify_account env cfg req asked ≡ (ok response, answered)
    pub not_refused : is_account_verifier_rejected env response ≡ false

  after_verifier :
      (cfg : ServiceSpec) (req : Request) (f : Option VerifierResponse → Action W (UserSignup S))
      (w w' : W) (u : UserSignup S)
      → (verify_account env cfg req >>= λ resp.
            f resp >>= λ v. check (rejection env resp) >> pure v)
          w
        ≡ (ok u, w')
      → (resp : Option VerifierResponse) × (w1 : W) × Asked cfg req resp w1
        × (f resp w1 ≡ (ok u, w'))
  after_verifier cfg req f w w' u h =
      let (resp, w1, verified, rest) = >>=-eq-ok (verify_account env cfg req) _ w h in
      let (v, w2, made, rest') = >>=-eq-ok (f resp) _ w1 rest in
      let (clean, same, still) = checked_then (rejection env resp) v u w2 w' rest' in
      (
        resp,
        w1,
        record { asked = w; verified = verified; not_refused = no_ban_of env _ _ clean },
        made ∙ ap (λ x. (ok x, w2)) same ∙ ap (λ x. (ok u, x)) still,
      )

  renew-Coded :
      (code : String) (old m : UserSignup S) → Coded env code m → Coded env code (renew old m)
  unfolding renew
  renew-Coded code old m (inl uncoded) = inl uncoded
  renew-Coded code old m (inr i) = inr (record {
    event = i.event;
    before = i.before;
    after = i.after;
    found = i.found;
    valid = i.valid;
    labelled = i.labelled;
  })

  name-renew : (old m : UserSignup S) → (renew old m).name ≡ old.name
  unfolding renew
  name-renew old m = refl

  module _ (cfg : ServiceSpec) where
    -- The resource `u` is stored after a signup that started in the world `start`; it is `made` itself,
    -- or renews the resource that was there.
    pub record Signed (req : Request) (start : W) (u : UserSignup S) (w : W) : Type 0 where
      pub response : Option VerifierResponse
      pub answered : W
      pub verifier : Asked cfg req response answered
      pub made : UserSignup S
      pub allowed : Allowed env req made
      pub origin :
          Origin env (env.encode_user_identifier req.claims.preferred_username) start made u
      pub coded : Coded env req.social_event u
      pub is_stored :
          env.client.stored w (env.encode_user_identifier req.claims.preferred_username) ≡ some u

    sign_up_new-Signed :
        (req : Request) (start w w' : W) (e : Err) (u : UserSignup S)
        → env.client.get_signup (env.encode_user_identifier req.claims.preferred_username) start
          ≡ (err e, w)
        → is_not_found e ≡ true
        → sign_up_new env cfg req w ≡ (ok u, w')
        → Signed req start u w'
    unfolding sign_up_new create_user_signup
    sign_up_new-Signed req start w w' e u got missing h =
        let (resp, w1, asked, created) =
          after_verifier cfg req (create_user_signup env cfg req) w w' u h in
        let (m, w2, made, rest) =
          >>=-eq-ok (new_user_signup env cfg.verification req resp) _ w1 created in
        let (stored, same) = written_then (env.client.create_signup m) m u w2 w' rest in
        let allowed = new_user_signup-Allowed env cfg.verification req resp w1 w2 m made in
        record {
          response = resp;
          answered = w1;
          verifier = asked;
          made = m;
          allowed = allowed;
          origin = fresh e w got missing (sym same);
          coded = subst (Coded env req.social_event) same allowed.coded;
          is_stored =
              subst (λ n. env.client.stored w' n ≡ some u) allowed.named
                (env.client.create-stored m w2 w' stored ∙ ap some same);
        }

    sign_up_again-Signed :
        (req : Request) (start : W) (old : UserSignup S) (w w' : W) (u : UserSignup S)
        → env.client.get_signup (env.encode_user_identifier req.claims.preferred_username) start
          ≡ (ok old, w)
        → is_deactivated env old ≡ true
        → env.states.rejected old.states ≡ false
        → sign_up_again env cfg req old w ≡ (ok u, w')
        → Signed req start u w'
    unfolding sign_up_again reactivate_user_signup
    sign_up_again-Signed req start old w w' u got gone fine h =
        let named = (env.client.get-stored _ start w old got).1 in
        let (resp, w1, asked, again) =
          after_verifier cfg req (reactivate_user_signup env cfg req old) w w' u h in
        let (m, w2, made, rest) =
          >>=-eq-ok (new_user_signup env cfg.verification req resp) _ w1 again in
        let (stored, same) =
          written_then (env.client.update_signup (renew old m)) (renew old m) u w2 w' rest in
        let allowed = new_user_signup-Allowed env cfg.verification req resp w1 w2 m made in
        record {
          response = resp;
          answered = w1;
          verifier = asked;
          made = m;
          allowed = allowed;
          origin =
              renewed old w got fine (is_deactivated-Deactivated env old gone)
                (subst (Renews env old m) same (renew-Renews env old m));
          coded =
              subst (Coded env req.social_event) same
                (renew-Coded req.social_event old m allowed.coded);
          is_stored =
              subst (λ n. env.client.stored w' n ≡ some u) (name-renew old m ∙ named)
                (env.client.update-stored (renew old m) w2 w' stored ∙ ap some same);
        }

    existing-Signed :
        (req : Request) (start : W) (old : UserSignup S) (w w' : W) (u : UserSignup S)
        → env.client.get_signup (env.encode_user_identifier req.claims.preferred_username) start
          ≡ (ok old, w)
        → sign_up_existing env cfg req old w ≡ (ok u, w')
        → Signed req start u w'
    unfolding sign_up_existing
    existing-Signed req start old w w' u got h =
        elim (Bool-cases (env.states.rejected old.states)) [
          | inl refused ↦ absurd (ground (arith, h, refused))
          | inr fine ↦ elim (Bool-cases (is_deactivated env old)) [
            | inl gone ↦
                sign_up_again-Signed req start old w w' u got gone fine
                  (ground (arith, h, fine, gone))
            | inr active ↦ absurd (ground (arith, h, fine, active))
          ]
        ]

    -- If Signup returns a UserSignup, then the account verifier did not refuse the user, who is
    -- neither an administrator of the toolchain nor banned; the cluster holds that UserSignup
    -- under the user's name; no UserSignup was found for the user, or one that is not rejected and
    -- has the condition `complete` for the reason that the user was deactivated, which is renewed; and
    -- if the request has an activation code, then it names a valid event, whose label is stored.
    pub sign_up-Signed :
        (req : Request) (w w' : W) (u : UserSignup S)
        → sign_up env cfg req w ≡ (ok u, w')
        → Signed req w u w'
    unfolding sign_up
    sign_up-Signed req w w' u h =
        elim (outcome_cases
          (env.client.get_signup (env.encode_user_identifier req.claims.preferred_username) w)) [
            | inl (old, w1, got) ↦ existing-Signed req w old w1 w' u got (ground (arith, h, got))
            | inr (e, w1, failed) ↦ elim (Bool-cases (is_not_found e)) [
              | inl missing ↦
                  sign_up_new-Signed req w w1 w' e u failed missing
                    (ground (arith, h, failed, missing))
              | inr other ↦ absurd (ground (arith, h, failed, other))
            ]
          ]
