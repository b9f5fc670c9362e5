-- ===== src/Signup/Service/Refused.antt =====
-- What Signup does for a user who already has an active or rejected UserSignup, and for a new user
-- whom the account verifier refuses.
use registration_service.Prelude.{
  ◌≡◌, sym, ap, ◌∙◌, subst, ◌⊎◌, inl, inr, Bool-cases, true, false, some, arith,
}
use registration_service.Text.{is_empty}
use registration_service.Errors.{Err, is_not_found}
use registration_service.Action.{ok, err, outcome_cases, >>=-eq-ok}
use registration_service.Api.{UserSignup}
use registration_service.Signup.Env.{
  Request, ServiceEnv, ServiceSpec, VerifierResponse, rejected_error,
}
use registration_service.Signup.Captcha.{PhoneRequirement}
use registration_service.Signup.Verifier.{is_account_verifier_rejected, verify_account}
use registration_service.Signup.New.{
  or_now, build, with_event, with_verifier, with_no_space, finish, new_user_signup,
}
use registration_service.Signup.Service.{
  is_deactivated, active_error, create_user_signup, sign_up_new, sign_up_again, sign_up_existing,
  sign_up,
}
use registration_service.Signup.Service.Origin.{
  Deactivated, is_deactivated-Deactivated, Deactivated-is_deactivated,
}
use registration_service.Signup.Service.Allowed.{new_user_signup-finish, new_user_signup-Allowed}
use registration_service.Signup.Service.Recorded.{written_then}

module _ {S W F : Type 0} (env : ServiceEnv S W F) (cfg : ServiceSpec) where
  -- A user who has a UserSignup: where that is not rejected and has the condition `complete` for the
  -- reason that the user was deactivated, the user is signed up again. Otherwise nothing is asked of
  -- the verifier and nothing is written after the read, and the error is the rejection of a rejected
  -- signup, or else says that there is an active one.
  pub sign_up_existing_cases :
      (req : Request) (w w1 : W) (old : UserSignup S)
      → env.client.get_signup (env.encode_user_identifier req.claims.preferred_username) w
        ≡ (ok old, w1)
      → ((env.states.rejected old.states ≡ false)
          × Deactivated env old
          × (sign_up env cfg req w ≡ sign_up_again env cfg req old w1))
        ⊎ ((env.states.rejected old.states ≡ true)
            × (sign_up env cfg req w ≡ (err (rejected_error env), w1)))
        ⊎ ((env.states.rejected old.states ≡ false)
            × (¬ Deactivated env old)
            × (sign_up env cfg req w ≡ (err (active_error env req.claims.preferred_username), w1)))
  unfolding sign_up sign_up_existing
  sign_up_existing_cases req w w1 old got = elim (Bool-cases (env.states.rejected old.states)) [
    | inl refused ↦ inr (inl (refused, ground (arith, got, refused)))
    | inr fine ↦ elim (Bool-cases (is_deactivated env old)) [
      | inl gone ↦
          inl (fine, is_deactivated-Deactivated env old gone, ground (arith, got, fine, gone))
      | inr active ↦ inr (
          inr (
            fine,
            (λ d. ground (arith, active, Deactivated-is_deactivated env old d)),
            ground (arith, got, fine, active),
          ))
    ]
  ]

  with_verifier-rejected :
      (r : VerifierResponse) (u : UserSignup S)
      → is_account_verifier_rejected env (some r) ≡ true
      → env.states.rejected (with_verifier env (some r) u).states ≡ true
  unfolding with_verifier
  with_verifier-rejected r u h = rw h (env.states.rejected-set true _)

  states-with_no_space :
      (req : Request) (u : UserSignup S) → (with_no_space env req u).states ≡ u.states
  unfolding with_no_space
  states-with_no_space req u = ground arith

  build-rejected :
      (req : Request) (now : _) (p : PhoneRequirement F) (r : VerifierResponse)
      → is_account_verifier_rejected env (some r) ≡ true
      → env.states.rejected (build env req now p (some r)).states ≡ true
  unfolding build
  build-rejected req now p r h =
      ap env.states.rejected (states-with_no_space req _) ∙ with_verifier-rejected r _ h

  new_user_signup-rejected :
      (req : Request) (r : VerifierResponse) (w w' : W) (u : UserSignup S)
      → is_empty req.social_event ≡ true
      → is_account_verifier_rejected env (some r) ≡ true
      → new_user_signup env cfg.verification req (some r) w ≡ (ok u, w')
      → env.states.rejected u.states ≡ true
  unfolding finish with_event
  new_user_signup-rejected req r w w' u no_event refused h =
      let (p, w3, last) = new_user_signup-finish env cfg.verification req (some r) w w' u h in
      let built : build env req (or_now req.received_time (env.client.now w3)) p (some r) ≡ u =
        ground (arith, last, no_event) in
      ap (λ (v : UserSignup S). env.states.rejected v.states) (sym built)
      ∙ build-rejected req _ p r refused

  created_then :
      (req : Request) (r : VerifierResponse) (w w' : W) (u : UserSignup S)
      → create_user_signup env cfg req (some r) w ≡ (ok u, w')
      → (w1 : W) × (new_user_signup env cfg.verification req (some r) w ≡ (ok u, w1))
        × (env.client.create_signup u w1 ≡ (ok tt, w'))
  unfolding create_user_signup
  created_then req r w w' u h =
      let (m, w1, made, rest) =
        >>=-eq-ok (new_user_signup env cfg.verification req (some r)) _ w h in
      let (stored, same) = written_then env (env.client.create_signup m) m u w1 w' rest in
      subst
        (λ v.
          (w1 : W) × (new_user_signup env cfg.verification req (some r) w ≡ (ok v, w1))
          × (env.client.create_signup v w1 ≡ (ok tt, w')))
        same (w1, made, stored)

  created_stored :
      (req : Request) (r : VerifierResponse) (w w' : W) (u : UserSignup S)
      → create_user_signup env cfg req (some r) w ≡ (ok u, w')
      → env.client.stored w' (env.encode_user_identifier req.claims.preferred_username) ≡ some u
  created_stored req r w w' u h =
      let (w1, made, stored) = created_then req r w w' u h in
      subst (λ n. env.client.stored w' n ≡ some u)
        (new_user_signup-Allowed env cfg.verification req (some r) w w1 u made).named
        (env.client.create-stored u w1 w' stored)

  created_rejected :
      (req : Request) (r : VerifierResponse) (w w' : W) (u : UserSignup S)
      → is_empty req.social_event ≡ true
      → is_account_verifier_rejected env (some r) ≡ true
      → create_user_signup env cfg req (some r) w ≡ (ok u, w')
      → env.states.rejected u.states ≡ true
  created_rejected req r w w' u no_event refused h =
      let (w1, made, _) = created_then req r w w' u h in
      new_user_signup-rejected req r w w1 u no_event refused made

  -- A new user without an activation code whom the verifier refuses: either no UserSignup could be
  -- made and written, whose error is returned, or the cluster holds a UserSignup that is rejected,
  -- and the refusal is returned.
  pub rejected_recorded :
      (req : Request) (w w1 w2 : W) (e : Err) (r : VerifierResponse)
      → env.client.get_signup (env.encode_user_identifier req.claims.preferred_username) w
        ≡ (err e, w1)
      → is_not_found e ≡ true
      → verify_account env cfg req w1 ≡ (ok (some r), w2)
      → is_account_verifier_rejected env (some r) ≡ true
      → is_empty req.social_event ≡ true
      → (w3 : W) × (((e' : Err) × (create_user_signup env cfg req (some r) w2 ≡ (err e', w3))
            × (sign_up env cfg req w ≡ (err e', w3)))
          ⊎ ((u : UserSignup S) × (sign_up env cfg req w ≡ (err (rejected_error env), w3))
              × (env.client.stored w3 (env.encode_user_identifier req.claims.preferred_username)
                  ≡ some u)
              × (env.states.rejected u.states ≡ true)))
  unfolding sign_up sign_up_new
  rejected_recorded req w w1 w2 e r got missing asked refused no_event =
      elim (outcome_cases (create_user_signup env cfg req (some r) w2)) [
        | inl (u, w3, made) ↦ (
          w3,
          inr (
            u,
            ground (arith, got, missing, asked, refused, made),
            created_stored req r w2 w3 u made,
            created_rejected req r w2 w3 u no_event refused made,
          ),
        )
        | inr (e', w3, failed) ↦ (w3, inl (e', failed, ground (arith, got, missing, asked, failed)))
      ]
