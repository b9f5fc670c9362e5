-- ===== src/Verification/Activation/Stored.antt =====
-- What a successful VerifyActivationCode has validated and stored.
use registration_service.Prelude.{
  ◌≡◌, refl, sym, subst, ◌∙◌, inl, inr, ◌⊎◌, Bool-cases, Option-cases, true, false, none, some,
  String, arith,
}
use registration_service.Prelude.Int.{ℤ, ◌<ℤ◌}
use registration_service.Text.{is_empty}
use registration_service.Text.Decimal.{atoi}
use registration_service.Errors.{Err}
use registration_service.Action.{Action, Result, ok, err, Result-cases, outcome_cases}
use registration_service.Api.{UserSignup, SocialEvent, social_event, verification_attempts, value}
use registration_service.Configuration.{VerificationSpec, attempts_allowed}
use registration_service.Signup.Poll.{poll_outcome}
use registration_service.Signup.Event.{get_and_validate_social_event}
use registration_service.Signup.Event.Window.{Valid, get_and_validate-Valid}
use registration_service.Verification.Env.{Env}
use registration_service.Verification.Activation.{
  Locals, on_world, check_attempts, judge_event, approve, activation_update, activate, with_signup,
  verify_activation_code,
}

pub on_world-eq-ok :
    {W : Type 0} (m : Action W (Unit {0})) (l l' : Locals W)
    → on_world m l ≡ (ok tt, l')
    → m l.world ≡ (ok tt, l'.world)
on_world-eq-ok m l l' h = ground (arith, h)

module _ {S W F : Type 0} (env : Env S W F) (cfg : VerificationSpec) where
  -- The event was valid, and the signup stored under the name is approved by it.
  pub record Activated (code : String) (w : W) (name : String) : Type 0 where
    pub event : SocialEvent
    pub before : W
    pub after : W
    pub found : env.client.get_event code before ≡ (ok event, after)
    pub valid : Valid event (env.client.now after)
    pub signup : UserSignup S
    pub is_stored : env.client.stored w name ≡ some signup
    pub labelled : signup.labels social_event ≡ some event.name
    pub is_active : env.states.deactivated signup.states ≡ false
    pub is_approved :
        event.verification_required ≡ false → env.states.approved_manually signup.states ≡ true
    pub no_attempts : signup.annotations verification_attempts ≡ none

  pub name-approve :
      (event : SocialEvent) (u : UserSignup S) → (approve env cfg event u).name ≡ u.name
  unfolding approve
  name-approve event u = refl

  approve-approved :
      (event : SocialEvent) (u : UserSignup S)
      → event.verification_required ≡ false
      → env.states.approved_manually (approve env cfg event u).states ≡ true
  unfolding approve
  approve-approved event u h = ground (
    arith,
    env.states.approved_manually-set_deactivated (env.states.set_approved_manually true u.states),
    env.states.approved_manually-set true u.states,
  )

  approve-Activated :
      (code name : String) (event : SocialEvent) (u : UserSignup S) (w1 w2 w : W)
      → get_and_validate_social_event env.client code w1 ≡ (ok event, w2)
      → env.client.stored w name ≡ some (approve env cfg event u)
      → Activated code w name
  unfolding approve
  approve-Activated code name event u w1 w2 w h stored =
      let (found, valid) = get_and_validate-Valid env.client code w1 w2 event h in
      record {
        event = event;
        before = w1;
        after = w2;
        found = found;
        valid = valid;
        signup = approve env cfg event u;
        is_stored = stored;
        labelled = refl;
        is_active = env.states.deactivated-set false _;
        is_approved = approve-approved event u;
        no_attempts = refl;
      }

  -- A refused event leaves its error, also where the update succeeds.
  refused_keeps :
      (u : UserSignup S) (e : Err) (l l' : Locals W)
      → on_world
          (env.client.update_signup (judge_event env cfg (err e) u l).0)
          (judge_event env cfg (err e) u l).1
        ≡ (ok tt, l')
      → l'.to_return ≡ none
      → ⊥
  unfolding judge_event
  refused_keeps u e l l' h clean = ground (arith, h, clean)

  pub approve_stored :
      (name : String) (event : SocialEvent) (u : UserSignup S) (l l' : Locals W)
      → u.name ≡ name
      → on_world
          (env.client.update_signup (judge_event env cfg (ok event) u l).0)
          (judge_event env cfg (ok event) u l).1
        ≡ (ok tt, l')
      → env.client.stored l'.world name ≡ some (approve env cfg event u)
  unfolding judge_event
  approve_stored name event u l l' named h =
      let updated : env.client.update_signup (approve env cfg event u) l.world ≡ (ok tt, l'.world) =
        on_world-eq-ok (env.client.update_signup (approve env cfg event u)) l l' h in
      subst (λ n. env.client.stored l'.world n ≡ some (approve env cfg event u))
        (name-approve event u ∙ named)
        (env.client.update-stored (approve env cfg event u) l.world l'.world updated)

  -- The update after its two reads.
  pub activation_update-run :
      (username code : String) (l : Locals W) (u : UserSignup S) (r : Result SocialEvent)
      (w1 w2 : W)
      → env.client.get_signup (env.encode_user_identifier username) l.world ≡ (ok u, w1)
      → get_and_validate_social_event env.client code w1 ≡ (r, w2)
      → activation_update env cfg username code l
        ≡ on_world
            (env.client.update_signup (judge_event env cfg r u (record l { world = w2 })).0)
            (judge_event env cfg r u (record l { world = w2 })).1
  unfolding activation_update
  activation_update-run username code l u r w1 w2 got judged = ground (arith, got, judged)

  -- An update that succeeds and leaves no error has approved.
  activation_update-Activated :
      (username code : String) (l l' : Locals W)
      → activation_update env cfg username code l ≡ (ok tt, l')
      → l'.to_return ≡ none
      → Activated code l'.world (env.encode_user_identifier username)
  activation_update-Activated username code l l' h clean =
      let name = env.encode_user_identifier username in
      elim (outcome_cases (env.client.get_signup name l.world)) [
        | inr (e, w1, failed) ↦ absurd (unfold activation_update in ground (arith, failed, h))
        | inl (u, w1, got) ↦
            elim (outcome_cases (get_and_validate_social_event env.client code w1)) [
              | inr (e, w2, refused) ↦ absurd (
                  refused_keeps u e (record l { world = w2 }) l'
                    (sym (activation_update-run username code l u (err e) w1 w2 got refused) ∙ h)
                    clean)
              | inl (event, w2, accepted) ↦
                  approve-Activated code name event u w1 w2 l'.world accepted (
                    approve_stored name event u (record l { world = w2 }) l'
                      (env.client.get-stored name l.world w1 u got).1
                      (sym (activation_update-run username code l u (ok event) w1 w2 got accepted)
                        ∙ h))
            ]
      ]

  activate-Activated :
      (username code : String) (attempts : ℤ) (w w' : W)
      → activate env cfg username code attempts w ≡ (ok tt, w')
      → Activated code w' (env.encode_user_identifier username)
  unfolding activate
  activate-Activated username code attempts w w' h =
      let l0 : Locals W = record { attempts_made = attempts; to_return = none; world = w } in
      let update : Action (Locals W) (Unit {0}) = activation_update env cfg username code in
      elim (poll_outcome update l0) [
        | inr (e, t, l', f, last, polled) ↦ absurd (ground (arith, polled, h))
        | inl (k, t, l', le, f, last, polled) ↦
            let clean : l'.to_return ≡ none = ground (arith, polled, h) in
            let same : l'.world ≡ w' = ground (arith, polled, h) in
            subst (λ v. Activated code v (env.encode_user_identifier username)) same
              (activation_update-Activated username code t l' last clean)
      ]

  -- No attempts were counted, or a number of them that is below the limit.
  abbrev pub BelowLimit : UserSignup S → Type 0
  BelowLimit s =
      (is_empty (value s.annotations verification_attempts) ≡ true)
      ⊎ ((n : ℤ) × (atoi (value s.annotations verification_attempts) ≡ some n)
          × (n <ℤ attempts_allowed cfg))

  check_attempts-BelowLimit :
      (s : UserSignup S) (attempts : ℤ) → check_attempts env cfg s ≡ ok attempts → BelowLimit s
  unfolding check_attempts
  check_attempts-BelowLimit s attempts h =
      let v = value s.annotations verification_attempts in
      elim (Bool-cases (is_empty v)) [
        | inl uncounted ↦ inl uncounted
        | inr counted ↦ elim (Option-cases (atoi v)) [
          | inl missing ↦ absurd (ground (arith, h, counted, missing))
          | inr (n, read) ↦ inr (n, read, ground (arith, h, counted, read))
        ]
      ]

  -- If VerifyActivationCode returns no error for a user whose UserSignup is found, then its
  -- annotation of attempts was missing or empty, or a number below the limit; the code names an event that had room and whose
  -- time window was open; and the stored UserSignup carries the event's label, is not deactivated,
  -- is approved manually unless the event asks for phone verification, and has no attempts.
  pub verify_activation_code-Activated :
      (username code : String) (s : UserSignup S) (w w1 w' : W)
      → env.client.get_signup (env.encode_user_identifier username) w ≡ (ok s, w1)
      → verify_activation_code env cfg username code w ≡ (ok tt, w')
      → BelowLimit s × Activated code w' (env.encode_user_identifier username)
  unfolding verify_activation_code with_signup
  verify_activation_code-Activated username code s w w1 w' got h =
      elim (Result-cases (check_attempts env cfg s)) [
        | inr (e, full) ↦ absurd (ground (arith, got, full, h))
        | inl (attempts, room) ↦ (
          check_attempts-BelowLimit s attempts room,
          activate-Activated username code attempts w1 w' (ground (arith, got, room, h)),
        )
      ]
