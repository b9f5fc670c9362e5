-- ===== src/Signup/Service/Origin.antt =====
-- Where a UserSignup that Signup stores comes from.
use registration_service.Prelude.{
  ◌≡◌, refl, ◌⊎◌, inl, inr, true, false, some, String, arith, eq_iff, Bool-cases, Option-cases,
}
use registration_service.Text.{is_empty}
use registration_service.Errors.{Err, is_not_found}
use registration_service.Action.{ok, err, pure, ◌>>=◌, >>=-eq-ok}
use registration_service.Api.{
  UserSignup, SocialEvent, Condition, Key, key_eq, or_else, true_status, complete, social_event,
  activation_counter, last_target_cluster,
}
use registration_service.Signup.Env.{Request, ServiceEnv}
use registration_service.Signup.Event.{
  get_and_validate_social_event, update_user_signup_with_social_event,
}
use registration_service.Signup.Event.Window.{Valid, get_and_validate-Valid}
use registration_service.Signup.New.{with_event}
use registration_service.Signup.Service.{is_true, is_deactivated, renew}

module _ {S W F : Type 0} (env : ServiceEnv S W F) where
  -- The condition `complete` is true for the reason that the user is deactivated.
  pub record Deactivated (u : UserSignup S) : Type 0 where
    pub condition : Condition
    pub has_condition : env.find_condition u.conditions complete ≡ some condition
    pub is_complete : condition.status ≡ true_status
    pub says_so : condition.reason ≡ env.user_deactivated_reason

  is_true_of : (c : Condition) → is_true c.status ≡ true → c.status ≡ true_status
  is_true_of c h = ground (arith, h)

  pub is_deactivated-Deactivated : (u : UserSignup S) → is_deactivated env u ≡ true → Deactivated u
  unfolding is_deactivated
  is_deactivated-Deactivated u h = elim (Option-cases (env.find_condition u.conditions complete)) [
    | inl missing ↦ absurd (ground (arith, h, missing))
    | inr (c, has) ↦ record {
      condition = c;
      has_condition = has;
      is_complete = is_true_of c (ground (arith, h, has));
      says_so = (eq_iff c.reason env.user_deactivated_reason).0 (ground (arith, h, has));
    }
  ]

  pub Deactivated-is_deactivated : (u : UserSignup S) → Deactivated u → is_deactivated env u ≡ true
  unfolding is_deactivated
  Deactivated-is_deactivated u d = ground (
    arith,
    d.has_condition,
    d.is_complete,
    (eq_iff d.condition.reason env.user_deactivated_reason).1 d.says_so,
  )

  -- The resource is the one that was there, with all of the new one but two annotations, which are
  -- taken from the old one where it has them, and the conditions.
  pub record Renews (old made u : UserSignup S) : Type 0 where
    pub same_name : u.name ≡ old.name
    pub same_conditions : u.conditions ≡ old.conditions
    pub same_labels : u.labels ≡ made.labels
    pub same_claims : u.claims ≡ made.claims
    pub same_states : u.states ≡ made.states
    pub same_cluster : u.target_cluster ≡ made.target_cluster
    pub counter :
        u.annotations activation_counter
        ≡ or_else (old.annotations activation_counter) (made.annotations activation_counter)
    pub last_cluster :
        u.annotations last_target_cluster
        ≡ or_else (old.annotations last_target_cluster) (made.annotations last_target_cluster)
    pub others :
        (k : Key)
        → key_eq activation_counter k ≡ false
        → key_eq last_target_cluster k ≡ false
        → u.annotations k ≡ made.annotations k

  pub renew-Renews : (old made : UserSignup S) → Renews old made (renew old made)
  unfolding renew
  renew-Renews old made = record {
    same_name = refl;
    same_conditions = refl;
    same_labels = refl;
    same_claims = refl;
    same_states = refl;
    same_cluster = refl;
    counter = ground arith;
    last_cluster = ground arith;
    others = λ k h1 h2. ground (arith, h1, h2);
  }

  -- The signup carries a valid event that has the code.
  pub record Invited (code : String) (u : UserSignup S) : Type 0 where
    pub event : SocialEvent
    pub before : W
    pub after : W
    pub found : env.client.get_event code before ≡ (ok event, after)
    pub valid : Valid event (env.client.now after)
    pub labelled : u.labels social_event ≡ some event.name

  -- No code was given, or the signup carries its event.
  abbrev pub Coded : String → UserSignup S → Type 0
  Coded code u = (is_empty code ≡ true) ⊎ Invited code u

  labelled_of :
      (event : SocialEvent) (u v : UserSignup S)
      → update_user_signup_with_social_event env.states event u ≡ v
      → v.labels social_event ≡ some event.name
  unfolding update_user_signup_with_social_event
  labelled_of event u v h = ground (arith, h)

  pub with_event-Coded :
      (req : Request) (u v : UserSignup S) (w w' : W)
      → with_event env req u w ≡ (ok v, w')
      → Coded req.social_event v
  unfolding with_event
  with_event-Coded req u v w w' h = elim (Bool-cases (is_empty req.social_event)) [
    | inl uncoded ↦ inl uncoded
    | inr coded ↦
        let run : (get_and_validate_social_event env.client req.social_event >>= λ event.
        pure (update_user_signup_with_social_event env.states event u))
              w
            ≡ (ok v, w') =
          ground (arith, h, coded) in
        let (event, w1, got, rest) =
          >>=-eq-ok (get_and_validate_social_event env.client req.social_event) _ w run in
        let (found, valid) = get_and_validate-Valid env.client req.social_event w w1 event got in
        inr (record {
          event = event;
          before = w;
          after = w1;
          found = found;
          valid = valid;
          labelled = labelled_of event u v (ground (arith, rest));
        })
  ]

  -- Nothing was stored for the user, or a deactivated signup that is not rejected, which is renewed.
  pub data Origin (name : String) (w : W) (made u : UserSignup S) : Type 0 where
    fresh :
        (e : Err) (w1 : W)
        → env.client.get_signup name w ≡ (err e, w1)
        → is_not_found e ≡ true
        → u ≡ made
        → Origin name w made u
    renewed :
        (old : UserSignup S) (w1 : W)
        → env.client.get_signup name w ≡ (ok old, w1)
        → env.states.rejected old.states ≡ false
        → Deactivated old
        → Renews old made u
        → Origin name w made u
