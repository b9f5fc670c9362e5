-- ===== src/Signup/New.antt =====
-- `newUserSignup` and `isCRTAdmin` of pkg/signup/service/signup_service.go.
use registration_service.Prelude.{
  ℕ, Bool, true, ◌&&◌, ◌||◌, Option, none, some, List, [], ◌∷◌, String, code, any, leb,
  if◌then◌else◌, ◌==◌,
}
use registration_service.Text.{◌⧺◌, is_empty, split}
use registration_service.Errors.{Err}
use registration_service.Action.{Action, ok, err, pure, check, ◌>>=◌, ◌>>◌}
use registration_service.Api.{
  UserSignup, empty, insert, verification_counter, request_received_time, user_email_hash,
  captcha_score, captcha_assessment_id, account_verifier_result, account_verifier_reasons,
  skip_auto_create_space,
}
use registration_service.Configuration.{VerificationSpec}
use registration_service.Signup.Env.{
  Request, ServiceEnv, VerifierResponse, forbidden_status, banned_error,
}
use registration_service.Signup.Captcha.{PhoneRequirement, is_phone_verification_required}
use registration_service.Signup.Verifier.{is_account_verifier_rejected}
use registration_service.Signup.Event.{
  get_and_validate_social_event, update_user_signup_with_social_event,
}

abbrev is_alphanumeric : ℕ → Bool
is_alphanumeric c =
    (leb b'A' c && leb c b'Z') || (leb b'a' c && leb c b'z') || (leb b'0' c && leb c b'9')

-- ReplaceAllString of [^A-Za-z0-9] by "-"
unfoldable pub replace_other : String → String
replace_other String.[] = ""
replace_other (String.◌∷◌ c s) =
    let rest = replace_other s in if is_alphanumeric (code c) then String.◌∷◌ c rest else "-" ⧺ rest

-- strings.HasSuffix(s, p)
unfoldable pub has_suffix : String → String → Bool
has_suffix String.[] p = String.[] == p
has_suffix (String.◌∷◌ c s) p = (String.◌∷◌ c s == p) || has_suffix s p

abbrev first : List String → String
first [] = ""
first (s ∷ ss) = s

-- isCRTAdmin
unfoldable pub is_crt_admin : String → Bool
unfolding replace_other has_suffix split
is_crt_admin username = has_suffix (replace_other (first (split b'@' username))) "crtadmin"

abbrev pub or_now : Option ℕ → ℕ → ℕ
or_now none now = now
or_now (some t) now = t

module _ {S W F : Type 0} (env : ServiceEnv S W F) where
  -- The guard on banned users.
  unfoldable pub ban_check : String → Action W (Unit {0})
  ban_check email = do
    banned ← env.client.list_banned_by_email (env.encode_string email)
    check (if any (λ b. b.email == email) banned then some (banned_error env) else none)

  -- The resource made from the claims, before anything is added.
  unfoldable pub fresh_signup : Request → ℕ → UserSignup S
  fresh_signup req received = record {
    name = env.encode_user_identifier req.claims.preferred_username;
    annotations =
        insert request_received_time (env.format_rfc3339 received)
          (insert verification_counter "0" empty);
    labels = insert user_email_hash (env.encode_string req.claims.email) empty;
    claims = req.claims;
    target_cluster = "";
    states = env.states.no_states;
    conditions = [];
    compliant_username = "";
    home_space = "";
    scheduled_deactivation = none;
  }

  -- The captcha score, if there was an assessment, and whether verification is required.
  unfoldable pub with_requirement : PhoneRequirement F → UserSignup S → UserSignup S
  with_requirement r u = record u {
    annotations =
        if env.floats.less env.floats.no_score r.score
        then insert captcha_assessment_id r.assessment_id
            (insert captcha_score (env.floats.show_score r.score) u.annotations)
        else u.annotations;
    states = env.states.set_verification_required r.required u.states;
  }

  abbrev with_reasons : List String → UserSignup S → UserSignup S
  with_reasons [] u = u
  with_reasons (r ∷ rs) u = elim (env.marshal_reasons (r ∷ rs)) [
    | err e ↦ u
    | ok text ↦ record u { annotations = insert account_verifier_reasons text u.annotations }
  ]

  abbrev require_if : Bool → S → S
  require_if b s = if b then env.states.set_verification_required true s else s

  abbrev reject_if : Bool → S → S
  reject_if b s = if b then env.states.set_rejected true s else s

  -- What the response of the account verifier adds.
  unfoldable pub with_verifier : Option VerifierResponse → UserSignup S → UserSignup S
  unfolding is_account_verifier_rejected
  with_verifier none u = u
  with_verifier (some r) u =
      let noted =
        with_reasons r.reasons
          (record u { annotations = insert account_verifier_result r.result u.annotations }) in
      record noted {
        states =
            reject_if (is_account_verifier_rejected env (some r))
              (require_if (r.result == env.result_phone_verification) noted.states);
      }

  -- The query parameter `no-space`.
  unfoldable pub with_no_space : Request → UserSignup S → UserSignup S
  with_no_space req u =
      if req.no_space == "true"
      then record u { annotations = insert skip_auto_create_space "true" u.annotations }
      else u

  -- The event of an activation code.
  unfoldable pub with_event : Request → UserSignup S → Action W (UserSignup S)
  unfolding get_and_validate_social_event update_user_signup_with_social_event
  with_event req u = if is_empty req.social_event then pure u else (do
    event ← get_and_validate_social_event env.client req.social_event
    pure (update_user_signup_with_social_event env.states event u))

  -- The resource, from what was read.
  unfoldable pub build : Request → ℕ → PhoneRequirement F → Option VerifierResponse → UserSignup S
  unfolding fresh_signup with_requirement with_verifier with_no_space
  build req received r resp =
      with_no_space req (with_verifier resp (with_requirement r (fresh_signup req received)))

  module _ (cfg : VerificationSpec) where
    abbrev pub admin_guard : Request → Option Err
    admin_guard req =
        if is_crt_admin req.claims.preferred_username
        then some (
            forbidden_status env
              ("failed to create usersignup for " ⧺ req.claims.preferred_username))
        else none

    unfoldable pub finish :
        Request → Option VerifierResponse → PhoneRequirement F → Action W (UserSignup S)
    unfolding build with_event
    finish req resp r w =
        with_event req (build req (or_now req.received_time (env.client.now w)) r resp) w

    unfoldable pub new_user_signup : Request → Option VerifierResponse → Action W (UserSignup S)
    unfolding is_crt_admin ban_check is_phone_verification_required finish
    new_user_signup req resp = do
      check (admin_guard req)
      ban_check req.claims.email
      r ← is_phone_verification_required env cfg req
      finish req resp r
