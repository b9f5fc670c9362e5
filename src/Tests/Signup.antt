-- ===== src/Tests/Signup.antt =====
-- The theorems on the signup service at concrete inputs.
use registration_service.Prelude.{
  ◌≡◌, ◌↔◌, refl, ◌⊎◌, true, false, Option, none, some, [], ◌∷◌, String,
}
use registration_service.Errors.{Err, status, is_not_found}
use registration_service.Action.{Result, ok, err}
use registration_service.Api.{insert, user_email_hash}
use registration_service.Signup.Env.{rejected_error, VerifierResponse}
use registration_service.Signup.Poll.{poll_update_signup}
use registration_service.Signup.Audit.{audit_user_signup_against_claims}
use registration_service.Signup.Audit.Fixpoint.{audit_idempotent}
use registration_service.Signup.Captcha.{is_phone_verification_required}
use registration_service.Signup.Captcha.Exempt.{phone_verification_iff, Exempt, is_required}
use registration_service.Signup.Verifier.{verify_account, is_account_verifier_rejected}
use registration_service.Signup.Service.{sign_up_again, active_error, create_user_signup, sign_up}
use registration_service.Signup.Service.Origin.{Deactivated}
use registration_service.Signup.Service.Recorded.{Signed, sign_up-Signed}
use registration_service.Signup.Service.Refused.{sign_up_existing_cases, rejected_recorded}
use registration_service.Signup.Status.{SignupResponse, Lookup, audit_update, do_get_signup}
use registration_service.Signup.Status.Ready.{Provisioned, do_get_signup-Ready}
use registration_service.Signup.Target.{space_target, get_default_user_target}
use registration_service.Signup.Target.Home.{default_target_lem}
use registration_service.Text.Sort.{sort}
use registration_service.Text.Sort.Least.{IsLeast}
use registration_service.Tests.World.{Flags, User, World, claims_of}
use registration_service.Tests.Service.{service, spec, request, ann, active_ann, world}

audit_idempotent_example :
    audit_user_signup_against_claims
      (λ s. s)
      (claims_of "bob")
      (audit_user_signup_against_claims (λ s. s) (claims_of "bob") ann).0
    ≡ ((audit_user_signup_against_claims (λ s. s) (claims_of "bob") ann).0, false)
audit_idempotent_example = audit_idempotent (λ s. s) (claims_of "bob") ann

abbrev audited : User
audited = record ann { labels = insert user_email_hash "ann@example.com" ann.labels }

audited_quiet : (audit_user_signup_against_claims (λ s. s) (claims_of "ann") audited).1 ≡ false
unfolding audit_user_signup_against_claims
audited_quiet = refl

phone_verification_iff_example :
    (is_required service (spec "disabled").verification (
        is_phone_verification_required service
          (spec "disabled").verification
          (request "ann")
          (world []))
      ≡ false)
    ↔ Exempt service (spec "disabled").verification (request "ann") (world [])
phone_verification_iff_example =
    phone_verification_iff service (spec "disabled").verification (request "ann") (world [])

abbrev signed : Result User × World
signed = sign_up service (spec "disabled") (request "ann") (world [])

abbrev user_of : Result User → User
user_of (ok u) = u
user_of (err e) = ann

signed_runs : signed ≡ (ok (user_of signed.0), signed.1)
unfolding sign_up
signed_runs = refl

sign_up-Signed_example :
    Signed service (spec "disabled") (request "ann") (world []) (user_of signed.0) signed.1
sign_up-Signed_example =
    sign_up-Signed service (spec "disabled") (request "ann") (world []) signed.1 (user_of signed.0)
      signed_runs

sign_up_existing_cases_example :
    ((service.states.rejected active_ann.states ≡ false)
      × Deactivated service active_ann
      × (sign_up service (spec "disabled") (request "ann") (world (active_ann ∷ []))
          ≡ sign_up_again service
              (spec "disabled")
              (request "ann")
              active_ann
              (world (active_ann ∷ []))))
    ⊎ ((service.states.rejected active_ann.states ≡ true)
        × (sign_up service (spec "disabled") (request "ann") (world (active_ann ∷ []))
            ≡ (err (rejected_error service), world (active_ann ∷ []))))
    ⊎ ((service.states.rejected active_ann.states ≡ false)
        × (¬ Deactivated service active_ann)
        × (sign_up service (spec "disabled") (request "ann") (world (active_ann ∷ []))
            ≡ (err (active_error service "ann"), world (active_ann ∷ []))))
sign_up_existing_cases_example =
    sign_up_existing_cases service (spec "disabled") (request "ann") (world (active_ann ∷ []))
      (world (active_ann ∷ [])) active_ann refl

abbrev refusal : VerifierResponse
refusal = record { result = "rejected"; reasons = "spam" ∷ [] }

verifier_refuses :
    verify_account service (spec "enabled") (request "ann") (world [])
    ≡ (ok (some refusal), world [])
unfolding verify_account
verifier_refuses = refl

rejected_recorded_example :
    (w3 : World) × (((e' : Err) × (create_user_signup service
            (spec "enabled")
            (request "ann")
            (some refusal)
            (world [])
          ≡ (err e', w3))
        × (sign_up service (spec "enabled") (request "ann") (world []) ≡ (err e', w3)))
      ⊎ ((u : User) × (sign_up service (spec "enabled") (request "ann") (world [])
            ≡ (err (rejected_error service), w3))
          × (service.client.stored w3 "ann" ≡ some u)
          × (service.states.rejected u.states ≡ true)))
rejected_recorded_example =
    rejected_recorded service (spec "enabled") (request "ann") (world []) (world []) (world [])
      (status 404 "not found") refusal refl (unfold is_not_found in refl) verifier_refuses
      (unfold is_account_verifier_rejected in refl) refl

abbrev shown : Result (Option SignupResponse) × World
shown = do_get_signup service none "ann" false (world (active_ann ∷ []))

abbrev response_of : Result (Option SignupResponse) → SignupResponse
response_of (ok (some r)) = r
response_of _ = record {
  name = "";
  claims = claims_of "";
  compliant_username = "";
  status = record { ready = false; reason = ""; message = ""; verification_required = false };
  start_date = "";
  end_date = "";
  proxy_url = "";
  console_url = "";
  api_endpoint = "";
  cluster_name = "";
  rhods_member_url = "";
  che_dashboard_url = "";
  default_user_namespace = "";
}

shown_runs : shown ≡ (ok (some (response_of shown.0)), shown.1)
unfolding do_get_signup poll_update_signup
shown_runs = refl

shown_ready : (response_of shown.0).status.ready ≡ true
unfolding do_get_signup poll_update_signup
shown_ready = refl

do_get_signup-Ready_example :
    (l : Lookup Flags World) × (u : User) × (poll_update_signup
        (audit_update service none "ann")
        (record { signup = none; world = world (active_ann ∷ []) })
      ≡ (ok tt, l))
    × (l.signup ≡ some u)
    × Provisioned service u false (response_of shown.0)
do_get_signup-Ready_example =
    do_get_signup-Ready service none "ann" false (response_of shown.0) (world (active_ann ∷ []))
      shown.1 shown_runs shown_ready

default_target_lem_example :
    ((sort ("zoe" ∷ "ann" ∷ []) ≡ [])
      × (get_default_user_target service "" "ann" (world []) ≡ (ok ("", ""), world [])))
    ⊎ ((name : String) × IsLeast name ("zoe" ∷ "ann" ∷ [])
        × (get_default_user_target service "" "ann" (world [])
            ≡ space_target service name (world [])))
default_target_lem_example = default_target_lem service "ann" (world []) (world []) _ refl
