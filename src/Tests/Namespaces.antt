-- ===== src/Tests/Namespaces.antt =====
-- The theorems on a reset of namespaces at a concrete user. The world is the list of the namespaces
-- that were deleted.
use registration_service.Prelude.{
  ℕ, ◌≡◌, refl, sym, ap, subst, Bool, true, false, Option, none, some, List, [], ◌∷◌, String, arith,
  any, All, if◌then◌else◌, ◌==◌,
}
use registration_service.Errors.{status}
use registration_service.Action.{Result, ok, err}
use registration_service.Api.{Client}
use registration_service.Signup.Audit.{audit_user_signup_against_claims}
use registration_service.Signup.Env.{ServiceEnv, Space}
use registration_service.Signup.Poll.{poll_update_signup}
use registration_service.Signup.Status.{do_get_signup}
use registration_service.Namespaces.Reset.{
  TemplateSet, MemberClient, TargetCluster, Manager, ResetOutcome, finished, reset_namespaces,
}
use registration_service.Namespaces.Reset.Frame.{Harmless, reset_namespaces-keeps}
use registration_service.Namespaces.Reset.Deleted.{UserReset, reset_namespaces-UserReset}
use registration_service.Tests.World.{Flags, flags, User, scores, claims_of}
use registration_service.Tests.Service.{service, active_ann}

abbrev Log : Type 0
Log = List String

-- A signup that needs no further audit.
abbrev audited : User
audited = (audit_user_signup_against_claims (λ s. s) (claims_of "ann") active_ann).0

abbrev to_option : Result User → Option User
to_option (ok u) = some u
to_option (err e) = none

abbrev name_in : Result User → String
name_in (ok u) = u.name
name_in (err e) = ""

no_write :
    (w w' : Log)
    → ◌≡◌ {A = Result (Unit {0}) × Log} (err (status 409 "conflict"), w) (ok tt, w')
    → ⊥
no_write w w' h = ground (arith, h)

abbrev host : Client Flags Log
host = record {
  get_signup = λ n w. (ok (record audited { name = n }), w);
  create_signup = λ u w. (err (status 409 "conflict"), w);
  update_signup = λ u w. (err (status 409 "conflict"), w);
  get_event = λ n w. (err (status 404 "not found"), w);
  list_banned_by_phone = λ p w. (ok [], w);
  list_banned_by_email = λ e w. (ok [], w);
  list_approved_by_phone = λ p w. (ok [], w);
  now = λ w. 0;
  stored = λ w n. some (record audited { name = n });
  get-stored = λ n w w' u h. (ap (λ p. to_option p.0) h, sym (ap (λ p. name_in p.0) h));
  update-stored = λ u w w' h. absurd (no_write w w' h);
  create-stored = λ u w w' h. absurd (no_write w w' h);
}

abbrev home : Space
home = record {
  name = "ann";
  creator = "ann";
  tier_name = "base";
  spec_target_cluster = "member-1";
  target_cluster = "member-1";
  provisioned_namespaces = [];
}

abbrev ann_service : ServiceEnv Flags Log ℕ
ann_service = record {
  client = host;
  states = flags;
  floats = scores;
  encode_string = λ s. s;
  encode_user_identifier = λ s. s;
  complete_assessment = λ token w. (err (status 500 "no captcha"), w);
  equal_fold = service.equal_fold;
  post = λ url body w. (err (status 500 "no verifier"), w);
  marshal_email = service.marshal_email;
  unmarshal_response = service.unmarshal_response;
  marshal_reasons = service.marshal_reasons;
  show_code = service.show_code;
  format_rfc3339 = service.format_rfc3339;
  status_text = service.status_text;
  result_phone_verification = service.result_phone_verification;
  result_rejected = service.result_rejected;
  pending_approval_reason = service.pending_approval_reason;
  user_deactivated_reason = service.user_deactivated_reason;
  user_banned_reason = service.user_banned_reason;
  user_rejected_reason = service.user_rejected_reason;
  namespace_type_default = service.namespace_type_default;
  find_condition = service.find_condition;
  is_false_with_reason = service.is_false_with_reason;
  get_master_user_record =
      λ name w. (ok (record { name = name; conditions = []; provisioned_time = none }), w);
  get_space = λ name w. (ok home, w);
  list_space_bindings = λ mur w. (ok [], w);
  get_toolchain_status = λ w. (ok (record { proxy_url = ""; members = [] }), w);
}

abbrev member_client : MemberClient Log
member_client = record {
  get_template_set = λ namespace name w.
      (ok (record { name = name; provisioned_namespaces = "ann-dev" ∷ "ann-stage" ∷ [] }), w);
  delete_namespace = λ n w. (ok tt, n ∷ w);
}

abbrev member : TargetCluster Log
member = record {
  name = "member-1";
  operator_namespace = "toolchain-member-operator";
  client = some member_client;
}

abbrev members_where : Bool → List (TargetCluster Log)
members_where b = if b then member ∷ [] else []

members_where-all :
    (condition : TargetCluster Log → Bool) (b : Bool)
    → condition member ≡ b
    → All (λ c. condition c ≡ true) (members_where b)
members_where-all condition true h = (h, tt)
members_where-all condition false h = tt

abbrev manager : Manager Flags Log ℕ
manager = record {
  service = ann_service;
  get_member_clusters = λ condition w. members_where (condition member);
  get_member_clusters-all = λ condition w. members_where-all condition (condition member) refl;
}

abbrev run : Result ResetOutcome × Log
run = reset_namespaces manager (claims_of "ann") []

-- Both namespaces are deleted.
run_finishes : run ≡ (ok finished, "ann-stage" ∷ "ann-dev" ∷ [])
unfolding reset_namespaces poll_update_signup audit_user_signup_against_claims
run_finishes = refl

reset_namespaces-UserReset_example :
    UserReset manager (claims_of "ann") [] ("ann-stage" ∷ "ann-dev" ∷ [])
reset_namespaces-UserReset_example =
    reset_namespaces-UserReset manager (claims_of "ann") [] ("ann-stage" ∷ "ann-dev" ∷ [])
      run_finishes

-- The namespace of another user is not deleted.
abbrev SparesBob : Log → Type 0
SparesBob w = any (λ n. n == "bob-dev") w ≡ false

lookup_keeps :
    (w : Log)
    → SparesBob w
    → SparesBob (do_get_signup ann_service (some (claims_of "ann")) "ann" true w).1
unfolding do_get_signup poll_update_signup audit_user_signup_against_claims
lookup_keeps w h = h

abbrev sets_in : Result TemplateSet → List String
sets_in (ok set) = set.provisioned_namespaces
sets_in (err e) = []

-- Deleting a namespace with this client spares Bob's.
abbrev SparesOn : MemberClient Log → String → Type 0
SparesOn client n = (v : Log) → SparesBob v → SparesBob (client.delete_namespace n v).1

abbrev Reads : String → MemberClient Log → Type 0
Reads name client =
    (w : Log)
    → SparesBob w
    → SparesBob (client.get_template_set "toolchain-member-operator" name w).1

abbrev Deletes : String → MemberClient Log → Type 0
Deletes name client =
    (set : TemplateSet) (before after : Log)
    → client.get_template_set "toolchain-member-operator" name before ≡ (ok set, after)
    → All (SparesOn client) set.provisioned_namespaces

member-Deletes : (name : String) → Deletes name member_client
member-Deletes name set before after got =
    subst (All (SparesOn member_client)) (ap (λ p. sets_in p.0) got) (λ v h. h, (λ v h. h, tt))

client_of : Option (MemberClient Log) → MemberClient Log
client_of (some client) = client
client_of none = member_client

same_client :
    (client : MemberClient Log)
    → ◌≡◌ {A = Option (MemberClient Log)} (some member_client) (some client)
    → member_client ≡ client
unfolding client_of
same_client client h = ap client_of h

member-Harmless : (name : String) → Harmless SparesBob name member
member-Harmless name = record {
  reads = λ client w has h. subst (Reads name) (same_client client has) (λ v k. k) w h;
  deletes = λ client set before after has got.
      subst (Deletes name) (same_client client has) (member-Deletes name) set before after got;
}

members-Harmless :
    (name target : String) (b : Bool)
    → All (λ c. (c.name == target) ≡ true → Harmless SparesBob name c) (members_where b)
members-Harmless name target true = (λ h. member-Harmless name, tt)
members-Harmless name target false = tt

reset_namespaces-keeps_example : SparesBob run.1
reset_namespaces-keeps_example =
    reset_namespaces-keeps manager SparesBob (claims_of "ann") lookup_keeps (λ name w h. h)
      (λ r space w0 w1 w2 w3 w condition asked read.
        members-Harmless r.compliant_username space.spec_target_cluster (condition member))
      [] refl
