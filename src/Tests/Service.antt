-- ===== src/Tests/Service.antt =====
-- The signup service and the proxy over the cluster in memory.
use registration_service.Prelude.{
  ℕ, Bool, true, false, Option, none, some, List, [], ◌∷◌, String, ◌==◌, if◌then◌else◌,
}
use registration_service.Text.{◌⧺◌}
use registration_service.Text.Decimal.{show}
use registration_service.Action.{ok}
use registration_service.Api.{
  empty, Condition, ConditionType, approved, complete, ready, true_status,
}
use registration_service.Signup.Env.{ServiceEnv, ServiceSpec, Request, SpaceBinding}
use registration_service.Proxy.Env.{ProxyEnv, MemberCluster}
use registration_service.Tests.Insertion.{
  insertion_sort, insertion_sort-perm, insertion_sort-Ordered,
}
use registration_service.Tests.World.{
  Flags, no_flags, flags, User, World, cluster, scores, claims_of, user, cfg,
}

abbrev kind_eq : ConditionType → ConditionType → Bool
kind_eq approved approved = true
kind_eq complete complete = true
kind_eq ready ready = true
kind_eq _ _ = false

abbrev find_condition : List Condition → ConditionType → Option Condition
find_condition [] k = none
find_condition (c ∷ cs) k = if kind_eq c.kind k then some c else find_condition cs k

abbrev condition : ConditionType → String → Condition
condition k reason = record { kind = k; status = true_status; reason = reason; message = "" }

-- The verifier refuses everyone whom it is asked for.
abbrev pub service : ServiceEnv Flags World ℕ
service = record {
  client = cluster;
  states = flags;
  floats = scores;
  encode_string = λ s. s;
  encode_user_identifier = λ s. s;
  complete_assessment = λ token w. (ok (record { score = 10; name = "assessment" }), w);
  equal_fold = λ a b. a == b;
  post = λ url body w. (ok (record { status_code = 200; body = ok body }), w);
  marshal_email = λ email. ok email;
  unmarshal_response = λ body. ok (record { result = "rejected"; reasons = "spam" ∷ [] });
  marshal_reasons = λ rs. ok "reasons";
  show_code = λ n. show n;
  format_rfc3339 = λ t. show t;
  status_text = λ code cause. cause;
  result_phone_verification = "phone";
  result_rejected = "rejected";
  pending_approval_reason = "PendingApproval";
  user_deactivated_reason = "Deactivated";
  user_banned_reason = "Banned";
  user_rejected_reason = "Rejected";
  namespace_type_default = "default";
  find_condition = find_condition;
  is_false_with_reason = λ cs k reason. false;
  get_master_user_record = λ name w. (
    ok (record {
      name = name;
      conditions = condition ready "Provisioned" ∷ [];
      provisioned_time = some 5;
    }),
    w,
  );
  get_space = λ name w. (
    ok (record {
      name = name;
      creator = "ann";
      tier_name = "base";
      spec_target_cluster = "member-1";
      target_cluster = "member-1";
      provisioned_namespaces = record { name = name ⧺ "-dev"; kind = "default" } ∷ [];
    }),
    w,
  );
  list_space_bindings = λ mur w. (
    ok (
        record {
          name = "zoe-binding";
          space = "zoe";
          space_label = "zoe";
          request_name = none;
          request_namespace = none;
          master_user_record = mur;
          space_role = "admin";
        }
        ∷ record {
          name = "ann-binding";
          space = "ann";
          space_label = "ann";
          request_name = none;
          request_namespace = none;
          master_user_record = mur;
          space_role = "admin";
        }
        ∷ []),
    w,
  );
  get_toolchain_status = λ w. (
    ok (record {
      proxy_url = "https://proxy";
      members =
          record {
            cluster_name = "member-1";
            api_endpoint = "https://api";
            console_url = "https://console.apps.host";
          }
          ∷ [];
    }),
    w,
  );
}

abbrev pub spec : String → ServiceSpec
spec mode = record {
  verification = record cfg { enabled = none };
  account_verifier_mode = some mode;
  account_verifier_url = some "https://verifier";
}

abbrev pub request : String → Request
request name = record {
  claims = claims_of name;
  received_time = some 7;
  no_space = "";
  social_event = "";
  has_request = true;
  captcha_tokens = some ("token" ∷ []);
}

abbrev pub with_conditions : List Condition → User → User
with_conditions cs u = record u { conditions = cs; compliant_username = u.name }

abbrev pub ann : User
ann = user "ann" no_flags empty

abbrev pub active_ann : User
active_ann = with_conditions (condition approved "" ∷ condition complete "" ∷ []) ann

abbrev pub gone_ann : User
gone_ann = with_conditions (condition approved "" ∷ condition complete "Deactivated" ∷ []) ann

abbrev pub world : List User → World
world users = record {
  signups = users;
  events = [];
  banned_emails = "eve@example.com" ∷ [];
  clock = 10;
  failures = 0;
  messages = [];
  lookup = none;
}

abbrev member : MemberCluster World
member = record {
  name = "member-1";
  api_endpoint = "https://api";
  bearer_token = "sa-token";
  client = none;
  list_binding_requests = λ namespace w. (
    ok (
        record {
          name = "zoe-request";
          namespace = namespace;
          master_user_record = "zoe";
          space_role = "viewer";
        }
        ∷ []),
    w,
  );
}

-- The bindings of a space: its creator's, one made by a request, and one of the space above it.
abbrev pub bindings_of : String → List SpaceBinding
bindings_of space =
    record {
      name = "ann-binding";
      space = space;
      space_label = space;
      request_name = none;
      request_namespace = none;
      master_user_record = "ann";
      space_role = "admin";
    }
    ∷ record {
      name = "bob-binding";
      space = space;
      space_label = space;
      request_name = some "bob-request";
      request_namespace = some "team-dev";
      master_user_record = "bob";
      space_role = "viewer";
    }
    ∷ record {
      name = "aaron-binding";
      space = "parent";
      space_label = "parent";
      request_name = some "aaron-request";
      request_namespace = some "parent-dev";
      master_user_record = "aaron";
      space_role = "maintainer";
    }
    ∷ []

abbrev pub proxy : ProxyEnv Flags World ℕ
proxy = record {
  service = service;
  members = λ w. record member { name = "member-0" } ∷ member ∷ [];
  parse_url = λ s. ok (record { scheme = "https"; host = s; path = ""; raw_query = "" });
  get_proxy_plugin = λ name w. (ok none, w);
  public_viewer = "kubesaw-authenticated";
  space_label_key = "space";
  list_for_space = λ list_space_bindings get space. list_space_bindings space.name;
  list_bindings_of_space = λ space mur w. (ok (bindings_of space), w);
  check_requirement = λ names. none;
  list_bindings_of_users = λ names w. (ok (bindings_of "team"), w);
  get_tier_roles = λ tier w. (ok ("viewer" ∷ "admin" ∷ []), w);
  sort_slice = λ less l. insertion_sort less l;
  sort_slice-perm = λ less l. insertion_sort-perm less l;
  sort_slice-ordered =
      λ less l asymmetric transitive. insertion_sort-Ordered less asymmetric transitive l;
}
