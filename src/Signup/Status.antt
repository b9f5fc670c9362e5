-- ===== src/Signup/Status.antt =====
-- `DoGetSignup` of pkg/signup/service/signup_service.go.
pub mod Ready
use registration_service.Prelude.{
  ℕ, Bool, true, false, not, ◌&&◌, ◌||◌, Option, none, some, List, [], ◌∷◌, String, if◌then◌else◌,
  ◌==◌,
}
use registration_service.Text.{◌⧺◌, is_empty}
use registration_service.Errors.{Err, wrapped, is_not_found}
use registration_service.Action.{Action, Result, ok, err, pure, raise, map_err, ◌>>=◌, ◌>>◌}
use registration_service.Api.{
  UserSignup, Claims, Condition, ConditionStatus, true_status, approved, complete, ready,
}
use registration_service.Signup.Env.{
  ServiceEnv, MasterUserRecord, Member, ToolchainStatus, banned_error, rejected_error,
}
use registration_service.Signup.Poll.{poll_update_signup}
use registration_service.Signup.Audit.{audit_user_signup_against_claims}
use registration_service.Signup.Target.{get_default_user_target, get_apps_url}

-- Status of pkg/signup/signup.go
pub record SignupStatus : Type 0 where
  pub ready : Bool
  pub reason : String
  pub message : String
  pub verification_required : Bool

-- Signup of pkg/signup/signup.go; its field Company is never set here.
pub record SignupResponse : Type 0 where
  pub name : String
  pub claims : Claims
  pub compliant_username : String
  pub status : SignupStatus
  pub start_date : String
  pub end_date : String
  pub proxy_url : String
  pub console_url : String
  pub api_endpoint : String
  pub cluster_name : String
  pub rhods_member_url : String
  pub che_dashboard_url : String
  pub default_user_namespace : String

-- The world, and the variable `userSignup` that the closure sets.
pub record Lookup (S W : Type 0) : Type 0 where
  pub signup : Option (UserSignup S)
  pub world : W

abbrev pub is_true : ConditionStatus → Bool
is_true true_status = true
is_true _ = false

-- The loop over the members, which stops at the first with the name.
unfoldable pub find_member : String → List Member → Option Member
find_member name [] = none
find_member name (m ∷ ms) =
    let rest = find_member name ms in if m.cluster_name == name then some m else rest

module _ {S W F : Type 0} (env : ServiceEnv S W F) where
  -- The closure, on the result of the read; `none` is a nil context.
  unfoldable pub refresh :
      Option Claims → Result (UserSignup S) → Lookup S W → Result (Unit {0}) × Lookup S W
  unfolding audit_user_signup_against_claims is_not_found
  refresh token (err e) l = if is_not_found e then (ok tt, l) else (err e, l)
  refresh none (ok u) l = (ok tt, record l { signup = some u })
  refresh (some token) (ok u) l =
      let (u', updated) = audit_user_signup_against_claims env.encode_string token u in
      let (r, w) = env.client.update_signup u' l.world in
      if updated
      then (r, record { signup = some u'; world = w })
      else (ok tt, record l { signup = some u' })

  unfoldable pub audit_update : Option Claims → String → Action (Lookup S W) (Unit {0})
  unfolding refresh
  audit_update token username l =
      let (r, w) = env.client.get_signup (env.encode_user_identifier username) l.world in
      refresh token r (record l { world = w })

  -- The response made from the UserSignup alone.
  unfoldable pub base_response : UserSignup S → SignupStatus → SignupResponse
  base_response u status = record {
    name = u.name;
    claims = u.claims;
    compliant_username = u.compliant_username;
    status = status;
    start_date = "";
    end_date = "";
    proxy_url = "";
    console_url = "";
    api_endpoint = "";
    cluster_name = "";
    rhods_member_url = "";
    che_dashboard_url = "";
    default_user_namespace = "";
  }

  abbrev pub pending_status : UserSignup S → SignupStatus
  pending_status u = record {
    ready = false;
    reason = env.pending_approval_reason;
    message = "";
    verification_required = env.states.verification_required u.states;
  }

  abbrev pub incomplete_status : UserSignup S → Condition → SignupStatus
  incomplete_status u c = record {
    ready = false;
    reason = c.reason;
    message = c.message;
    verification_required = env.states.verification_required u.states;
  }

  abbrev date : Option ℕ → String
  date none = ""
  date (some t) = env.format_rfc3339 t

  -- A missing condition is the empty one, whose status is not `True`.
  abbrev pub record_status : UserSignup S → Option Condition → SignupStatus
  record_status u none = record {
    ready = false;
    reason = "";
    message = "";
    verification_required = env.states.verification_required u.states;
  }
  record_status u (some c) = record {
    ready = is_true c.status;
    reason = c.reason;
    message = c.message;
    verification_required = env.states.verification_required u.states;
  }

  abbrev with_member : Option Member → SignupResponse → SignupResponse
  with_member none r = r
  with_member (some m) r = record r {
    console_url = m.console_url;
    api_endpoint = m.api_endpoint;
    cluster_name = m.cluster_name;
  }

  -- The URLs of the member cluster and the default namespace.
  unfoldable pub with_cluster : String → String → ToolchainStatus → SignupResponse → SignupResponse
  unfolding find_member get_apps_url
  with_cluster cluster ns status r =
      let found =
        with_member (find_member cluster status.members)
          (record r { proxy_url = status.proxy_url }) in
      record found {
        rhods_member_url = get_apps_url "rhods-dashboard-redhat-ods-applications" found.console_url;
        che_dashboard_url = get_apps_url "devspaces" found.console_url;
        default_user_namespace = ns;
      }

  unfoldable pub add_cluster :
      UserSignup S → String → String → SignupResponse → Action W (Option SignupResponse)
  unfolding with_cluster
  add_cluster u cluster ns r = if is_empty cluster then pure (some r) else (do
    status ←
        map_err
          (wrapped ("error when retrieving ToolchainStatus for completed UserSignup " ⧺ u.name))
          env.get_toolchain_status
    pure (some (with_cluster cluster ns status r)))

  -- A complete signup: its MasterUserRecord, and the cluster of its space.
  unfoldable pub complete_response : UserSignup S → Action W (Option SignupResponse)
  unfolding base_response add_cluster get_default_user_target
  complete_response u = do
    mur ←
        map_err
          (wrapped ("error when retrieving MasterUserRecord for completed UserSignup " ⧺ u.name))
          (env.get_master_user_record u.compliant_username)
    target ← get_default_user_target env u.home_space mur.name
    add_cluster u target.0 target.1
        (record (base_response u (record_status u (env.find_condition mur.conditions ready))) {
          start_date = date mur.provisioned_time;
          end_date = date u.scheduled_deactivation;
        })

  -- The status of a signup with both conditions.
  unfoldable pub judge_complete : Bool → UserSignup S → Condition → Action W (Option SignupResponse)
  unfolding complete_response base_response
  judge_complete check_completed u c =
      if not (is_true c.status) && check_completed
      then pure (some (base_response u (incomplete_status u c)))
      else if c.reason == env.user_deactivated_reason
      then pure none
      else if c.reason == env.user_banned_reason
      then raise (banned_error env)
      else if c.reason == env.user_rejected_reason
      then raise (rejected_error env)
      else complete_response u

  -- Is the approval missing, or pending?
  unfoldable pub is_pending : UserSignup S → Bool
  is_pending u =
      elim (env.find_condition u.conditions approved) [ none ↦ true | some c ↦ false ]
      || env.is_false_with_reason u.conditions approved env.pending_approval_reason

  abbrev pub judge_conditions :
      Bool → UserSignup S → Option Condition → Action W (Option SignupResponse)
  judge_conditions check_completed u none = pure (some (base_response u (pending_status u)))
  judge_conditions check_completed u (some c) =
      if is_pending u
      then pure (some (base_response u (pending_status u)))
      else judge_complete check_completed u c

  abbrev pub respond : Bool → Option (UserSignup S) → Action W (Option SignupResponse)
  respond check_completed none = pure none
  respond check_completed (some u) =
      judge_conditions check_completed u (env.find_condition u.conditions complete)

  abbrev pub respond_unless :
      Bool → Result (Unit {0}) → Lookup S W → Result (Option SignupResponse) × W
  respond_unless check_completed (err e) l = (err e, l.world)
  respond_unless check_completed (ok _) l = respond check_completed l.signup l.world

  -- DoGetSignup; the response `none` is nil.
  unfoldable pub do_get_signup : Option Claims → String → Bool → Action W (Option SignupResponse)
  unfolding audit_update judge_complete is_pending base_response
  do_get_signup token username check_completed w =
      let (r, l) =
        poll_update_signup (audit_update token username) (record { signup = none; world = w }) in
      respond_unless check_completed r l
