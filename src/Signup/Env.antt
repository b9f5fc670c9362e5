-- ===== src/Signup/Env.antt =====
-- What the signup service reads from a request, and what it calls and does not implement: the
-- cluster, the captcha assessor, HTTP, JSON, hashing and toolchain-common's conditions.
use registration_service.Prelude.{ℕ, Bool, Option, List, String}
use registration_service.Errors.{Err, status, forbidden, conflict}
use registration_service.Action.{Action, Result}
use registration_service.Api.{Claims, Condition, ConditionType, States, Client}
use registration_service.Configuration.{Floats, VerificationSpec}

-- The values of a gin context; a missing string is the empty one, as GetString reads it.
pub record Request : Type 0 where
  pub claims : Claims
  pub received_time : Option ℕ
  -- the query parameter `no-space`
  pub no_space : String
  -- the activation code that the verification service sets
  pub social_event : String
  -- is there an http.Request?
  pub has_request : Bool
  -- the values of the header Recaptcha-Token, if it is there
  pub captcha_tokens : Option (List String)

-- GetRiskAnalysis().GetScore() and GetName() of an assessment.
pub record Assessment (F : Type 0) : Type 0 where
  pub score : F
  pub name : String

-- AccountVerifierResponse
pub record VerifierResponse : Type 0 where
  pub result : String
  pub reasons : List String

-- An HTTP response: the status code, and the body or the error of reading it.
pub record HttpResponse : Type 0 where
  pub status_code : ℕ
  pub body : Result String

-- AccountVerifierMode, AccountVerifierURL and the settings of the verification.
pub record ServiceSpec : Type 0 where
  pub verification : VerificationSpec
  pub account_verifier_mode : Option String
  pub account_verifier_url : Option String

pub record MasterUserRecord : Type 0 where
  pub name : String
  pub conditions : List Condition
  pub provisioned_time : Option ℕ

pub record SpaceNamespace : Type 0 where
  pub name : String
  pub kind : String

-- `creator` is the label SpaceCreatorLabelKey, the empty text where there is none; `target_cluster`
-- is that of the status.
pub record Space : Type 0 where
  pub name : String
  pub creator : String
  pub tier_name : String
  pub spec_target_cluster : String
  pub target_cluster : String
  pub provisioned_namespaces : List SpaceNamespace

-- `space` is Spec.Space, and `space_label` the label SpaceBindingSpaceLabelKey, the empty text where
-- there is none; then the labels that name the SpaceBindingRequest, if they are there.
pub record SpaceBinding : Type 0 where
  pub name : String
  pub space : String
  pub space_label : String
  pub request_name : Option String
  pub request_namespace : Option String
  pub master_user_record : String
  pub space_role : String

pub record Member : Type 0 where
  pub cluster_name : String
  pub api_endpoint : String
  pub console_url : String

-- ToolchainStatus: the proxy's URL and the members.
pub record ToolchainStatus : Type 0 where
  pub proxy_url : String
  pub members : List Member

pub record ServiceEnv (S W F : Type 0) : Type 0 where
  pub client : Client S W
  pub states : States S
  pub floats : Floats F
  -- hash.EncodeString
  pub encode_string : String → String
  -- usersignup.EncodeUserIdentifier
  pub encode_user_identifier : String → String
  -- CaptchaChecker.CompleteAssessment of a token
  pub complete_assessment : String → Action W (Assessment F)
  -- strings.EqualFold
  pub equal_fold : String → String → Bool
  -- accountVerifierHTTPClient.Post of a URL and a body
  pub post : String → String → Action W HttpResponse
  -- json.Marshal of {"email": ...}, json.Unmarshal of a response, json.Marshal of the reasons
  pub marshal_email : String → Result String
  pub unmarshal_response : String → Result VerifierResponse
  pub marshal_reasons : List String → Result String
  -- fmt's text of an HTTP status code
  pub show_code : ℕ → String
  -- Format(time.RFC3339)
  pub format_rfc3339 : ℕ → String
  -- the text of an error made by apierrors from its code and its cause
  pub status_text : ℕ → String → String
  -- AccountVerifierResultPhoneVerification and AccountVerifierResultRejected
  pub result_phone_verification : String
  pub result_rejected : String
  -- UserSignupPendingApprovalReason, ...UserDeactivatedReason, ...UserBannedReason, ...UserRejectedReason
  pub pending_approval_reason : String
  pub user_deactivated_reason : String
  pub user_banned_reason : String
  pub user_rejected_reason : String
  -- NamespaceTypeDefault
  pub namespace_type_default : String
  -- condition.FindConditionByType, and condition.IsFalseWithReason
  pub find_condition : List Condition → ConditionType → Option Condition
  pub is_false_with_reason : List Condition → ConditionType → String → Bool
  pub get_master_user_record : String → Action W MasterUserRecord
  pub get_space : String → Action W Space
  -- SpaceBindings whose MasterUserRecord label has the value
  pub list_space_bindings : String → Action W (List SpaceBinding)
  -- the ToolchainStatus named toolchain-status
  pub get_toolchain_status : Action W ToolchainStatus

module _ {S W F : Type 0} (env : ServiceEnv S W F) where
  -- apierrors.NewForbidden(schema.GroupResource{}, "", err) and apierrors.NewConflict(...)
  abbrev pub forbidden_status : String → Err
  forbidden_status cause = status forbidden (env.status_text forbidden cause)

  abbrev pub conflict_status : String → Err
  conflict_status cause = status conflict (env.status_text conflict cause)

  abbrev pub banned_error : Err
  banned_error =
      forbidden_status
        "Access to the Developer Sandbox has been suspended due to suspicious activity or detected abuse."

  abbrev pub rejected_error : Err
  rejected_error = forbidden_status "Access to the Developer Sandbox has been denied."
