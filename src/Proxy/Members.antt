-- ===== src/Proxy/Members.antt =====
-- pkg/proxy/members.go: the access to a member cluster.
pub mod Token
use registration_service.Prelude.{
  Bool, true, false, ◌&&◌, ◌||◌, Option, none, some, List, [], ◌∷◌, String, if◌then◌else◌, ◌==◌,
}
use registration_service.Text.{◌⧺◌, is_empty}
use registration_service.Errors.{Err, plain, error_text}
use registration_service.Action.{Action, Result, ok, err, pure, raise, lift, map_err, ◌>>=◌}
use registration_service.Signup.Env.{Space}
use registration_service.Signup.Status.{SignupResponse, do_get_signup}
use registration_service.Proxy.Env.{ProxyEnv, MemberCluster, ClusterAccess, Url, Route, RouteTarget}

-- "http" only for a port of that name.
abbrev scheme : Option String → String
scheme (some port) = if port == "http" then "http://" else "https://"
scheme none = "https://"

abbrev not_provisioned : Err
not_provisioned = plain "user is not provisioned (yet)"

module _ {S W F : Type 0} (env : ProxyEnv S W F) where
  -- The URL of a route's first ingress.
  unfoldable pub route_url : RouteTarget → Route → Action W Url
  route_url target route = elim route.ingress_hosts [
    | [] ↦ raise (
        plain (
          "the route \"" ⧺ target.namespace ⧺ "/" ⧺ target.name
          ⧺ "\" has not initialized to the point where the status ingress is populated"))
    | host ∷ hosts ↦ lift (env.parse_url (scheme route.port ⧺ host))
  ]

  abbrev plugin_error : String → Err → Err
  plugin_error plugin e = plain ("unable to get proxy config " ⧺ plugin ⧺ ": " ⧺ error_text e)

  abbrev plugin_url :
      String → (String → String → Action W Route) → Option RouteTarget → Action W Url
  plugin_url plugin get_route none =
      raise (
        plain
          ("the proxy plugin config " ⧺ plugin ⧺ " does not define an openshift route endpoint"))
  plugin_url plugin get_route (some target) = do
    route ← get_route target.namespace target.name
    route_url target route

  unfoldable pub get_member_url : String → MemberCluster W → Action W Url
  unfolding route_url error_text
  get_member_url plugin member =
      if is_empty plugin then lift (env.parse_url member.api_endpoint) else elim member.client [
        | none ↦ raise (plain ("client for member " ⧺ member.name ⧺ " not set"))
        | some get_route ↦ do
          target ← map_err (plugin_error plugin) (env.get_proxy_plugin plugin)
          plugin_url plugin get_route target
      ]

  abbrev pub access_to : MemberCluster W → String → Url → ClusterAccess
  access_to member username url = record {
    api_url = url;
    impersonator_token = member.bearer_token;
    username = username;
  }

  -- The loop over the members: the first that passes the test.
  unfoldable pub first_access :
      (MemberCluster W → Bool)
      → Err
      → String
      → String
      → List (MemberCluster W)
      → Action W ClusterAccess
  unfolding get_member_url
  first_access test missing username plugin [] = raise missing
  first_access test missing username plugin (m ∷ ms) =
      let rest = first_access test missing username plugin ms in
      if test m then (do url ← get_member_url plugin m; pure (access_to m username url)) else rest

  abbrev no_members : Err
  no_members = plain "no member clusters found"

  abbrev pub no_member_for : Space → Err
  no_member_for space = plain ("no member cluster found for space '" ⧺ space.name ⧺ "'")

  unfoldable pub access_for_space : Space → String → String → Action W ClusterAccess
  unfolding first_access
  access_for_space space username plugin w = elim (env.members w) [
    | [] ↦ raise no_members w
    | m ∷ ms ↦
        first_access (λ m. m.name == space.target_cluster)
          (plain ("no member cluster found for space '" ⧺ space.name ⧺ "'")) username plugin
          (m ∷ ms) w
  ]

  unfoldable pub access_for_cluster : String → String → String → String → Action W ClusterAccess
  unfolding first_access
  access_for_cluster api_endpoint cluster_name username plugin w = elim (env.members w) [
    | [] ↦ raise no_members w
    | m ∷ ms ↦
        first_access (λ m. m.api_endpoint == api_endpoint && m.name == cluster_name)
          (plain "no member cluster found for the user") username plugin (m ∷ ms) w
  ]

  abbrev pub provisioned : Option SignupResponse → Action W SignupResponse
  provisioned none = raise not_provisioned
  provisioned (some r) = if is_empty r.compliant_username then raise not_provisioned else pure r

  -- getSignupFromInformerForProvisionedUser
  unfoldable pub get_signup_for_provisioned_user : String → Action W SignupResponse
  unfolding do_get_signup
  get_signup_for_provisioned_user username = do
    r ← do_get_signup env.service none username false
    provisioned r

  unfoldable pub get_complaint_name : String → Bool → Action W String
  unfolding get_signup_for_provisioned_user
  get_complaint_name username public_viewer_enabled =
      if public_viewer_enabled && username == env.public_viewer
      then pure username
      else (do r ← get_signup_for_provisioned_user username; pure r.compliant_username)

  unfoldable pub get_space_access : String → String → String → Bool → Action W ClusterAccess
  unfolding get_complaint_name access_for_space
  get_space_access username workspace plugin public_viewer_enabled = do
    name ← get_complaint_name username public_viewer_enabled
    space ←
        map_err (λ _. plain "the requested space is not available")
          (env.service.get_space workspace)
    access_for_space space name plugin

  unfoldable pub get_default_access : String → String → Action W ClusterAccess
  unfolding get_signup_for_provisioned_user access_for_cluster
  get_default_access username plugin = do
    r ← get_signup_for_provisioned_user username
    access_for_cluster r.api_endpoint r.cluster_name r.compliant_username plugin

  -- GetClusterAccess
  unfoldable pub get_cluster_access : String → String → String → Bool → Action W ClusterAccess
  unfolding get_space_access get_default_access
  get_cluster_access username workspace plugin public_viewer_enabled =
      if is_empty workspace
      then get_default_access username plugin
      else get_space_access username workspace plugin public_viewer_enabled
