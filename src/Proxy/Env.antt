-- ===== src/Proxy/Env.antt =====
-- What the proxy reads from a request, and what it calls and does not implement: the member
-- clusters, routes, URLs, and toolchain-common's lister of the bindings of a space.
use mathlib.Core.List.{Permᴰ, Pairwise}
use registration_service.Prelude.{◌≡◌, Bool, true, false, Option, List, String}
use registration_service.Errors.{Err}
use registration_service.Action.{Action, Result}
use registration_service.Signup.Env.{ServiceEnv, Space, SpaceNamespace, SpaceBinding}

-- url.URL, by the parts that the proxy uses.
pub record Url : Type 0 where
  pub scheme : String
  pub host : String
  pub path : String
  pub raw_query : String

-- The fields of a Route: the target port's text, if there is a port, and the hosts of the ingress.
pub record Route : Type 0 where
  pub port : Option String
  pub ingress_hosts : List String

-- The namespace and the name of a ProxyPlugin's route.
pub record RouteTarget : Type 0 where
  pub namespace : String
  pub name : String

pub record SpaceBindingRequest : Type 0 where
  pub name : String
  pub namespace : String
  pub master_user_record : String
  pub space_role : String

-- CachedToolchainCluster: `client` is what its client answers for a route, `none` for no client, and
-- `list_binding_requests` what it answers for a namespace.
pub record MemberCluster (W : Type 0) : Type 0 where
  pub name : String
  pub api_endpoint : String
  pub bearer_token : String
  pub client : Option (String → String → Action W Route)
  pub list_binding_requests : String → Action W (List SpaceBindingRequest)

-- BindingRequest of a Binding
pub record BindingRequest : Type 0 where
  pub name : String
  pub namespace : String

pub record Binding : Type 0 where
  pub master_user_record : String
  pub role : String
  pub available_actions : List String
  pub binding_request : Option BindingRequest

-- Workspace, by its name and by the values that the options of commonproxy.NewWorkspace get; the
-- empty text and the empty list where there is no such option.
pub record Workspace : Type 0 where
  pub name : String
  pub namespaces : List SpaceNamespace
  pub owner : String
  pub role : String
  pub kind : String
  pub available_roles : List String
  pub bindings : List Binding

-- ClusterAccess of pkg/proxy/access/clusteraccess.go
pub record ClusterAccess : Type 0 where
  pub api_url : Url
  pub impersonator_token : String
  pub username : String

pub record ProxyEnv (S W F : Type 0) : Type 0 where
  pub service : ServiceEnv S W F
  -- GetMembersFunc
  pub members : W → List (MemberCluster W)
  -- url.Parse
  pub parse_url : String → Result Url
  -- the ProxyPlugin of a name: its OpenShiftRouteTargetEndpoint, if it has one
  pub get_proxy_plugin : String → Action W (Option RouteTarget)
  -- toolchainv1alpha1.KubesawAuthenticatedUsername
  pub public_viewer : String
  -- toolchainv1alpha1.SpaceBindingSpaceLabelKey
  pub space_label_key : String
  -- spacebinding.NewLister(list, get).ListForSpace(space, nil): the bindings of a space and of the
  -- spaces above it, read by the two functions
  pub list_for_space :
      (String → Action W (List SpaceBinding))
      → (String → Action W Space)
      → Space
      → Action W (List SpaceBinding)
  -- SpaceBindings by the label of their space and, if there is one, the label of their user
  pub list_bindings_of_space : String → Option String → Action W (List SpaceBinding)
  -- labels.NewRequirement: is a list of user names no valid requirement?
  pub check_requirement : List String → Option Err
  -- SpaceBindings whose label of the user is in a list
  pub list_bindings_of_users : List String → Action W (List SpaceBinding)
  -- the keys of an NSTemplateTier's SpaceRoles, in any order
  pub get_tier_roles : String → Action W (List String)
  -- sort.Slice, which promises no order of equal items: for a strict weak order `less` it orders
  -- the items
  pub sort_slice : (Binding → Binding → Bool) → List Binding → List Binding
  pub sort_slice-perm :
      (less : Binding → Binding → Bool) (l : List Binding) → Permᴰ l (sort_slice less l)
  pub sort_slice-ordered :
      (less : Binding → Binding → Bool) (l : List Binding)
      → ((a b : Binding) → less a b ≡ true → less b a ≡ false)
      → ((a b c : Binding) → less b a ≡ false → less c b ≡ false → less c a ≡ false)
      → Pairwise (λ a b. less b a ≡ false) (sort_slice less l)
