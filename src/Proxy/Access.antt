-- ===== src/Proxy/Access.antt =====
-- pkg/proxy/proxy.go: the access that a request to a workspace gets.
pub mod Speaks
pub mod Granted
use registration_service.Prelude.{
  Bool, true, false, not, ◌&&◌, ◌||◌, Option, none, some, List, [], ◌∷◌, String, any, if◌then◌else◌,
  ◌==◌,
}
use registration_service.Text.{◌⧺◌, is_empty}
use registration_service.Errors.{Err, plain, error_text, new_internal_error, new_forbidden_error}
use registration_service.Action.{Action, Result, ok, err, pure, raise, map_err, check, ◌>>=◌, ◌>>◌}
use registration_service.Signup.Status.{SignupResponse, do_get_signup}
use registration_service.Proxy.Env.{ProxyEnv, ClusterAccess, Workspace, Binding}
use registration_service.Proxy.Members.{get_cluster_access}
use registration_service.Proxy.Lister.Get.{get_user_workspace_with_bindings}
use registration_service.Proxy.Lister.Listing.{list_user_workspaces}

-- crterrors.NewInternalError(errs.New(text), err.Error())
abbrev pub internal : String → Err → Err
internal text e = new_internal_error (plain text) (error_text e)

abbrev forbidden_workspace : String → String
forbidden_workspace name = "access to workspace '" ⧺ name ⧺ "' is forbidden"

-- validateWorkspaceRequest: is the workspace, or the home workspace for the empty name, one of the
-- list?
unfoldable pub validate_workspace_request : String → List Workspace → Option Err
validate_workspace_request requested workspaces =
    if any (λ w. w.name == requested || (is_empty requested && w.kind == "home")) workspaces
    then none
    else some (plain (forbidden_workspace requested))

unfoldable pub user_has_binding : String → Workspace → Bool
user_has_binding username workspace = any (λ b. b.master_user_record == username) workspace.bindings

unfoldable pub user_has_direct_access : Option SignupResponse → Workspace → Bool
unfolding user_has_binding
user_has_direct_access none workspace = false
user_has_direct_access (some r) workspace = user_has_binding r.compliant_username workspace

abbrev pub denied : Option Err → Option Err
denied none = none
denied (some e) = some (new_forbidden_error "invalid workspace request" (error_text e))

module _ {S W F : Type 0} (env : ProxyEnv S W F) where
  -- Is the response missing, or without a compliant username?
  abbrev provision_error : Option SignupResponse → Option Err
  provision_error none = some (plain "user is not provisioned (yet)")
  provision_error (some r) =
      if is_empty r.compliant_username then some (plain "user is not provisioned (yet)") else none

  -- checkUserIsProvisioned
  unfoldable pub check_user_is_provisioned : Bool → String → Action W (Unit {0})
  unfolding do_get_signup
  check_user_is_provisioned public_viewer_enabled username =
      if public_viewer_enabled
      then pure tt
      else (do r ← do_get_signup env.service none username false; check (provision_error r))

  -- checkSpaceExists
  unfoldable pub check_space_exists : String → Action W (Unit {0})
  check_space_exists workspace = do
    map_err (λ _. plain (forbidden_workspace workspace)) (env.service.get_space workspace)
    pure tt

  unfoldable pub check_user_and_space : Bool → String → String → Action W (Unit {0})
  unfolding check_user_is_provisioned check_space_exists error_text
  check_user_and_space public_viewer_enabled username workspace = do
    map_err (internal "unable to get target cluster")
        (check_user_is_provisioned public_viewer_enabled username)
    map_err (internal "unable to get target cluster") (check_space_exists workspace)

  abbrev pub found_workspace : String → Option Workspace → Action W Workspace
  found_workspace name none =
      raise (new_forbidden_error "invalid workspace request" (forbidden_workspace name))
  found_workspace name (some w) = pure w

  -- getUserWorkspaceWithBindings
  unfoldable pub get_visible_workspace : Bool → String → String → Action W Workspace
  unfolding error_text get_user_workspace_with_bindings
  get_visible_workspace public_viewer_enabled username name = do
    r ←
        map_err (internal "unable to retrieve user workspaces")
          (get_user_workspace_with_bindings env public_viewer_enabled username name)
    found_workspace name r

  -- Whom the request is made as: the public viewer where the feature is on and the user has no
  -- binding, else the user.
  unfoldable pub requester : Bool → String → Option SignupResponse → Workspace → String
  unfolding user_has_direct_access
  requester public_viewer_enabled username r workspace =
      if public_viewer_enabled && not (user_has_direct_access r workspace)
      then env.public_viewer
      else username

  -- getClusterAccessAsUserOrPublicViewer
  unfoldable pub get_access_as_user_or_public_viewer :
      Bool → String → String → Workspace → Action W ClusterAccess
  unfolding requester get_cluster_access do_get_signup
  get_access_as_user_or_public_viewer public_viewer_enabled username plugin workspace = do
    r ←
        map_err (λ _. new_internal_error (plain "unable to get user info") "error retrieving user")
          (do_get_signup env.service none username false)
    get_cluster_access env (requester public_viewer_enabled username r workspace) workspace.name
        plugin public_viewer_enabled

  -- processWorkspaceRequest
  unfoldable pub process_workspace_request :
      Bool → String → String → String → Action W ClusterAccess
  unfolding check_user_and_space get_visible_workspace validate_workspace_request
      get_access_as_user_or_public_viewer error_text
  process_workspace_request public_viewer_enabled username name plugin = do
    check_user_and_space public_viewer_enabled username name
    workspace ← get_visible_workspace public_viewer_enabled username name
    check (denied (validate_workspace_request name (workspace ∷ [])))
    map_err (internal "unable to get target cluster")
        (get_access_as_user_or_public_viewer public_viewer_enabled username plugin workspace)

  -- processHomeWorkspaceRequest
  unfoldable pub process_home_workspace_request : Bool → String → String → Action W ClusterAccess
  unfolding get_cluster_access validate_workspace_request error_text list_user_workspaces
  process_home_workspace_request public_viewer_enabled username plugin = do
    access ←
        map_err (internal "unable to get target cluster")
          (get_cluster_access env username "" plugin false)
    workspaces ←
        map_err (internal "unable to retrieve user workspaces")
          (list_user_workspaces env public_viewer_enabled username)
    check (denied (validate_workspace_request "" workspaces))
    pure access

  -- The rest of processRequest, for the workspace and the plugin that the path names.
  unfoldable pub route_request : Bool → String → String → String → Action W ClusterAccess
  unfolding process_workspace_request process_home_workspace_request
  route_request public_viewer_enabled username plugin workspace =
      if is_empty workspace
      then process_home_workspace_request public_viewer_enabled username plugin
      else process_workspace_request public_viewer_enabled username workspace plugin
