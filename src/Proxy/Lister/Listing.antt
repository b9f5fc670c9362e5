-- ===== src/Proxy/Lister/Listing.antt =====
-- pkg/proxy/handlers/spacelister_list.go: the workspaces of a user.
pub mod Own
use registration_service.Prelude.{
  Bool, true, false, Option, none, some, List, [], ◌∷◌, ◌++◌, String, if◌then◌else◌,
}
use registration_service.Text.{◌⧺◌, is_empty}
use registration_service.Errors.{plain}
use registration_service.Action.{Action, Result, ok, err, pure, raise, check, attempt, ◌>>=◌, ◌>>◌}
use registration_service.Signup.Env.{Space, SpaceBinding}
use registration_service.Signup.Status.{SignupResponse}
use registration_service.Proxy.Env.{ProxyEnv, Workspace}
use registration_service.Proxy.Lister.{get_provisioned_user_signup, create_workspace_object}

module _ {S W F : Type 0} (env : ProxyEnv S W F) where
  -- getMURNamesForList, for a signup that is not nil
  unfoldable pub get_mur_names_for_list : Bool → SignupResponse → List String
  get_mur_names_for_list public_viewer_enabled r =
      (if is_empty r.compliant_username then [] else r.compliant_username ∷ [])
      ++ (if public_viewer_enabled then env.public_viewer ∷ [] else [])

  unfoldable pub list_space_bindings_for_users : List String → Action W (List SpaceBinding)
  list_space_bindings_for_users names = do
    check (env.check_requirement names)
    env.list_bindings_of_users names

  -- getSpace
  unfoldable pub get_space_of_binding : SpaceBinding → Action W Space
  get_space_of_binding sb =
      if is_empty sb.space_label
      then raise (plain ("spacebinding has no '" ⧺ env.space_label_key ⧺ "' label"))
      else env.service.get_space sb.space_label

  -- A space that cannot be read is left out.
  abbrev pub workspaces_of : String → SpaceBinding → Result Space → List Workspace
  workspaces_of signup_name sb (err e) = []
  workspaces_of signup_name sb (ok space) = create_workspace_object signup_name space sb ∷ []

  unfoldable pub workspaces_from_space_bindings :
      String → List SpaceBinding → Action W (List Workspace)
  unfolding get_space_of_binding create_workspace_object
  workspaces_from_space_bindings signup_name [] = pure []
  workspaces_from_space_bindings signup_name (sb ∷ sbs) = do
    space ← attempt (get_space_of_binding sb)
    later ← workspaces_from_space_bindings signup_name sbs
    pure (workspaces_of signup_name sb space ++ later)

  abbrev pub workspaces_if_provisioned : Bool → Option SignupResponse → Action W (List Workspace)
  workspaces_if_provisioned public_viewer_enabled none = pure []
  workspaces_if_provisioned public_viewer_enabled (some r) = do
    sbs ← list_space_bindings_for_users (get_mur_names_for_list public_viewer_enabled r)
    workspaces_from_space_bindings r.name sbs

  -- ListUserWorkspaces
  unfoldable pub list_user_workspaces : Bool → String → Action W (List Workspace)
  unfolding get_provisioned_user_signup get_mur_names_for_list list_space_bindings_for_users
      workspaces_from_space_bindings
  list_user_workspaces public_viewer_enabled username = do
    r ← get_provisioned_user_signup env username
    workspaces_if_provisioned public_viewer_enabled r
