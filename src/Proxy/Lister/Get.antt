-- ===== src/Proxy/Lister/Get.antt =====
-- pkg/proxy/handlers/spacelister_get.go: the workspace of a name, as a user sees it.
pub mod Requests
pub mod Visible
use registration_service.Prelude.{
  ℕ, Bool, true, false, not, ◌&&◌, Option, none, some, List, [], ◌∷◌, ◌++◌, String, length,
  if◌then◌else◌, ◌==◌,
}
use registration_service.Text.{◌⧺◌, is_empty}
use registration_service.Text.Decimal.{show}
use registration_service.Text.Sort.{sort}
use registration_service.Errors.{Err, plain}
use registration_service.Action.{Action, Result, ok, err, pure, raise, lift, attempt, ◌>>=◌}
use registration_service.Api.{Claims}
use registration_service.Signup.Env.{Space, SpaceBinding, SpaceNamespace}
use registration_service.Signup.Status.{SignupResponse}
use registration_service.Proxy.Env.{
  ProxyEnv, MemberCluster, Binding, SpaceBindingRequest, Workspace,
}
use registration_service.Proxy.Lister.{get_provisioned_user_signup, create_workspace_object}
use registration_service.Proxy.Lister.Bindings.{generate_workspace_bindings}

abbrev no_claims : Claims
no_claims = record {
  sub = "";
  user_id = "";
  account_id = "";
  account_number = "";
  original_sub = "";
  email = "";
  preferred_username = "";
  given_name = "";
  family_name = "";
  company = "";
}

-- &signup.Signup{CompliantUsername: name, Name: name}
abbrev pub signup_named : String → SignupResponse
signup_named name = record {
  name = name;
  claims = no_claims;
  compliant_username = name;
  status = record { ready = false; reason = ""; message = ""; verification_required = false };
  start_date = "";
  end_date = "";
  proxy_url = "";
  console_url = "";
  api_endpoint = "";
  cluster_name = "";
  rhods_member_url = "";
  che_dashboard_url = "";
  default_user_namespace = "";
}

abbrev pub found_space : Result Space → Option Space
found_space (ok space) = some space
found_space (err e) = none

-- filterUserSpaceBinding
unfoldable pub filter_user_space_binding : String → List SpaceBinding → Option SpaceBinding
filter_user_space_binding username [] = none
filter_user_space_binding username (sb ∷ sbs) =
    let rest = filter_user_space_binding username sbs in
    if sb.master_user_record == username then some sb else rest

-- getRolesFromNSTemplateTier, for the names of a tier's roles in any order
unfoldable pub get_roles_from_nstemplate_tier : List String → List String
unfolding sort
get_roles_from_nstemplate_tier roles = sort roles

module _ {S W F : Type 0} (env : ProxyEnv S W F) where
  -- The public viewer stands in for a missing signup where the feature is on.
  abbrev pub stand_in : Bool → Option SignupResponse → Option SignupResponse
  stand_in public_viewer_enabled none =
      if public_viewer_enabled then some (signup_named env.public_viewer) else none
  stand_in public_viewer_enabled (some r) = some r

  unfoldable pub get_user_signup_and_space :
      Bool → String → String → Action W (Option SignupResponse × Option Space)
  unfolding get_provisioned_user_signup
  get_user_signup_and_space public_viewer_enabled username workspace = do
    r ← get_provisioned_user_signup env username
    space ← attempt (env.service.get_space workspace)
    pure (stand_in public_viewer_enabled r, found_space space)

  -- listSpaceBindingsFunc of NewLister
  abbrev pub list_labelled_bindings : String → String → Action W (List SpaceBinding)
  list_labelled_bindings with_mur_name space_name =
      env.list_bindings_of_space space_name
        (if is_empty with_mur_name then none else some with_mur_name)

  -- NewLister(client, withMurName).ListForSpace(space, nil)
  unfoldable pub list_for_space_with : String → Space → Action W (List SpaceBinding)
  list_for_space_with with_mur_name space =
      env.list_for_space (list_labelled_bindings with_mur_name) env.service.get_space space

  abbrev pub single_binding : String → String → List SpaceBinding → Action W (Option SpaceBinding)
  single_binding username space [] = pure none
  single_binding username space (sb ∷ []) = pure (some sb)
  single_binding username space (sb ∷ sbs) = raise (
      plain (
        "invalid number of SpaceBindings found for MUR:"
        ⧺ username
        ⧺ " and Space:"
        ⧺ space
        ⧺ ". Expected 1 got "
        ⧺ show (length (sb ∷ sbs))))

  unfoldable pub get_user_space_binding : Space → String → Action W (Option SpaceBinding)
  unfolding list_for_space_with
  get_user_space_binding space compliant_username = do
    sbs ← list_for_space_with compliant_username space
    single_binding compliant_username space.name sbs

  abbrev pub or_public_viewer : Bool → Space → Option SpaceBinding → Action W (Option SpaceBinding)
  or_public_viewer public_viewer_enabled space (some sb) = pure (some sb)
  or_public_viewer public_viewer_enabled space none =
      if public_viewer_enabled then get_user_space_binding space env.public_viewer else pure none

  unfoldable pub get_user_or_public_viewer_space_binding :
      Bool → Space → SignupResponse → Action W (Option SpaceBinding)
  unfolding get_user_space_binding
  get_user_or_public_viewer_space_binding public_viewer_enabled space r = do
    sb ← get_user_space_binding space r.compliant_username
    or_public_viewer public_viewer_enabled space sb

  abbrev pub bound_workspace : SignupResponse → Space → Option SpaceBinding → Option Workspace
  bound_workspace r space none = none
  bound_workspace r space (some sb) = some (create_workspace_object r.name space sb)

  abbrev pub workspace_for :
      Bool → Option SignupResponse × Option Space → Action W (Option Workspace)
  workspace_for public_viewer_enabled (some r, some space) = do
    sb ← get_user_or_public_viewer_space_binding public_viewer_enabled space r
    pure (bound_workspace r space sb)
  workspace_for public_viewer_enabled _ = pure none

  -- GetUserWorkspace
  unfoldable pub get_user_workspace : Bool → String → String → Action W (Option Workspace)
  unfolding get_user_signup_and_space get_user_or_public_viewer_space_binding
      create_workspace_object
  get_user_workspace public_viewer_enabled username workspace = do
    p ← get_user_signup_and_space public_viewer_enabled username workspace
    workspace_for public_viewer_enabled p

  -- The loop over the namespaces of a space.
  unfoldable pub requests_of_namespaces :
      MemberCluster W → List SpaceNamespace → Action W (List SpaceBindingRequest)
  requests_of_namespaces member [] = pure []
  requests_of_namespaces member (n ∷ ns) = do
    here ← member.list_binding_requests n.name
    later ← requests_of_namespaces member ns
    pure (here ++ later)

  -- The loop over the members.
  unfoldable pub requests_of_members :
      Space → List (MemberCluster W) → Action W (List SpaceBindingRequest)
  unfolding requests_of_namespaces
  requests_of_members space [] = pure []
  requests_of_members space (m ∷ ms) =
      let rest = requests_of_members space ms in
      if m.name == space.target_cluster
      then (do
        here ← requests_of_namespaces m space.provisioned_namespaces
        later ← rest
        pure (here ++ later))
      else rest

  unfoldable pub list_space_binding_requests_for_space : Space → Action W (List SpaceBindingRequest)
  unfolding requests_of_members
  list_space_binding_requests_for_space space w = elim (env.members w) [
    | [] ↦ raise (plain "no member clusters found") w
    | m ∷ ms ↦ requests_of_members space (m ∷ ms) w
  ]

  -- The binding that makes a workspace visible: the user's, else the public viewer's.
  unfoldable pub visible_binding : Bool → String → List SpaceBinding → Option SpaceBinding
  unfolding filter_user_space_binding
  visible_binding public_viewer_enabled username sbs =
      elim (filter_user_space_binding username sbs) [
        | some sb ↦ some sb
        | none ↦
            if public_viewer_enabled && not (username == env.public_viewer)
            then filter_user_space_binding env.public_viewer sbs
            else none
      ]

  -- The rest of GetUserWorkspaceWithBindings, for a user who may see the workspace.
  unfoldable pub detailed_workspace :
      SignupResponse → Space → List SpaceBinding → SpaceBinding → Action W Workspace
  unfolding list_space_binding_requests_for_space generate_workspace_bindings
      create_workspace_object get_roles_from_nstemplate_tier
  detailed_workspace r space sbs sb = do
    sbrs ← list_space_binding_requests_for_space space
    bindings ← lift (generate_workspace_bindings env space sbs sbrs)
    roles ← env.get_tier_roles space.tier_name
    pure (record (create_workspace_object r.name space sb) {
      available_roles = get_roles_from_nstemplate_tier roles;
      bindings = bindings;
    })

  abbrev pub details_if_visible :
      SignupResponse → Space → List SpaceBinding → Option SpaceBinding → Action W (Option Workspace)
  details_if_visible r space sbs none = pure none
  details_if_visible r space sbs (some sb) = do
    workspace ← detailed_workspace r space sbs sb
    pure (some workspace)

  abbrev pub details_for : Bool → Option SignupResponse × Option Space → Action W (Option Workspace)
  details_for public_viewer_enabled (some r, some space) = do
    sbs ← list_for_space_with "" space
    details_if_visible r space sbs (visible_binding public_viewer_enabled r.compliant_username sbs)
  details_for public_viewer_enabled _ = pure none

  -- GetUserWorkspaceWithBindings
  unfoldable pub get_user_workspace_with_bindings :
      Bool → String → String → Action W (Option Workspace)
  unfolding get_user_signup_and_space list_for_space_with visible_binding detailed_workspace
  get_user_workspace_with_bindings public_viewer_enabled username workspace = do
    p ← get_user_signup_and_space public_viewer_enabled username workspace
    details_for public_viewer_enabled p
