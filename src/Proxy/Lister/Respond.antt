-- ===== src/Proxy/Lister/Respond.antt =====
-- `HandleSpaceGetRequest` and `HandleSpaceListRequest` of pkg/proxy/handlers: the HTTP code and
-- the body.
pub mod Shown
use registration_service.Prelude.{ℕ, Bool, false, Option, none, some, List, String}
use registration_service.Errors.{Err, internal_server_error, not_found}
use registration_service.Action.{Result, ok, err}
use registration_service.Proxy.Env.{ProxyEnv, Workspace}
use registration_service.Proxy.Lister.Get.{get_user_workspace_with_bindings}
use registration_service.Proxy.Lister.Listing.{list_user_workspaces}

-- The body: a workspace, a list of them, or the status that describes an error.
pub data Body : Type 0 where
  workspace : Workspace → Body
  workspaces : List Workspace → Body
  internal_error : Err → Body
  missing : String → Body

pub record Response : Type 0 where
  pub code : ℕ
  pub body : Body

abbrev pub get_response : String → Result (Option Workspace) → Response
get_response name (err e) = record { code = internal_server_error; body = internal_error e }
get_response name (ok none) = record { code = not_found; body = missing name }
get_response name (ok (some ws)) = record { code = 200; body = workspace ws }

abbrev pub list_response : Result (List Workspace) → Response
list_response (err e) = record { code = internal_server_error; body = internal_error e }
list_response (ok wss) = record { code = 200; body = workspaces wss }

module _ {S W F : Type 0} (env : ProxyEnv S W F) where
  unfoldable pub handle_space_get_request : Bool → String → String → W → Response × W
  unfolding get_user_workspace_with_bindings
  handle_space_get_request public_viewer_enabled username name w =
      let (r, w') = get_user_workspace_with_bindings env public_viewer_enabled username name w in
      (get_response name r, w')

  -- The public viewer is switched off, whatever the request had.
  unfoldable pub handle_space_list_request : Bool → String → W → Response × W
  unfolding list_user_workspaces
  handle_space_list_request public_viewer_enabled username w =
      let (r, w') = list_user_workspaces env false username w in (list_response r, w')
