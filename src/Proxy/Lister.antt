-- ===== src/Proxy/Lister.antt =====
-- pkg/proxy/handlers/spacelister.go: what the two requests for workspaces share.
pub mod Bindings
pub mod Get
pub mod Listing
pub mod Respond
use registration_service.Prelude.{
  Bool, true, false, Option, none, some, [], String, if◌then◌else◌, ◌==◌,
}
use registration_service.Text.{is_empty}
use registration_service.Action.{Action, Result, ok, err, pure, ◌>>=◌}
use registration_service.Signup.Env.{Space, SpaceBinding}
use registration_service.Signup.Status.{SignupResponse, do_get_signup}
use registration_service.Proxy.Env.{ProxyEnv, Workspace}

-- A signup without a compliant username counts as missing.
abbrev pub if_provisioned : Option SignupResponse → Option SignupResponse
if_provisioned none = none
if_provisioned (some r) = if is_empty r.compliant_username then none else some r

module _ {S W F : Type 0} (env : ProxyEnv S W F) where
  unfoldable pub get_provisioned_user_signup : String → Action W (Option SignupResponse)
  unfolding do_get_signup
  get_provisioned_user_signup username = do
    r ← do_get_signup env.service none username false
    pure (if_provisioned r)

-- createWorkspaceObject without further options.
unfoldable pub create_workspace_object : String → Space → SpaceBinding → Workspace
create_workspace_object signup_name space binding = record {
  name = space.name;
  namespaces = space.provisioned_namespaces;
  owner = space.creator;
  role = binding.space_role;
  kind = if space.creator == signup_name then "home" else "";
  available_roles = [];
  bindings = [];
}
