-- ===== src/Proxy/Answer/Denials.antt =====
-- Why processRequest refuses a request.
use registration_service.Prelude.{
  ℕ, ◌≡◌, refl, subst, Bool, true, false, ◌||◌, Option, none, some, String, eqb, arith, List, [],
  ◌∷◌,
}
use registration_service.Text.{is_empty}
use registration_service.Errors.{Err, error_text, new_forbidden_error}
use registration_service.Action.{Action, pure, lift, map_err, check, ◌>>◌}
use registration_service.Action.Fails.{
  Fails, pure-Fails, raise-Fails, map_err-Fails, if-Fails, check-Fails, >>=-Fails,
}
use registration_service.Proxy.Env.{ProxyEnv, ClusterAccess, Workspace}
use registration_service.Proxy.Members.{get_cluster_access}
use registration_service.Proxy.Paths.{get_workspace_context}
use registration_service.Proxy.Access.{
  internal, validate_workspace_request, denied, check_user_is_provisioned, check_space_exists,
  check_user_and_space, found_workspace, get_visible_workspace, get_access_as_user_or_public_viewer,
  process_workspace_request, process_home_workspace_request, route_request,
}
use registration_service.Proxy.Lister.Get.{get_user_workspace_with_bindings}
use registration_service.Proxy.Lister.Listing.{list_user_workspaces}
use registration_service.Proxy.Request.{context_error, process_request}
use registration_service.Proxy.Answer.{error_code}

-- 400, 403 or 500
abbrev pub is_denial : ℕ → Bool
is_denial code = eqb code 400 || eqb code 403 || eqb code 500

abbrev pub Denial : Err → Type 0
Denial e = is_denial (error_code e) ≡ true

denied-Denial : (o : Option Err) (e : Err) → denied o ≡ some e → Denial e
unfolding error_code
denied-Denial none e h = absurd (ground (arith, h))
denied-Denial (some e') e h =
    let same : new_forbidden_error "invalid workspace request" (error_text e') ≡ e =
      ground (arith, h) in
    subst Denial same refl

internal-Denial :
    {W A : Type 0} (text : String) (m : Action W A) → Fails Denial (map_err (internal text) m)
unfolding error_code
internal-Denial text m = map_err-Fails Denial (internal text) m λ e. refl

module _ {S W F : Type 0} (env : ProxyEnv S W F) where
  found_workspace-Denial :
      (name : String) (o : Option Workspace) → Fails {W = W} Denial (found_workspace env name o)
  unfolding error_code
  found_workspace-Denial name none = raise-Fails Denial _ refl
  found_workspace-Denial name (some v) = pure-Fails Denial v

  validated-Denial :
      (name : String) (workspaces : List Workspace) (access : Action W ClusterAccess)
      → Fails Denial access
      → Fails Denial (check (denied (validate_workspace_request name workspaces)) >> access)
  validated-Denial name workspaces access h =
      >>=-Fails Denial (check (denied (validate_workspace_request name workspaces))) (λ _. access)
        (check-Fails Denial _ (denied-Denial (validate_workspace_request name workspaces))) λ _. h

  home-Denial :
      (pv : Bool) (username plugin : String)
      → Fails Denial (process_home_workspace_request env pv username plugin)
  unfolding process_home_workspace_request
  home-Denial pv username plugin =
      let get = get_cluster_access env username "" plugin false in
      let list = list_user_workspaces env pv username in
      >>=-Fails Denial (map_err (internal "unable to get target cluster") get) _
        (internal-Denial "unable to get target cluster" get)
        λ access.
          >>=-Fails Denial (map_err (internal "unable to retrieve user workspaces") list) _
            (internal-Denial "unable to retrieve user workspaces" list)
            λ workspaces. validated-Denial "" workspaces (pure access) (pure-Fails Denial access)

  checks-Denial :
      (pv : Bool) (username name : String)
      → Fails Denial (check_user_and_space env pv username name)
  unfolding check_user_and_space
  checks-Denial pv username name =
      let user = check_user_is_provisioned env pv username in
      >>=-Fails Denial (map_err (internal "unable to get target cluster") user) _
        (internal-Denial "unable to get target cluster" user)
        λ _. internal-Denial "unable to get target cluster" (check_space_exists env name)

  visible-Denial :
      (pv : Bool) (username name : String)
      → Fails Denial (get_visible_workspace env pv username name)
  unfolding get_visible_workspace
  visible-Denial pv username name =
      let get = get_user_workspace_with_bindings env pv username name in
      >>=-Fails Denial (map_err (internal "unable to retrieve user workspaces") get) _
        (internal-Denial "unable to retrieve user workspaces" get) (found_workspace-Denial name)

  workspace-Denial :
      (pv : Bool) (username name plugin : String)
      → Fails Denial (process_workspace_request env pv username name plugin)
  unfolding process_workspace_request
  workspace-Denial pv username name plugin =
      >>=-Fails Denial (check_user_and_space env pv username name) _
        (checks-Denial pv username name)
        λ _.
          >>=-Fails Denial (get_visible_workspace env pv username name) _
            (visible-Denial pv username name)
            λ workspace.
              let get = get_access_as_user_or_public_viewer env pv username plugin workspace in
              validated-Denial name (workspace ∷ [])
                (map_err (internal "unable to get target cluster") get)
                (internal-Denial "unable to get target cluster" get)

  route_request-Denial :
      (pv : Bool) (username plugin workspace : String)
      → Fails Denial (route_request env pv username plugin workspace)
  unfolding route_request
  route_request-Denial pv username plugin workspace =
      if-Fails Denial (is_empty workspace) (process_home_workspace_request env pv username plugin)
        (process_workspace_request env pv username workspace plugin)
        (λ _. home-Denial pv username plugin) (λ _. workspace-Denial pv username workspace plugin)

  pub process_request-Denial :
      (quote : String → String) (pv : Bool) (username path : String)
      → Fails Denial (process_request env quote pv username path)
  unfolding process_request error_code
  process_request-Denial quote pv username path =
      let read = lift (get_workspace_context quote path) in
      >>=-Fails Denial (map_err context_error read) _
        (map_err-Fails Denial context_error read λ e. refl)
        λ c.
          >>=-Fails Denial (route_request env pv username c.plugin c.workspace) _
            (route_request-Denial pv username c.plugin c.workspace) λ access. pure-Fails Denial _
