-- ===== src/Proxy/Request.antt =====
-- `processRequest` of pkg/proxy/proxy.go, from the path of a request to its access.
use registration_service.Prelude.{◌≡◌, refl, sym, ap, ◌∙◌, Bool, true, false, String, arith}
use registration_service.Text.{◌⧺◌, is_empty}
use registration_service.Errors.{Err, error_text, new_bad_request}
use registration_service.Action.{
  Action, Result, ok, pure, lift, map_err, ◌>>=◌, >>=-eq-ok, map_err-eq-ok,
}
use registration_service.Proxy.Env.{ProxyEnv, ClusterAccess}
use registration_service.Proxy.Paths.{WorkspaceContext, get_workspace_context}
use registration_service.Proxy.Paths.Split.{has_no_slash}
use registration_service.Proxy.Paths.RoundTrip.{context_round_trip}
use registration_service.Proxy.Access.{route_request}
use registration_service.Proxy.Access.Granted.{Served, route_request-Served}

-- The path that the request goes on with, the plugin, and the access.
pub record Routed : Type 0 where
  pub path : String
  pub plugin : String
  pub access : ClusterAccess

abbrev pub context_error : Err → Err
context_error e = new_bad_request "unable to get workspace context" (error_text e)

module _ {S W F : Type 0} (env : ProxyEnv S W F) (quote : String → String) where
  unfoldable pub process_request : Bool → String → String → Action W Routed
  unfolding get_workspace_context route_request error_text
  process_request public_viewer_enabled username path = do
    c ← map_err context_error (lift (get_workspace_context quote path))
    access ← route_request env public_viewer_enabled username c.plugin c.workspace
    pure (record { path = c.path; plugin = c.plugin; access = access })

  same_context :
      (c c' : WorkspaceContext) → ◌≡◌ {A = Result WorkspaceContext} (ok c) (ok c') → c' ≡ c
  same_context c c' h = ground (arith, h)

  finished :
      (c : WorkspaceContext) (a : ClusterAccess) (r : Routed) (w w' : W)
      → pure (record { path = c.path; plugin = c.plugin; access = a }) w ≡ (ok r, w')
      → ◌≡◌ {A = Result ClusterAccess × W} (ok a, w) (ok r.access, w')
  finished c a r w w' h =
      let same : record { path = c.path; plugin = c.plugin; access = a } ≡ r = ground (arith, h) in
      let still : w ≡ w' = ap (λ x. x.1) h in
      ap (λ (x : Routed). (ok x.access, w)) same ∙ ap (λ v. (ok r.access, v)) still

  path_of :
      (c : WorkspaceContext) (a : ClusterAccess) (r : Routed) (w w' : W)
      → pure (record { path = c.path; plugin = c.plugin; access = a }) w ≡ (ok r, w')
      → r.path ≡ c.path
  path_of c a r w w' h =
      let same : record { path = c.path; plugin = c.plugin; access = a } ≡ r = ground (arith, h) in
      sym (ap (λ (x : Routed). x.path) same)

  routed :
      (pv : Bool) (username path : String) (c : WorkspaceContext) (r : Routed) (w w' : W)
      → get_workspace_context quote path ≡ ok c
      → process_request pv username path w ≡ (ok r, w')
      → (route_request env pv username c.plugin c.workspace w ≡ (ok r.access, w'))
        × (r.path ≡ c.path)
  unfolding process_request
  routed pv username path c r w w' read h =
      let (c', w1, got, rest) =
        >>=-eq-ok (map_err context_error (lift (get_workspace_context quote path))) _ w h in
      let found : ◌≡◌ {A = Result WorkspaceContext × W} (get_workspace_context quote path, w)
          (ok c', w1) =
        map_err-eq-ok context_error (lift (get_workspace_context quote path)) w got in
      let same : c' ≡ c = same_context c c' (sym read ∙ ap (λ x. x.0) found) in
      let still : w1 ≡ w = sym (ap (λ x. x.1) found) in
      let (a, w2, served, last) =
        >>=-eq-ok (route_request env pv username c'.plugin c'.workspace) _ w1 rest in
      (
        ap (λ (x : WorkspaceContext). route_request env pv username x.plugin x.workspace w)
              (sym same)
            ∙ ap (λ v. route_request env pv username c'.plugin c'.workspace v) (sym still)
            ∙ served
            ∙ finished c' a r w2 w' last,
        path_of c' a r w2 w' last ∙ ap (λ (x : WorkspaceContext). x.path) same,
      )

  -- If the proxy grants a request to the path /workspaces/<workspace>/<rest>, for a name that is not
  -- empty and has no slash, then the request goes on with the path /<rest>; the space lister showed
  -- that workspace to the user, so that the user has a binding to it, or the public viewer has one and
  -- that feature is on; and the access carries the token of the first member cluster that the
  -- workspace's space names as its target. It impersonates the compliant username of the signup that
  -- is found for the user's name, and the user has a binding to the workspace or the public viewer's
  -- feature is off; or it impersonates the public viewer, that feature is on, and the user has no
  -- binding to the workspace or bears the public viewer's name.
  pub process_request-Served :
      (pv : Bool) (username ws rest : String) (r : Routed) (w w' : W)
      → has_no_slash ws ≡ true
      → is_empty ws ≡ false
      → process_request pv username ("/workspaces/" ⧺ ws ⧺ "/" ⧺ rest) w ≡ (ok r, w')
      → (r.path ≡ "/" ⧺ rest) × Served env pv username "" ws r.access
  unfolding has_no_slash
  process_request-Served pv username ws rest r w w' no_slash named h =
      let read = (context_round_trip quote "" ws rest refl no_slash).0 in
      let (served, same) =
        routed pv username ("/workspaces/" ⧺ ws ⧺ "/" ⧺ rest)
          (record { plugin = ""; workspace = ws; path = "/" ⧺ rest }) r w w' read h in
      (same, route_request-Served env pv username "" ws r.access w w' named served)
