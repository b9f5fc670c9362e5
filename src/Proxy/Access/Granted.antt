-- ===== src/Proxy/Access/Granted.antt =====
-- What a granted request to a workspace may do.
use registration_service.Prelude.{
  ◌≡◌, sym, ap, ◌∙◌, subst, Bool, false, Option, none, some, [], ◌∷◌, String, arith, eq_iff,
}
use registration_service.Text.{is_empty}
use registration_service.Action.{Result, check, ok, map_err, >>=-eq-ok, map_err-eq-ok, check-eq-ok}
use registration_service.Signup.Status.{SignupResponse, do_get_signup}
use registration_service.Proxy.Env.{ProxyEnv, Workspace, ClusterAccess}
use registration_service.Proxy.Members.{get_cluster_access, get_space_access}
use registration_service.Proxy.Members.Token.{Granted, space_access-Granted}
use registration_service.Proxy.Lister.Get.{get_user_workspace_with_bindings}
use registration_service.Proxy.Lister.Get.Visible.{
  Visible, get_user_workspace_with_bindings-Visible,
}
use registration_service.Proxy.Access.{
  denied, check_user_and_space, get_visible_workspace, validate_workspace_request, found_workspace,
  requester, get_access_as_user_or_public_viewer, process_workspace_request, route_request,
}
use registration_service.Proxy.Access.Speaks.{Speaks, requester-Speaks}

module _ {S W F : Type 0} (env : ProxyEnv S W F) where
  -- The space lister showed the workspace to the user, and the access to it is granted to the user
  -- or, where the user has no binding to it and the feature is on, to the public viewer.
  pub record Served (public_viewer_enabled : Bool) (username plugin name : String)
      (a : ClusterAccess) : Type 0 where
    pub workspace : Workspace
    pub before : W
    pub after : W
    pub shown :
        get_user_workspace_with_bindings env public_viewer_enabled username name before
        ≡ (ok (some workspace), after)
    pub visible : Visible env public_viewer_enabled username name workspace
    pub same_name : workspace.name ≡ name
    pub response : Option SignupResponse
    pub asked : W
    pub answered : W
    pub signup : do_get_signup env.service none username false asked ≡ (ok response, answered)
    pub speaks : Speaks env public_viewer_enabled username response workspace a.username
    pub granted :
        Granted env
          (requester env public_viewer_enabled username response workspace)
          name
          plugin
          public_viewer_enabled
          a

  shown_of :
      (pv : Bool) (username name : String) (ws : Workspace) (w w' : W)
      → get_visible_workspace env pv username name w ≡ (ok ws, w')
      → get_user_workspace_with_bindings env pv username name w ≡ (ok (some ws), w')
  unfolding get_visible_workspace
  shown_of pv username name ws w w' h =
      let (o, w1, got, rest) =
        >>=-eq-ok (map_err _ (get_user_workspace_with_bindings env pv username name)) _ w h in
      map_err-eq-ok _ (get_user_workspace_with_bindings env pv username name) w got
      ∙ found_of o w1 rest
    where
      found_of :
          (o : Option Workspace) (w1 : W)
          → found_workspace env name o w1 ≡ (ok ws, w')
          → ◌≡◌ {A = Result (Option Workspace) × W} (ok o, w1) (ok (some ws), w')
      found_of none w1 h = absurd (ground (arith, h))
      found_of (some v) w1 h =
          let same : v ≡ ws = ground (arith, h) in
          let still : w1 ≡ w' = ground (arith, h) in
          ap (λ x. (ok (some x), w1)) same ∙ ap (λ x. (ok (some ws), x)) still

  validated :
      (name : String) (ws : Workspace)
      → is_empty name ≡ false
      → denied (validate_workspace_request name (ws ∷ [])) ≡ none
      → ws.name ≡ name
  unfolding validate_workspace_request
  validated name ws named h = (eq_iff ws.name name).0 (ground (arith, named, h))

  non_empty_access :
      (username name plugin : String) (pv : Bool) (a : ClusterAccess) (w w' : W)
      → is_empty name ≡ false
      → get_cluster_access env username name plugin pv w ≡ (ok a, w')
      → get_space_access env username name plugin pv w ≡ (ok a, w')
  unfolding get_cluster_access
  non_empty_access username name plugin pv a w w' named h = ground (arith, h, named)

  workspace-Served :
      (pv : Bool) (username name plugin : String) (a : ClusterAccess) (w w' : W)
      → is_empty name ≡ false
      → process_workspace_request env pv username name plugin w ≡ (ok a, w')
      → Served pv username plugin name a
  unfolding process_workspace_request get_access_as_user_or_public_viewer
  workspace-Served pv username name plugin a w w' named h =
      let (_, w1, _, rest) = >>=-eq-ok (check_user_and_space env pv username name) _ w h in
      let (ws, w2, found, rest') =
        >>=-eq-ok (get_visible_workspace env pv username name) _ w1 rest in
      let (_, w3, checked, last) =
        >>=-eq-ok (check (denied (validate_workspace_request name (ws ∷ [])))) _ w2 rest' in
      let (valid, _) =
        check-eq-ok (denied (validate_workspace_request name (ws ∷ []))) w2 checked in
      let same = validated name ws named valid in
      let served =
        map_err-eq-ok _ (get_access_as_user_or_public_viewer env pv username plugin ws) w3 last in
      let (r, w4, asked, access) =
        >>=-eq-ok (map_err _ (do_get_signup env.service none username false)) _ w3 served in
      let granted =
        space_access-Granted env (requester env pv username r ws) name plugin pv a w4 w' (
          non_empty_access (requester env pv username r ws) name plugin pv a w4 w' named (
            subst
              (λ n.
                get_cluster_access env (requester env pv username r ws) n plugin pv w4 ≡ (ok a, w'))
              same access)) in
      record {
        workspace = ws;
        before = w1;
        after = w2;
        shown = shown_of pv username name ws w1 w2 found;
        visible =
            get_user_workspace_with_bindings-Visible env pv username name ws w1 w2
              (shown_of pv username name ws w1 w2 found);
        same_name = same;
        response = r;
        asked = w3;
        answered = w4;
        signup = map_err-eq-ok _ (do_get_signup env.service none username false) w3 asked;
        granted = granted;
        speaks =
            subst (Speaks env pv username r ws) (sym granted.made.as_user)
              (requester-Speaks env pv username r ws granted.name granted.allowed);
      }

  -- If the proxy grants a request to a named workspace, then the space lister showed that workspace
  -- to the user, and the access carries the token of the first member cluster that the workspace's
  -- space names as its target, and impersonates the user or the public viewer, as `Speaks` has it.
  pub route_request-Served :
      (pv : Bool) (username plugin name : String) (a : ClusterAccess) (w w' : W)
      → is_empty name ≡ false
      → route_request env pv username plugin name w ≡ (ok a, w')
      → Served pv username plugin name a
  unfolding route_request
  route_request-Served pv username plugin name a w w' named h =
      workspace-Served pv username name plugin a w w' named (ground (arith, h, named))
