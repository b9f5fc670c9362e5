-- ===== src/Proxy/Lister/Get/Visible.antt =====
-- Who sees a workspace, and what they see of it.
use mathlib.Core.List.{Mem, mem-cons_self, mem-cons_of_mem}
use registration_service.Prelude.{
  ◌≡◌, refl, ◌∙◌, ap, subst, Bool, true, false, not, ◌&&◌, Option, none, some, List, [], ◌∷◌,
  String, arith, eq_iff, ◌⊎◌, inl, inr, Bool-cases, Option-cases, ◌==◌,
}
use registration_service.Action.{Result, ok, err, attempt, lift, pure, attempt-eq-ok, >>=-eq-ok}
use registration_service.Signup.Env.{Space, SpaceBinding}
use registration_service.Signup.Status.{SignupResponse, do_get_signup}
use registration_service.Proxy.Env.{ProxyEnv, Workspace, SpaceBindingRequest}
use registration_service.Proxy.Lister.{
  if_provisioned, get_provisioned_user_signup, create_workspace_object,
}
use registration_service.Proxy.Lister.Bindings.{generate_workspace_bindings}
use registration_service.Proxy.Lister.Bindings.Listed.{Listed, generate_workspace_bindings-Listed}
use registration_service.Proxy.Lister.Get.Requests.{InTarget, list_space_binding_requests-InTarget}
use registration_service.Proxy.Lister.Get.{
  found_space, stand_in, filter_user_space_binding, get_user_signup_and_space, list_for_space_with,
  visible_binding, detailed_workspace, details_if_visible, details_for,
  list_space_binding_requests_for_space, get_user_workspace_with_bindings,
}

filter_user_space_binding_lem :
    (username : String) (sbs : List SpaceBinding) (sb : SpaceBinding)
    → filter_user_space_binding username sbs ≡ some sb
    → Mem sb sbs × (sb.master_user_record ≡ username)
unfolding filter_user_space_binding
filter_user_space_binding_lem username [] sb h = absurd (ground (arith, h))
filter_user_space_binding_lem username (s ∷ sbs) sb h =
    elim (Bool-cases (s.master_user_record == username)) [
      | inl here ↦
          let same : s ≡ sb = ground (arith, h, here) in
          subst (λ x. Mem x (s ∷ sbs) × (x.master_user_record ≡ username)) same
            (mem-cons_self, (eq_iff s.master_user_record username).0 here)
      | inr there ↦
          let (m, e) = filter_user_space_binding_lem username sbs sb (ground (arith, h, there)) in
          (mem-cons_of_mem s m, e)
    ]

module _ {S W F : Type 0} (env : ProxyEnv S W F) where
  -- The user whose binding makes a workspace visible to a signup.
  abbrev pub Sees : Bool → SignupResponse → String → Type 0
  Sees pv r username =
      (username ≡ r.compliant_username) ⊎ ((pv ≡ true) × (username ≡ env.public_viewer))

  visible_binding_lem :
      (pv : Bool) (r : SignupResponse) (sbs : List SpaceBinding) (sb : SpaceBinding)
      → visible_binding env pv r.compliant_username sbs ≡ some sb
      → Mem sb sbs × Sees pv r sb.master_user_record
  unfolding visible_binding
  visible_binding_lem pv r sbs sb h =
      elim (Option-cases (filter_user_space_binding r.compliant_username sbs)) [
        | inr (own, is_own) ↦
            let same : own ≡ sb = ground (arith, h, is_own) in
            let (m, e) =
              filter_user_space_binding_lem r.compliant_username sbs sb
                (is_own ∙ ap (λ x. some x) same) in
            (m, inl e)
        | inl missing ↦ elim (Bool-cases (pv && not (r.compliant_username == env.public_viewer))) [
          | inl on ↦
              let (m, e) =
                filter_user_space_binding_lem env.public_viewer sbs sb
                  (ground (arith, h, missing, on)) in
              (m, inr (ground (arith, on), e))
          | inr off ↦ absurd (ground (arith, h, missing, off))
        ]
      ]

  -- A provisioned signup, or the public viewer's where the feature is on and there is none.
  pub record Requested (pv : Bool) (username : String) (r : SignupResponse) : Type 0 where
    pub response : Option SignupResponse
    pub asked : W
    pub answered : W
    pub lookup : do_get_signup env.service none username false asked ≡ (ok response, answered)
    pub stands : stand_in env pv (if_provisioned response) ≡ some r

  -- The workspace is made of the space of the name and a binding to it of the user, or of the public
  -- viewer where the feature is on.
  pub record Visible (pv : Bool) (username name : String) (ws : Workspace) : Type 0 where
    pub signup : SignupResponse
    pub requested : Requested pv username signup
    pub space : Space
    pub before : W
    pub after : W
    pub read : env.service.get_space name before ≡ (ok space, after)
    pub space_bindings : List SpaceBinding
    pub listing : W
    pub listed : W
    pub bound : list_for_space_with env "" space listing ≡ (ok space_bindings, listed)
    pub binding : SpaceBinding
    pub is_bound : Mem binding space_bindings
    pub sees : Sees pv signup binding.master_user_record
    pub same_role : ws.role ≡ binding.space_role
    pub requests : List SpaceBindingRequest
    pub gathering : W
    pub gathered : W
    pub in_target : InTarget env space gathering (env.members gathering) requests gathered
    pub bindings : Listed space.name space_bindings requests ws.bindings

  provisioned_of :
      (username : String) (o : Option SignupResponse) (w w' : W)
      → get_provisioned_user_signup env username w ≡ (ok o, w')
      → (r : Option SignupResponse) × (v : W) × (do_get_signup env.service none username false w
          ≡ (ok r, v))
        × (if_provisioned r ≡ o)
  unfolding get_provisioned_user_signup
  provisioned_of username o w w' h =
      let (r, v, got, rest) = >>=-eq-ok (do_get_signup env.service none username false) _ w h in
      (r, v, got, ground (arith, rest))

  found_of : (a : Result Space) (space : Space) → found_space a ≡ some space → a ≡ ok space
  found_of (ok s) space h = ground (arith, h)
  found_of (err e) space h = absurd (ground (arith, h))

  -- What is read first.
  record Read (pv : Bool) (username name : String) (r : SignupResponse) (space : Space)
      : Type 0 where
    requested : Requested pv username r
    before : W
    after : W
    read : env.service.get_space name before ≡ (ok space, after)

  signup_and_space_of :
      (pv : Bool) (username name : String) (r : SignupResponse) (space : Space) (w w' : W)
      → get_user_signup_and_space env pv username name w ≡ (ok (some r, some space), w')
      → Read pv username name r space
  unfolding get_user_signup_and_space
  signup_and_space_of pv username name r space w w' h =
      let (o, w1, got, rest) = >>=-eq-ok (get_provisioned_user_signup env username) _ w h in
      let (a, w2, got', last) =
        >>=-eq-ok (attempt (env.service.get_space name))
          (λ a. pure (stand_in env pv o, found_space a)) w1 rest in
      let (response, v, asked, provisioned) = provisioned_of username o w w1 got in
      let pair : ◌≡◌ {A = Option SignupResponse × Option Space} (stand_in env pv o, found_space a)
          (some r, some space) =
        ground (arith, last) in
      let is_ok = found_of a space (ap (λ p. p.1) pair) in
      record {
        requested = record {
          response = response;
          asked = w;
          answered = v;
          lookup = asked;
          stands = ap (λ x. stand_in env pv x) provisioned ∙ ap (λ p. p.0) pair;
        };
        before = w1;
        after = w2;
        read = attempt-eq-ok (env.service.get_space name) w1 got' ∙ ap (λ x. (x, w2)) is_ok;
      }

  -- The requests were read from the target cluster of the space.
  abbrev Requests : Space → List SpaceBindingRequest → Type 0
  Requests space sbrs = (w w' : W) × InTarget env space w (env.members w) sbrs w'

  -- What is read for a user who sees the workspace.
  detailed_workspace_lem :
      (r : SignupResponse) (space : Space) (sbs : List SpaceBinding) (sb : SpaceBinding)
      (ws : Workspace) (w w' : W)
      → detailed_workspace env r space sbs sb w ≡ (ok ws, w')
      → (ws.role ≡ sb.space_role)
        × (sbrs : List SpaceBindingRequest) × Requests space sbrs
        × Listed space.name sbs sbrs ws.bindings
  unfolding detailed_workspace create_workspace_object
  detailed_workspace_lem r space sbs sb ws w w' h =
      let (sbrs, w1, got, rest) =
        >>=-eq-ok (list_space_binding_requests_for_space env space) _ w h in
      let (bs, w2, generated, rest') =
        >>=-eq-ok (lift (generate_workspace_bindings env space sbs sbrs)) _ w1 rest in
      let (roles, w3, _, last) = >>=-eq-ok (env.get_tier_roles space.tier_name) _ w2 rest' in
      let same_role : ws.role ≡ sb.space_role = ground (arith, last) in
      let same_bindings : bs ≡ ws.bindings = ground (arith, last) in
      (
        same_role,
        sbrs,
        (w, w1, list_space_binding_requests-InTarget env space sbrs w w1 got),
        subst (Listed space.name sbs sbrs) same_bindings
            (generate_workspace_bindings-Listed env space sbs sbrs bs (ap (λ p. p.0) generated)),
      )

  details_if_visible_lem :
      (r : SignupResponse) (space : Space) (sbs : List SpaceBinding) (o : Option SpaceBinding)
      (ws : Workspace) (w w' : W)
      → details_if_visible env r space sbs o w ≡ (ok (some ws), w')
      → (sb : SpaceBinding) × (o ≡ some sb)
        × (ws.role ≡ sb.space_role)
        × (sbrs : List SpaceBindingRequest) × Requests space sbrs
        × Listed space.name sbs sbrs ws.bindings
  details_if_visible_lem r space sbs none ws w w' h = absurd (ground (arith, h))
  details_if_visible_lem r space sbs (some sb) ws w w' h =
      let (v, w1, got, last) = >>=-eq-ok (detailed_workspace env r space sbs sb) _ w h in
      let same : v ≡ ws = ground (arith, last) in
      let (same_role, sbrs, requests, listed) = detailed_workspace_lem r space sbs sb v w w1 got in
      (
        sb,
        refl,
        subst (λ (x : Workspace). x.role ≡ sb.space_role) same same_role,
        sbrs,
        requests,
        subst (λ (x : Workspace). Listed space.name sbs sbrs x.bindings) same listed,
      )

  details_for-Visible :
      (pv : Bool) (username name : String) (ws : Workspace)
      (p : Option SignupResponse × Option Space) (w w1 w' : W)
      → get_user_signup_and_space env pv username name w ≡ (ok p, w1)
      → details_for env pv p w1 ≡ (ok (some ws), w')
      → Visible pv username name ws
  details_for-Visible pv username name ws (none, o) w w1 w' got h = absurd (ground (arith, h))
  details_for-Visible pv username name ws (some r, none) w w1 w' got h = absurd (ground (arith, h))
  details_for-Visible pv username name ws (some r, some space) w w1 w' got h =
      let (sbs, w2, bound, rest) = >>=-eq-ok (list_for_space_with env "" space) _ w1 h in
      let first = signup_and_space_of pv username name r space w w1 got in
      let (sb, visible, same_role, sbrs, (start, end, in_target), listed) =
        details_if_visible_lem r space sbs (visible_binding env pv r.compliant_username sbs) ws w2
          w' rest in
      let (m, sees) = visible_binding_lem pv r sbs sb visible in
      record {
        signup = r;
        requested = first.requested;
        space = space;
        before = first.before;
        after = first.after;
        read = first.read;
        space_bindings = sbs;
        listing = w1;
        listed = w2;
        bound = bound;
        binding = sb;
        is_bound = m;
        sees = sees;
        same_role = same_role;
        requests = sbrs;
        gathering = start;
        gathered = end;
        in_target = in_target;
        bindings = listed;
      }

  -- If a workspace is shown to a user, then the space of that name was read, and one of the bindings
  -- to it is the user's, by the compliant username of the provisioned signup, or the public viewer's,
  -- the latter only where that feature is on; the workspace has the role of that binding; and its
  -- bindings stand for those of the space and the requests for more, which are those in the space's
  -- namespaces in the member clusters that have the name of its target cluster, each with the actions that it
  -- allows, in the order of the user names.
  pub get_user_workspace_with_bindings-Visible :
      (pv : Bool) (username name : String) (ws : Workspace) (w w' : W)
      → get_user_workspace_with_bindings env pv username name w ≡ (ok (some ws), w')
      → Visible pv username name ws
  unfolding get_user_workspace_with_bindings
  get_user_workspace_with_bindings-Visible pv username name ws w w' h =
      let (p, w1, got, rest) = >>=-eq-ok (get_user_signup_and_space env pv username name) _ w h in
      details_for-Visible pv username name ws p w w1 w' got rest
