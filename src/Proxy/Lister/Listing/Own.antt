-- ===== src/Proxy/Lister/Listing/Own.antt =====
-- Which workspaces a user's list has.
use registration_service.Prelude.{
  ◌≡◌, refl, ◌∙◌, ap, subst, Bool, false, Option, none, some, List, [], ◌∷◌, String, arith, ◌⊎◌,
  inl, inr, sym, true, Bool-cases, if◌then◌else◌,
}
use registration_service.Text.{is_empty}
use registration_service.Errors.{Err}
use registration_service.Action.{ok, err, pure, >>=-eq-ok, outcome_cases}
use registration_service.Signup.Env.{Space, SpaceBinding}
use registration_service.Signup.Status.{SignupResponse, do_get_signup}
use registration_service.Proxy.Env.{ProxyEnv, Workspace}
use registration_service.Proxy.Lister.{
  if_provisioned, get_provisioned_user_signup, create_workspace_object,
}
use registration_service.Proxy.Lister.Listing.{
  get_mur_names_for_list, list_space_bindings_for_users, get_space_of_binding,
  workspaces_from_space_bindings, workspaces_if_provisioned, list_user_workspaces,
}

module _ {S W F : Type 0} (env : ProxyEnv S W F) where
  -- The workspaces gathered from bindings, one binding after the other: each has one workspace, but
  -- for those whose space cannot be read, which have none.
  pub data Gathered (signup_name : String)
      : W → List SpaceBinding → List Workspace → W → Type 0 where
    done : {w : W} → Gathered signup_name w [] [] w
    left_out :
        {w w1 w2 : W} {sbs : List SpaceBinding} {wss : List Workspace} (sb : SpaceBinding) (e : Err)
        → get_space_of_binding env sb w ≡ (err e, w1)
        → Gathered signup_name w1 sbs wss w2
        → Gathered signup_name w (sb ∷ sbs) wss w2
    taken :
        {w w1 w2 : W} {sbs : List SpaceBinding} {wss : List Workspace} (sb : SpaceBinding)
        (space : Space)
        → get_space_of_binding env sb w ≡ (ok space, w1)
        → Gathered signup_name w1 sbs wss w2
        → Gathered signup_name w (sb ∷ sbs) (create_workspace_object signup_name space sb ∷ wss) w2

  workspaces_from_space_bindings-Gathered :
      (name : String) (sbs : List SpaceBinding) (w : W)
      → (wss : List Workspace) × (w' : W) × (workspaces_from_space_bindings env name sbs w
          ≡ (ok wss, w'))
        × Gathered name w sbs wss w'
  unfolding workspaces_from_space_bindings
  workspaces_from_space_bindings-Gathered name [] w = ([], w, refl, Gathered.done)
  workspaces_from_space_bindings-Gathered name (sb ∷ sbs) w =
      elim (outcome_cases (get_space_of_binding env sb w)) [
        | inl (space, w1, read) ↦
            let (wss, w2, later, g) = workspaces_from_space_bindings-Gathered name sbs w1 in
            (
              create_workspace_object name space sb ∷ wss,
              w2,
              ground (arith, read, later),
              Gathered.taken sb space read g,
            )
        | inr (e, w1, failed) ↦
            let (wss, w2, later, g) = workspaces_from_space_bindings-Gathered name sbs w1 in
            (wss, w2, ground (arith, failed, later), Gathered.left_out sb e failed g)
      ]

  -- The user has no signup, or one without a compliant username.
  pub record Unprovisioned (username : String) : Type 0 where
    pub response : Option SignupResponse
    pub asked : W
    pub answered : W
    pub lookup : do_get_signup env.service none username false asked ≡ (ok response, answered)
    pub no_username :
        (response ≡ none)
        ⊎ ((r : SignupResponse) × (response ≡ some r) × (is_empty r.compliant_username ≡ true))

  no_username_of :
      (o : Option SignupResponse)
      → if_provisioned o ≡ none
      → (o ≡ none) ⊎ ((r : SignupResponse) × (o ≡ some r) × (is_empty r.compliant_username ≡ true))
  no_username_of none h = inl refl
  no_username_of (some r) h = inr (r, refl, ground (arith, h))

  provisioned_of :
      (o : Option SignupResponse) (r : SignupResponse)
      → if_provisioned o ≡ some r
      → (o ≡ some r) × (is_empty r.compliant_username ≡ false)
  provisioned_of none r h = absurd (ground (arith, h))
  provisioned_of (some s) r h = elim (Bool-cases (is_empty s.compliant_username)) [
    | inl nameless ↦ absurd (ground (arith, h, nameless))
    | inr named ↦
        let same : s ≡ r = ground (arith, h, named) in
        (
          ap (λ x. some x) same,
          ap (λ (x : SignupResponse). is_empty x.compliant_username) (sym same) ∙ named,
        )
  ]

  -- The user's name, and the public viewer's where that feature is on.
  abbrev pub names_for : Bool → String → List String
  names_for pv name = name ∷ (if pv then env.public_viewer ∷ [] else [])

  names_of :
      (pv : Bool) (r : SignupResponse)
      → is_empty r.compliant_username ≡ false
      → get_mur_names_for_list env pv r ≡ names_for pv r.compliant_username
  unfolding get_mur_names_for_list
  names_of pv r named = ground (arith, named)

  -- A list of workspaces comes from the bindings of the names that the list is for.
  pub record Own (pv : Bool) (username : String) (wss : List Workspace) : Type 0 where
    pub signup : SignupResponse
    pub response : Option SignupResponse
    pub asked : W
    pub answered : W
    pub lookup : do_get_signup env.service none username false asked ≡ (ok response, answered)
    pub provisioned : if_provisioned response ≡ some signup
    pub has_signup : response ≡ some signup
    pub has_username : is_empty signup.compliant_username ≡ false
    pub names : get_mur_names_for_list env pv signup ≡ names_for pv signup.compliant_username
    pub space_bindings : List SpaceBinding
    pub listed : W
    pub bound :
        list_space_bindings_for_users env (get_mur_names_for_list env pv signup) answered
        ≡ (ok space_bindings, listed)
    pub final : W
    pub gathered : Gathered signup.name listed space_bindings wss final

  listed-Own :
      (pv : Bool) (username : String) (response o : Option SignupResponse) (wss : List Workspace)
      (w w1 w' : W)
      → do_get_signup env.service none username false w ≡ (ok response, w1)
      → if_provisioned response ≡ o
      → workspaces_if_provisioned env pv o w1 ≡ (ok wss, w')
      → ((wss ≡ []) × Unprovisioned username) ⊎ Own pv username wss
  listed-Own pv username response none wss w w1 w' asked p h = inl (
    ground (arith, h),
    record {
      response = response;
      asked = w;
      answered = w1;
      lookup = asked;
      no_username = no_username_of response p;
    },
  )
  listed-Own pv username response (some r) wss w w1 w' asked p h =
      let (sbs, w2, bound, rest) =
        >>=-eq-ok (list_space_bindings_for_users env (get_mur_names_for_list env pv r)) _ w1 h in
      let (got, w3, run, g) = workspaces_from_space_bindings-Gathered r.name sbs w2 in
      let same : got ≡ wss = ground (arith, run, rest) in
      inr (record {
        signup = r;
        response = response;
        asked = w;
        answered = w1;
        lookup = asked;
        provisioned = p;
        has_signup = (provisioned_of response r p).0;
        has_username = (provisioned_of response r p).1;
        names = names_of pv r (provisioned_of response r p).1;
        space_bindings = sbs;
        listed = w2;
        bound = bound;
        final = w3;
        gathered = subst (λ l. Gathered r.name w2 sbs l w3) same g;
      })

  -- If a user's workspaces are listed, then the user has no signup with a compliant username, and
  -- the list is empty; or the list has one workspace, in their order, for each binding of the
  -- compliant username (and of the public viewer where that feature is on) whose space can be read.
  pub list_user_workspaces-Own :
      (pv : Bool) (username : String) (wss : List Workspace) (w w' : W)
      → list_user_workspaces env pv username w ≡ (ok wss, w')
      → ((wss ≡ []) × Unprovisioned username) ⊎ Own pv username wss
  unfolding list_user_workspaces get_provisioned_user_signup
  list_user_workspaces-Own pv username wss w w' h =
      let (o, w2, got, rest) = >>=-eq-ok (get_provisioned_user_signup env username) _ w h in
      let (r, w1, asked, last) =
        >>=-eq-ok (do_get_signup env.service none username false) (λ r. pure (if_provisioned r)) w
          got in
      let same : if_provisioned r ≡ o = ground (arith, last) in
      let still : w1 ≡ w2 = ap (λ x. x.1) last in
      listed-Own pv username r o wss w w2 w' (asked ∙ ap (λ v. (ok r, v)) still) same rest
