-- ===== src/Proxy/Members/Token.antt =====
-- Whose token and whose name an access carries.
use registration_service.Prelude.{
  ◌≡◌, refl, sym, ap, subst, ◌∙◌, ◌⊎◌, inl, inr, Bool, true, false, ◌&&◌, Option, none, some, List,
  [], ◌∷◌, String, arith, Bool-cases, ◌==◌, eq_iff,
}
use registration_service.Text.{is_empty}
use registration_service.Errors.{Err}
use registration_service.Action.{pure, ◌>>=◌, ok, map_err, >>=-eq-ok, map_err-eq-ok}
use registration_service.Signup.Env.{Space}
use registration_service.Signup.Status.{SignupResponse, do_get_signup}
use registration_service.Proxy.Env.{ProxyEnv, MemberCluster, ClusterAccess}
use registration_service.Proxy.Members.{
  get_member_url, first_access, access_for_space, get_signup_for_provisioned_user,
  get_complaint_name, get_space_access, provisioned, access_to, no_member_for,
}

module _ {S W F : Type 0} (env : ProxyEnv S W F) where
  -- The member that passes the test comes after members that do not.
  pub data First (test : MemberCluster W → Bool)
      : MemberCluster W → List (MemberCluster W) → Type 0 where
    here :
        {m : MemberCluster W} {ms : List (MemberCluster W)} → test m ≡ true → First test m (m ∷ ms)
    later :
        {m n : MemberCluster W} {ms : List (MemberCluster W)}
        → test n ≡ false
        → First test m ms
        → First test m (n ∷ ms)

  -- The access is made with the member's token and URL, in the name of the user.
  pub record Made (m : MemberCluster W) (username plugin : String) (a : ClusterAccess)
      : Type 0 where
    pub before : W
    pub after : W
    pub url : get_member_url env plugin m before ≡ (ok a.api_url, after)
    pub token : a.impersonator_token ≡ m.bearer_token
    pub as_user : a.username ≡ username

  access_then :
      (m : MemberCluster W) (username plugin : String) (a : ClusterAccess) (w w' : W)
      → (do url ← get_member_url env plugin m; pure (access_to env m username url)) w ≡ (ok a, w')
      → Made m username plugin a
  access_then m username plugin a w w' h =
      let (url, w1, got, rest) = >>=-eq-ok (get_member_url env plugin m) _ w h in
      let same : access_to env m username url ≡ a = ground (arith, rest) in
      record {
        before = w;
        after = w1;
        url = got ∙ ap (λ (b : ClusterAccess). (ok b.api_url, w1)) same;
        token = sym (ap (λ (b : ClusterAccess). b.impersonator_token) same);
        as_user = sym (ap (λ (b : ClusterAccess). b.username) same);
      }

  first_access-First :
      (test : MemberCluster W → Bool) (e : Err) (username plugin : String)
      (ms : List (MemberCluster W)) (a : ClusterAccess) (w w' : W)
      → first_access env test e username plugin ms w ≡ (ok a, w')
      → (m : MemberCluster W) × First test m ms × Made m username plugin a
  unfolding first_access
  first_access-First test e username plugin [] a w w' h = absurd (ground (arith, h))
  first_access-First test e username plugin (m ∷ ms) a w w' h = elim (Bool-cases (test m)) [
    | inl passes ↦
        (m, here passes, access_then m username plugin a w w' (ground (arith, h, passes)))
    | inr fails ↦
        let (m', first, made) =
          first_access-First test e username plugin ms a w w' (ground (arith, h, fails)) in
        (m', later fails first, made)
  ]

  -- A name to impersonate: the public viewer's, where that feature is on and it asked, or the
  -- compliant username of a provisioned user.
  pub data Impersonable (public_viewer_enabled : Bool) (username : String) : String → Type 0 where
    as_viewer :
        public_viewer_enabled ≡ true
        → username ≡ env.public_viewer
        → Impersonable public_viewer_enabled username env.public_viewer
    as_user :
        (r : SignupResponse) (w w' : W)
        → do_get_signup env.service none username false w ≡ (ok (some r), w')
        → is_empty r.compliant_username ≡ false
        → (public_viewer_enabled && username == env.public_viewer) ≡ false
        → Impersonable public_viewer_enabled username r.compliant_username

  provisioned_of :
      (username : String) (w w' : W) (r : SignupResponse)
      → get_signup_for_provisioned_user env username w ≡ (ok r, w')
      → (do_get_signup env.service none username false w ≡ (ok (some r), w'))
        × (is_empty r.compliant_username ≡ false)
  unfolding get_signup_for_provisioned_user
  provisioned_of username w w' r h =
      let (o, w1, got, rest) = >>=-eq-ok (do_get_signup env.service none username false) _ w h in
      let (asked, named) = response_of o w1 w' r rest in
      (got ∙ ap (λ x. (ok x.0, x.1)) asked, named)
    where
      response_of :
          (o : Option SignupResponse) (w w' : W) (r : SignupResponse)
          → provisioned env o w ≡ (ok r, w')
          → (◌≡◌ {A = Option SignupResponse × W} (o, w) (some r, w'))
            × (is_empty r.compliant_username ≡ false)
      response_of none w w' r h = absurd (ground (arith, h))
      response_of (some q) w w' r h = elim (Bool-cases (is_empty q.compliant_username)) [
        | inl bare ↦ absurd (ground (arith, h, bare))
        | inr named ↦
            let same : q ≡ r = ground (arith, h, named) in
            let still : w ≡ w' = ground (arith, h, named) in
            (
              ap (λ x. (some x, w)) same ∙ ap (λ v. (some r, v)) still,
              ap (λ (x : SignupResponse). is_empty x.compliant_username) (sym same) ∙ named,
            )
      ]

  get_complaint_name-Impersonable :
      (username : String) (public_viewer_enabled : Bool) (name : String) (w w' : W)
      → get_complaint_name env username public_viewer_enabled w ≡ (ok name, w')
      → Impersonable public_viewer_enabled username name
  unfolding get_complaint_name
  get_complaint_name-Impersonable username pv name w w' h =
      elim (Bool-cases (pv && username == env.public_viewer)) [
        | inl viewer ↦
            let is_viewer : username ≡ env.public_viewer =
              (eq_iff username env.public_viewer).0 (ground (arith, viewer)) in
            let same : username ≡ name = ground (arith, h, viewer) in
            subst (Impersonable pv username) (sym is_viewer ∙ same)
              (as_viewer (ground (arith, viewer)) is_viewer)
        | inr other ↦
            let named_by : (get_signup_for_provisioned_user env username >>= λ (r : SignupResponse).
            pure r.compliant_username)
                  w
                ≡ (ok name, w') =
              ground (arith, h, other) in
            let (r, w1, got, rest) =
              >>=-eq-ok (get_signup_for_provisioned_user env username) _ w named_by in
            let (asked, named) = provisioned_of username w w1 r got in
            subst (Impersonable pv username) (ground (arith, rest))
              (as_user r w w1 asked named other)
      ]

  -- If a workspace's access is granted, then it carries the token of the first member cluster whose
  -- name is the target cluster of the workspace's space, and the name of the public viewer, where
  -- that is on and it asked, or the compliant username of the provisioned user.
  pub record Granted (username workspace plugin : String) (public_viewer_enabled : Bool)
      (a : ClusterAccess) : Type 0 where
    pub name : String
    pub allowed : Impersonable public_viewer_enabled username name
    pub before : W
    pub after : W
    pub space : Space
    pub found : env.service.get_space workspace before ≡ (ok space, after)
    pub member : MemberCluster W
    pub hosts : First (λ m. m.name == space.target_cluster) member (env.members after)
    pub made : Made member name plugin a

  access_for_space-First :
      (space : Space) (username plugin : String) (a : ClusterAccess) (w w' : W)
      → access_for_space env space username plugin w ≡ (ok a, w')
      → (m : MemberCluster W) × First (λ m. m.name == space.target_cluster) m (env.members w)
        × Made m username plugin a
  unfolding access_for_space
  access_for_space-First space username plugin a w w' h = elim (list_cases (env.members w)) [
    | inl alone ↦ absurd (ground (arith, h, alone))
    | inr (n, ns, some_members) ↦
        let (m, first, made) =
          first_access-First (λ m. m.name == space.target_cluster) (no_member_for env space)
            username plugin (n ∷ ns) a w w' (ground (arith, h, some_members)) in
        (m, subst (First (λ m. m.name == space.target_cluster) m) (sym some_members) first, made)
  ]
    where
      list_cases :
          (ms : List (MemberCluster W))
          → (ms ≡ []) ⊎ ((n : MemberCluster W) × (ns : List (MemberCluster W)) × (ms ≡ n ∷ ns))
      list_cases [] = inl refl
      list_cases (n ∷ ns) = inr (n, ns, refl)

  pub space_access-Granted :
      (username workspace plugin : String) (public_viewer_enabled : Bool) (a : ClusterAccess)
      (w w' : W)
      → get_space_access env username workspace plugin public_viewer_enabled w ≡ (ok a, w')
      → Granted username workspace plugin public_viewer_enabled a
  unfolding get_space_access
  space_access-Granted username workspace plugin pv a w w' h =
      let (name, w1, named, rest) = >>=-eq-ok (get_complaint_name env username pv) _ w h in
      let (space, w2, got, rest') =
        >>=-eq-ok (map_err _ (env.service.get_space workspace)) _ w1 rest in
      let (m, first, made) = access_for_space-First space name plugin a w2 w' rest' in
      record {
        name = name;
        allowed = get_complaint_name-Impersonable username pv name w w1 named;
        before = w1;
        after = w2;
        space = space;
        found = map_err-eq-ok _ (env.service.get_space workspace) w1 got;
        member = m;
        hosts = first;
        made = made;
      }
