-- ===== src/Proxy/Lister/Respond/Shown.antt =====
-- What a successful answer of the space lister's handlers shows.
use registration_service.Prelude.{
  ◌≡◌, sym, ap, ◌∙◌, ◌⊎◌, inl, inr, Bool, false, Option, none, some, List, [], ◌∷◌, String, arith,
  Bool-cases,
}
use registration_service.Text.{is_empty}
use registration_service.Action.{Result, ok, err, outcome_cases}
use registration_service.Signup.Status.{SignupResponse}
use registration_service.Proxy.Env.{ProxyEnv, Workspace}
use registration_service.Proxy.Lister.{if_provisioned}
use registration_service.Proxy.Lister.Get.{get_user_workspace_with_bindings}
use registration_service.Proxy.Lister.Get.Visible.{
  Visible, get_user_workspace_with_bindings-Visible,
}
use registration_service.Proxy.Lister.Listing.{get_mur_names_for_list, list_user_workspaces}
use registration_service.Proxy.Lister.Listing.Own.{Own, list_user_workspaces-Own}
use registration_service.Proxy.Lister.Respond.{
  workspace, workspaces, get_response, list_response, handle_space_get_request,
  handle_space_list_request,
}

module _ {S W F : Type 0} (env : ProxyEnv S W F) where
  got_of :
      (name : String) (r : Result (Option Workspace)) (ws : Workspace)
      → get_response name r ≡ record { code = 200; body = workspace ws }
      → r ≡ ok (some ws)
  got_of name (err e) ws h = absurd (ground (arith, h))
  got_of name (ok none) ws h = absurd (ground (arith, h))
  got_of name (ok (some v)) ws h =
      let same : v ≡ ws = ground (arith, h) in ap (λ x. ok (some x)) same

  -- A successful answer to a request for a workspace shows one that is visible to the user: one with
  -- a binding of the user, or of the public viewer where that feature is on.
  pub handle_space_get_request-Visible :
      (pv : Bool) (username name : String) (ws : Workspace) (w w' : W)
      → handle_space_get_request env pv username name w
        ≡ (record { code = 200; body = workspace ws }, w')
      → Visible env pv username name ws
  unfolding handle_space_get_request
  handle_space_get_request-Visible pv username name ws w w' h =
      elim (outcome_cases (get_user_workspace_with_bindings env pv username name w)) [
        | inl (a, w1, read) ↦
            get_user_workspace_with_bindings-Visible env pv username name ws w w1 (
              read
              ∙ ap (λ x. (x, w1))
                  (got_of name (ok a) ws
                    (ap (λ p. get_response name p.0) (sym read) ∙ ap (λ p. p.0) h)))
        | inr (e, w1, failed) ↦
            absurd (ground (arith, ap (λ p. get_response name p.0) (sym failed) ∙ ap (λ p. p.0) h))
      ]

  listed_of :
      (r : Result (List Workspace)) (wss : List Workspace)
      → list_response r ≡ record { code = 200; body = workspaces wss }
      → r ≡ ok wss
  listed_of (err e) wss h = absurd (ground (arith, h))
  listed_of (ok l) wss h = let same : l ≡ wss = ground (arith, h) in ap (λ x. ok x) same

  own_names :
      (o : Option SignupResponse) (r : SignupResponse)
      → if_provisioned o ≡ some r
      → get_mur_names_for_list env false r ≡ r.compliant_username ∷ []
  unfolding get_mur_names_for_list
  own_names none r h = absurd (ground (arith, h))
  own_names (some s) r h = elim (Bool-cases (is_empty s.compliant_username)) [
    | inl nameless ↦ absurd (ground (arith, h, nameless))
    | inr named ↦
        let same : s ≡ r = ground (arith, h, named) in
        ground (arith, ap (λ (x : SignupResponse). is_empty x.compliant_username) same, named)
  ]

  -- A successful answer to a request for the list of workspaces shows none, or those of the bindings
  -- of the user alone, whatever the request says of the public viewer.
  pub handle_space_list_request-Own :
      (pv : Bool) (username : String) (wss : List Workspace) (w w' : W)
      → handle_space_list_request env pv username w
        ≡ (record { code = 200; body = workspaces wss }, w')
      → (wss ≡ [])
        ⊎ ((own : Own env false username wss) × (get_mur_names_for_list env false own.signup
              ≡ own.signup.compliant_username ∷ []))
  unfolding handle_space_list_request
  handle_space_list_request-Own pv username wss w w' h =
      elim (outcome_cases (list_user_workspaces env false username w)) [
        | inl (l, w1, read) ↦
            let listed =
              listed_of (ok l) wss (ap (λ p. list_response p.0) (sym read) ∙ ap (λ p. p.0) h) in
            elim (list_user_workspaces-Own env false username wss w w1
              (read ∙ ap (λ x. (x, w1)) listed)) [
                | inl nothing ↦ inl nothing.0
                | inr own ↦ inr (own, own_names own.response own.signup own.provisioned)
              ]
        | inr (e, w1, failed) ↦
            absurd (ground (arith, ap (λ p. list_response p.0) (sym failed) ∙ ap (λ p. p.0) h))
      ]
