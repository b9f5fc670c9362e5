-- ===== src/Proxy/Lister/Get/Requests.antt =====
-- Which SpaceBindingRequests are read for a space.
use registration_service.Prelude.{
  ◌≡◌, refl, sym, ap, subst, false, List, [], ◌∷◌, ◌++◌, arith, eq_iff, inl, inr, Bool-cases, ◌==◌,
}
use registration_service.Action.{Result, ok, pure, ◌>>=◌, >>=-eq-ok}
use registration_service.Signup.Env.{Space, SpaceNamespace}
use registration_service.Proxy.Env.{ProxyEnv, MemberCluster, SpaceBindingRequest}
use registration_service.Proxy.Lister.Get.{
  requests_of_namespaces, requests_of_members, list_space_binding_requests_for_space,
}

module _ {S W F : Type 0} (env : ProxyEnv S W F) where
  -- The requests in namespaces of a member, one namespace after the other.
  pub data InNamespaces (m : MemberCluster W)
      : W → List SpaceNamespace → List SpaceBindingRequest → W → Type 0 where
    no_namespace : {w : W} → InNamespaces m w [] [] w
    namespace :
        {w w1 w2 : W} {ns : List SpaceNamespace} {later : List SpaceBindingRequest}
        (n : SpaceNamespace) (here : List SpaceBindingRequest)
        → m.list_binding_requests n.name w ≡ (ok here, w1)
        → InNamespaces m w1 ns later w2
        → InNamespaces m w (n ∷ ns) (here ++ later) w2

  -- The requests in the namespaces of the space in its target cluster, and in no other.
  pub data InTarget (space : Space)
      : W → List (MemberCluster W) → List SpaceBindingRequest → W → Type 0 where
    no_member : {w : W} → InTarget space w [] [] w
    other_cluster :
        {w w1 : W} {ms : List (MemberCluster W)} {rs : List SpaceBindingRequest}
        (m : MemberCluster W)
        → (m.name == space.target_cluster) ≡ false
        → InTarget space w ms rs w1
        → InTarget space w (m ∷ ms) rs w1
    target_cluster :
        {w w1 w2 : W} {ms : List (MemberCluster W)} {here later : List SpaceBindingRequest}
        (m : MemberCluster W)
        → m.name ≡ space.target_cluster
        → InNamespaces m w space.provisioned_namespaces here w1
        → InTarget space w1 ms later w2
        → InTarget space w (m ∷ ms) (here ++ later) w2

  -- What was put together at the end of a step.
  joined :
      {A : Type 0} {w w' : W} {rs rs' : List A}
      → ◌≡◌ {A = Result (List A) × W} (ok rs, w) (ok rs', w')
      → (rs ≡ rs') × (w ≡ w')
  joined h = (ground (arith, h), ap (λ p. p.1) h)

  requests_of_namespaces-InNamespaces :
      (m : MemberCluster W) (ns : List SpaceNamespace) (rs : List SpaceBindingRequest) (w w' : W)
      → requests_of_namespaces env m ns w ≡ (ok rs, w')
      → InNamespaces m w ns rs w'
  unfolding requests_of_namespaces
  requests_of_namespaces-InNamespaces m [] rs w w' h =
      let (same, still) = joined h in
      subst (λ x. InNamespaces m w [] x w') same
        (subst (λ v. InNamespaces m w [] [] v) still no_namespace)
  requests_of_namespaces-InNamespaces m (n ∷ ns) rs w w' h =
      let (here, w1, got, rest) = >>=-eq-ok (m.list_binding_requests n.name) _ w h in
      let (later, w2, got', last) = >>=-eq-ok (requests_of_namespaces env m ns) _ w1 rest in
      let (same, still) = joined last in
      subst (λ x. InNamespaces m w (n ∷ ns) x w') same
        (subst (λ v. InNamespaces m w (n ∷ ns) (here ++ later) v) still
          (namespace n here got (requests_of_namespaces-InNamespaces m ns later w1 w2 got')))

  requests_of_members-InTarget :
      (space : Space) (ms : List (MemberCluster W)) (rs : List SpaceBindingRequest) (w w' : W)
      → requests_of_members env space ms w ≡ (ok rs, w')
      → InTarget space w ms rs w'
  unfolding requests_of_members
  requests_of_members-InTarget space [] rs w w' h =
      let (same, still) = joined h in
      subst (λ x. InTarget space w [] x w') same
        (subst (λ v. InTarget space w [] [] v) still no_member)
  requests_of_members-InTarget space (m ∷ ms) rs w w' h =
      elim (Bool-cases (m.name == space.target_cluster)) [
        | inr other ↦
            other_cluster m other
              (requests_of_members-InTarget space ms rs w w' (ground (arith, h, other)))
        | inl target ↦
            let run : (requests_of_namespaces env m space.provisioned_namespaces >>= λ here.
            requests_of_members env space ms >>= λ later. pure (here ++ later))
                  w
                ≡ (ok rs, w') =
              ground (arith, h, target) in
            let (here, w1, got, rest) =
              >>=-eq-ok (requests_of_namespaces env m space.provisioned_namespaces) _ w run in
            let (later, w2, got', last) = >>=-eq-ok (requests_of_members env space ms) _ w1 rest in
            let (same, still) = joined last in
            subst (λ x. InTarget space w (m ∷ ms) x w') same
              (subst (λ v. InTarget space w (m ∷ ms) (here ++ later) v) still
                (target_cluster m ((eq_iff m.name space.target_cluster).0 target)
                  (requests_of_namespaces-InNamespaces m space.provisioned_namespaces here w w1 got)
                  (requests_of_members-InTarget space ms later w1 w2 got')))
      ]

  pub list_space_binding_requests-InTarget :
      (space : Space) (rs : List SpaceBindingRequest) (w w' : W)
      → list_space_binding_requests_for_space env space w ≡ (ok rs, w')
      → InTarget space w (env.members w) rs w'
  unfolding list_space_binding_requests_for_space
  list_space_binding_requests-InTarget space rs w w' h = of_members (env.members w) refl
    where
      of_members :
          (ms : List (MemberCluster W))
          → env.members w ≡ ms
          → InTarget space w (env.members w) rs w'
      of_members [] e = absurd (ground (arith, h, e))
      of_members (m ∷ ms) e =
          subst (λ l. InTarget space w l rs w') (sym e)
            (requests_of_members-InTarget space (m ∷ ms) rs w w' (ground (arith, h, e)))
