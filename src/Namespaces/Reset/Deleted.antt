-- ===== src/Namespaces/Reset/Deleted.antt =====
-- What a finished reset has deleted.
use registration_service.Prelude.{
  ◌≡◌, refl, sym, ap, ◌∙◌, subst, ◌≢◌, true, false, Option, none, some, List, [], ◌∷◌, String,
  arith, Bool-cases, inl, inr,
}
use registration_service.Errors.{Err, is_not_found, wrapped}
use registration_service.Action.{
  Action, Result, ok, err, check, attempt, map_err, ◌>>=◌, ◌>>◌, >>=-eq-ok, map_err-eq-ok,
  check-eq-ok, attempt-eq-ok,
}
use registration_service.Api.{Claims}
use registration_service.Signup.Env.{Space}
use registration_service.Signup.Status.{SignupResponse, do_get_signup}
use registration_service.Proxy.Paths.{is_blank}
use registration_service.Namespaces.Reset.{
  TemplateSet, MemberClient, TargetCluster, Manager, ResetOutcome, finished, delete_error,
  delete_each, delete_all, set_error, reset_with, reset_cluster, go_on, reset_clusters, reset_found,
  target_clusters, reset_space, reset_user, reset_namespaces,
}

module _ {W : Type 0} where
  -- The namespaces are deleted one after the other; one that is not there counts as deleted.
  pub data Deletes (client : MemberClient W) : W → List String → W → Type 0 where
    done : {w : W} → Deletes client w [] w
    deleted :
        {w w1 w2 : W} {ns : List String} (n : String)
        → client.delete_namespace n w ≡ (ok tt, w1)
        → Deletes client w1 ns w2
        → Deletes client w (n ∷ ns) w2
    was_gone :
        {w w1 w2 : W} {ns : List String} (n : String) (e : Err)
        → client.delete_namespace n w ≡ (err e, w1)
        → is_not_found e ≡ true
        → Deletes client w1 ns w2
        → Deletes client w (n ∷ ns) w2

  one-Deletes :
      (cluster : String) (client : MemberClient W) (n : String) (ns : List String) (w w1 w2 : W)
      (r : Result (Unit {0}))
      → client.delete_namespace n w ≡ (r, w1)
      → delete_error cluster n r ≡ none
      → Deletes client w1 ns w2
      → Deletes client w (n ∷ ns) w2
  one-Deletes cluster client n ns w w1 w2 (ok tt) run fine later = Deletes.deleted n run later
  one-Deletes cluster client n ns w w1 w2 (err e) run fine later =
      elim (Bool-cases (is_not_found e)) [
        | inl gone ↦ Deletes.was_gone n e run gone later
        | inr there ↦ absurd (ground (arith, fine, there))
      ]

  delete_each-Deletes :
      (cluster : String) (client : MemberClient W) (ns : List String) (w w' : W)
      → delete_each cluster client ns w ≡ (ok tt, w')
      → Deletes client w ns w'
  unfolding delete_each
  delete_each-Deletes cluster client [] w w' h =
      subst (λ v. Deletes client w [] v) (ap (λ p. p.1) h) Deletes.done
  delete_each-Deletes cluster client (n ∷ ns) w w' h =
      let (r, w1, tried, rest) =
        >>=-eq-ok (attempt (client.delete_namespace n))
          (λ x. check (delete_error cluster n x) >> delete_each cluster client ns) w h in
      let (_, w2, passed, last) =
        >>=-eq-ok (check (delete_error cluster n r)) (λ _. delete_each cluster client ns) w1 rest in
      let (fine, same) = check-eq-ok (delete_error cluster n r) w1 passed in
      one-Deletes cluster client n ns w w1 w' r (attempt-eq-ok (client.delete_namespace n) w tried)
        fine
        (subst (λ v. Deletes client v ns w') (sym same)
          (delete_each-Deletes cluster client ns w2 w' last))

  -- A cluster whose NSTemplateSet for the user lists namespaces, all of which are deleted.
  pub record ClusterReset (username : String) (c : TargetCluster W) (w w' : W) : Type 0 where
    pub client : MemberClient W
    pub has_client : c.client ≡ some client
    pub set : TemplateSet
    pub between : W
    pub read : client.get_template_set c.operator_namespace username w ≡ (ok set, between)
    pub lists_some : set.provisioned_namespaces ≢ []
    pub deletes : Deletes client between set.provisioned_namespaces w'

  pub data ClustersReset (username : String) : W → List (TargetCluster W) → W → Type 0 where
    no_more : {w : W} → ClustersReset username w [] w
    next :
        {w w1 w2 : W} {cs : List (TargetCluster W)} (c : TargetCluster W)
        → ClusterReset username c w w1
        → ClustersReset username w1 cs w2
        → ClustersReset username w (c ∷ cs) w2

  delete_all-finished :
      (cluster : String) (client : MemberClient W) (set : TemplateSet) (ns : List String) (w w' : W)
      → delete_all cluster client set ns w ≡ (ok finished, w')
      → (ns ≢ []) × Deletes client w ns w'
  delete_all-finished cluster client set [] w w' h = absurd (ground (arith, h))
  delete_all-finished cluster client set (n ∷ ns) w w' h =
      let (_, w1, run, last) = >>=-eq-ok (delete_each cluster client (n ∷ ns)) _ w h in
      (
        λ e. ground (arith, e),
        subst (λ v. Deletes client w (n ∷ ns) v) (ap (λ p. p.1) last)
            (delete_each-Deletes cluster client (n ∷ ns) w w1 run),
      )

  reset_with-ClusterReset :
      (username : String) (c : TargetCluster W) (o : Option (MemberClient W)) (w w' : W)
      → c.client ≡ o
      → reset_with username c o w ≡ (ok finished, w')
      → ClusterReset username c w w'
  reset_with-ClusterReset username c none w w' has h = absurd (ground (arith, h))
  reset_with-ClusterReset username c (some client) w w' has h =
      let (set, w1, got, rest) =
        >>=-eq-ok
          (map_err (set_error c.name) (client.get_template_set c.operator_namespace username)) _ w
          h in
      let (lists, deletes) =
        delete_all-finished c.name client set set.provisioned_namespaces w1 w' rest in
      record {
        client = client;
        has_client = has;
        set = set;
        between = w1;
        read =
            map_err-eq-ok (set_error c.name) (client.get_template_set c.operator_namespace username)
              w got;
        lists_some = lists;
        deletes = deletes;
      }

  go_on-finished :
      (rest : Action W ResetOutcome) (o : ResetOutcome) (w w' : W)
      → go_on rest o w ≡ (ok finished, w')
      → (o ≡ finished) × (rest w ≡ (ok finished, w'))
  go_on-finished rest ResetOutcome.finished w w' h = (refl, h)
  go_on-finished rest ResetOutcome.not_found_or_deactivated w w' h = absurd (ground (arith, h))
  go_on-finished rest (ResetOutcome.no_provisioned_namespaces a b) w w' h =
      absurd (ground (arith, h))

  reset_clusters-ClustersReset :
      (username : String) (cs : List (TargetCluster W)) (w w' : W)
      → reset_clusters username cs w ≡ (ok finished, w')
      → ClustersReset username w cs w'
  unfolding reset_clusters reset_cluster
  reset_clusters-ClustersReset username [] w w' h =
      subst (λ v. ClustersReset username w [] v) (ap (λ p. p.1) h) ClustersReset.no_more
  reset_clusters-ClustersReset username (c ∷ cs) w w' h =
      let (o, w1, run, rest) =
        >>=-eq-ok (reset_cluster username c) (go_on (reset_clusters username cs)) w h in
      let (is_finished, later) = go_on-finished (reset_clusters username cs) o w1 w' rest in
      ClustersReset.next c
        (reset_with-ClusterReset username c c.client w w1 refl
          (run ∙ ap (λ x. (ok x, w1)) is_finished))
        (reset_clusters-ClustersReset username cs w1 w' later)

  reset_found-ClustersReset :
      (username target : String) (cs : List (TargetCluster W)) (w w' : W)
      → reset_found username target cs w ≡ (ok finished, w')
      → (cs ≢ []) × ClustersReset username w cs w'
  reset_found-ClustersReset username target [] w w' h = absurd (ground (arith, h))
  reset_found-ClustersReset username target (c ∷ cs) w w' h =
      (λ e. ground (arith, e), reset_clusters-ClustersReset username (c ∷ cs) w w' h)

module _ {S W F : Type 0} (manager : Manager S W F) where
  pub record UserReset (claims : Claims) (w w' : W) : Type 0 where
    pub signup : SignupResponse
    pub asked : W
    pub lookup :
        do_get_signup manager.service (some claims) claims.preferred_username true w
        ≡ (ok (some signup), asked)
    pub named : is_blank signup.compliant_username ≡ false
    pub space : Space
    pub found : W
    pub read : manager.service.get_space signup.compliant_username asked ≡ (ok space, found)
    pub has_cluster : target_clusters manager space found ≢ []
    pub clusters :
        ClustersReset signup.compliant_username found (target_clusters manager space found) w'

  found-UserReset :
      (claims : Claims) (r : SignupResponse) (w w1 w' : W)
      → do_get_signup manager.service (some claims) claims.preferred_username true w
        ≡ (ok (some r), w1)
      → is_blank r.compliant_username ≡ false
      → (map_err
              (wrapped "unable to get user's space resource")
              (manager.service.get_space r.compliant_username)
            >>= reset_space manager r.compliant_username)
          w1
        ≡ (ok finished, w')
      → UserReset claims w w'
  unfolding reset_space
  found-UserReset claims r w w1 w' asked named h =
      let (space, w2, got, rest) =
        >>=-eq-ok
          (map_err (wrapped "unable to get user's space resource")
            (manager.service.get_space r.compliant_username))
          (reset_space manager r.compliant_username) w1 h in
      let (has, clusters) =
        reset_found-ClustersReset r.compliant_username space.spec_target_cluster
          (target_clusters manager space w2) w2 w' rest in
      record {
        signup = r;
        asked = w1;
        lookup = asked;
        named = named;
        space = space;
        found = w2;
        read =
            map_err-eq-ok (wrapped "unable to get user's space resource")
              (manager.service.get_space r.compliant_username) w1 got;
        has_cluster = has;
        clusters = clusters;
      }

  user-UserReset :
      (claims : Claims) (o : Option SignupResponse) (w w1 w' : W)
      → do_get_signup manager.service (some claims) claims.preferred_username true w ≡ (ok o, w1)
      → reset_user manager o w1 ≡ (ok finished, w')
      → UserReset claims w w'
  user-UserReset claims none w w1 w' asked h = absurd (ground (arith, h))
  user-UserReset claims (some r) w w1 w' asked h =
      elim (Bool-cases (is_blank r.compliant_username)) [
        | inl nameless ↦ absurd (ground (arith, rw nameless at h))
        | inr named ↦ found-UserReset claims r w w1 w' asked named (rw named at h)
      ]

  -- If a reset is finished, then the user has a signup with a compliant username, the space of that
  -- name was read, it has a target cluster, and in each of its target clusters the user's
  -- NSTemplateSet lists namespaces, each of which was deleted or was not there.
  pub reset_namespaces-UserReset :
      (claims : Claims) (w w' : W)
      → reset_namespaces manager claims w ≡ (ok finished, w')
      → UserReset claims w w'
  unfolding reset_namespaces
  reset_namespaces-UserReset claims w w' h =
      let ask = do_get_signup manager.service (some claims) claims.preferred_username true in
      let (o, w1, got, rest) =
        >>=-eq-ok (map_err (wrapped "unable to obtain the user signup") ask) (reset_user manager) w
          h in
      user-UserReset claims o w w1 w'
        (map_err-eq-ok (wrapped "unable to obtain the user signup") ask w got) rest
