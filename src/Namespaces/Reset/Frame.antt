-- ===== src/Namespaces/Reset/Frame.antt =====
-- What a reset leaves alone.
use registration_service.Prelude.{
  ◌==◌, Bool, All, ◌≡◌, refl, sym, subst, true, Option, none, some, List, [], ◌∷◌, String,
  Bool-cases, inl, inr,
}
use registration_service.Errors.{Err, wrapped}
use registration_service.Action.{
  Action, Result, ok, pure, check, attempt, map_err, ◌>>=◌, ◌>>◌, outcome_cases, continue,
  map_err-eq-ok,
}
use registration_service.Api.{Claims}
use registration_service.Signup.Env.{Space}
use registration_service.Signup.Status.{SignupResponse, do_get_signup}
use registration_service.Proxy.Paths.{is_blank}
use registration_service.Namespaces.Reset.{
  TemplateSet, MemberClient, TargetCluster, Manager, ResetOutcome, finished, delete_error,
  delete_each, delete_all, set_error, reset_with, reset_cluster, go_on, reset_clusters, reset_found,
  target_clusters, reset_space, reset_user, reset_namespaces,
}

All-apply :
    {A : Type 0} (P Q : A → Type 0) (l : List A) → All (λ a. P a → Q a) l → All P l → All Q l
All-apply P Q [] f h = tt
All-apply P Q (a ∷ l) (f, fs) (h, hs) = (f h, All-apply P Q l fs hs)

module _ {W : Type 0} (I : W → Type 0) where
  module _ {A B : Type 0} where
    bind-keeps :
        (m : Action W A) (f : A → Action W B) (w : W)
        → I (m w).1
        → ((a : A) (t : W) → m w ≡ (ok a, t) → I t → I (f a t).1)
        → I ((m >>= f) w).1
    bind-keeps m f w kept next = elim (outcome_cases (m w)) [
      | inl (a, t, done) ↦
          subst (λ (p : Result A × W). I (continue p.0 f p.1).1) (sym done)
            (next a t done (subst (λ (p : Result A × W). I p.1) done kept))
      | inr (e, t, failed) ↦
          subst (λ (p : Result A × W). I (continue p.0 f p.1).1) (sym failed)
            (subst (λ (p : Result A × W). I p.1) failed kept)
    ]

  check-keeps : (o : Option Err) (w : W) → I w → I (check o w).1
  check-keeps none w h = h
  check-keeps (some e) w h = h

  module _ (cluster : String) (client : MemberClient W) where
    abbrev Spares : String → Type 0
    Spares n = (v : W) → I v → I (client.delete_namespace n v).1

    delete_each-keeps :
        (ns : List String) (w : W) → All Spares ns → I w → I (delete_each cluster client ns w).1
    unfolding delete_each
    delete_each-keeps [] w deletes h = h
    delete_each-keeps (n ∷ ns) w deletes h =
        bind-keeps (attempt (client.delete_namespace n))
          (λ r. check (delete_error cluster n r) >> delete_each cluster client ns) w (deletes.0 w h)
          λ r t _ k.
            bind-keeps (check (delete_error cluster n r)) (λ _. delete_each cluster client ns) t
              (check-keeps (delete_error cluster n r) t k)
              λ _ v _ l. delete_each-keeps ns v deletes.1 l

    delete_all-keeps :
        (set : TemplateSet) (ns : List String) (w : W)
        → All Spares ns
        → I w
        → I (delete_all cluster client set ns w).1
    delete_all-keeps set [] w deletes h = h
    delete_all-keeps set (n ∷ ns) w deletes h =
        bind-keeps (delete_each cluster client (n ∷ ns)) (λ _. pure finished) w
          (delete_each-keeps (n ∷ ns) w deletes h) λ _ t _ k. k

  -- What a cluster's client may do without harm: read the user's NSTemplateSet, and delete the
  -- namespaces that it lists.
  pub record Harmless (username : String) (c : TargetCluster W) : Type 0 where
    pub reads :
        (client : MemberClient W) (w : W)
        → c.client ≡ some client
        → I w
        → I (client.get_template_set c.operator_namespace username w).1
    pub deletes :
        (client : MemberClient W) (set : TemplateSet) (before after : W)
        → c.client ≡ some client
        → client.get_template_set c.operator_namespace username before ≡ (ok set, after)
        → All (λ n. (v : W) → I v → I (client.delete_namespace n v).1) set.provisioned_namespaces

  module _ (username : String) where
    reset_with-keeps :
        (c : TargetCluster W) (o : Option (MemberClient W)) (w : W)
        → c.client ≡ o
        → Harmless username c
        → I w
        → I (reset_with username c o w).1
    reset_with-keeps c none w has safe h = h
    reset_with-keeps c (some client) w has safe h =
        bind-keeps
          (map_err (set_error c.name) (client.get_template_set c.operator_namespace username))
          (λ set. delete_all c.name client set set.provisioned_namespaces) w
          (safe.reads client w has h)
          λ set t got k.
            delete_all-keeps c.name client set set.provisioned_namespaces t
              (safe.deletes client set w t has (
                map_err-eq-ok (set_error c.name)
                  (client.get_template_set c.operator_namespace username) w got))
              k

    go_on-keeps :
        (rest : Action W ResetOutcome) (o : ResetOutcome) (w : W)
        → (I w → I (rest w).1)
        → I w
        → I (go_on rest o w).1
    go_on-keeps rest ResetOutcome.finished w later h = later h
    go_on-keeps rest ResetOutcome.not_found_or_deactivated w later h = h
    go_on-keeps rest (ResetOutcome.no_provisioned_namespaces a b) w later h = h

    reset_clusters-keeps :
        (cs : List (TargetCluster W)) (w : W)
        → All (Harmless username) cs
        → I w
        → I (reset_clusters username cs w).1
    unfolding reset_clusters reset_cluster
    reset_clusters-keeps [] w safe h = h
    reset_clusters-keeps (c ∷ cs) w safe h =
        bind-keeps (reset_cluster username c) (go_on (reset_clusters username cs)) w
          (reset_with-keeps c c.client w refl safe.0 h)
          λ o t _ k.
            go_on-keeps (reset_clusters username cs) o t (reset_clusters-keeps cs t safe.1) k

    reset_found-keeps :
        (target : String) (cs : List (TargetCluster W)) (w : W)
        → All (Harmless username) cs
        → I w
        → I (reset_found username target cs w).1
    reset_found-keeps target [] w safe h = h
    reset_found-keeps target (c ∷ cs) w safe h = reset_clusters-keeps (c ∷ cs) w safe h

module _ {S W F : Type 0} (manager : Manager S W F) (I : W → Type 0) (claims : Claims)
    (asks : (w : W)
      → I w
      → I (do_get_signup manager.service (some claims) claims.preferred_username true w).1)
    (reads : (name : String) (w : W) → I w → I (manager.service.get_space name w).1)
    -- the clusters with the name that the user's space asks for, by the signup that was found
    (harmless : (r : SignupResponse) (space : Space) (w0 w1 w2 w3 w : W)
        (condition : TargetCluster W → Bool)
      → do_get_signup manager.service (some claims) claims.preferred_username true w0
        ≡ (ok (some r), w1)
      → manager.service.get_space r.compliant_username w2 ≡ (ok space, w3)
      → All
          (λ c. (c.name == space.spec_target_cluster) ≡ true → Harmless I r.compliant_username c)
          (manager.get_member_clusters condition w)) where
  ask : Action W (Option SignupResponse)
  ask = do_get_signup manager.service (some claims) claims.preferred_username true

  targets-Harmless :
      (r : SignupResponse) (space : Space) (w : W)
      → ((condition : TargetCluster W → Bool)
          → All
              (λ c.
                (c.name == space.spec_target_cluster) ≡ true → Harmless I r.compliant_username c)
              (manager.get_member_clusters condition w))
      → All (Harmless I r.compliant_username) (target_clusters manager space w)
  targets-Harmless r space w safe =
      let asked_for : TargetCluster W → Bool = λ c. c.name == space.spec_target_cluster in
      All-apply _ _ (manager.get_member_clusters asked_for w) (safe asked_for)
        (manager.get_member_clusters-all asked_for w)

  reset_user-keeps :
      (o : Option SignupResponse) (w0 w : W)
      → ask w0 ≡ (ok o, w)
      → I w
      → I (reset_user manager o w).1
  unfolding reset_space ask
  reset_user-keeps none w0 w asked h = h
  reset_user-keeps (some r) w0 w asked h = elim (Bool-cases (is_blank r.compliant_username)) [
    | inl nameless ↦ rw nameless h
    | inr named ↦ rw named (
        bind-keeps I
          (map_err (wrapped "unable to get user's space resource")
            (manager.service.get_space r.compliant_username))
          (reset_space manager r.compliant_username) w (reads r.compliant_username w h)
          λ space t got k.
            reset_found-keeps I r.compliant_username space.spec_target_cluster
              (target_clusters manager space t) t
              (targets-Harmless r space t λ condition. harmless r space w0 w w t t condition asked (
                map_err-eq-ok (wrapped "unable to get user's space resource")
                  (manager.service.get_space r.compliant_username) w got))
              k)
  ]

  -- What holds before a reset of a user's namespaces holds after it, whatever its outcome, if the reads
  -- of the reset keep it, and if deleting a namespace keeps it that the user's NSTemplateSet, read
  -- from a target cluster of the user's space, lists: nothing else is written.
  pub reset_namespaces-keeps : (w : W) → I w → I (reset_namespaces manager claims w).1
  unfolding reset_namespaces ask
  reset_namespaces-keeps w h =
      bind-keeps I (map_err (wrapped "unable to obtain the user signup") ask) (reset_user manager) w
        (asks w h)
        λ o t got k.
          reset_user-keeps o w t
            (map_err-eq-ok (wrapped "unable to obtain the user signup") ask w got) k
