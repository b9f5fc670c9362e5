-- ===== src/Namespaces/Reset.antt =====
-- pkg/namespaces/namespaces_manager.go: `ResetNamespaces`.
pub mod Frame
pub mod Deleted
use registration_service.Prelude.{
  ◌≡◌, Bool, true, false, not, Option, none, some, List, [], ◌∷◌, String, if◌then◌else◌, ◌==◌, All,
}
use registration_service.Text.{◌⧺◌}
use registration_service.Errors.{Err, plain, wrapped, is_not_found}
use registration_service.Action.{
  Action, Result, ok, err, pure, raise, check, attempt, map_err, ◌>>=◌, ◌>>◌,
}
use registration_service.Api.{Claims}
use registration_service.Signup.Env.{ServiceEnv, Space}
use registration_service.Signup.Status.{SignupResponse, do_get_signup}
use registration_service.Proxy.Paths.{is_blank}

-- NSTemplateSet: its name and the names of its provisioned namespaces.
pub record TemplateSet : Type 0 where
  pub name : String
  pub provisioned_namespaces : List String

-- The client of a member cluster: the NSTemplateSet of a namespace and a name, and the deletion of a
-- Namespace.
pub record MemberClient (W : Type 0) : Type 0 where
  pub get_template_set : String → String → Action W TemplateSet
  pub delete_namespace : String → Action W (Unit {0})

-- CachedToolchainCluster
pub record TargetCluster (W : Type 0) : Type 0 where
  pub name : String
  pub operator_namespace : String
  pub client : Option (MemberClient W)

-- The manager: the signup service with the cluster of the host, and GetMemberClustersFunc, which
-- returns clusters that meet a condition.
pub record Manager (S W F : Type 0) : Type 0 where
  pub service : ServiceEnv S W F
  pub get_member_clusters : (TargetCluster W → Bool) → W → List (TargetCluster W)
  pub get_member_clusters-all :
      (condition : TargetCluster W → Bool) (w : W)
      → All (λ c. condition c ≡ true) (get_member_clusters condition w)

-- A nil error, ErrUserSignUpNotFoundOrDeactivated, and ErrUserHasNoProvisionedNamespaces of a cluster
-- and an NSTemplateSet; any other error is one of the action.
pub data ResetOutcome : Type 0 where
  finished : ResetOutcome
  not_found_or_deactivated : ResetOutcome
  no_provisioned_namespaces : String → String → ResetOutcome

abbrev pub delete_error : String → String → Result (Unit {0}) → Option Err
delete_error cluster namespace (ok _) = none
delete_error cluster namespace (err e) =
    if is_not_found e
    then none
    else some (
        wrapped
          ("unable to delete user namespace \"" ⧺ namespace ⧺ "\" in cluster \"" ⧺ cluster ⧺ "\"")
          e)

abbrev set_error : String → Err → Err
set_error cluster e =
    wrapped
      ("unable to get the \"NSTemplateSet\" resource for the user in cluster \"" ⧺ cluster ⧺ "\"") e

module _ {W : Type 0} where
  -- The loop over the namespaces.
  unfoldable pub delete_each : String → MemberClient W → List String → Action W (Unit {0})
  unfolding is_not_found
  delete_each cluster client [] = pure tt
  delete_each cluster client (n ∷ ns) = do
    r ← attempt (client.delete_namespace n)
    check (delete_error cluster n r)
    delete_each cluster client ns

  abbrev pub delete_all :
      String → MemberClient W → TemplateSet → List String → Action W ResetOutcome
  delete_all cluster client set [] = pure (no_provisioned_namespaces cluster set.name)
  delete_all cluster client set (n ∷ ns) = do delete_each cluster client (n ∷ ns); pure finished

  abbrev pub reset_with : String → TargetCluster W → Option (MemberClient W) → Action W ResetOutcome
  reset_with username cluster none =
      raise (plain ("unable to obtain the client for cluster \"" ⧺ cluster.name ⧺ "\""))
  reset_with username cluster (some client) = do
    set ←
        map_err (set_error cluster.name)
          (client.get_template_set cluster.operator_namespace username)
    delete_all cluster.name client set set.provisioned_namespaces

  -- The body of the loop over the clusters.
  unfoldable pub reset_cluster : String → TargetCluster W → Action W ResetOutcome
  unfolding delete_each
  reset_cluster username cluster = reset_with username cluster cluster.client

  abbrev pub go_on : Action W ResetOutcome → ResetOutcome → Action W ResetOutcome
  go_on rest finished = rest
  go_on rest o = pure o

  -- The loop over the clusters.
  unfoldable pub reset_clusters : String → List (TargetCluster W) → Action W ResetOutcome
  unfolding reset_cluster
  reset_clusters username [] = pure finished
  reset_clusters username (c ∷ cs) = do
    o ← reset_cluster username c
    go_on (reset_clusters username cs) o

  abbrev pub reset_found : String → String → List (TargetCluster W) → Action W ResetOutcome
  reset_found username target [] =
      raise (plain ("unable to locate the target cluster \"" ⧺ target ⧺ "\" for the user"))
  reset_found username target (c ∷ cs) = reset_clusters username (c ∷ cs)

module _ {S W F : Type 0} (manager : Manager S W F) where
  abbrev pub target_clusters : Space → W → List (TargetCluster W)
  target_clusters space = manager.get_member_clusters λ c. c.name == space.spec_target_cluster

  unfoldable pub reset_space : String → Space → Action W ResetOutcome
  unfolding reset_clusters
  reset_space username space w =
      reset_found username (space.spec_target_cluster) (target_clusters space w) w

  abbrev pub reset_user : Option SignupResponse → Action W ResetOutcome
  reset_user none = pure not_found_or_deactivated
  reset_user (some r) = if is_blank r.compliant_username then pure not_found_or_deactivated else (do
    space ←
        map_err (wrapped "unable to get user's space resource")
          (manager.service.get_space r.compliant_username)
    reset_space r.compliant_username space)

  -- ResetNamespaces, for the claims of the request's user
  unfoldable pub reset_namespaces : Claims → Action W ResetOutcome
  unfolding do_get_signup is_blank reset_space
  reset_namespaces claims = do
    r ←
        map_err (wrapped "unable to obtain the user signup")
          (do_get_signup manager.service (some claims) claims.preferred_username true)
    reset_user r
