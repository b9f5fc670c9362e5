-- ===== src/Signup/Target.antt =====
-- `GetDefaultUserTarget` and `getAppsURL` of pkg/signup/service/signup_service.go.
pub mod Home
use Prim.Native.String
use registration_service.Prelude.{
  Option, none, some, List, [], ◌∷◌, map, String, if◌then◌else◌, ◌==◌,
}
use registration_service.Text.{◌⧺◌, is_empty, has_prefix}
use registration_service.Text.Sort.{sort}
use registration_service.Action.{Action, Result, ok, err, pure, attempt, ◌>>=◌}
use registration_service.Signup.Env.{ServiceEnv, Space, SpaceNamespace, SpaceBinding}

-- s[strings.Index(s, p):], `none` if `p` does not occur.
unfoldable pub from_first : String → String → Option String
unfolding has_prefix
from_first p String.[] = if has_prefix "" p then some "" else none
from_first p (String.◌∷◌ c s) =
    let later = from_first p s in
    if has_prefix (String.◌∷◌ c s) p then some (String.◌∷◌ c s) else later

unfoldable pub get_apps_url : String → String → String
unfolding from_first
get_apps_url app console_url = elim (from_first ".apps" console_url) [
  | none ↦ ""
  | some apps ↦ "https://" ⧺ app ⧺ apps
]

module _ {S W F : Type 0} (env : ServiceEnv S W F) where
  -- The name of the first namespace of the type `default`.
  unfoldable pub default_namespace : List SpaceNamespace → String
  default_namespace [] = ""
  default_namespace (n ∷ ns) =
      let rest = default_namespace ns in
      if n.kind == env.namespace_type_default then n.name else rest

  abbrev target_of : Result Space → String × String
  target_of (err e) = ("", "")
  target_of (ok space) = (space.target_cluster, default_namespace space.provisioned_namespaces)

  -- The target cluster and the default namespace of a space.
  unfoldable pub space_target : String → Action W (String × String)
  unfolding default_namespace
  space_target name = do space ← attempt (env.get_space name); pure (target_of space)

  abbrev first_target : List String → Action W (String × String)
  first_target [] = pure ("", "")
  first_target (name ∷ names) = space_target name

  abbrev bound_target : Result (List SpaceBinding) → Action W (String × String)
  bound_target (err e) = pure ("", "")
  bound_target (ok sbs) = first_target (sort (map (λ (sb : SpaceBinding). sb.space) sbs))

  unfoldable pub get_default_user_target : String → String → Action W (String × String)
  unfolding space_target sort
  get_default_user_target space_name mur_name =
      if is_empty space_name
      then (do r ← attempt (env.list_space_bindings mur_name); bound_target r)
      else space_target space_name
