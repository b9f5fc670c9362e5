-- ===== src/Proxy/Paths.antt =====
-- pkg/proxy/proxy.go: the paths of requests, `getWorkspaceContext` and `singleJoiningSlash`.
pub mod Split
pub mod RoundTrip
use Prim.Native.String
use registration_service.Prelude.{
  ℕ, Bool, true, false, ◌&&◌, ◌||◌, List, [], ◌∷◌, String, code, length, ltb, leb, eqb, zero, suc,
  if◌then◌else◌,
}
use registration_service.Text.{◌⧺◌, is_empty, split, has_prefix, trim_prefix, strip_prefix?}
use registration_service.Text.Pieces.{is_space}
use registration_service.Errors.{Err, plain}
use registration_service.Action.{Result, ok, err}

-- len(strings.TrimSpace(s)) == 0
unfoldable pub is_blank : String → Bool
is_blank String.[] = true
is_blank (String.◌∷◌ c s) = is_space (code c) && is_blank s

-- segments[i], "" out of range
abbrev pub segment : ℕ → List String → String
segment i [] = ""
segment zero (s ∷ ss) = s
segment (suc i) (s ∷ ss) = segment i ss

-- What getWorkspaceContext finds in a path, and the path that is left.
pub record WorkspaceContext : Type 0 where
  pub plugin : String
  pub workspace : String
  pub path : String

abbrev workspace_format : String
workspace_format = "'; expected path format: /workspaces/<workspace_name>/<optional path>"

module _ (quote : String → String) where
  -- The path after the plugin's name, `quote` being fmt's %q.
  unfoldable pub split_plugin : String → Result (String × String)
  unfolding is_blank split has_prefix trim_prefix
  split_plugin path =
      if has_prefix path "/plugins/"
      then (let segments = split b'/' path in
          if ltb (length segments) 3 || (eqb (length segments) 3 && is_blank (segment 2 segments))
          then err (plain ("path " ⧺ quote path ⧺ " not a proxied route request"))
          else ok (
            segment 2 segments,
            trim_prefix path ("/" ⧺ segment 1 segments ⧺ "/" ⧺ segment 2 segments),
          ))
      else ok ("", path)

  -- The workspace of a path, after the plugin was taken off.
  unfoldable pub split_workspace : String → String → Result WorkspaceContext
  unfolding is_blank split has_prefix trim_prefix
  split_workspace plugin path =
      if has_prefix path "/workspaces/"
      then (let segments = split b'/' path in
          if ltb (length segments) 4 && is_empty plugin
          then err (
              plain (
                "workspace request path has too few segments '" ⧺ path
                ⧺ "'; expected path format: /workspaces/<workspace_name>/api/..."))
          else if ltb (length segments) 3
              || (eqb (length segments) 3 && is_blank (segment 2 segments))
          then err
              (plain ("workspace request path has too few segments '" ⧺ path ⧺ workspace_format))
          else ok (record {
            plugin = plugin;
            workspace = segment 2 segments;
            path = trim_prefix path ("/workspaces/" ⧺ segment 2 segments);
          }))
      else ok (record { plugin = plugin; workspace = ""; path = path })

  abbrev pub then_workspace : Result (String × String) → Result WorkspaceContext
  then_workspace (err e) = err e
  then_workspace (ok (plugin, path)) = split_workspace plugin path

  unfoldable pub get_workspace_context : String → Result WorkspaceContext
  unfolding split_plugin split_workspace
  get_workspace_context path = then_workspace (split_plugin path)

-- Does the text end with a slash?
unfoldable pub ends_with_slash : String → Bool
ends_with_slash String.[] = false
ends_with_slash (String.◌∷◌ c String.[]) = eqb (code c) b'/'
ends_with_slash (String.◌∷◌ c (String.◌∷◌ d s)) = ends_with_slash (String.◌∷◌ d s)

unfoldable pub single_joining_slash : String → String → String
unfolding ends_with_slash has_prefix trim_prefix
single_joining_slash a b =
    if ends_with_slash a && has_prefix b "/"
    then a ⧺ trim_prefix b "/"
    else if ends_with_slash a || has_prefix b "/"
    then a ⧺ b
    else a ⧺ "/" ⧺ b
