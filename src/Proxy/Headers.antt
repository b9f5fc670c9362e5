-- ===== src/Proxy/Headers.antt =====
-- pkg/proxy/proxy.go: the headers that a request is forwarded with, `stripInvalidHeaders`, the
-- director of `newReverseProxy` and `replaceTokenInWebsocketRequest`. Header names are the ASCII
-- tokens that net/http lets through, in the canonical form in which it keeps them.
pub mod Impersonation
pub mod HopByHop
pub mod Sent
use Prim.Native.String
use registration_service.Prelude.{
  ℕ, ◌+◌, Bool, true, false, ◌&&◌, ◌||◌, Option, none, some, List, [], ◌∷◌, ◌++◌, map, String, Char,
  code, leb, eqb, if◌then◌else◌, ◌==◌,
}
use registration_service.Text.Fold.{is_letter}
use registration_service.Text.{◌⧺◌, is_empty, single, split, join, has_prefix}
use registration_service.Proxy.Env.{ClusterAccess, Url}
use registration_service.Text.Pieces.{is_space}
use registration_service.Proxy.Paths.{single_joining_slash}

-- http.Header
abbrev pub Headers : Type 0
Headers = String → Option (List String)

-- h.Set(name, value)
abbrev pub set : String → String → Headers → Headers
set name v h k = if name == k then some (v ∷ []) else h k

-- h[name], nil for a missing one
abbrev pub values : Headers → String → List String
values h name = elim (h name) [ none ↦ [] | some vs ↦ vs ]

-- h.Add(name, value)
abbrev pub add : String → String → Headers → Headers
add name v h k = if name == k then some (values h name ++ v ∷ []) else h k

-- h.Get(name): the first value, or the empty text
abbrev pub get : Headers → String → String
get h name = elim (values h name) [ [] ↦ "" | v ∷ vs ↦ v ]

-- strings.HasPrefix(strings.ToLower(s), p), for a `p` of ASCII in lower case
unfoldable pub has_prefix_fold : String → String → Bool
has_prefix_fold String.[] s = true
has_prefix_fold (String.◌∷◌ c p) String.[] = false
has_prefix_fold (String.◌∷◌ c p) (String.◌∷◌ d s) =
    is_letter (code c) (code d) && has_prefix_fold p s

-- stripInvalidHeaders
unfoldable pub strip_invalid_headers : Headers → Headers
unfolding has_prefix_fold
strip_invalid_headers h k = if has_prefix_fold "impersonate-" k then none else h k

-- strings.TrimLeft and strings.TrimSpace
unfoldable pub trim_left : String → String
trim_left String.[] = ""
trim_left (String.◌∷◌ c s) =
    let rest = trim_left s in if is_space (code c) then rest else String.◌∷◌ c s

unfoldable pub trim_right : String → String
trim_right String.[] = ""
trim_right (String.◌∷◌ c s) =
    let rest = trim_right s in if is_empty rest && is_space (code c) then "" else String.◌∷◌ c rest

abbrev pub trim_space : String → String
trim_space s = trim_right (trim_left s)

abbrev pub bearer_protocol_prefix : String
bearer_protocol_prefix = "base64url.bearer.authorization.k8s.io."

-- The protocol, with the new token if it carries one.
unfoldable pub replace_protocol : String → String → String
unfolding trim_left trim_right has_prefix
replace_protocol encoded protocol =
    if has_prefix (trim_space protocol) bearer_protocol_prefix
    then bearer_protocol_prefix ⧺ encoded
    else trim_space protocol

unfoldable pub replace_protocols : String → List String → List String
unfolding replace_protocol split
replace_protocols encoded [] = []
replace_protocols encoded (h ∷ hs) =
    map (replace_protocol encoded) (split b',' h) ++ replace_protocols encoded hs

-- `encode` is base64.RawURLEncoding.EncodeToString.
unfoldable pub replace_token_in_websocket_request : (String → String) → String → Headers → Headers
unfolding replace_protocols join
replace_token_in_websocket_request encode token h =
    set "Sec-Websocket-Protocol"
      (join "," (replace_protocols (encode token) (values h "Sec-Websocket-Protocol"))) h

-- The parts of a request that the director writes.
pub record Forwarded : Type 0 where
  pub url : Url
  pub host : String
  pub headers : Headers

abbrev join_query : String → String → String
join_query target query =
    if is_empty target || is_empty query then target ⧺ query else target ⧺ "&" ⧺ query

-- An absent User-Agent is set to the empty one.
abbrev with_user_agent : Headers → Headers
with_user_agent h = elim (h "User-Agent") [ none ↦ set "User-Agent" "" h | some vs ↦ h ]

module _ (is_websocket : Headers → Bool) (encode : String → String) where
  -- The token of the member cluster in place of the user's.
  unfoldable pub with_token : String → Headers → Headers
  unfolding replace_token_in_websocket_request
  with_token token h =
      if is_websocket h
      then replace_token_in_websocket_request encode token h
      else set "Authorization" ("Bearer " ⧺ token) h

  -- The director of newReverseProxy; `is_websocket` is wsstream.IsWebSocketRequest.
  unfoldable pub director : ClusterAccess → String → Bool → Forwarded → Forwarded
  unfolding single_joining_slash with_token
  director target username is_plugin req = record {
    url = record {
      scheme = target.api_url.scheme;
      host = target.api_url.host;
      path = single_joining_slash target.api_url.path req.url.path;
      raw_query = join_query target.api_url.raw_query req.url.raw_query;
    };
    host = if is_plugin then target.api_url.host else req.host;
    headers = set "Impersonate-User" target.username (
        with_token target.impersonator_token
          (with_user_agent (set "X-Sso-User" username req.headers)));
  }
