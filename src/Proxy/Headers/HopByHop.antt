-- ===== src/Proxy/Headers/HopByHop.antt =====
-- The headers that leave the proxy: httputil.ReverseProxy calls the director of pkg/proxy/proxy.go,
-- and then deletes the hop-by-hop headers, also those that the request's Connection headers name.
use registration_service.Prelude.{
  ℕ, ◌+◌, Bool, true, false, ◌&&◌, ◌||◌, none, List, [], ◌∷◌, String, any, code, leb, eqb,
  if◌then◌else◌, ◌==◌,
}
use registration_service.Text.{is_empty, split}
use registration_service.Proxy.Env.{ClusterAccess}
use registration_service.Proxy.Headers.{Headers, Forwarded, values, strip_invalid_headers, director}

abbrev is_blank_char : ℕ → Bool
is_blank_char c = eqb c 32 || eqb c 9 || eqb c 10 || eqb c 13

-- textproto.TrimString
unfoldable pub trim_blank_left : String → String
trim_blank_left String.[] = ""
trim_blank_left (String.◌∷◌ c s) =
    let rest = trim_blank_left s in if is_blank_char (code c) then rest else String.◌∷◌ c s

unfoldable pub trim_blank_right : String → String
trim_blank_right String.[] = ""
trim_blank_right (String.◌∷◌ c s) =
    let rest = trim_blank_right s in
    if is_empty rest && is_blank_char (code c) then "" else String.◌∷◌ c rest

abbrev pub trim_string : String → String
trim_string s = trim_blank_right (trim_blank_left s)

abbrev lower : ℕ → ℕ
lower c = if leb b'A' c && leb c b'Z' then c + 32 else c

-- Do two names of ASCII have the same canonical form?
unfoldable pub same_header : String → String → Bool
same_header String.[] String.[] = true
same_header String.[] (String.◌∷◌ d t) = false
same_header (String.◌∷◌ c s) String.[] = false
same_header (String.◌∷◌ c s) (String.◌∷◌ d t) =
    eqb (lower (code c)) (lower (code d)) && same_header s t

-- Does a Connection header, a list of names, name the header `k`?
unfoldable pub names_header : String → String → Bool
unfolding split trim_blank_left trim_blank_right same_header
names_header k value = any (λ name. same_header (trim_string name) k) (split b',' value)

-- Is the header named by a Connection header?
unfoldable pub is_connection_named : Headers → String → Bool
unfolding names_header
is_connection_named h k = any (names_header k) (values h "Connection")

abbrev pub hop_headers : List String
hop_headers =
    "Connection" ∷ "Proxy-Connection" ∷ "Keep-Alive" ∷ "Proxy-Authenticate" ∷ "Proxy-Authorization"
    ∷ "Te" ∷ "Trailer" ∷ "Transfer-Encoding" ∷ "Upgrade" ∷ []

-- removeHopByHopHeaders of net/http/httputil
unfoldable pub remove_hop_by_hop : Headers → Headers
unfolding is_connection_named
remove_hop_by_hop h k =
    if is_connection_named h k || any (λ hop. hop == k) hop_headers then none else h k

module _ (is_websocket : Headers → Bool) (encode : String → String) where
  -- The headers of a client's request after stripInvalidHeaders, the director and the removal.
  unfoldable pub sent_headers : ClusterAccess → String → Bool → Forwarded → Headers
  unfolding strip_invalid_headers director remove_hop_by_hop
  sent_headers target username is_plugin req =
      remove_hop_by_hop
        (director is_websocket encode target username is_plugin
          (record req { headers = strip_invalid_headers req.headers })).headers
