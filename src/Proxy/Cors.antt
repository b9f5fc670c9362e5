-- ===== src/Proxy/Cors.antt =====
-- pkg/proxy/cors.go: the answer to a preflight request, and the headers that every other answer gets.
pub mod Tokens
pub mod Answered
use Prim.Native.String
use registration_service.Prelude.{
  ℕ, ◌-◌, Bool, true, false, not, ◌&&◌, ◌||◌, Option, none, some, List, [], ◌∷◌, String, Char, code,
  any, leb, eqb, if◌then◌else◌, ◌==◌,
}
use registration_service.Proxy.Headers.{Headers, set, add, get}
use registration_service.Text.{◌⧺◌, is_empty, single, join}
use registration_service.Text.Decimal.{char_at}

abbrev pub is_lower : ℕ → Bool
is_lower c = leb b'a' c && leb c b'z'

abbrev pub is_upper : ℕ → Bool
is_upper c = leb b'A' c && leb c b'Z'

abbrev pub is_mark : ℕ → Bool
is_mark c = eqb c b'-' || eqb c b'_' || eqb c b'.' || (leb b'0' c && leb c b'9')

abbrev pub upper_case : Char → Char
upper_case c = char_at "ABCDEFGHIJKLMNOPQRSTUVWXYZ" (code c - b'a') c

abbrev pub lower_case : Char → Char
lower_case c = char_at "abcdefghijklmnopqrstuvwxyz" (code c - b'A') c

-- The character that the switch appends; other characters are dropped.
unfoldable pub append_char : String → Bool → Char → String
append_char h upper c =
    if is_lower (code c)
    then h ⧺ single (if upper then upper_case c else c)
    else if is_upper (code c)
    then h ⧺ single (if upper then c else lower_case c)
    else if is_mark (code c)
    then h ⧺ single c
    else h

-- The loop: `h` is the header that is open, `upper` whether its next letter is upper case.
unfoldable pub parse_from : String → Bool → String → List String
unfolding append_char
parse_from h upper String.[] = []
parse_from h upper (String.◌∷◌ c s) =
    let h' = append_char h upper c in
    let flushed = h' ∷ parse_from "" true s in
    let skipped = parse_from h' upper s in
    let longer = parse_from h' (eqb (code c) b'-' || eqb (code c) b'_') s in
    if eqb (code c) b' ' || eqb (code c) b',' || is_empty s
    then (if is_empty h' then skipped else flushed)
    else longer

unfoldable pub parse_header_list : String → List String
unfolding parse_from
parse_header_list s = parse_from "" true s

abbrev pub allowed_methods : List String
allowed_methods = "PUT" ∷ "PATCH" ∷ "POST" ∷ "GET" ∷ "DELETE" ∷ "OPTIONS" ∷ []

-- unicode.ToUpper, as far as its value is a letter of ASCII: of the characters beyond ASCII these
-- are the dotless i and the long s.
abbrev upper_rune : Char → Char
upper_rune c =
    if is_lower (code c)
    then upper_case c
    else if eqb (code c) 305
    then "I"
    else if eqb (code c) 383
    then "S"
    else c

-- strings.ToUpper
unfoldable pub to_upper : String → String
to_upper String.[] = ""
to_upper (String.◌∷◌ c s) = String.◌∷◌ (upper_rune c) (to_upper s)

unfoldable pub is_method_allowed : String → Bool
unfolding to_upper
is_method_allowed method = any (λ m. m == to_upper method) allowed_methods

-- w.Header().Set("Access-Control-Allow-Headers", ..) where some headers are asked for
unfoldable pub set_allow_headers : List String → Headers → Headers
unfolding join
set_allow_headers [] out = out
set_allow_headers (s ∷ ss) out = set "Access-Control-Allow-Headers" (join ", " (s ∷ ss)) out

-- headers.Add("Vary", ..), three times
abbrev pub add_vary : Headers → Headers
add_vary out =
    add "Vary" "Access-Control-Request-Headers"
      (add "Vary" "Access-Control-Request-Method" (add "Vary" "Origin" out))

-- handlePreflight: the headers of the request and those of the response.
unfoldable pub handle_preflight : Headers → Headers → Headers
unfolding parse_header_list is_method_allowed join set_allow_headers
handle_preflight request out =
    if is_empty (get request "Origin")
      || not (is_method_allowed (get request "Access-Control-Request-Method"))
    then out
    else set "Access-Control-Allow-Credentials" "true" (
        set_allow_headers (parse_header_list (get request "Access-Control-Request-Headers")) (
          set "Access-Control-Allow-Methods" (join ", " allowed_methods)
            (set "Access-Control-Allow-Origin" (get request "Origin") (add_vary out))))

abbrev pub is_preflight : String → Headers → Bool
is_preflight method request =
    method == "OPTIONS" && not (is_empty (get request "Access-Control-Request-Method"))

-- corsPreflightHandler: `write_header` ends the response with a code and its headers, and `next` is
-- the handler h on a response that has some headers.
unfoldable pub cors_preflight_handler :
    {R : Type 0} → (ℕ → Headers → R) → (Headers → R) → String → Headers → Headers → R
unfolding handle_preflight
cors_preflight_handler write_header next method request out =
    if is_preflight method request
    then write_header 204 (handle_preflight request out)
    else next out

-- addCorsToResponse: the origin of the request and the headers of the response.
unfoldable pub add_cors_to_response : String → Headers → Headers
add_cors_to_response request_origin out =
    set "Access-Control-Expose-Headers" "Content-Length, Content-Encoding, Authorization" (
      set "Access-Control-Allow-Credentials" "true" (
        set "Access-Control-Allow-Origin" (if is_empty request_origin then "*" else request_origin)
          (add "Vary" "Origin" out)))
