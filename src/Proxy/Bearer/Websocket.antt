-- ===== src/Proxy/Bearer/Websocket.antt =====
-- Which protocol of a websocket request the token comes from.
use mathlib.Core.List.{Mem, mem-cons_self, mem-cons_of_mem}
use registration_service.Prelude.{
  ℕ, ◌+◌, ◌≡◌, refl, sym, ap, ◌∙◌, ◌⊎◌, inl, inr, true, false, List, [], ◌∷◌, String, arith,
  Bool-cases, if◌then◌else◌,
}
use registration_service.Text.{is_empty}
use registration_service.Action.{Result, ok, err, Result-cases}
use registration_service.Proxy.Headers.{Headers, values}
use registration_service.Proxy.Bearer.{
  Base64, protocol_token, carries_token, scan_protocols, require_token, protocols_of,
  extract_token_from_websocket_request,
}

module _ {B : Type 0} (base64 : Base64 B) where
  -- How many protocols carry a token.
  unfoldable pub carriers : List String → ℕ
  carriers [] = 0
  carriers (p ∷ ps) = (if carries_token base64 p then 1 else 0) + carriers ps

  scan_again :
      (t u : String) (ps : List String)
      → scan_protocols base64 true t ps ≡ ok u
      → (t ≡ u) × (carriers ps ≡ 0)
  unfolding scan_protocols carriers
  scan_again t u [] h = (ground (arith, h), refl)
  scan_again t u (p ∷ ps) h = elim (Bool-cases (carries_token base64 p)) [
    | inl carries ↦ absurd (ground (arith, h, carries))
    | inr plain ↦
        let (same, count) = scan_again t u ps (ground (arith, h, plain)) in
        (same, ground (arith, plain, count))
  ]

  -- The one protocol that carries the token.
  pub record Sole (ps : List String) (token : String) : Type 0 where
    pub protocol : String
    pub is_in : Mem protocol ps
    pub carries : carries_token base64 protocol ≡ true
    pub decoded : protocol_token base64 protocol ≡ ok token
    pub single : carriers ps ≡ 1

  scan_first :
      (t u : String) (ps : List String)
      → scan_protocols base64 false t ps ≡ ok u
      → (t ≡ u) ⊎ Sole ps u
  unfolding scan_protocols carriers
  scan_first t u [] h = inl (ground (arith, h))
  scan_first t u (p ∷ ps) h = elim (Bool-cases (carries_token base64 p)) [
    | inr plain ↦ elim (scan_first t u ps (ground (arith, h, plain))) [
      | inl same ↦ inl same
      | inr sole ↦ inr (record {
        protocol = sole.protocol;
        is_in = mem-cons_of_mem p sole.is_in;
        carries = sole.carries;
        decoded = sole.decoded;
        single = ground (arith, plain, sole.single);
      })
    ]
    | inl carries ↦ elim (Result-cases (protocol_token base64 p)) [
      | inr (e, bad) ↦ absurd (ground (arith, h, carries, bad))
      | inl (v, good) ↦
          let (same, none_left) = scan_again v u ps (ground (arith, h, carries, good)) in
          inr (record {
            protocol = p;
            is_in = mem-cons_self;
            carries = carries;
            decoded = good ∙ ap (λ x. ok x) same;
            single = ground (arith, carries, none_left);
          })
    ]
  ]

  required :
      (r : Result String) (token : String)
      → require_token base64 r ≡ ok token
      → (r ≡ ok token) × (is_empty token ≡ false)
  required (err e) token h = absurd (ground (arith, h))
  required (ok t) token h = elim (Bool-cases (is_empty t)) [
    | inl nothing ↦ absurd (ground (arith, h, nothing))
    | inr given ↦
        let same : t ≡ token = ground (arith, h, given) in
        (ap (λ x. ok x) same, ap is_empty (sym same) ∙ given)
  ]

  -- A token that is read from a websocket request is not empty, and is what is decoded from the one
  -- protocol of the request that carries a token; with several of them, none is read.
  pub websocket-Sole :
      (h : Headers) (token : String)
      → extract_token_from_websocket_request base64 h ≡ ok token
      → (is_empty token ≡ false) × Sole (protocols_of (values h "Sec-Websocket-Protocol")) token
  unfolding extract_token_from_websocket_request
  websocket-Sole h token read =
      let ps = protocols_of (values h "Sec-Websocket-Protocol") in
      let (scanned, given) = required (scan_protocols base64 false "" ps) token read in
      elim (scan_first "" token ps scanned) [
        | inl empty ↦ absurd (ground (arith, given, ap is_empty empty))
        | inr sole ↦ (given, sole)
      ]
