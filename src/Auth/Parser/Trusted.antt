-- ===== src/Auth/Parser/Trusted.antt =====
-- Which tokens are trusted.
use registration_service.Prelude.{
  ◌≡◌, refl, sym, ap, ◌∙◌, inl, inr, true, false, some, String, arith, Bool-cases, Option-cases,
}
use registration_service.Text.{is_empty}
use registration_service.Action.{Result, ok, err}
use registration_service.Api.{Claims}
use registration_service.Auth.Keys.{KeyMap, key_of}
use registration_service.Auth.Parser.{
  KeyId, text_key_id, Header, Token, Jwt, key_for, find_key, check_claims, judge_token, from_string,
}

module _ {K : Type 0} (jwt : Jwt K) (keys : KeyMap K) where
  -- The token's signature is verified by a key of the key manager, which the RSA token names, and it
  -- has what the service needs.
  pub record Trusted (encoded : String) (c : Claims) : Type 0 where
    pub kid : String
    pub key : K
    pub is_rsa : (jwt.header_of encoded).is_rsa ≡ true
    pub names : (jwt.header_of encoded).kid ≡ text_key_id kid
    pub known : key_of keys kid ≡ ok key
    pub signed : jwt.IsSignedBy encoded key
    pub token : Token
    pub parsed : jwt.parse_with_claims (find_key keys) encoded ≡ ok token
    pub is_valid : token.is_valid ≡ true
    pub has_claims : token.claims ≡ some c
    pub has_username : is_empty c.preferred_username ≡ false
    pub has_email : is_empty c.email ≡ false
    pub has_subject : is_empty c.sub ≡ false

  key_for_ok :
      (i : KeyId) (k : K)
      → key_for keys i ≡ ok k
      → (kid : String) × (i ≡ text_key_id kid) × (key_of keys kid ≡ ok k)
  key_for_ok KeyId.no_key_id k h = absurd (ground (arith, h))
  key_for_ok (KeyId.text_key_id kid) k h = (kid, refl, h)
  key_for_ok KeyId.other_key_id k h = absurd (ground (arith, h))

  find_key_ok :
      (h : Header) (k : K)
      → find_key keys h ≡ ok k
      → (h.is_rsa ≡ true) × (kid : String) × (h.kid ≡ text_key_id kid) × (key_of keys kid ≡ ok k)
  unfolding find_key
  find_key_ok h k e = elim (Bool-cases h.is_rsa) [
    | inl rsa ↦
        let (kid, names, known) = key_for_ok h.kid k (ground (arith, e, rsa)) in
        (rsa, kid, names, known)
    | inr other ↦ absurd (ground (arith, e, other))
  ]

  check_claims_ok :
      (c d : Claims)
      → check_claims c ≡ ok d
      → (c ≡ d)
        × (is_empty c.preferred_username ≡ false)
        × (is_empty c.email ≡ false)
        × (is_empty c.sub ≡ false)
  unfolding check_claims
  check_claims_ok c d h = elim (Bool-cases (is_empty c.preferred_username)) [
    | inl missing ↦ absurd (ground (arith, h, missing))
    | inr name ↦ elim (Bool-cases (is_empty c.email)) [
      | inl missing ↦ absurd (ground (arith, h, name, missing))
      | inr email ↦ elim (Bool-cases (is_empty c.sub)) [
        | inl missing ↦ absurd (ground (arith, h, name, email, missing))
        | inr subject ↦ (ground (arith, h, name, email, subject), name, email, subject)
      ]
    ]
  ]

  judge_token_ok :
      (r : Result Token) (c : Claims)
      → judge_token r ≡ ok c
      → (t : Token) × (r ≡ ok t)
        × (t.is_valid ≡ true)
        × (t.claims ≡ some c)
        × (check_claims c ≡ ok c)
  judge_token_ok (err e) c h = absurd (ground (arith, h))
  judge_token_ok (ok t) c h = elim (Option-cases t.claims) [
    | inl missing ↦ absurd (ground (arith, rw missing at h))
    | inr (d, has) ↦ elim (Bool-cases t.is_valid) [
      | inr invalid ↦ absurd (ground (arith, rw (has, invalid) at h))
      | inl valid ↦
          let checked : check_claims d ≡ ok c = rw (has, valid) at h in
          let same = (check_claims_ok d c checked).0 in
          (t, refl, valid, has ∙ ap (λ x. some x) same, ap check_claims (sym same) ∙ checked)
    ]
  ]

  -- A token whose claims are returned is an RSA one that names a key of the key manager, its
  -- signature is verified by that key, and it has a username, an email and a subject.
  pub from_string-Trusted :
      (encoded : String) (c : Claims) → from_string jwt keys encoded ≡ ok c → Trusted encoded c
  unfolding from_string
  from_string-Trusted encoded c h =
      let (t, parsed, valid, has, checked) =
        judge_token_ok (jwt.parse_with_claims (find_key keys) encoded) c h in
      let (k, got, signed) = jwt.parse_with_claims-signed (find_key keys) encoded t parsed in
      let (rsa, kid, names, known) = find_key_ok (jwt.header_of encoded) k got in
      let (_, username, email, subject) = check_claims_ok c c checked in
      record {
        kid = kid;
        key = k;
        is_rsa = rsa;
        names = names;
        known = known;
        signed = signed;
        token = t;
        parsed = parsed;
        is_valid = valid;
        has_claims = has;
        has_username = username;
        has_email = email;
        has_subject = subject;
      }
