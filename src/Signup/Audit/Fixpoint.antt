-- ===== src/Signup/Audit/Fixpoint.antt =====
-- The audit settles: its flag says whether it changed the resource, and a second audit changes
-- nothing.
use registration_service.Prelude.{◌≡◌, ap, ◌∙◌, Bool, false, String, arith, eq_iff}
use registration_service.Api.{UserSignup, Claims}
use registration_service.Signup.Audit.{
  update_if_required, audit_claims, with_email_hash, audit_user_signup_against_claims,
}

-- A second call finds nothing to change, whatever the flag.
again :
    (val old : String) (b c : Bool)
    → update_if_required val (update_if_required val old b).0 c
      ≡ ((update_if_required val old b).0, c)
unfolding update_if_required
again val old b c = ground (arith, eq_iff val val, eq_iff val old)

-- The flag is raised by a change only, and kept.
quiet :
    (val old : String) (b : Bool)
    → (update_if_required val old b).1 ≡ false
    → update_if_required val old b ≡ (old, false)
unfolding update_if_required
quiet val old b h = ground (arith, h)

quiet_before : (val old : String) (b : Bool) → (update_if_required val old b).1 ≡ false → b ≡ false
unfolding update_if_required
quiet_before val old b h = ground (arith, h)

audit_claims_again :
    (token c : Claims)
    → audit_claims token (audit_claims token c).0 ≡ ((audit_claims token c).0, false)
unfolding audit_claims
audit_claims_again token c = simp again

audit_claims_quiet :
    (token c : Claims) → (audit_claims token c).1 ≡ false → audit_claims token c ≡ (c, false)
unfolding audit_claims
audit_claims_quiet token c h =
    let h9 = quiet_before token.company c.company _ h in
    let h8 = quiet_before token.family_name c.family_name _ h9 in
    let h7 = quiet_before token.given_name c.given_name _ h8 in
    let h6 = quiet_before token.preferred_username c.preferred_username _ h7 in
    let h5 = quiet_before token.email c.email _ h6 in
    let h4 = quiet_before token.original_sub c.original_sub _ h5 in
    let h3 = quiet_before token.account_number c.account_number _ h4 in
    let h2 = quiet_before token.account_id c.account_id _ h3 in
    let h1 = quiet_before token.user_id c.user_id _ h2 in
    rw (quiet token.company c.company _ h) (
      rw (quiet token.family_name c.family_name _ h9) (
        rw (quiet token.given_name c.given_name _ h8) (
          rw (quiet token.preferred_username c.preferred_username _ h7) (
            rw (quiet token.email c.email _ h6) (
              rw (quiet token.original_sub c.original_sub _ h5) (
                rw (quiet token.account_number c.account_number _ h4) (
                  rw (quiet token.account_id c.account_id _ h3) (
                    rw (quiet token.user_id c.user_id _ h2)
                      (rw (quiet token.sub c.sub _ h1))))))))))

module _ {S : Type 0} (encode_string : String → String) where
  claims-with_email_hash :
      (c : Claims) (b : Bool) (u : UserSignup S)
      → (with_email_hash encode_string (c, b) u).0.claims ≡ c
  unfolding with_email_hash
  claims-with_email_hash c b u = ground arith

  with_email_hash_again :
      (c : Claims) (b : Bool) (u : UserSignup S)
      → with_email_hash encode_string (c, false) (with_email_hash encode_string (c, b) u).0
        ≡ ((with_email_hash encode_string (c, b) u).0, false)
  unfolding with_email_hash
  with_email_hash_again c b u =
      ground (arith, eq_iff (encode_string c.email) (encode_string c.email))

  with_email_hash_quiet :
      (c : Claims) (b : Bool) (u : UserSignup S)
      → (with_email_hash encode_string (c, b) u).1 ≡ false
      → (b ≡ false) × ((with_email_hash encode_string (c, b) u).0 ≡ record u { claims = c })
  unfolding with_email_hash
  with_email_hash_quiet c b u h = ground (arith, h)

  -- A signup that was audited against the claims of a token is audited without any change, and
  -- the flag says so.
  pub audit_idempotent :
      (token : Claims) (u : UserSignup S)
      → audit_user_signup_against_claims encode_string token
          (audit_user_signup_against_claims encode_string token u).0
        ≡ ((audit_user_signup_against_claims encode_string token u).0, false)
  unfolding audit_user_signup_against_claims
  audit_idempotent token u =
      let p = audit_claims token u.claims in
      let x = (with_email_hash encode_string p u).0 in
      ap (λ c. with_email_hash encode_string (audit_claims token c) x)
        (claims-with_email_hash p.0 p.1 u)
      ∙ ap (λ q. with_email_hash encode_string q x) (audit_claims_again token u.claims)
      ∙ with_email_hash_again p.0 p.1 u

  -- An audit that does not raise the flag returns the very signup that it was given.
  pub audit_quiet :
      (token : Claims) (u : UserSignup S)
      → (audit_user_signup_against_claims encode_string token u).1 ≡ false
      → (audit_user_signup_against_claims encode_string token u).0 ≡ u
  unfolding audit_user_signup_against_claims
  audit_quiet token u h =
      let p = audit_claims token u.claims in
      let (calm, same) = with_email_hash_quiet p.0 p.1 u h in
      same
      ∙ ap (λ (q : Claims × Bool). record u { claims = q.0 })
          (audit_claims_quiet token u.claims calm)
