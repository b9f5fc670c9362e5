-- ===== src/Signup/Audit.antt =====
-- `auditUserSignupAgainstClaims` of pkg/signup/service/signup_service.go.
pub mod Fixpoint
use registration_service.Prelude.{Bool, true, false, ◌||◌, String, if◌then◌else◌, ◌==◌}
use registration_service.Text.{is_empty}
use registration_service.Api.{UserSignup, Claims, insert, value, user_email_hash}

-- updateIfRequired: the new value and the flag `updated`.
unfoldable pub update_if_required : String → String → Bool → String × Bool
update_if_required val existing updated =
    if is_empty val || val == existing then (existing, updated) else (val, true)

-- The ten calls of updateIfRequired, in the order of the source.
unfoldable pub audit_claims : Claims → Claims → Claims × Bool
unfolding update_if_required
audit_claims token c =
    let (sub, u1) = update_if_required token.sub c.sub false in
    let (user_id, u2) = update_if_required token.user_id c.user_id u1 in
    let (account_id, u3) = update_if_required token.account_id c.account_id u2 in
    let (account_number, u4) = update_if_required token.account_number c.account_number u3 in
    let (original_sub, u5) = update_if_required token.original_sub c.original_sub u4 in
    let (email, u6) = update_if_required token.email c.email u5 in
    let (username, u7) = update_if_required token.preferred_username c.preferred_username u6 in
    let (given_name, u8) = update_if_required token.given_name c.given_name u7 in
    let (family_name, u9) = update_if_required token.family_name c.family_name u8 in
    let (company, u10) = update_if_required token.company c.company u9 in
    (
      record {
        sub = sub;
        user_id = user_id;
        account_id = account_id;
        account_number = account_number;
        original_sub = original_sub;
        email = email;
        preferred_username = username;
        given_name = given_name;
        family_name = family_name;
        company = company;
      },
      u10,
    )

module _ {S : Type 0} (encode_string : String → String) where
  -- The audited claims, and the label with the hash of their email.
  unfoldable pub with_email_hash : Claims × Bool → UserSignup S → UserSignup S × Bool
  with_email_hash (c, updated) u =
      let email_hash = encode_string c.email in
      if value u.labels user_email_hash == email_hash
      then (record u { claims = c }, updated)
      else (record u { claims = c; labels = insert user_email_hash email_hash u.labels }, true)

  unfoldable pub audit_user_signup_against_claims : Claims → UserSignup S → UserSignup S × Bool
  unfolding audit_claims with_email_hash
  audit_user_signup_against_claims token u = with_email_hash (audit_claims token u.claims) u
