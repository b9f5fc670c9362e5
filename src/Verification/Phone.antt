-- ===== src/Verification/Phone.antt =====
-- `PhoneNumberAlreadyInUse` of verification_service.go, and its `md5Matcher`.
use registration_service.Prelude.{
  ℕ, ◌+◌, Bool, not, ◌&&◌, ◌||◌, Option, none, some, List, [], ◌∷◌, String, code, leb,
  if◌then◌else◌, ◌==◌,
}
use registration_service.Errors.{Err, new_internal_error, new_forbidden_error}
use registration_service.Action.{Action, map_err, check, ◌>>=◌, ◌>>◌}
use registration_service.Api.{UserSignup, BannedUser}
use registration_service.Verification.Env.{Env}

-- [a-f0-9], case insensitive
abbrev pub is_hex : ℕ → Bool
is_hex c = (leb b'0' c && leb c b'9') || (leb b'a' c && leb c b'f') || (leb b'A' c && leb c b'F')

-- The length of the run of hexadecimal digits that ends the text, `n` of them before it.
trailing_hex : ℕ → String → ℕ
trailing_hex n String.[] = n
trailing_hex n (String.◌∷◌ c s) = trailing_hex (if is_hex (code c) then n + 1 else 0) s

-- (?i)[a-f0-9]{32}$ matches a text that ends in 32 hexadecimal digits.
unfoldable pub md5_matcher : String → Bool
unfolding trailing_hex
md5_matcher s = leb 32 (trailing_hex 0 s)

-- The error of an approved phone number or of a banned one.
abbrev pub in_use : Err
in_use = new_forbidden_error "cannot re-register with phone number" "phone number already in use"

unfoldable pub banned_error : List BannedUser → Option Err
banned_error [] = none
banned_error (b ∷ bs) = some in_use

module _ {S W F : Type 0} (env : Env S W F) where
  -- The label value: a hash is taken as it is, a phone number is hashed.
  unfoldable pub phone_label : String → String
  unfolding md5_matcher
  phone_label p = if md5_matcher p then p else env.encode_string p

  -- A signup of another user that is not deactivated.
  unfoldable pub is_active_other : String → UserSignup S → Bool
  is_active_other username u =
      not (u.claims.preferred_username == username) && not (env.states.deactivated u.states)

  -- The loop over the approved signups.
  unfoldable pub used_error : String → List (UserSignup S) → Option Err
  unfolding is_active_other
  used_error username [] = none
  used_error username (u ∷ us) =
      let rest = used_error username us in if is_active_other username u then some in_use else rest

  unfoldable pub phone_number_already_in_use : String → String → Action W (Unit {0})
  unfolding phone_label banned_error used_error
  phone_number_already_in_use username phone_number_or_hash = do
    let label = phone_label phone_number_or_hash
    banned ←
        map_err (λ e. new_internal_error e "failed listing banned users")
          (env.client.list_banned_by_phone label)
    check (banned_error banned)
    signups ←
        map_err (λ e. new_internal_error e "failed listing userSignups")
          (env.client.list_approved_by_phone label)
    check (used_error username signups)
