-- ===== src/Proxy/Guard.antt =====
-- pkg/proxy/proxy.go: the middleware that a request passes first, `unsecured`, `addUserContext` and
-- `ensureUserIsNotBanned`.
pub mod Banned
pub mod Trusted
use registration_service.Prelude.{
  Bool, true, false, ◌||◌, Option, none, some, List, [], ◌∷◌, String, if◌then◌else◌, ◌==◌,
}
use registration_service.Text.{◌⧺◌, is_empty, has_prefix}
use registration_service.Errors.{
  Err, plain, error_text, new_internal_error, new_forbidden_error, new_unauthorized_error,
}
use registration_service.Action.{Action, Result, ok, err, raise, lift, map_err, check, ◌>>=◌, ◌>>◌}
use registration_service.Api.{BannedUser}
use registration_service.Signup.Env.{ServiceEnv}

-- The claims of a token that the proxy keeps.
pub record TokenClaims : Type 0 where
  pub subject : String
  pub preferred_username : String
  pub email : String

-- Requests that need no authentication, by their URI.
unfoldable pub unsecured : String → Bool
unfolding has_prefix
unsecured uri =
    uri == "/proxyhealth"
    || uri == "/.well-known/oauth-authorization-server"
    || has_prefix uri "/auth/"

abbrev pub email_error : Err
email_error = new_unauthorized_error "unauthenticated request" "invalid email in token"

abbrev pub access_error : Err
access_error = new_forbidden_error "user access is forbidden" "user access is forbidden"

abbrev pub banned_error : List BannedUser → Option Err
banned_error [] = none
banned_error (b ∷ bs) = some access_error

module _ {S W F : Type 0} (env : ServiceEnv S W F) where
  -- Is a BannedUser listed for the hash of the email?
  unfoldable pub check_banned : String → Action W (Unit {0})
  check_banned email = do
    banned ←
        map_err
          (λ _.
            new_internal_error (plain "user access could not be verified")
              "could not define user access")
          (env.client.list_banned_by_email (env.encode_string email))
    check (banned_error banned)

module _ {S W F : Type 0} (env : ServiceEnv S W F) {A : Type 0} where
  -- ensureUserIsNotBanned, for a user's email and the handler that follows.
  unfoldable pub ensure_user_is_not_banned : String → String → Action W A → Action W A
  unfolding unsecured check_banned
  ensure_user_is_not_banned uri email next =
      if unsecured uri
      then next
      else if is_empty email
      then raise email_error
      else (do check_banned env email; next)

  -- addUserContext: `token` is what extractUserToken makes of the request; the handler that follows
  -- takes the claims, which are empty for an unsecured request.
  unfoldable pub add_user_context :
      String → Result TokenClaims → (TokenClaims → Action W A) → Action W A
  unfolding unsecured error_text
  add_user_context uri token next =
      if unsecured uri
      then next (record { subject = ""; preferred_username = ""; email = "" })
      else (do
        claims ←
            map_err (λ e. new_unauthorized_error "invalid bearer token" (error_text e)) (lift token)
        next claims)

  -- The two, in the order of the chain.
  unfoldable pub guarded : String → Result TokenClaims → (TokenClaims → Action W A) → Action W A
  unfolding add_user_context ensure_user_is_not_banned
  guarded uri token next =
      add_user_context uri token (λ c. ensure_user_is_not_banned uri c.email (next c))
