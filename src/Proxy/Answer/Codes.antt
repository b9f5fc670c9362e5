-- ===== src/Proxy/Answer/Codes.antt =====
-- The codes that the proxy answers with.
use registration_service.Prelude.{
  ℕ, ◌≡◌, refl, subst, ◌⊎◌, inl, inr, Bool, true, false, some, String, arith, List, [], ◌∷◌,
}
use registration_service.Text.{is_empty}
use registration_service.Errors.{Err, error_text, new_internal_error, new_unauthorized_error, plain}
use registration_service.Action.{
  Action, Result, ok, err, raise, lift, map_err, ◌>>=◌, outcome_cases,
}
use registration_service.Action.Fails.{
  Fails, raise-Fails, map_err-Fails, if-Fails, check-Fails, >>=-Fails,
}
use registration_service.Api.{BannedUser}
use registration_service.Signup.Env.{ServiceEnv}
use registration_service.Proxy.Env.{ProxyEnv}
use registration_service.Proxy.Guard.{
  TokenClaims, unsecured, banned_error, access_error, check_banned, ensure_user_is_not_banned,
  add_user_context, guarded, email_error,
}
use registration_service.Proxy.Answer.{answered, error_code, proxied, handle_request}
use registration_service.Proxy.Answer.Denials.{is_denial, Denial, process_request-Denial}

-- No token could be had, or it has no email.
unfoldable pub Unauthenticated : Result TokenClaims → Type 0
Unauthenticated (err e) = Unit
Unauthenticated (ok c) = is_empty c.email ≡ true

-- 401 for a request that needs authentication and has none, or another denial.
abbrev pub Rejection : String → Result TokenClaims → ℕ → Type 0
Rejection uri token code =
    (is_denial code ≡ true) ⊎ ((code ≡ 401) × (unsecured uri ≡ false) × Unauthenticated token)

banned_error-Denial : (banned : List BannedUser) (e : Err) → banned_error banned ≡ some e → Denial e
unfolding error_code
banned_error-Denial [] e h = absurd (ground (arith, h))
banned_error-Denial (b ∷ bs) e h =
    let same : access_error ≡ e = ground (arith, h) in subst Denial same refl

module _ {S W F : Type 0} (env : ServiceEnv S W F) where
  check_banned-Denial : (email : String) → Fails Denial (check_banned env email)
  unfolding check_banned error_code
  check_banned-Denial email =
      let failed = λ (e : Err).
        new_internal_error (plain "user access could not be verified")
          "could not define user access" in
      let list = env.client.list_banned_by_email (env.encode_string email) in
      >>=-Fails Denial (map_err failed list) _ (map_err-Fails Denial failed list λ e. refl)
        λ banned. check-Fails Denial _ (banned_error-Denial banned)

  module _ {A : Type 0} where
    ensure-Rejection :
        (uri : String) (c : TokenClaims) (next : Action W A)
        → Fails Denial next
        → Fails
            (λ e. Rejection uri (ok c) (error_code e))
            (ensure_user_is_not_banned env uri c.email next)
    unfolding ensure_user_is_not_banned error_code Unauthenticated
    ensure-Rejection uri c next h =
        let P = λ (e : Err). Rejection uri (ok c) (error_code e) in
        if-Fails P (unsecured uri) next _ (λ _ w w' e k. inl (h w w' e k))
          λ secured.
            if-Fails P (is_empty c.email) (raise email_error) _
              (λ bare. raise-Fails P email_error (inr (refl, secured, bare)))
              λ _.
                >>=-Fails P (check_banned env c.email) (λ _. next)
                  (λ w w' e k. inl (check_banned-Denial c.email w w' e k))
                  (λ _ w w' e k. inl (h w w' e k))

    passed-Denial :
        (uri email : String) (next : Action W A)
        → unsecured uri ≡ true
        → Fails Denial next
        → Fails Denial (ensure_user_is_not_banned env uri email next)
    unfolding ensure_user_is_not_banned
    passed-Denial uri email next exempt h =
        if-Fails Denial (unsecured uri) next _ (λ _. h)
          λ secured. absurd (ground (arith, exempt, secured))

    with_token :
        (uri : String) (token : Result TokenClaims) (next : TokenClaims → Action W A)
        → unsecured uri ≡ false
        → ((c : TokenClaims) → Fails Denial (next c))
        → Fails
            (λ e. Rejection uri token (error_code e))
            (map_err
                (λ e. new_unauthorized_error "invalid bearer token" (error_text e))
                (lift token)
              >>= λ c. ensure_user_is_not_banned env uri c.email (next c))
    unfolding error_code Unauthenticated
    with_token uri (ok c) next secured h = ensure-Rejection uri c (next c) (h c)
    with_token uri (err e) next secured h =
        raise-Fails (λ e'. Rejection uri (err e) (error_code e'))
          (new_unauthorized_error "invalid bearer token" (error_text e)) (inr (refl, secured, tt))

    guarded-Rejection :
        (uri : String) (token : Result TokenClaims) (next : TokenClaims → Action W A)
        → ((c : TokenClaims) → Fails Denial (next c))
        → Fails (λ e. Rejection uri token (error_code e)) (guarded env uri token next)
    unfolding guarded add_user_context error_code Unauthenticated
    guarded-Rejection uri token next h =
        let none_kept : TokenClaims = record {
          subject = "";
          preferred_username = "";
          email = "";
        } in
        if-Fails (λ e. Rejection uri token (error_code e)) (unsecured uri)
          (ensure_user_is_not_banned env uri "" (next none_kept)) _
          (λ exempt w w' e k.
            inl (passed-Denial uri "" (next none_kept) exempt (h none_kept) w w' e k))
          (λ secured. with_token uri token next secured h)

module _ {S W F : Type 0} (env : ProxyEnv S W F) (quote : String → String) where
  -- A request that is not forwarded is answered with 400, 403 or 500; or with 401, and then it needs
  -- authentication and its token could not be read or has no email.
  pub handle_request-Rejection :
      (pv : Bool) (uri : String) (token : Result TokenClaims) (path : String) (w w' : W) (code : ℕ)
      (body : String)
      → handle_request env quote pv uri token path w ≡ (answered code body, w')
      → Rejection uri token code
  unfolding handle_request proxied
  handle_request-Rejection pv uri token path w w' code body h =
      elim (outcome_cases (proxied env quote pv uri token path w)) [
        | inl (r, t, done) ↦ absurd (ground (arith, done, h))
        | inr (e, t, failed) ↦ subst (Rejection uri token) (ground (arith, failed, h)) (
            guarded-Rejection env.service uri token _
              (λ c. process_request-Denial env quote pv c.preferred_username path) w t e failed)
      ]
