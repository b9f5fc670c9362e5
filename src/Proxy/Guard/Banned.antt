-- ===== src/Proxy/Guard/Banned.antt =====
-- Who gets past the middleware.
use registration_service.Prelude.{
  ◌≡◌, refl, ap, ◌∙◌, inl, inr, false, none, List, [], ◌∷◌, String, arith, Bool-cases,
}
use registration_service.Text.{is_empty}
use registration_service.Action.{
  Action, Result, ok, err, ◌>>◌, map_err, >>=-eq-ok, map_err-eq-ok, check-eq-ok,
}
use registration_service.Api.{BannedUser}
use registration_service.Signup.Env.{ServiceEnv}
use registration_service.Proxy.Guard.{
  TokenClaims, unsecured, add_user_context, ensure_user_is_not_banned, guarded, check_banned,
  banned_error,
}

none_banned : (bs : List BannedUser) → banned_error bs ≡ none → bs ≡ []
none_banned [] h = refl
none_banned (b ∷ bs) h = absurd (ground (arith, h))

module _ {S W F : Type 0} (env : ServiceEnv S W F) where
  check_banned-none :
      (email : String) (w w' : W)
      → check_banned env email w ≡ (ok tt, w')
      → env.client.list_banned_by_email (env.encode_string email) w ≡ (ok [], w')
  unfolding check_banned
  check_banned-none email w w' h =
      let (bs, w1, got, rest) =
        >>=-eq-ok (map_err _ (env.client.list_banned_by_email (env.encode_string email))) _ w h in
      let (clean, same) = check-eq-ok (banned_error bs) w1 rest in
      map_err-eq-ok _ (env.client.list_banned_by_email (env.encode_string email)) w got
      ∙ ap (λ x. (ok x, w1)) (none_banned bs clean)
      ∙ ap (λ x. (ok [], x)) same

module _ {S W F : Type 0} (env : ServiceEnv S W F) {A : Type 0} where
  -- The token was read, has an email, and no BannedUser has the hash of that email; the handler
  -- then ran.
  pub record Admitted (token : Result TokenClaims) (next : TokenClaims → Action W A) (w : W) (a : A)
      (w' : W) : Type 0 where
    pub claims : TokenClaims
    pub is_read : token ≡ ok claims
    pub has_email : is_empty claims.email ≡ false
    pub after : W
    pub no_ban : env.client.list_banned_by_email (env.encode_string claims.email) w ≡ (ok [], after)
    pub ran : next claims after ≡ (ok a, w')

  -- A request that needs authentication reaches its handler only with a token that was read, that
  -- has an email, and for whose email no BannedUser is listed.
  pub guarded-Admitted :
      (uri : String) (token : Result TokenClaims) (next : TokenClaims → Action W A) (w w' : W)
      (a : A)
      → unsecured uri ≡ false
      → guarded env uri token next w ≡ (ok a, w')
      → Admitted token next w a w'
  unfolding guarded add_user_context ensure_user_is_not_banned
  guarded-Admitted uri (err e) next w w' a secured h = absurd (ground (arith, h, secured))
  guarded-Admitted uri (ok c) next w w' a secured h = elim (Bool-cases (is_empty c.email)) [
    | inl bare ↦ absurd (ground (arith, h, secured, bare))
    | inr named ↦
        let passed : (check_banned env c.email >> next c) w ≡ (ok a, w') =
          ground (arith, h, secured, named) in
        let (_, w1, clean, ran) = >>=-eq-ok (check_banned env c.email) _ w passed in
        record {
          claims = c;
          is_read = refl;
          has_email = named;
          after = w1;
          no_ban = check_banned-none env c.email w w1 clean;
          ran = ran;
        }
  ]
