-- ===== src/Signup/Service/Allowed.antt =====
-- For whom a UserSignup is made.
use registration_service.Prelude.{
  ◌≡◌, ◌∙◌, false, Option, none, some, List, any, arith, ◌==◌, Bool, if◌then◌else◌,
}
use registration_service.Errors.{Err}
use registration_service.Action.{ok, check, >>=-eq-ok, check-eq-ok}
use registration_service.Api.{UserSignup, BannedUser}
use registration_service.Configuration.{VerificationSpec}
use registration_service.Signup.Env.{Request, ServiceEnv, VerifierResponse}
use registration_service.Signup.Captcha.{PhoneRequirement, is_phone_verification_required}
use registration_service.Signup.New.{
  is_crt_admin, admin_guard, ban_check, build, with_event, finish, new_user_signup,
}
use registration_service.Signup.Service.Origin.{Coded, with_event-Coded}

module _ {S W F : Type 0} (env : ServiceEnv S W F) where
  -- A resource was made only for a user who is neither an administrator nor banned.
  pub record Allowed (req : Request) (u : UserSignup S) : Type 0 where
    pub no_admin : is_crt_admin req.claims.preferred_username ≡ false
    pub before : W
    pub after : W
    pub banned : List BannedUser
    pub listed :
        env.client.list_banned_by_email (env.encode_string req.claims.email) before
        ≡ (ok banned, after)
    pub no_ban : any (λ (b : BannedUser). b.email == req.claims.email) banned ≡ false
    pub named : u.name ≡ env.encode_user_identifier req.claims.preferred_username
    pub coded : Coded env req.social_event u

  name-build :
      (req : Request) (now : _) (r : PhoneRequirement F) (resp : Option VerifierResponse)
      → (build env req now r resp).name ≡ env.encode_user_identifier req.claims.preferred_username
  unfolding build
  name-build req now r resp = ground arith

  name-with_event :
      (req : Request) (u v : UserSignup S) (w w' : W)
      → with_event env req u w ≡ (ok v, w')
      → v.name ≡ u.name
  unfolding with_event
  name-with_event req u v w w' h = ground (arith, h)

  no_admin_of :
      (cfg : VerificationSpec) (req : Request)
      → admin_guard env cfg req ≡ none
      → is_crt_admin req.claims.preferred_username ≡ false
  no_admin_of cfg req h = ground (arith, h)

  pub no_ban_of :
      (b : Bool) (e : Err) → ◌≡◌ {A = Option Err} (if b then some e else none) none → b ≡ false
  no_ban_of b e h = ground (arith, h)

  module _ (cfg : VerificationSpec) where
    name-finish :
        (req : Request) (resp : Option VerifierResponse) (r : PhoneRequirement F) (w w' : W)
        (u : UserSignup S)
        → finish env cfg req resp r w ≡ (ok u, w')
        → u.name ≡ env.encode_user_identifier req.claims.preferred_username
    unfolding finish
    name-finish req resp r w w' u h = name-with_event req _ u w w' h ∙ name-build req _ r resp

    pub new_user_signup-finish :
        (req : Request) (resp : Option VerifierResponse) (w w' : W) (u : UserSignup S)
        → new_user_signup env cfg req resp w ≡ (ok u, w')
        → (r : PhoneRequirement F) × (w1 : W) × (finish env cfg req resp r w1 ≡ (ok u, w'))
    unfolding new_user_signup
    new_user_signup-finish req resp w w' u h =
        let (_, w1, _, rest) = >>=-eq-ok (check (admin_guard env cfg req)) _ w h in
        let (_, w2, _, rest') = >>=-eq-ok (ban_check env req.claims.email) _ w1 rest in
        let (r, w3, _, last) = >>=-eq-ok (is_phone_verification_required env cfg req) _ w2 rest' in
        (r, w3, last)

    pub new_user_signup-Allowed :
        (req : Request) (resp : Option VerifierResponse) (w w' : W) (u : UserSignup S)
        → new_user_signup env cfg req resp w ≡ (ok u, w')
        → Allowed req u
    unfolding new_user_signup ban_check
    new_user_signup-Allowed req resp w w' u h =
        let (_, w1, guarded, rest) = >>=-eq-ok (check (admin_guard env cfg req)) _ w h in
        let (not_admin, same) = check-eq-ok (admin_guard env cfg req) w guarded in
        let (_, w2, unbanned, rest') = >>=-eq-ok (ban_check env req.claims.email) _ w1 rest in
        let (banned, w3, listed, checked) =
          >>=-eq-ok (env.client.list_banned_by_email (env.encode_string req.claims.email)) _ w1
            unbanned in
        let (r, w4, _, last) = >>=-eq-ok (is_phone_verification_required env cfg req) _ w2 rest' in
        record {
          no_admin = no_admin_of cfg req not_admin;
          before = w1;
          after = w3;
          banned = banned;
          listed = listed;
          no_ban = no_ban_of _ _ (check-eq-ok _ w3 checked).0;
          named = name-finish req resp r w4 w' u last;
          coded = unfold finish in with_event-Coded env req _ u w4 w' last;
        }
