-- ===== src/Proxy/Access/Speaks.antt =====
-- Whom a request to a workspace is made as.
use registration_service.Prelude.{
  ◌≡◌, refl, subst, ◌⊎◌, inl, inr, any, ◌==◌, Bool-cases, Bool, true, false, Option, none, some,
  String, arith, eq_iff,
}
use registration_service.Text.{is_empty}
use registration_service.Action.{ok}
use registration_service.Signup.Status.{SignupResponse, do_get_signup}
use registration_service.Proxy.Env.{ProxyEnv, Workspace}
use registration_service.Proxy.Members.Token.{Impersonable, as_viewer, as_user}
use registration_service.Proxy.Access.{user_has_binding, user_has_direct_access, requester}

-- The user of a signup has a binding to the workspace, or has none.
abbrev pub Bound : Option SignupResponse → Workspace → Type 0
Bound none ws = ⊥
Bound (some r) ws = any (λ b. b.master_user_record == r.compliant_username) ws.bindings ≡ true

abbrev pub Unbound : Option SignupResponse → Workspace → Type 0
Unbound none ws = Unit
Unbound (some r) ws = any (λ b. b.master_user_record == r.compliant_username) ws.bindings ≡ false

module _ {S W F : Type 0} (env : ProxyEnv S W F) where
  -- Whom a request is made as: the user, by the compliant username of the signup that is stored for
  -- the name of the user; or the public viewer, where that feature is on and the user has no binding
  -- to the workspace, or bears the public viewer's name.
  pub data Speaks (pv : Bool) (username : String) (response : Option SignupResponse)
      (ws : Workspace) : String → Type 0 where
    for_user :
        (r : SignupResponse) (w w' : W)
        → do_get_signup env.service none username false w ≡ (ok (some r), w')
        → is_empty r.compliant_username ≡ false
        → (pv ≡ false) ⊎ Bound response ws
        → Speaks pv username response ws r.compliant_username
    for_viewer :
        pv ≡ true
        → (username ≡ env.public_viewer) ⊎ Unbound response ws
        → Speaks pv username response ws env.public_viewer

  user_has_direct_access-Bound :
      (response : Option SignupResponse) (ws : Workspace)
      → user_has_direct_access response ws ≡ true
      → Bound response ws
  unfolding user_has_direct_access user_has_binding
  user_has_direct_access-Bound none ws h = absurd (ground (arith, h))
  user_has_direct_access-Bound (some r) ws h = h

  user_has_direct_access-Unbound :
      (response : Option SignupResponse) (ws : Workspace)
      → user_has_direct_access response ws ≡ false
      → Unbound response ws
  unfolding user_has_direct_access user_has_binding
  user_has_direct_access-Unbound none ws h = tt
  user_has_direct_access-Unbound (some r) ws h = h

  viewer_Speaks :
      (pv : Bool) (username : String) (response : Option SignupResponse) (ws : Workspace)
      (name : String)
      → pv ≡ true
      → Unbound response ws
      → Impersonable env pv env.public_viewer name
      → Speaks pv username response ws name
  viewer_Speaks pv username response ws _ on unbound (as_viewer _ _) = for_viewer on (inr unbound)
  viewer_Speaks pv username response ws _ on unbound (as_user r w w' asked named other) =
      absurd (ground (arith, other, on, (eq_iff env.public_viewer env.public_viewer).1 refl))

  user_Speaks :
      (pv : Bool) (username : String) (response : Option SignupResponse) (ws : Workspace)
      (name : String)
      → (pv ≡ false) ⊎ Bound response ws
      → Impersonable env pv username name
      → Speaks pv username response ws name
  user_Speaks pv username response ws _ own (as_viewer on is_viewer) = for_viewer on (inl is_viewer)
  user_Speaks pv username response ws _ own (as_user r w w' asked named other) =
      for_user r w w' asked named own

  pub requester-Speaks :
      (pv : Bool) (username : String) (response : Option SignupResponse) (ws : Workspace)
      (name : String)
      → Impersonable env pv (requester env pv username response ws) name
      → Speaks pv username response ws name
  unfolding requester
  requester-Speaks pv username response ws name allowed =
      elim (Bool-cases (user_has_direct_access response ws)) [
        | inl direct ↦
            user_Speaks pv username response ws name
              (inr (user_has_direct_access-Bound response ws direct))
              (subst (λ n. Impersonable env pv n name) (ground (arith, direct)) allowed)
        | inr indirect ↦ elim (Bool-cases pv) [
          | inl on ↦
              viewer_Speaks pv username response ws name on
                (user_has_direct_access-Unbound response ws indirect)
                (subst (λ n. Impersonable env pv n name) (ground (arith, indirect, on)) allowed)
          | inr off ↦
              user_Speaks pv username response ws name (inl off)
                (subst (λ n. Impersonable env pv n name) (ground (arith, off)) allowed)
        ]
      ]
