-- ===== src/Verification/Init/Rejected.antt =====
-- InitVerification for a high risk phone number.
use registration_service.Prelude.{ℕ, ◌≡◌, ◌⊎◌, inl, inr, true, false, some, String, arith}
use registration_service.Prelude.Int.{ℤ, lebℤ}
use registration_service.Errors.{Err}
use registration_service.Action.{Action, ok, err}
use registration_service.Api.{UserSignup, Dict}
use registration_service.Configuration.{
  VerificationSpec, phone_lookup_mode, lookup_enabled, daily_limit,
}
use registration_service.Signup.Poll.{Failed, poll_update_signup, poll_outcome}
use registration_service.Verification.Env.{Env, LookupResult}
use registration_service.Verification.Verify.{update_error}
use registration_service.Verification.Init.{
  Pending, prepare, perform_phone_lookup, send_unless, judge_lookup, skips_lookup,
  is_high_risk_phone, open_window, apply_pending, init_update, start, rejected_error,
}
use registration_service.Verification.Init.Stored.{init_update-stored}

module _ {S W F : Type 0} (env : Env S W F) (cfg : VerificationSpec) where
  -- The lookup of a high risk number in the mode `enabled`: nothing is sent.
  prepare-rejects :
      (now : ℕ) (s : UserSignup S) (number phone_hash country_code : String) (counter : ℤ)
      (values : Dict) (r : LookupResult) (w w1 : W)
      → lebℤ (daily_limit cfg) counter ≡ false
      → skips_lookup env cfg s number phone_hash ≡ false
      → phone_lookup_mode cfg ≡ lookup_enabled
      → env.lookup_phone number w ≡ (ok r, w1)
      → is_high_risk_phone r ≡ true
      → (p : Pending) × (prepare env cfg now s number phone_hash country_code counter values w
          ≡ (ok p, w1))
        × (p.reject ≡ true)
        × (p.error ≡ some rejected_error)
  unfolding prepare perform_phone_lookup judge_lookup send_unless
  prepare-rejects now s number phone_hash country_code counter values r w w1 room looks mode got
        risky =
      (
        judge_lookup env cfg values (ok r),
        ground (arith, room, looks, mode, got, risky),
        ground (arith, risky, mode),
        ground (arith, risky, mode),
      )

  -- The cluster holds a rejected signup under the name.
  abbrev pub RejectedAt : W → String → Type 0
  RejectedAt w name =
      (u : UserSignup S) × (env.client.stored w name ≡ some u)
      × (env.states.rejected u.states ≡ true)

  init_update-RejectedAt :
      (username phone_hash : String) (p : Pending) (w w' : W)
      → p.reject ≡ true
      → init_update env cfg username phone_hash p w ≡ (ok tt, w')
      → RejectedAt w' (env.encode_user_identifier username)
  unfolding apply_pending
  init_update-RejectedAt username phone_hash p w w' rejects h =
      let (u, stored) = init_update-stored env cfg username phone_hash p w w' h in
      (
        apply_pending env cfg phone_hash p u,
        stored,
        ground (arith, rejects, env.states.rejected-set true u.states),
      )

  -- A high risk number in the mode `enabled`, below the daily limit and not excluded from the
  -- lookup: after the lookup nothing is sent, only the signup is updated. The request fails, with
  -- the rejection and a stored signup that is rejected, or with the error of an update that was tried
  -- five times, right after the lookup, and failed each time.
  pub start_rejects :
      (username number country_code : String) (s : UserSignup S) (r : LookupResult) (w w1 : W)
      → lebℤ (daily_limit cfg) (open_window env cfg (env.client.now w) s).0 ≡ false
      → skips_lookup env cfg s number (env.encode_string number) ≡ false
      → phone_lookup_mode cfg ≡ lookup_enabled
      → env.lookup_phone number w ≡ (ok r, w1)
      → is_high_risk_phone r ≡ true
      → (p : Pending) × (w' : W) × (p.reject ≡ true)
        × (((start env cfg username number country_code s w ≡ (err rejected_error, w'))
              × (poll_update_signup (init_update env cfg username (env.encode_string number) p) w1
                  ≡ (ok tt, w'))
              × RejectedAt w' (env.encode_user_identifier username))
            ⊎ ((e : Err) × (t : W) × (start env cfg username number country_code s w
                  ≡ (err update_error, w'))
                × Failed (init_update env cfg username (env.encode_string number) p) w1 4 t
                × (init_update env cfg username (env.encode_string number) p t ≡ (err e, w'))))
  unfolding start
  start_rejects username number country_code s r w w1 room looks mode got risky =
      let now = env.client.now w in
      let ph = env.encode_string number in
      let (p, prepared, rejects, refused) =
        prepare-rejects now s number ph country_code (open_window env cfg now s).0
          (open_window env cfg now s).1 r w w1 room looks mode got risky in
      let update : Action W (Unit {0}) = init_update env cfg username ph p in
      elim (poll_outcome update w1) [
        | inl (k, t, w', le, f, last, polled) ↦ (
          p,
          w',
          rejects,
          inl (
            ground (arith, prepared, polled, refused),
            polled,
            init_update-RejectedAt username ph p t w' rejects last,
          ),
        )
        | inr (e, t, w', f, last, polled) ↦
            (p, w', rejects, inr (e, t, ground (arith, prepared, polled), f, last))
      ]
