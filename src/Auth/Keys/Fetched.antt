-- ===== src/Auth/Keys/Fetched.antt =====
-- Where the keys of the key manager come from.
use registration_service.Prelude.{
  ◌≡◌, refl, subst, ap, ◌∙◌, ◌⊎◌, inl, inr, not, Option, none, some, List, [], ◌∷◌, String, arith,
  eq_iff, eqb, ◌==◌, Bool-cases, if◌then◌else◌,
}
use mathlib.Core.List.{Mem, mem-cons_self, mem-cons_of_mem}
use registration_service.Text.{is_empty}
use registration_service.Action.{ok, lift, pure, >>=-eq-ok, ◌>>=◌}
use registration_service.Signup.Env.{HttpResponse}
use registration_service.Auth.Keys.{
  AuthSpec, PublicKey, KeyMap, KeyEnv, empty_map, add_keys, key_of, or_unknown, unmarshal_keys,
  fetch_keys, environment, auth_client_public_keys_url, is_prod_environment, new_key_manager,
}

module _ {K : Type 0} where
  same_key :
      (p : PublicKey K) (kid : String) (k : K)
      → p.key_id ≡ kid
      → p.key ≡ k
      → p ≡ record { key_id = kid; key = k }
  same_key p kid k i e =
      ap (λ x. record { key_id = x; key = p.key }) i ∙ ap (λ x. record { key_id = kid; key = x }) e

  -- A key of the map is one of the keys that were added, or was there before.
  add_keys-Mem :
      (ks : List (PublicKey K)) (m : KeyMap K) (kid : String) (k : K)
      → add_keys ks m kid ≡ some k
      → Mem (record { key_id = kid; key = k }) ks ⊎ (m kid ≡ some k)
  unfolding add_keys
  add_keys-Mem [] m kid k h = inr h
  add_keys-Mem (p ∷ ks) m kid k h =
      elim (add_keys-Mem ks (λ x. if p.key_id == x then some p.key else m x) kid k h) [
        | inl later ↦ inl (mem-cons_of_mem p later)
        | inr now ↦ elim (Bool-cases (p.key_id == kid)) [
          | inl here ↦ inl (
              subst (λ q. Mem q (p ∷ ks))
                (same_key p kid k ((eq_iff p.key_id kid).0 here) (ground (arith, rw here at now)))
                mem-cons_self)
          | inr other ↦ inr (rw other at now)
        ]
      ]

  key_of-some : (m : KeyMap K) (kid : String) (k : K) → key_of m kid ≡ ok k → m kid ≡ some k
  unfolding key_of
  key_of-some m kid k h = known (m kid) h
    where
      known : (o : Option K) → or_unknown o ≡ ok k → o ≡ some k
      known none e = absurd (ground (arith, e))
      known (some j) e = ground (arith, e)

  added :
      (ks : List (PublicKey K)) (m : KeyMap K) (kid : String) (k : K)
      → add_keys ks empty_map ≡ m
      → key_of m kid ≡ ok k
      → Mem (record { key_id = kid; key = k }) ks
  unfolding empty_map
  added ks m kid k same found =
      elim (add_keys-Mem ks empty_map kid k (ap (λ f. f kid) same ∙ key_of-some m kid k found)) [
        | inl m ↦ m
        | inr h ↦ absurd (ground (arith, h))
      ]

module _ {W K J : Type 0} (env : KeyEnv W K J) (cfg : AuthSpec) where
  -- The document that the configured URL answered.
  pub record Answered (keys : List (PublicKey K)) : Type 0 where
    pub before : W
    pub after : W
    pub response : HttpResponse
    pub asked :
        env.http_get (not (is_prod_environment cfg)) (auth_client_public_keys_url cfg) before
        ≡ (ok response, after)
    pub is_ok : response.status_code ≡ 200
    pub document : String
    pub has_body : response.body ≡ ok document
    pub holds : unmarshal_keys env document ≡ ok keys

  fetch_keys-Answered :
      (keys : List (PublicKey K)) (w w' : W)
      → fetch_keys env cfg (auth_client_public_keys_url cfg) w ≡ (ok keys, w')
      → Answered keys
  unfolding fetch_keys
  fetch_keys-Answered keys w w' h =
      let (res, w1, asked, rest) =
        >>=-eq-ok (env.http_get (not (is_prod_environment cfg)) (auth_client_public_keys_url cfg)) _
          w h in
      let (body, w2, read, last) = >>=-eq-ok (lift res.body) _ w1 rest in
      elim (Bool-cases (eqb res.status_code 200)) [
        | inr bad ↦ absurd (ground (arith, last, bad))
        | inl fine ↦ record {
          before = w;
          after = w1;
          response = res;
          asked = asked;
          is_ok = ground (arith, fine);
          document = body;
          has_body = ap (λ p. p.0) read;
          holds = ground (arith, last, fine);
        }
      ]

  -- A key that the key manager knows by an id is one of the keys of the end-to-end tests, in that
  -- environment only, or one of the document that the configured URL has answered with the code 200.
  pub new_key_manager-Answered :
      (m : KeyMap K) (kid : String) (k : K) (w w' : W)
      → new_key_manager env cfg w ≡ (ok m, w')
      → key_of m kid ≡ ok k
      → (keys : List (PublicKey K)) × Mem (record { key_id = kid; key = k }) keys
        × (((environment cfg ≡ "e2e-tests") × (keys ≡ env.e2e_keys)) ⊎ Answered keys)
  unfolding new_key_manager empty_map
  new_key_manager-Answered m kid k w w' h found =
      elim (Bool-cases (is_empty (auth_client_public_keys_url cfg))) [
        | inl nowhere ↦
            let same : empty_map ≡ m = ground (arith, h, nowhere) in
            absurd (ground (arith, ap (λ f. f kid) same, key_of-some m kid k found))
        | inr url ↦ elim (Bool-cases (environment cfg == "e2e-tests")) [
          | inl e2e ↦
              let same : add_keys env.e2e_keys empty_map ≡ m = ground (arith, h, url, e2e) in
              (
                env.e2e_keys,
                added env.e2e_keys m kid k same found,
                inl ((eq_iff (environment cfg) "e2e-tests").0 e2e, refl),
              )
          | inr other ↦
              let fetch = fetch_keys env cfg (auth_client_public_keys_url cfg) in
              let run : (fetch >>= λ ks. pure (add_keys ks empty_map)) w ≡ (ok m, w') =
                ground (arith, h, url, other) in
              let (keys, w1, got, last) = >>=-eq-ok fetch _ w run in
              let same : add_keys keys empty_map ≡ m = ground (arith, last) in
              (keys, added keys m kid k same found, inr (fetch_keys-Answered keys w w1 got))
        ]
      ]
