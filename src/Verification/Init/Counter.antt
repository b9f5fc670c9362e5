-- ===== src/Verification/Init/Counter.antt =====
-- The verification counter: how many codes are sent in one window of 24 hours.
use registration_service.Prelude.{
  ℕ, suc, ◌+◌, ◌≤◌, ◌<◌, ◌≡◌, refl, ap, subst, ◌∙◌, inl, inr, false, none, Bool-cases, some, String,
  arith,
}
use registration_service.Prelude.Int.{pos, increment, max_int}
use registration_service.Text.Decimal.{itoa, atoi-itoa, is_empty-itoa}
use registration_service.Action.{Result, ok, err}
use registration_service.Api.{
  UserSignup, Dict, Key, empty, verification_counter, verification_init_timestamp,
}
use registration_service.Configuration.{VerificationSpec, daily_limit}
use registration_service.Verification.Env.{Env, LookupResult}
use registration_service.Verification.Init.Sent.{prepare-Prepared}
use registration_service.Verification.Init.{
  Pending, prepare, perform_phone_lookup, sent_values, judge_lookup, open_window, apply_pending,
  is_window_over, skips_lookup,
}

increment-pos : (c : ℕ) → c < max_int → increment (pos c) ≡ pos (c + 1)
increment-pos c h = ground arith

module _ {S W F : Type 0} (env : Env S W F) (cfg : VerificationSpec) where
  -- The keys and flags that a lookup leaves alone.
  abbrev Keeps : Dict → Pending → Type 0
  Keeps values p =
      (p.values verification_counter ≡ values verification_counter)
      × (p.values verification_init_timestamp ≡ values verification_init_timestamp)

  judge_lookup-Keeps :
      (values : Dict) (r : Result LookupResult) → Keeps values (judge_lookup env cfg values r)
  unfolding judge_lookup
  judge_lookup-Keeps values (err e) = (refl, refl)
  judge_lookup-Keeps values (ok r) = ground arith

  perform_phone_lookup-Keeps :
      (s : UserSignup S) (number phone_hash : String) (values : Dict) (p : Pending) (w w' : W)
      → perform_phone_lookup env cfg s number phone_hash values w ≡ (ok p, w')
      → Keeps values p
  unfolding perform_phone_lookup
  perform_phone_lookup-Keeps s number phone_hash values p w w' h =
      elim (Bool-cases (skips_lookup env cfg s number phone_hash)) [
        | inl skipped ↦ ground (arith, skipped, h)
        | inr done ↦
            let e : judge_lookup env cfg values (env.lookup_phone number w).0 ≡ p =
              ground (arith, done, h) in
            subst (Keeps values) e (judge_lookup-Keeps values (env.lookup_phone number w).0)
      ]

  apply_pending-annotations :
      (phone_hash : String) (p : Pending) (t : UserSignup S) (k : Key) {v : String}
      → p.values k ≡ some v
      → (apply_pending env cfg phone_hash p t).annotations k ≡ some v
  unfolding apply_pending
  apply_pending-annotations phone_hash p t k h = ground arith

  -- A code sent for the signup `s` at a time in its window, and the signup after the update.
  pub data Sends (s : UserSignup S) : ℕ → UserSignup S → Type 0 where
    no_send : Sends s 0 s
    send :
        {n : ℕ} {t : UserSignup S} (now : ℕ) (number phone_hash country_code : String) (w w' : W)
        (p : Pending)
        → Sends s n t
        → is_window_over env cfg now t ≡ false
        → prepare env cfg now t number phone_hash country_code
            (open_window env cfg now t).0
            (open_window env cfg now t).1
            w
          ≡ (ok p, w')
        → p.error ≡ none
        → Sends s (suc n) (apply_pending env cfg phone_hash p t)

  module _ (n : ℕ) (limit : daily_limit cfg ≡ pos n) (small : n ≤ max_int) where
    open_window-counted :
        (now : ℕ) (t : UserSignup S) (c : ℕ)
        → t.annotations verification_counter ≡ some (itoa (pos c))
        → c ≤ n
        → is_window_over env cfg now t ≡ false
        → open_window env cfg now t ≡ (pos c, empty)
    unfolding open_window
    open_window-counted now t c counted le inside =
        ground (arith, is_empty-itoa (pos c), atoi-itoa (pos c))

    -- One send in the window, from a readable counter: the counter was below the limit.
    send-counter :
        (now : ℕ) (number phone_hash country_code : String) (t : UserSignup S) (w w' : W)
        (p : Pending) (c : ℕ)
        → t.annotations verification_counter ≡ some (itoa (pos c))
        → c ≤ n
        → is_window_over env cfg now t ≡ false
        → prepare env cfg now t number phone_hash country_code
            (open_window env cfg now t).0
            (open_window env cfg now t).1
            w
          ≡ (ok p, w')
        → p.error ≡ none
        → (c < n)
          × ((apply_pending env cfg phone_hash p t).annotations verification_counter
              ≡ some (itoa (pos (c + 1))))
    unfolding sent_values
    send-counter now number phone_hash country_code t w w' p c counted le inside h clean =
        let opened = open_window-counted now t c counted le inside in
        let h' : prepare env cfg now t number phone_hash country_code (pos c) empty w ≡ (ok p, w') =
          rw opened at h in
        let r =
          prepare-Prepared env cfg now t number phone_hash country_code (pos c) empty p w w' h'
            clean in
        let room : c < n = ground (arith, r.below) in
        let written : p.values verification_counter ≡ some (itoa (increment (pos c))) =
          ap (λ (q : Pending). q.values verification_counter) r.sent.recorded in
        (
          room,
          apply_pending-annotations phone_hash p t verification_counter
              (written ∙ ap (λ z. some (itoa z)) (increment-pos c (omega arith))),
        )

    -- From a counter that says `c`, `k` codes sent within the window leave it at c + k, which is
    -- at most the daily limit.
    Sends-counter :
        {s t : UserSignup S} {k : ℕ} (c : ℕ)
        → s.annotations verification_counter ≡ some (itoa (pos c))
        → c ≤ n
        → Sends s k t
        → (c + k ≤ n) × (t.annotations verification_counter ≡ some (itoa (pos (c + k))))
    Sends-counter c counted le no_send =
        (omega arith, counted ∙ ap (λ (i : ℕ). some (itoa (pos i))) (omega arith))
    Sends-counter c counted le
          (send {n = k} {t} now number phone_hash country_code w w' p before inside h clean) =
        let (le', counted') = Sends-counter c counted le before in
        let (room, counted'') =
          send-counter now number phone_hash country_code t w w' p (c + k) counted' le' inside h
            clean in
        (omega arith, counted'' ∙ ap (λ (i : ℕ). some (itoa (pos i))) (omega arith))

  -- With a daily limit of n: from a signup whose verification counter says c, k codes sent within
  -- one window of 24 hours make c + k at most n, and the counter says c + k afterwards.
  pub daily_bound :
      (n c k : ℕ) (s t : UserSignup S)
      → daily_limit cfg ≡ pos n
      → n ≤ max_int
      → s.annotations verification_counter ≡ some (itoa (pos c))
      → c ≤ n
      → Sends s k t
      → (c + k ≤ n) × (t.annotations verification_counter ≡ some (itoa (pos (c + k))))
  daily_bound n c k s t limit small counted le sends =
      Sends-counter n limit small c counted le sends
