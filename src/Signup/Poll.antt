-- ===== src/Signup/Poll.antt =====
-- `PollUpdateSignup` of pkg/signup/signup.go.
use registration_service.Prelude.{
  ℕ, zero, suc, ◌+◌, ◌≤◌, ◌≡◌, refl, sym, ap, ◌∙◌, ◌⊎◌, inl, inr, Option, none, some, arith, ltb,
  if◌then◌else◌,
}
use registration_service.Errors.{Err, plain}
use registration_service.Action.{Result, ok, err, Action, outcome_cases}

-- One round of the loop after the call of `updater`, `again` being the rounds that follow.
after_try :
    {S : Type 0}
    → ℕ
    → Result (Unit {0})
    → S
    → Option (Result (Unit {0}) × S)
    → Option (Result (Unit {0}) × S)
after_try attempts (ok _) s again = some (ok tt, s)
after_try attempts (err e) s again = if ltb 4 attempts then some (err e, s) else again

-- The loop, on fuel; `none` means that the fuel ran out.
poll_from : {S : Type 0} → ℕ → ℕ → Action S (Unit {0}) → S → Option (Result (Unit {0}) × S)
unfolding after_try
poll_from zero attempts updater s = none
poll_from (suc fuel) attempts updater s =
    let (r, s') = updater s in
    let again = poll_from fuel (attempts + 1) updater s' in after_try (attempts + 1) r s' again

abbrev or_stop : {S : Type 0} → S → Option (Result (Unit {0}) × S) → Result (Unit {0}) × S
or_stop s none = (err (plain "out of fuel"), s)
or_stop s (some r) = r

-- Five rounds of fuel are enough: `poll-eq-retry`.
unfoldable pub poll_update_signup : {S : Type 0} → Action S (Unit {0}) → Action S (Unit {0})
unfolding poll_from
poll_update_signup updater s = or_stop s (poll_from 5 0 updater s)

-- Up to `n` more tries after a failed one.
pub retry : {S : Type 0} → ℕ → Action S (Unit {0}) → Action S (Unit {0})
retry zero updater s = updater s
retry (suc n) updater s =
    let (r, s') = updater s in
    let again = retry n updater s' in elim r [ ok _ ↦ (ok tt, s') | err e ↦ again ]

module _ {S : Type 0} (updater : Action S (Unit {0})) where
  -- The calls of `updater` that failed in a row, and the state that they left.
  pub data Failed (s : S) : ℕ → S → Type 0 where
    none_yet : Failed s 0 s
    once_more :
        {n : ℕ} {t u : S} (e : Err) → Failed s n t → updater t ≡ (err e, u) → Failed s (suc n) u

  Failed-cons :
      {s u : S} {n : ℕ} {t : S} (e : Err)
      → updater s ≡ (err e, u)
      → Failed u n t
      → Failed s (suc n) t
  Failed-cons e h none_yet = once_more e none_yet h
  Failed-cons e h (once_more e' f h') = once_more e' (Failed-cons e h f) h'

  -- The loop with the fuel that it is given ends: it is `retry`.
  poll_from-eq-retry :
      (n attempts : ℕ) (s : S)
      → attempts + n ≡ 4
      → poll_from (suc n) attempts updater s ≡ some (retry n updater s)
  unfolding poll_from retry
  poll_from-eq-retry zero attempts s h = ground arith
  poll_from-eq-retry (suc n) attempts s h =
      ground (arith, poll_from-eq-retry n (attempts + 1) (updater s).1 (omega arith))

  pub poll-eq-retry : (s : S) → poll_update_signup updater s ≡ retry 4 updater s
  unfolding poll_update_signup
  poll-eq-retry s = ap (or_stop s) (poll_from-eq-retry 4 0 s refl)

  retry_done :
      (n : ℕ) (s s' : S) (a : Unit {0}) (u : S)
      → updater s ≡ (ok a, u)
      → retry (suc n) updater s ≡ (ok tt, s')
      → updater s ≡ (ok tt, s')
  unfolding retry
  retry_done n s s' a u done h = ground arith

  retry_not_done :
      (n : ℕ) (s s' : S) (a : Unit {0}) (u : S) (e : Err)
      → updater s ≡ (ok a, u)
      → retry (suc n) updater s ≡ (err e, s')
      → ⊥
  unfolding retry
  retry_not_done n s s' a u e done h = ground arith

  retry_again :
      (n : ℕ) (s u : S) {e : Err}
      → updater s ≡ (err e, u)
      → retry n updater u ≡ retry (suc n) updater s
  unfolding retry
  retry_again n s u failed = ground arith

  retry-eq-ok :
      (n : ℕ) (s s' : S)
      → retry n updater s ≡ (ok tt, s')
      → (k : ℕ) × (t : S) × (k ≤ n) × Failed s k t × (updater t ≡ (ok tt, s'))
  unfolding retry
  retry-eq-ok zero s s' h = (0, s, omega arith, none_yet, h)
  retry-eq-ok (suc n) s s' h = elim (outcome_cases (updater s)) [
    | inl (a, u, done) ↦ (0, s, omega arith, none_yet, retry_done n s s' a u done h)
    | inr (e, u, failed) ↦
        let (k, t, le, f, last) = retry-eq-ok n u s' (retry_again n s u failed ∙ h) in
        (suc k, t, omega arith, Failed-cons e failed f, last)
  ]

  retry-eq-err :
      (n : ℕ) (s s' : S) (e : Err)
      → retry n updater s ≡ (err e, s')
      → (t : S) × Failed s n t × (updater t ≡ (err e, s'))
  unfolding retry
  retry-eq-err zero s s' e h = (s, none_yet, h)
  retry-eq-err (suc n) s s' e h = elim (outcome_cases (updater s)) [
    | inl (a, u, done) ↦ absurd (retry_not_done n s s' a u e done h)
    | inr (e', u, failed) ↦
        let (t, f, last) = retry-eq-err n u s' e (retry_again n s u failed ∙ h) in
        (t, Failed-cons e' failed f, last)
  ]

  retry_ended :
      (n : ℕ) (s : S)
      → ((s' : S) × (retry n updater s ≡ (ok tt, s')))
        ⊎ ((e : Err) × (s' : S) × (retry n updater s ≡ (err e, s')))
  retry_ended n s = elim (outcome_cases (retry n updater s)) [
    | inl (a, u, done) ↦ inl (u, done)
    | inr (e, u, failed) ↦ inr (e, u, failed)
  ]

  -- The loop ends on every updater and every state: either the updater failed k times in a row,
  -- k at most 4, and the next call succeeded, whose state is returned; or it failed four times,
  -- and the fifth call failed too, whose error and state are returned.
  pub poll_outcome :
      (s : S)
      → ((k : ℕ) × (t : S) × (s' : S) × (k ≤ 4)
          × Failed s k t
          × (updater t ≡ (ok tt, s'))
          × (poll_update_signup updater s ≡ (ok tt, s')))
        ⊎ ((e : Err) × (t : S) × (s' : S) × Failed s 4 t
            × (updater t ≡ (err e, s'))
            × (poll_update_signup updater s ≡ (err e, s')))
  poll_outcome s = elim (retry_ended 4 s) [
    | inl (s', done) ↦
        let (k, t, le, f, last) = retry-eq-ok 4 s s' done in
        inl (k, t, s', le, f, last, poll-eq-retry s ∙ done)
    | inr (e, s', failed) ↦
        let (t, f, last) = retry-eq-err 4 s s' e failed in
        inr (e, t, s', f, last, poll-eq-retry s ∙ failed)
  ]

  -- A successful poll ends with a successful call of the updater.
  pub poll_last :
      (s s' : S)
      → poll_update_signup updater s ≡ (ok tt, s')
      → (k : ℕ) × (t : S) × (k ≤ 4) × Failed s k t × (updater t ≡ (ok tt, s'))
  poll_last s s' h = retry-eq-ok 4 s s' (sym (poll-eq-retry s) ∙ h)

  pub poll_first : (s t : S) → updater s ≡ (ok tt, t) → poll_update_signup updater s ≡ (ok tt, t)
  unfolding poll_update_signup
  poll_first s t done = ground (arith, done)

  pub poll_second :
      (s t u : S) (e : Err)
      → updater s ≡ (err e, t)
      → updater t ≡ (ok tt, u)
      → poll_update_signup updater s ≡ (ok tt, u)
  unfolding poll_update_signup
  poll_second s t u e failed done = ground (arith, failed, done)
