-- ===== src/Action.antt =====
-- Go functions that return an error beside their result, over the state `S` of the world and of
-- the variables that outlive the call. What was written before an error stays written.
pub mod Fails
use registration_service.Prelude.{◌≡◌, refl, ap, ◌⊎◌, inl, inr, Option, none, some, arith}
use registration_service.Errors.{Err}

pub data Result {ℓ} (A : Type ℓ) : Type ℓ where
  ok : A → Result A
  err : Err → Result A

abbrev change {ℓ} : {A : Type ℓ} → (Err → Err) → Result A → Result A
change f (ok a) = ok a
change f (err e) = err (f e)

abbrev pub Action : Type 0 → Type 0 → Type 0
Action S A = S → Result A × S

module _ {S A : Type 0} where
  -- return a, nil
  abbrev pub pure : A → Action S A
  pure a s = (ok a, s)

  -- return nil, err
  abbrev pub raise : Err → Action S A
  raise e s = (err e, s)

  abbrev pub lift : Result A → Action S A
  lift r s = (r, s)

  -- The result and the error as a value, for code that goes on after an error.
  abbrev pub attempt : Action S A → Action S (Result A)
  attempt m s = let (r, s') = m s in (ok r, s')

  -- if err != nil { return nil, f(err) }
  abbrev pub map_err : (Err → Err) → Action S A → Action S A
  map_err f m s = let (r, s') = m s in (change f r, s')

module _ {S A B : Type 0} where
  abbrev pub continue : Result A → (A → Action S B) → Action S B
  continue (ok a) f s = f a s
  continue (err e) f s = (err e, s)

  infixl 10 ◌>>=◌ ◌>>◌
  abbrev pub ◌>>=◌ : Action S A → (A → Action S B) → Action S B
  ◌>>=◌ m f s = let (r, s') = m s in continue r f s'

  abbrev pub ◌>>◌ : Action S A → Action S B → Action S B
  m >> n = m >>= λ _. n

-- if e := f(); e != nil { return e }
abbrev pub check : {S : Type 0} → Option Err → Action S (Unit {0})
check none = pure tt
check (some e) = raise e

-- To split on how a call ended and keep the equation.
pub outcome_cases :
    {S A : Type 0} (p : Result A × S)
    → ((a : A) × (s : S) × (p ≡ (ok a, s))) ⊎ ((e : Err) × (s : S) × (p ≡ (err e, s)))
outcome_cases (ok a, s) = inl (a, s, refl)
outcome_cases (err e, s) = inr (e, s, refl)

-- Inversion of a call that succeeded.
module _ {S A B : Type 0} where
  pub >>=-eq-ok :
      (m : Action S A) (f : A → Action S B) (s : S) {b : B} {s' : S}
      → (m >>= f) s ≡ (ok b, s')
      → (a : A) × (t : S) × (m s ≡ (ok a, t)) × (f a t ≡ (ok b, s'))
  >>=-eq-ok m f s h = elim (outcome_cases (m s)) [
    | inl (a, t, done) ↦ (a, t, done, ground (arith, done))
    | inr (e, t, failed) ↦ absurd (ground (arith, failed))
  ]

module _ {S A : Type 0} where
  pub map_err-eq-ok :
      (f : Err → Err) (m : Action S A) (s : S) {a : A} {s' : S}
      → map_err f m s ≡ (ok a, s')
      → m s ≡ (ok a, s')
  map_err-eq-ok f m s h = elim (outcome_cases (m s)) [
    | inl (a', t, done) ↦ ground (arith, done)
    | inr (e, t, failed) ↦ absurd (ground (arith, failed))
  ]

module _ {S A : Type 0} where
  pub attempt-eq-ok :
      (m : Action S A) (s : S) {r : Result A} {s' : S} → attempt m s ≡ (ok r, s') → m s ≡ (r, s')
  attempt-eq-ok m s h = elim (outcome_cases (m s)) [
    | inl (a, t, done) ↦ ground (arith, done)
    | inr (e, t, failed) ↦ ground (arith, failed)
  ]

pub check-eq-ok :
    {S : Type 0} (o : Option Err) (s : S) {a : Unit {0}} {s' : S}
    → check o s ≡ (ok a, s')
    → (o ≡ none) × (s ≡ s')
check-eq-ok none s h = (refl, ap (λ (p : Result (Unit {0}) × _). p.1) h)
check-eq-ok (some e) s h = absurd (ground (arith, h))

pub Result-cases {ℓ} :
    {A : Type ℓ} (r : Result A) → ((a : A) × (r ≡ ok a)) ⊎ ((e : Err) × (r ≡ err e))
Result-cases (ok a) = inl (a, refl)
Result-cases (err e) = inr (e, refl)
