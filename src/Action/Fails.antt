-- ===== src/Action/Fails.antt =====
-- What holds of every error that a call returns.
use registration_service.Prelude.{
  ◌≡◌, refl, subst, inl, inr, Bool, true, false, Option, none, some, arith, if◌then◌else◌,
}
use registration_service.Errors.{Err}
use registration_service.Action.{Action, err, pure, raise, map_err, check, ◌>>=◌, outcome_cases}

abbrev pub Fails : {W A : Type 0} → (Err → Type 0) → Action W A → Type 0
Fails {W = W} P m = (w w' : W) (e : Err) → m w ≡ (err e, w') → P e

module _ {W A : Type 0} (P : Err → Type 0) where
  pub pure-Fails : (a : A) → Fails {W = W} P (pure a)
  pure-Fails a w w' e h = absurd (ground (arith, h))

  pub raise-Fails : (e : Err) → P e → Fails {W = W} {A = A} P (raise e)
  raise-Fails e p w w' e' h = subst P (ground (arith, h)) p

  -- Errors that are changed into ones that satisfy P.
  pub map_err-Fails :
      (f : Err → Err) (m : Action W A) → ((e : Err) → P (f e)) → Fails P (map_err f m)
  map_err-Fails f m p w w' e h = elim (outcome_cases (m w)) [
    | inl (a, t, done) ↦ absurd (ground (arith, done, h))
    | inr (e', t, failed) ↦ subst P (ground (arith, failed, h)) (p e')
  ]

  pub if-Fails :
      (b : Bool) (m n : Action W A)
      → (b ≡ true → Fails P m)
      → (b ≡ false → Fails P n)
      → Fails P (if b then m else n)
  if-Fails true m n hm hn = hm refl
  if-Fails false m n hm hn = hn refl

pub check-Fails :
    {W : Type 0} (P : Err → Type 0) (o : Option Err)
    → ((e : Err) → o ≡ some e → P e)
    → Fails {W = W} P (check o)
check-Fails P none p w w' e h = absurd (ground (arith, h))
check-Fails P (some e) p w w' e' h = subst P (ground (arith, h)) (p e refl)

module _ {W A B : Type 0} (P : Err → Type 0) where
  pub >>=-Fails :
      (m : Action W A) (f : A → Action W B)
      → Fails P m
      → ((a : A) → Fails P (f a))
      → Fails P (m >>= f)
  >>=-Fails m f hm hf w w' e h = elim (outcome_cases (m w)) [
    | inl (a, t, done) ↦ hf a t w' e (ground (arith, done, h))
    | inr (e', t, failed) ↦ hm w w' e (ground (arith, failed, h))
  ]
