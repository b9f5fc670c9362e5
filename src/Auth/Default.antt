-- ===== src/Auth/Default.antt =====
-- pkg/auth/defaultmanager.go: the parser that the service shares, and sync.Once.
use registration_service.Prelude.{
  ◌≡◌, Bool, true, false, Option, none, some, arith, ◌⊎◌, inl, inr, if◌then◌else◌,
}
use registration_service.Errors.{Err, plain}
use registration_service.Action.{Result, ok, err, outcome_cases}
use registration_service.Auth.Keys.{KeyMap, KeyEnv, AuthSpec, new_key_manager}

-- Has the Once run, and the variable defaultTokenParser; a TokenParser is its key manager's map.
pub record Default (W K : Type 0) : Type 0 where
  pub is_initialized : Bool
  pub parser : Option (KeyMap K)
  pub world : W

module _ {W K J : Type 0} (env : KeyEnv W K J) (cfg : AuthSpec) where
  abbrev keep : Result (KeyMap K) → Default W K → Result (Option (KeyMap K)) × Default W K
  keep (ok m) d = (ok (some m), record d { parser = some m })
  keep (err e) d = (err e, d)

  -- InitializeDefaultTokenParser; a parser that is nil is `none`.
  unfoldable pub initialize_default_token_parser :
      Default W K → Result (Option (KeyMap K)) × Default W K
  unfolding new_key_manager
  initialize_default_token_parser d =
      let (r, w) = new_key_manager env cfg d.world in
      if d.is_initialized
      then (ok d.parser, d)
      else keep r (record d { is_initialized = true; world = w })

  -- DefaultTokenParser
  unfoldable pub default_token_parser : Default W K → Result (KeyMap K)
  default_token_parser d = elim d.parser [
    | some m ↦ ok m
    | none ↦
        err (plain "no default TokenParser created, call `InitializeDefaultTokenParser()` first")
  ]

  -- The state before the first call.
  abbrev pub fresh : W → Default W K
  fresh w = record { is_initialized = false; parser = none; world = w }

  abbrev pub first : W → Result (Option (KeyMap K)) × Default W K
  first w = initialize_default_token_parser (fresh w)

  initialized :
      (d : Default W K)
      → d.is_initialized ≡ true
      → initialize_default_token_parser d ≡ (ok d.parser, d)
  unfolding initialize_default_token_parser
  initialized d h = ground (arith, h)

  -- If the keys could be had at the first call, then it and a later one return the parser with those
  -- keys. If they could not, then the first call returns the error, and a later one returns neither a
  -- parser nor an error.
  pub initialize_twice :
      (w : W)
      → ((m : KeyMap K) × (w' : W) × (new_key_manager env cfg w ≡ (ok m, w'))
          × ((first w).0 ≡ ok (some m))
          × ((initialize_default_token_parser (first w).1).0 ≡ ok (some m)))
        ⊎ ((e : Err) × (w' : W) × (new_key_manager env cfg w ≡ (err e, w'))
            × ((first w).0 ≡ err e)
            × ((initialize_default_token_parser (first w).1).0 ≡ ok none))
  unfolding initialize_default_token_parser
  initialize_twice w = elim (outcome_cases (new_key_manager env cfg w)) [
    | inl (m, w', done) ↦ inl (m, w', done, ground (arith, done), ground (arith, done))
    | inr (e, w', failed) ↦ inr (e, w', failed, ground (arith, failed), ground (arith, failed))
  ]
