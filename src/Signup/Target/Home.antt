-- ===== src/Signup/Target/Home.antt =====
-- Which space the default target of a user comes from.
use registration_service.Prelude.{◌≡◌, refl, ◌⊎◌, inl, inr, List, [], ◌∷◌, map, String, arith}
use registration_service.Text.Sort.{sort}
use registration_service.Text.Sort.Least.{IsLeast, sort-IsLeast}
use registration_service.Action.{ok}
use registration_service.Signup.Env.{ServiceEnv, SpaceBinding}
use registration_service.Signup.Target.{space_target, get_default_user_target}

module _ {S W F : Type 0} (env : ServiceEnv S W F) where
  -- Without a home space and with SpaceBindings, the target is that of the space with the least
  -- name among the bound ones; without SpaceBindings it is empty.
  pub default_target_lem :
      (mur_name : String) (w w1 : W) (sbs : List SpaceBinding)
      → env.list_space_bindings mur_name w ≡ (ok sbs, w1)
      → ((sort (map (λ (sb : SpaceBinding). sb.space) sbs) ≡ [])
          × (get_default_user_target env "" mur_name w ≡ (ok ("", ""), w1)))
        ⊎ ((name : String) × IsLeast name (map (λ (sb : SpaceBinding). sb.space) sbs)
            × (get_default_user_target env "" mur_name w ≡ space_target env name w1))
  unfolding get_default_user_target
  default_target_lem mur_name w w1 sbs listed =
      elim (sorted_cases (sort (map (λ (sb : SpaceBinding). sb.space) sbs))) [
        | inl none ↦ inl (none, ground (arith, listed, none))
        | inr (name, names, h) ↦ inr (name, sort-IsLeast _ name names h, ground (arith, listed, h))
      ]
    where
      sorted_cases :
          (ss : List String) → (ss ≡ []) ⊎ ((s : String) × (ts : List String) × (ss ≡ s ∷ ts))
      sorted_cases [] = inl refl
      sorted_cases (s ∷ ts) = inr (s, ts, refl)
