-- ===== src/Controller/Usernames.antt =====
-- pkg/controller/usernames.go: is there a MasterUserRecord of a name?
use registration_service.Prelude.{List, [], ◌∷◌, ◌++◌, String, if◌then◌else◌}
use registration_service.Text.{is_empty}
use registration_service.Errors.{is_not_found, internal_server_error, not_found}
use registration_service.Action.{Result, ok, err}
use registration_service.Signup.Env.{ServiceEnv, MasterUserRecord}
use registration_service.Controller.Answer.{Answer, abort, json, abort_with_error}

abbrev pub found_username : Result MasterUserRecord → List (Answer (List String))
found_username (ok mur) = json 200 (mur.name ∷ []) ∷ []
found_username (err e) =
    if is_not_found e
    then abort not_found ∷ []
    else abort_with_error internal_server_error e "error getting MasterUserRecord resource" ∷ []

module _ {S W F : Type 0} (env : ServiceEnv S W F) where
  -- After an empty name the handler goes on.
  unfoldable pub get_username_handler : String → W → List (Answer (List String)) × W
  unfolding is_not_found abort_with_error
  get_username_handler name w =
      let (r, w') = env.get_master_user_record name w in
      ((if is_empty name then abort not_found ∷ [] else []) ++ found_username r, w')
