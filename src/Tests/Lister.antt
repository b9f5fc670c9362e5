-- ===== src/Tests/Lister.antt =====
-- The theorems on the space lister at concrete inputs.
use registration_service.Prelude.{
  ◌≡◌, refl, ◌⊎◌, true, false, Option, none, some, List, [], ◌∷◌, String,
}
use registration_service.Action.{Result, ok, err}
use registration_service.Signup.Env.{Space}
use registration_service.Signup.Poll.{poll_update_signup}
use registration_service.Proxy.Env.{Binding, SpaceBindingRequest, Workspace}
use registration_service.Proxy.Lister.Bindings.{generate_workspace_bindings}
use registration_service.Proxy.Lister.Bindings.Listed.{Listed, generate_workspace_bindings-Listed}
use registration_service.Proxy.Lister.Get.{get_user_workspace_with_bindings}
use registration_service.Proxy.Lister.Get.Visible.{
  Visible, get_user_workspace_with_bindings-Visible,
}
use registration_service.Proxy.Lister.Listing.{get_mur_names_for_list, list_user_workspaces}
use registration_service.Proxy.Lister.Listing.Own.{Own, Unprovisioned, list_user_workspaces-Own}
use registration_service.Proxy.Lister.Respond.{
  workspace, workspaces, handle_space_get_request, handle_space_list_request,
}
use registration_service.Proxy.Lister.Respond.Shown.{
  handle_space_get_request-Visible, handle_space_list_request-Own,
}
use registration_service.Tests.World.{World}
use registration_service.Tests.Service.{active_ann, world, proxy, bindings_of}

abbrev team : Space
team = record {
  name = "team";
  creator = "ann";
  tier_name = "base";
  spec_target_cluster = "member-1";
  target_cluster = "member-1";
  provisioned_namespaces = [];
}

-- A request that made a binding, and one that did not.
abbrev requests : List SpaceBindingRequest
requests =
    record {
      name = "zoe-request";
      namespace = "team-dev";
      master_user_record = "abe";
      space_role = "viewer";
    }
    ∷ record {
      name = "bob-request";
      namespace = "team-dev";
      master_user_record = "bob";
      space_role = "viewer";
    }
    ∷ []

abbrev entry : String → String → List String → Binding
entry user role actions = record {
  master_user_record = user;
  role = role;
  available_actions = actions;
  binding_request = none;
}

abbrev entry_for : String → String → String → Binding
entry_for user role name = record (entry user role ("update" ∷ "delete" ∷ [])) {
  binding_request = some (record { name = name; namespace = "team-dev" });
}

-- In the order of the user names.
abbrev entries : List Binding
entries =
    entry "aaron" "maintainer" ("override" ∷ [])
    ∷ entry_for "abe" "viewer" "zoe-request"
    ∷ entry "ann" "admin" []
    ∷ entry_for "bob" "viewer" "bob-request"
    ∷ []

generated : generate_workspace_bindings proxy team (bindings_of "team") requests ≡ ok entries
unfolding generate_workspace_bindings
generated = refl

generate_workspace_bindings-Listed_example : Listed "team" (bindings_of "team") requests entries
generate_workspace_bindings-Listed_example =
    generate_workspace_bindings-Listed proxy team (bindings_of "team") requests entries generated

abbrev shown_run : Result (Option Workspace) × World
shown_run = get_user_workspace_with_bindings proxy false "ann" "team" (world (active_ann ∷ []))

abbrev empty_workspace : Workspace
empty_workspace = record {
  name = "";
  namespaces = [];
  owner = "";
  role = "";
  kind = "";
  available_roles = [];
  bindings = [];
}

abbrev workspace_of : Result (Option Workspace) → Workspace
workspace_of (ok (some ws)) = ws
workspace_of (ok none) = empty_workspace
workspace_of (err e) = empty_workspace

shown_runs : shown_run ≡ (ok (some (workspace_of shown_run.0)), shown_run.1)
unfolding get_user_workspace_with_bindings poll_update_signup
shown_runs = refl

get_user_workspace_with_bindings-Visible_example :
    Visible proxy false "ann" "team" (workspace_of shown_run.0)
get_user_workspace_with_bindings-Visible_example =
    get_user_workspace_with_bindings-Visible proxy false "ann" "team" (workspace_of shown_run.0)
      (world (active_ann ∷ [])) shown_run.1 shown_runs

answer_runs :
    handle_space_get_request proxy false "ann" "team" (world (active_ann ∷ []))
    ≡ (record { code = 200; body = workspace (workspace_of shown_run.0) }, shown_run.1)
unfolding handle_space_get_request poll_update_signup
answer_runs = refl

handle_space_get_request-Visible_example :
    Visible proxy false "ann" "team" (workspace_of shown_run.0)
handle_space_get_request-Visible_example =
    handle_space_get_request-Visible proxy false "ann" "team" (workspace_of shown_run.0)
      (world (active_ann ∷ [])) shown_run.1 answer_runs

abbrev listed_run : Result (List Workspace) × World
listed_run = list_user_workspaces proxy false "ann" (world (active_ann ∷ []))

abbrev listed : Result (List Workspace) → List Workspace
listed (ok wss) = wss
listed (err e) = []

listed_runs : listed_run ≡ (ok (listed listed_run.0), listed_run.1)
unfolding list_user_workspaces poll_update_signup
listed_runs = refl

list_user_workspaces-Own_example :
    ((listed listed_run.0 ≡ []) × Unprovisioned proxy "ann")
    ⊎ Own proxy false "ann" (listed listed_run.0)
list_user_workspaces-Own_example =
    list_user_workspaces-Own proxy false "ann" (listed listed_run.0) (world (active_ann ∷ []))
      listed_run.1 listed_runs

list_answer_runs :
    handle_space_list_request proxy true "ann" (world (active_ann ∷ []))
    ≡ (record { code = 200; body = workspaces (listed listed_run.0) }, listed_run.1)
unfolding handle_space_list_request poll_update_signup
list_answer_runs = refl

handle_space_list_request-Own_example :
    (listed listed_run.0 ≡ [])
    ⊎ ((own : Own proxy false "ann" (listed listed_run.0)) × (get_mur_names_for_list proxy false
            own.signup
          ≡ own.signup.compliant_username ∷ []))
handle_space_list_request-Own_example =
    handle_space_list_request-Own proxy true "ann" (listed listed_run.0) (world (active_ann ∷ []))
      listed_run.1 list_answer_runs
