-- ===== src/Proxy/Lister/Bindings.antt =====
-- `generateWorkspaceBindings` and `alreadyInBindingList` of pkg/proxy/handlers/spacelister_get.go.
pub mod Entries
pub mod Listed
use registration_service.Prelude.{
  Bool, true, false, not, ◌&&◌, ◌||◌, Option, none, some, List, [], ◌∷◌, ◌++◌, String, any,
  if◌then◌else◌, ◌==◌,
}
use registration_service.Text.{◌⧺◌, is_empty}
use registration_service.Text.Sort.{le_text}
use registration_service.Errors.{Err, plain}
use registration_service.Action.{Result, ok, err}
use registration_service.Signup.Env.{Space, SpaceBinding}
use registration_service.Proxy.Env.{ProxyEnv, Binding, BindingRequest, SpaceBindingRequest}

-- Is there a label?
abbrev pub is_set : Option String → Bool
is_set none = false
is_set (some s) = true

-- The value of a label, the empty text where there is none.
abbrev pub label_value : Option String → String
label_value none = ""
label_value (some s) = s

-- The Binding that a request for a binding is shown as.
abbrev pub requested_binding : String → String → String → String → Binding
requested_binding master_user_record role name namespace = record {
  master_user_record = master_user_record;
  role = role;
  available_actions = "update" ∷ "delete" ∷ [];
  binding_request = some (record { name = name; namespace = namespace });
}

abbrev pub plain_binding : SpaceBinding → List String → Binding
plain_binding sb actions = record {
  master_user_record = sb.master_user_record;
  role = sb.space_role;
  available_actions = actions;
  binding_request = none;
}

-- The body of the loop over the bindings of a space, given by its name.
unfoldable pub binding_entry : String → SpaceBinding → Result Binding
binding_entry space sb =
    if (is_set sb.request_name || is_set sb.request_namespace) && sb.space_label == space
    then (if is_empty (label_value sb.request_name)
        then err (plain ("SpaceBindingRequest name not found on binding: " ⧺ sb.name))
        else if is_empty (label_value sb.request_namespace)
        then err (plain ("SpaceBindingRequest namespace not found on binding: " ⧺ sb.name))
        else ok (
            requested_binding sb.master_user_record sb.space_role (label_value sb.request_name)
              (label_value sb.request_namespace)))
    else ok (plain_binding sb (if sb.space_label == space then [] else "override" ∷ []))

abbrev pub push : Result Binding → Result (List Binding) → Result (List Binding)
push (err e) _ = err e
push (ok b) (err e) = err e
push (ok b) (ok bs) = ok (b ∷ bs)

-- The loop over the bindings.
unfoldable pub binding_entries : String → List SpaceBinding → Result (List Binding)
unfolding binding_entry
binding_entries space [] = ok []
binding_entries space (sb ∷ sbs) = push (binding_entry space sb) (binding_entries space sbs)

abbrev pub is_request : SpaceBindingRequest → Option BindingRequest → Bool
is_request sbr none = false
is_request sbr (some r) = r.name == sbr.name && r.namespace == sbr.namespace

unfoldable pub already_in_binding_list : List Binding → SpaceBindingRequest → Bool
already_in_binding_list bindings sbr = any (λ b. is_request sbr b.binding_request) bindings

abbrev pub pending_binding : SpaceBindingRequest → Binding
pending_binding sbr = requested_binding sbr.master_user_record sbr.space_role sbr.name sbr.namespace

-- The body of the loop over the requests.
unfoldable pub add_request : List Binding → SpaceBindingRequest → List Binding
unfolding already_in_binding_list
add_request bindings sbr =
    if already_in_binding_list bindings sbr
    then bindings
    else bindings ++ (pending_binding sbr ∷ [])

-- The loop over the requests.
unfoldable pub add_requests : List Binding → List SpaceBindingRequest → List Binding
unfolding add_request
add_requests bindings [] = bindings
add_requests bindings (sbr ∷ sbrs) = add_requests (add_request bindings sbr) sbrs

-- bindings[i].MasterUserRecord < bindings[j].MasterUserRecord
unfoldable pub less_user : Binding → Binding → Bool
unfolding le_text
less_user a b = not (le_text b.master_user_record a.master_user_record)

module _ {S W F : Type 0} (env : ProxyEnv S W F) where
  abbrev pub order_entries :
      List SpaceBindingRequest → Result (List Binding) → Result (List Binding)
  order_entries sbrs (err e) = err e
  order_entries sbrs (ok bs) = ok (env.sort_slice less_user (add_requests bs sbrs))

  unfoldable pub generate_workspace_bindings :
      Space → List SpaceBinding → List SpaceBindingRequest → Result (List Binding)
  unfolding binding_entries add_requests less_user
  generate_workspace_bindings space sbs sbrs = order_entries sbrs (binding_entries space.name sbs)
