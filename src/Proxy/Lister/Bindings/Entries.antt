-- ===== src/Proxy/Lister/Bindings/Entries.antt =====
-- What each entry of a workspace's bindings stands for.
use mathlib.Core.List.{Mem, mem-cons_self, mem-cons_of_mem}
use registration_service.Prelude.{
  ◌≡◌, refl, subst, ◌≢◌, Bool, true, false, Option, none, some, List, [], ◌∷◌, ◌++◌, String, arith,
  eq_iff, any, All, All-append, Bool-cases, Option-cases, inl, inr, ◌==◌, ◌&&◌,
}
use registration_service.Action.{Result, ok, err}
use registration_service.Signup.Env.{SpaceBinding}
use registration_service.Proxy.Env.{Binding, SpaceBindingRequest}
use registration_service.Proxy.Lister.Bindings.{
  requested_binding, plain_binding, pending_binding, binding_entry, binding_entries, push,
  is_request, already_in_binding_list, add_request, add_requests,
}

-- How a binding of a space is shown: one that a request of the space made may be updated and
-- deleted, one of another space only overridden, and one that the system made is fixed.
pub data Shown (space : String) (sb : SpaceBinding) : Binding → Type 0 where
  own_request :
      (name namespace : String)
      → sb.space_label ≡ space
      → sb.request_name ≡ some name
      → sb.request_namespace ≡ some namespace
      → Shown space sb (requested_binding sb.master_user_record sb.space_role name namespace)
  inherited : sb.space_label ≢ space → Shown space sb (plain_binding sb ("override" ∷ []))
  system :
      sb.space_label ≡ space
      → sb.request_name ≡ none
      → sb.request_namespace ≡ none
      → Shown space sb (plain_binding sb [])

abbrev is_label : String → Option String → Bool
is_label value none = false
is_label value (some s) = s == value

-- Do the labels of a binding of the space name the request?
abbrev pub made_by : String → SpaceBindingRequest → SpaceBinding → Bool
made_by space sbr sb =
    sb.space_label == space
    && (is_label sbr.name sb.request_name && is_label sbr.namespace sb.request_namespace)

-- An entry stands for a binding, or for a request that has made none.
pub data Entry (space : String) (sbs : List SpaceBinding) (sbrs : List SpaceBindingRequest)
    : Binding → Type 0 where
  shown : {b : Binding} (sb : SpaceBinding) → Mem sb sbs → Shown space sb b → Entry space sbs sbrs b
  pending :
      (sbr : SpaceBindingRequest)
      → Mem sbr sbrs
      → any (made_by space sbr) sbs ≡ false
      → Entry space sbs sbrs (pending_binding sbr)

ok_of : {a b : Binding} → ◌≡◌ {A = Result Binding} (ok a) (ok b) → a ≡ b
ok_of h = ground (arith, h)

pub binding_entry-Shown :
    (space : String) (sb : SpaceBinding) (b : Binding)
    → binding_entry space sb ≡ ok b
    → Shown space sb b
unfolding binding_entry
binding_entry-Shown space sb b h = elim (Bool-cases (sb.space_label == space)) [
  | inr other ↦
      subst (Shown space sb) (ok_of (ground (arith, h, other)))
        (Shown.inherited (ground (arith, other, eq_iff sb.space_label space)))
  | inl own ↦ elim (Option-cases sb.request_name) [
    | inl no_name ↦ elim (Option-cases sb.request_namespace) [
      | inl no_namespace ↦
          subst (Shown space sb) (ok_of (ground (arith, h, own, no_name, no_namespace)))
            (Shown.system ((eq_iff sb.space_label space).0 own) no_name no_namespace)
      | inr (ns, in_namespace) ↦ absurd (ground (arith, own, in_namespace, rw no_name at h))
    ]
    | inr (n, named) ↦ elim (Option-cases sb.request_namespace) [
      | inl no_namespace ↦ absurd (ground (arith, own, named, rw no_namespace at h))
      | inr (ns, in_namespace) ↦
          subst (Shown space sb) (ok_of (ground (arith, h, own, named, in_namespace)))
            (Shown.own_request n ns ((eq_iff sb.space_label space).0 own) named in_namespace)
    ]
  ]
]

pub push_of :
    (r : Result Binding) (rs : Result (List Binding)) (bs : List Binding)
    → push r rs ≡ ok bs
    → (c : Binding) × (cs : List Binding) × (r ≡ ok c) × (rs ≡ ok cs) × (c ∷ cs ≡ bs)
push_of (err e) rs bs h = absurd (ground (arith, h))
push_of (ok c) (err e) bs h = absurd (ground (arith, h))
push_of (ok c) (ok cs) bs h = (c, cs, refl, refl, ground (arith, h))

-- The entries made of bindings that are all among `all`.
pub binding_entries-Entry :
    (space : String) (all : List SpaceBinding) (sbrs : List SpaceBindingRequest)
    → (sbs : List SpaceBinding) (bs : List Binding)
    → ((sb : SpaceBinding) → Mem sb sbs → Mem sb all)
    → binding_entries space sbs ≡ ok bs
    → All (Entry space all sbrs) bs
unfolding binding_entries
binding_entries-Entry space all sbrs [] [] sub h = tt
binding_entries-Entry space all sbrs [] (b ∷ bs) sub h = absurd (ground (arith, h))
binding_entries-Entry space all sbrs (sb ∷ sbs) bs sub h =
    let (c, cs, first, later, same) =
      push_of (binding_entry space sb) (binding_entries space sbs) bs h in
    subst (All (Entry space all sbrs)) same (
      Entry.shown sb (sub sb mem-cons_self) (binding_entry-Shown space sb c first),
      binding_entries-Entry space all sbrs sbs cs (λ x m. sub x (mem-cons_of_mem sb m)) later,
    )

is_request-Shown :
    (space : String) (sbr : SpaceBindingRequest) (sb : SpaceBinding) (b : Binding)
    → Shown space sb b
    → made_by space sbr sb ≡ true
    → is_request sbr b.binding_request ≡ true
is_request-Shown space sbr sb b (Shown.own_request n ns own named in_namespace) h =
    ground (arith, rw (named, in_namespace) at h)
is_request-Shown space sbr sb b (Shown.inherited other) h =
    absurd (ground (arith, h, other, eq_iff sb.space_label space))
is_request-Shown space sbr sb b (Shown.system own no_name no_namespace) h =
    absurd (ground (arith, own, rw no_name at h))

-- A request that made a binding is one of the entries.
pub binding_entries-made :
    (space : String) (sbr : SpaceBindingRequest) (sbs : List SpaceBinding) (bs : List Binding)
    → binding_entries space sbs ≡ ok bs
    → any (made_by space sbr) sbs ≡ true
    → already_in_binding_list bs sbr ≡ true
unfolding binding_entries already_in_binding_list
binding_entries-made space sbr [] bs h made = absurd (ground (arith, made))
binding_entries-made space sbr (sb ∷ sbs) bs h made =
    let (c, cs, first, later, same) =
      push_of (binding_entry space sb) (binding_entries space sbs) bs h in
    subst (λ l. already_in_binding_list l sbr ≡ true) same
      (elim (Bool-cases (made_by space sbr sb)) [
        | inl here ↦
            ground
              (arith, is_request-Shown space sbr sb c (binding_entry-Shown space sb c first) here)
        | inr there ↦ ground (arith, binding_entries-made space sbr sbs cs later (rw there at made))
      ])

any-append_right :
    {A : Type 0} (p : A → Bool) (xs ys : List A) → any p ys ≡ true → any p (xs ++ ys) ≡ true
any-append_right p [] ys h = h
any-append_right p (x ∷ xs) ys h = ground (arith, any-append_right p xs ys h)

any-append_left :
    {A : Type 0} (p : A → Bool) (xs ys : List A) → any p xs ≡ true → any p (xs ++ ys) ≡ true
any-append_left p [] ys h = absurd (ground (arith, h))
any-append_left p (x ∷ xs) ys h = elim (Bool-cases (p x)) [
  | inl here ↦ ground (arith, here)
  | inr there ↦ ground (arith, there, any-append_left p xs ys (rw there at h))
]

-- An entry stays while requests are added.
add_request-keeps :
    (p : Binding → Bool) (bs : List Binding) (sbr : SpaceBindingRequest)
    → any p bs ≡ true
    → any p (add_request bs sbr) ≡ true
unfolding add_request
add_request-keeps p bs sbr h = elim (Bool-cases (already_in_binding_list bs sbr)) [
  | inl there ↦ rw there h
  | inr new ↦ rw new (any-append_left p bs (pending_binding sbr ∷ []) h)
]

pub add_requests-keeps :
    (p : Binding → Bool) (bs : List Binding) (sbrs : List SpaceBindingRequest)
    → any p bs ≡ true
    → any p (add_requests bs sbrs) ≡ true
unfolding add_requests
add_requests-keeps p bs [] h = h
add_requests-keeps p bs (sbr ∷ sbrs) h =
    add_requests-keeps p (add_request bs sbr) sbrs (add_request-keeps p bs sbr h)

add_request-requested :
    (bs : List Binding) (sbr : SpaceBindingRequest)
    → any (λ b. is_request sbr b.binding_request) (add_request bs sbr) ≡ true
unfolding add_request already_in_binding_list
add_request-requested bs sbr = elim (Bool-cases (already_in_binding_list bs sbr)) [
  | inl there ↦ rw there there
  | inr new ↦ rw new (
      any-append_right (λ b. is_request sbr b.binding_request) bs (pending_binding sbr ∷ [])
        (ground (arith, eq_iff sbr.name sbr.name, eq_iff sbr.namespace sbr.namespace)))
]

-- Every request is among the entries in the end.
pub add_requests-requested :
    (bs : List Binding) (sbrs : List SpaceBindingRequest)
    → All (λ sbr. already_in_binding_list (add_requests bs sbrs) sbr ≡ true) sbrs
unfolding add_requests already_in_binding_list
add_requests-requested bs [] = tt
add_requests-requested bs (sbr ∷ sbrs) = (
  add_requests-keeps (λ b. is_request sbr b.binding_request) (add_request bs sbr) sbrs
      (add_request-requested bs sbr),
  add_requests-requested (add_request bs sbr) sbrs,
)

-- The entries stay faithful while requests among `all` are added.
pub add_requests-Entry :
    (space : String) (sbs : List SpaceBinding) (all sbrs : List SpaceBindingRequest)
    (bs : List Binding)
    → ((sbr : SpaceBindingRequest) → Mem sbr sbrs → Mem sbr all)
    → ((sbr : SpaceBindingRequest)
        → any (made_by space sbr) sbs ≡ true
        → already_in_binding_list bs sbr ≡ true)
    → All (Entry space sbs all) bs
    → All (Entry space sbs all) (add_requests bs sbrs)
unfolding add_requests add_request already_in_binding_list
add_requests-Entry space sbs all [] bs sub made es = es
add_requests-Entry space sbs all (sbr ∷ sbrs) bs sub made es =
    add_requests-Entry space sbs all sbrs (add_request bs sbr)
      (λ x m. sub x (mem-cons_of_mem sbr m))
      (λ x h. add_request-keeps (λ b. is_request x b.binding_request) bs sbr (made x h))
      (elim (Bool-cases (already_in_binding_list bs sbr)) [
        | inl there ↦ rw there es
        | inr new ↦ rw new (
            All-append (Entry space sbs all) bs (pending_binding sbr ∷ []) es (
              Entry.pending sbr (sub sbr mem-cons_self)
                  (elim (Bool-cases (any (made_by space sbr) sbs)) [
                    | inl was ↦ absurd (ground (arith, new, made sbr was))
                    | inr not_made ↦ not_made
                  ]),
              tt,
            ))
      ])
