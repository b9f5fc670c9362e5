-- ===== src/Proxy/Lister/Bindings/Listed.antt =====
-- The bindings that the space lister shows: what they are, and in which order.
use mathlib.Core.List.{Permᴰ, Pairwise}
use mathlib.Core.List.Pairwise
use registration_service.Prelude.{
  ◌≡◌, refl, sym, ◌∙◌, ap, subst, Bool, true, false, List, [], ◌∷◌, String, arith, any, All, ◌==◌,
  ◌&&◌, eq_iff,
}
use registration_service.Text.Sort.{le_text}
use registration_service.Text.Sort.Least.{le_text_total, le_text_trans}
use registration_service.Action.{Result, ok, err}
use registration_service.Signup.Env.{Space, SpaceBinding}
use registration_service.Proxy.Env.{ProxyEnv, Binding, SpaceBindingRequest}
use registration_service.Proxy.Lister.Bindings.{
  binding_entry, binding_entries, already_in_binding_list, is_request, add_requests, less_user,
  order_entries, generate_workspace_bindings,
}
use registration_service.Proxy.Lister.Bindings.Entries.{
  Entry, push_of, add_requests-keeps, add_requests-requested, add_requests-Entry,
  binding_entries-Entry, binding_entries-made, binding_entry-Shown, Shown,
}

module _ {A : Type 0} where
  -- What holds of each item holds of each in another order.
  All-perm : (P : A → Type 0) (l r : List A) → Permᴰ l r → All P l → All P r
  All-perm P [] [] Permᴰ.nil h = tt
  All-perm P (a ∷ l) (b ∷ r) (Permᴰ.cons e p) (h, hs) = (subst P e h, All-perm P l r p hs)
  All-perm P (a ∷ b ∷ l) (c ∷ d ∷ r) (Permᴰ.swap e f) (h, (k, hs)) =
      (subst P f k, (subst P e h, hs))
  All-perm P l r (Permᴰ.trans p q) h = All-perm P _ r q (All-perm P l _ p h)

  any-perm : (p : A → Bool) (l r : List A) → Permᴰ l r → any p l ≡ any p r
  any-perm p [] [] Permᴰ.nil = refl
  any-perm p (a ∷ l) (b ∷ r) (Permᴰ.cons e q) = ground (arith, any-perm p l r q, ap p e)
  any-perm p (a ∷ b ∷ l) (c ∷ d ∷ r) (Permᴰ.swap e f) = ground (arith, ap p e, ap p f)
  any-perm p l r (Permᴰ.trans q s) = any-perm p l _ q ∙ any-perm p _ r s

All-map : {A : Type 0} {P Q : A → Type 0} → ((a : A) → P a → Q a) → (l : List A) → All P l → All Q l
All-map f [] h = tt
All-map f (a ∷ l) (h, hs) = (f a h, All-map f l hs)

less_user-asymmetric : (a b : Binding) → less_user a b ≡ true → less_user b a ≡ false
unfolding less_user
less_user-asymmetric a b h =
    ground (arith, h, le_text_total b.master_user_record a.master_user_record)

less_user-transitive :
    (a b c : Binding) → less_user b a ≡ false → less_user c b ≡ false → less_user c a ≡ false
unfolding less_user
less_user-transitive a b c h k =
    ground
      (arith, h, k, le_text_trans a.master_user_record b.master_user_record c.master_user_record)

less_user_le :
    (a b : Binding)
    → less_user b a ≡ false
    → le_text a.master_user_record b.master_user_record ≡ true
unfolding less_user
less_user_le a b h = ground (arith, h)

-- Is the entry one of the user of a binding, with the role of it?
abbrev shows : SpaceBinding → Binding → Bool
shows sb b = b.master_user_record == sb.master_user_record && b.role == sb.space_role

-- The list is faithful, complete and in the order of the user names.
pub record Listed (space : String) (sbs : List SpaceBinding) (sbrs : List SpaceBindingRequest)
    (bs : List Binding) : Type 0 where
  pub faithful : All (Entry space sbs sbrs) bs
  pub bound : All (λ sb. any (shows sb) bs ≡ true) sbs
  pub requested : All (λ sbr. already_in_binding_list bs sbr ≡ true) sbrs
  pub ordered : Pairwise (λ a b. le_text a.master_user_record b.master_user_record ≡ true) bs

shows-Shown :
    (space : String) (sb : SpaceBinding) (b : Binding) → Shown space sb b → shows sb b ≡ true
shows-Shown space sb b (Shown.own_request n ns own named in_namespace) =
    ground (
      arith,
      eq_iff sb.master_user_record sb.master_user_record,
      eq_iff sb.space_role sb.space_role,
    )
shows-Shown space sb b (Shown.inherited other) =
    ground (
      arith,
      eq_iff sb.master_user_record sb.master_user_record,
      eq_iff sb.space_role sb.space_role,
    )
shows-Shown space sb b (Shown.system own no_name no_namespace) =
    ground (
      arith,
      eq_iff sb.master_user_record sb.master_user_record,
      eq_iff sb.space_role sb.space_role,
    )

any-later :
    {A : Type 0} (p : A → Bool) (x : A) (xs : List A) → any p xs ≡ true → any p (x ∷ xs) ≡ true
any-later p x xs h = ground (arith, h)

any-here : {A : Type 0} (p : A → Bool) (x : A) (xs : List A) → p x ≡ true → any p (x ∷ xs) ≡ true
any-here p x xs h = ground (arith, h)

binding_entries-bound :
    (space : String) (sbs : List SpaceBinding) (bs : List Binding)
    → binding_entries space sbs ≡ ok bs
    → All (λ sb. any (shows sb) bs ≡ true) sbs
unfolding binding_entries
binding_entries-bound space [] bs h = tt
binding_entries-bound space (sb ∷ sbs) bs h =
    let (c, cs, first, later, same) =
      push_of (binding_entry space sb) (binding_entries space sbs) bs h in
    subst (λ l. All (λ x. any (shows x) l ≡ true) (sb ∷ sbs)) same
      (
        any-here (shows sb) c cs (shows-Shown space sb c (binding_entry-Shown space sb c first)),
        All-map (λ x. any-later (shows x) c cs) sbs (binding_entries-bound space sbs cs later),
      )

module _ {S W F : Type 0} (env : ProxyEnv S W F) where
  sorted-Listed :
      (space : String) (sbs : List SpaceBinding) (sbrs : List SpaceBindingRequest)
      (bs : List Binding)
      → binding_entries space sbs ≡ ok bs
      → Listed space sbs sbrs (env.sort_slice less_user (add_requests bs sbrs))
  unfolding already_in_binding_list
  sorted-Listed space sbs sbrs bs h =
      let all = add_requests bs sbrs in
      let sorted = env.sort_slice less_user all in
      let perm = env.sort_slice-perm less_user all in
      record {
        faithful = All-perm (Entry space sbs sbrs) all sorted perm (
            add_requests-Entry space sbs sbrs sbrs bs (λ x m. m)
              (λ x made. binding_entries-made space x sbs bs h made)
              (binding_entries-Entry space sbs sbrs sbs bs (λ x m. m) h));
        bound =
            All-map
              (λ sb there.
                sym (any-perm (shows sb) all sorted perm)
                ∙ add_requests-keeps (shows sb) bs sbrs there)
              sbs (binding_entries-bound space sbs bs h);
        requested =
            All-map
              (λ sbr there.
                sym (any-perm (λ b. is_request sbr b.binding_request) all sorted perm) ∙ there)
              sbrs (add_requests-requested bs sbrs);
        ordered =
            Pairwise.imp less_user_le
              (env.sort_slice-ordered less_user all less_user-asymmetric less_user-transitive);
      }

  ordered_of :
      (sbrs : List SpaceBindingRequest) (r : Result (List Binding)) (bs : List Binding)
      → order_entries env sbrs r ≡ ok bs
      → (es : List Binding) × (r ≡ ok es) × (env.sort_slice less_user (add_requests es sbrs) ≡ bs)
  ordered_of sbrs (err e) bs h = absurd (ground (arith, h))
  ordered_of sbrs (ok es) bs h = (es, refl, ground (arith, h))

  -- If the bindings of a workspace are generated, then each stands for one of the space's bindings or
  -- for a request that has made none of them: what a request of the space made, or asks for, may be
  -- updated and deleted and names the request, what another space has may be overridden, and what
  -- the system made may not be changed. Every binding of the space is shown with its user and role,
  -- every request is named by an entry, and the entries are in the order of their user names.
  pub generate_workspace_bindings-Listed :
      (space : Space) (sbs : List SpaceBinding) (sbrs : List SpaceBindingRequest)
      (bs : List Binding)
      → generate_workspace_bindings env space sbs sbrs ≡ ok bs
      → Listed space.name sbs sbrs bs
  unfolding generate_workspace_bindings
  generate_workspace_bindings-Listed space sbs sbrs bs h =
      let (es, made, same) = ordered_of sbrs (binding_entries space.name sbs) bs h in
      subst (Listed space.name sbs sbrs) same (sorted-Listed space.name sbs sbrs es made)
