-- ===== src/Text/Sort/Least.antt =====
-- The first text of a sorted list is the least one.
use registration_service.Prelude.{
  ◌≡◌, refl, ◌∙◌, true, false, inl, inr, List, [], ◌∷◌, String, arith, All, any, ◌==◌, eq_iff,
  subst, sym, ◌⊎◌, Bool-cases,
}
use registration_service.Text.Sort.{le_text, insert_text, sort}

le_text_refl : (s : String) → le_text s s ≡ true
unfolding le_text
le_text_refl String.[] = refl
le_text_refl (String.◌∷◌ c s) = ground (arith, le_text_refl s)

pub le_text_total : (s t : String) → le_text s t ≡ false → le_text t s ≡ true
unfolding le_text
le_text_total String.[] t h = absurd (ground (arith, h))
le_text_total (String.◌∷◌ c s) String.[] h = refl
le_text_total (String.◌∷◌ c s) (String.◌∷◌ d t) h = elim (Bool-cases (le_text s t)) [
  | inl le ↦ ground (arith, h, le)
  | inr gt ↦ ground (arith, h, le_text_total s t gt)
]

pub le_text_trans : (s t u : String) → le_text s t ≡ true → le_text t u ≡ true → le_text s u ≡ true
unfolding le_text
le_text_trans String.[] t u h k = refl
le_text_trans (String.◌∷◌ c s) String.[] u h k = absurd (ground (arith, h))
le_text_trans (String.◌∷◌ c s) (String.◌∷◌ d t) String.[] h k = absurd (ground (arith, k))
le_text_trans (String.◌∷◌ c s) (String.◌∷◌ d t) (String.◌∷◌ e u) h k =
    ground (arith, h, k, le_text_trans s t u)

-- The first text of a list is one of it and at most each of it.
pub record IsLeast (s : String) (ss : List String) : Type 0 where
  pub is_in : any (λ t. t == s) ss ≡ true
  pub bound : All (λ t. le_text s t ≡ true) ss

All-weaken :
    (s t : String) (ss : List String)
    → le_text s t ≡ true
    → All (λ u. le_text t u ≡ true) ss
    → All (λ u. le_text s u ≡ true) ss
All-weaken s t [] h a = tt
All-weaken s t (u ∷ us) h a = (le_text_trans s t u h a.0, All-weaken s t us h a.1)

insert_text_cases :
    (s t : String) (ts : List String)
    → ((le_text s t ≡ true) × (insert_text s (t ∷ ts) ≡ s ∷ t ∷ ts))
      ⊎ ((le_text t s ≡ true) × (insert_text s (t ∷ ts) ≡ t ∷ insert_text s ts))
unfolding insert_text
insert_text_cases s t ts = elim (Bool-cases (le_text s t)) [
  | inl le ↦ inl (le, ground (arith, le))
  | inr gt ↦ inr (le_text_total s t gt, ground (arith, gt))
]

head_of : {s t : String} {ss ts : List String} → s ∷ ss ≡ t ∷ ts → s ≡ t
head_of h = ground (arith, h)

insert_text_some : (s : String) (ss : List String) → insert_text s ss ≡ [] → ⊥
unfolding insert_text
insert_text_some s [] h = ground (arith, h)
insert_text_some s (t ∷ ts) h = ground (arith, h)

insert_text_alone : (s t : String) (ts : List String) → insert_text s [] ≡ t ∷ ts → s ≡ t
unfolding insert_text
insert_text_alone s t ts h = head_of h

sort_empty : (ss : List String) → sort ss ≡ [] → ss ≡ []
unfolding sort
sort_empty [] h = refl
sort_empty (s ∷ ss) h = absurd (insert_text_some s (sort ss) h)

single-IsLeast : (s : String) → IsLeast s (s ∷ [])
single-IsLeast s = record { is_in = ground (arith, eq_iff s s); bound = (le_text_refl s, tt) }

cons-IsLeast :
    (s t : String) (ss : List String) → le_text s t ≡ true → IsLeast t ss → IsLeast s (s ∷ ss)
cons-IsLeast s t ss h m = record {
  is_in = ground (arith, eq_iff s s);
  bound = (le_text_refl s, All-weaken s t ss h m.bound);
}

later-IsLeast :
    (s t : String) (ss : List String) → le_text t s ≡ true → IsLeast t ss → IsLeast t (s ∷ ss)
later-IsLeast s t ss h m = record { is_in = ground (arith, m.is_in); bound = (h, m.bound) }

insert_text-IsLeast :
    (s : String) (ss sorted : List String) (t : String) (ts : List String)
    → sort ss ≡ sorted
    → ((x : String) (xs : List String) → sort ss ≡ x ∷ xs → IsLeast x ss)
    → insert_text s sorted ≡ t ∷ ts
    → IsLeast t (s ∷ ss)
insert_text-IsLeast s ss [] t ts sorts least h =
    subst (λ x. IsLeast x (s ∷ ss)) (insert_text_alone s t ts h)
      (subst (λ xs. IsLeast s (s ∷ xs)) (sym (sort_empty ss sorts)) (single-IsLeast s))
insert_text-IsLeast s ss (x ∷ xs) t ts sorts least h = elim (insert_text_cases s x xs) [
  | inl (le, here) ↦
      subst (λ y. IsLeast y (s ∷ ss)) (head_of (sym here ∙ h))
        (cons-IsLeast s x ss le (least x xs sorts))
  | inr (ge, later) ↦
      subst (λ y. IsLeast y (s ∷ ss)) (head_of (sym later ∙ h))
        (later-IsLeast s x ss ge (least x xs sorts))
]

-- A sorted list that starts with `t` belongs to a list whose least text is `t`.
pub sort-IsLeast :
    (ss : List String) (t : String) (ts : List String) → sort ss ≡ t ∷ ts → IsLeast t ss
unfolding sort
sort-IsLeast [] t ts h = absurd (ground (arith, h))
sort-IsLeast (s ∷ ss) t ts h =
    insert_text-IsLeast s ss (sort ss) t ts refl (λ x xs e. sort-IsLeast ss x xs e) h
