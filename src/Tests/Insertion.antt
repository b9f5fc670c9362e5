-- ===== src/Tests/Insertion.antt =====
-- sort.Slice, as an insertion sort.
use mathlib.Core.List.{Mem, Permᴰ, Pairwise, Pairwise-singleton, eq-or-mem_of_mem-cons}
use mathlib.Core.List.Perm
use mathlib.Core.List.Permᴰ
use mathlib.Core.Logic.Or
use registration_service.Prelude.{
  ◌≡◌, refl, sym, subst, Bool, true, false, inl, inr, List, [], ◌∷◌, if◌then◌else◌, Bool-cases,
}

module _ {A : Type 0} (less : A → A → Bool) where
  abbrev insert : A → List A → List A
  insert x [] = x ∷ []
  insert x (y ∷ ys) = let rest = insert x ys in if less y x then y ∷ rest else x ∷ y ∷ ys

  abbrev pub insertion_sort : List A → List A
  insertion_sort [] = []
  insertion_sort (x ∷ xs) = insert x (insertion_sort xs)

  insert-perm : (x : A) (l : List A) → Permᴰ (x ∷ l) (insert x l)
  insert-perm x [] = Permᴰ.refl (x ∷ [])
  insert-perm x (y ∷ ys) = elim (Bool-cases (less y x)) [
    | inl before ↦
        rw before (Permᴰ.trans (Permᴰ.swap refl refl) (Permᴰ.cons refl (insert-perm x ys)))
    | inr after ↦ rw after (Permᴰ.refl (x ∷ y ∷ ys))
  ]

  pub insertion_sort-perm : (l : List A) → Permᴰ l (insertion_sort l)
  insertion_sort-perm [] = Permᴰ.nil
  insertion_sort-perm (x ∷ xs) =
      Permᴰ.trans (Permᴰ.cons refl (insertion_sort-perm xs)) (insert-perm x (insertion_sort xs))

  less_prop : (a b : A) → IsProp (less a b ≡ false)
  less_prop a b = hlevel

  module _ (asymmetric : (a b : A) → less a b ≡ true → less b a ≡ false)
      (transitive : (a b c : A) → less b a ≡ false → less c b ≡ false → less c a ≡ false) where
    abbrev Ordered : List A → Type 0
    Ordered = Pairwise λ a b. less b a ≡ false

    insert-first :
        (x y : A) (l : List A)
        → less x y ≡ false
        → ((z : A) → Mem z l → less z y ≡ false)
        → (z : A) → Mem z (insert x l)
        → less z y ≡ false
    insert-first x y l h below z m =
        Or.elim (less_prop z y) (eq-or-mem_of_mem-cons ((Perm.mem_iff ∣ insert-perm x l ∣₁).1 m))
          (λ same. subst (λ v. less v y ≡ false) (sym same) h) (below z)

    insert-Ordered : (x : A) (l : List A) → Ordered l → Ordered (insert x l)
    insert-Ordered x [] p = Pairwise-singleton _ x
    insert-Ordered x (y ∷ ys) (Pairwise.cons below s) = elim (Bool-cases (less y x)) [
      | inl before ↦ rw before (
          Pairwise.cons (insert-first x y ys (asymmetric y x before) below) (insert-Ordered x ys s))
      | inr after ↦ rw after (
          Pairwise.cons
            (λ z m.
              Or.elim (less_prop z x) (eq-or-mem_of_mem-cons m)
                (λ same. subst (λ v. less v x ≡ false) (sym same) after)
                (λ later. transitive x y z after (below z later)))
            (Pairwise.cons below s))
    ]

    pub insertion_sort-Ordered : (l : List A) → Ordered (insertion_sort l)
    insertion_sort-Ordered [] = Pairwise.nil
    insertion_sort-Ordered (x ∷ xs) =
        insert-Ordered x (insertion_sort xs) (insertion_sort-Ordered xs)
