-- ===== src/Bindings/Sorted.antt =====
-- core/src/binding_manager.cpp: `insert_binding` and `unbind` keep the bindings sorted and distinct.
use mathlib.Core.Path.{subst}
use fenestra_voli_edition.Base.{
  ◌≡◌, refl, sym, ap, ◌∙◌, true, false, Bool-cases, List, [], ◌∷◌, arith, inl, inr,
}
use fenestra_voli_edition.Bindings.{
  Binding, same_binding, is_less, lower_bound, upper_bound, remove, insert_binding,
}
use fenestra_voli_edition.Bindings.Insert.{
  All, Behind, IsSorted, All-rest_of, same_binding-is_less, same_binding_self, same_binding_flip,
  is_less_asym, is_less_trans, is_less_below, rest_of, rest_of_more, rest_of_same, rest_of_other,
  insert_binding_past, insert_binding_here,
}

remove_same :
    (b x : Binding) (xs : List Binding) → same_binding x b ≡ true → remove b (x ∷ xs) ≡ remove b xs
unfolding remove
remove_same b x xs h = ground (arith, h)

remove_other :
    (b x : Binding) (xs : List Binding)
    → same_binding x b ≡ false
    → remove b (x ∷ xs) ≡ x ∷ remove b xs
unfolding remove
remove_other b x xs h = ground (arith, h)

Behind-remove : (y b : Binding) (xs : List Binding) → Behind y xs → Behind y (remove b xs)
unfolding remove
Behind-remove y b [] h = tt
Behind-remove y b (x ∷ xs) h = elim (Bool-cases (same_binding x b)) [
  | inl e ↦ rw e (Behind-remove y b xs h.1)
  | inr e ↦ rw e (h.0, Behind-remove y b xs h.1)
]

pub remove-IsSorted : (b : Binding) (xs : List Binding) → IsSorted xs → IsSorted (remove b xs)
unfolding remove
remove-IsSorted b [] h = tt
remove-IsSorted b (x ∷ xs) h = elim (Bool-cases (same_binding x b)) [
  | inl e ↦ rw e (remove-IsSorted b xs h.1)
  | inr e ↦ rw e (Behind-remove x b xs h.0, remove-IsSorted b xs h.1)
]

rest_of-IsSorted : (b : Binding) (xs : List Binding) → IsSorted xs → IsSorted (rest_of b xs)
unfolding rest_of upper_bound remove
rest_of-IsSorted b [] h = tt
rest_of-IsSorted b (x ∷ xs) h = elim (Bool-cases (is_less b x)) [
  | inl e ↦ subst IsSorted (sym (rest_of_more b x xs e)) h
  | inr e ↦ elim (Bool-cases (same_binding x b)) [
    | inl q ↦ subst IsSorted (sym (rest_of_same b x xs e q)) (rest_of-IsSorted b xs h.1)
    | inr q ↦
        subst IsSorted (sym (rest_of_other b x xs e q))
          (All-rest_of _ b xs h.0, rest_of-IsSorted b xs h.1)
  ]
]

-- All that stands behind a more specific binding is more specific.
Behind-more : (b x : Binding) (xs : List Binding) → is_less b x ≡ true → Behind x xs → Behind b xs
Behind-more b x [] e h = tt
Behind-more b x (y ∷ ys) e h =
    let less = is_less_below b x y e h.0.0 in
    ((is_less_asym b y less, same_binding_flip b y less), Behind-more b x ys e h.1)

-- No binding is less specific.
abbrev NoneLess : Binding → List Binding → Type 0
NoneLess b = All (λ x. is_less x b ≡ false)

NoneLess-Behind :
    (b x : Binding) (xs : List Binding) → is_less x b ≡ false → Behind x xs → NoneLess b xs
NoneLess-Behind b x [] e h = tt
NoneLess-Behind b x (y ∷ ys) e h = (is_less_trans b x y e h.0.0, NoneLess-Behind b x ys e h.1)

rest_of-Behind :
    (b : Binding) (xs : List Binding) → NoneLess b xs → IsSorted xs → Behind b (rest_of b xs)
unfolding rest_of upper_bound remove
rest_of-Behind b [] n h = tt
rest_of-Behind b (x ∷ xs) n h = elim (Bool-cases (is_less b x)) [
  | inl e ↦
      subst (Behind b) (sym (rest_of_more b x xs e))
        ((n.0, same_binding_flip b x e), Behind-more b x xs e h.0)
  | inr e ↦ elim (Bool-cases (same_binding x b)) [
    | inl q ↦ subst (Behind b) (sym (rest_of_same b x xs e q)) (rest_of-Behind b xs n.1 h.1)
    | inr q ↦
        subst (Behind b) (sym (rest_of_other b x xs e q)) ((n.0, q), rest_of-Behind b xs n.1 h.1)
  ]
]

Behind-insert_binding :
    (y b : Binding) (xs : List Binding)
    → is_less b y ≡ false
    → same_binding b y ≡ false
    → Behind y xs
    → Behind y (insert_binding b xs)
unfolding insert_binding lower_bound upper_bound remove
Behind-insert_binding y b [] e q h = ((e, q), tt)
Behind-insert_binding y b (x ∷ xs) e q h = elim (Bool-cases (is_less x b)) [
  | inl p ↦
      subst (Behind y) (sym (insert_binding_past b x xs p))
        (h.0, Behind-insert_binding y b xs e q h.1)
  | inr p ↦
      subst (Behind y) (sym (insert_binding_here b x xs p)) ((e, q), All-rest_of _ b (x ∷ xs) h)
]

pub insert_binding-IsSorted :
    (b : Binding) (xs : List Binding) → IsSorted xs → IsSorted (insert_binding b xs)
unfolding insert_binding lower_bound upper_bound remove
insert_binding-IsSorted b [] h = (tt, tt)
insert_binding-IsSorted b (x ∷ xs) h = elim (Bool-cases (is_less x b)) [
  | inl p ↦ subst IsSorted (sym (insert_binding_past b x xs p)) (
    Behind-insert_binding x b xs (is_less_asym x b p) (same_binding_flip x b p) h.0,
    insert_binding-IsSorted b xs h.1,
  )
  | inr p ↦
      subst IsSorted (sym (insert_binding_here b x xs p)) (
        rest_of-Behind b (x ∷ xs) (p, NoneLess-Behind b x xs p h.0) h,
        rest_of-IsSorted b (x ∷ xs) h,
      )
]

remove-rest_of : (b : Binding) (xs : List Binding) → remove b (rest_of b xs) ≡ remove b xs
unfolding rest_of upper_bound remove
remove-rest_of b [] = refl
remove-rest_of b (x ∷ xs) = elim (Bool-cases (is_less b x)) [
  | inl e ↦ ap (remove b) (rest_of_more b x xs e)
  | inr e ↦ elim (Bool-cases (same_binding x b)) [
    | inl q ↦
        ap (remove b) (rest_of_same b x xs e q) ∙ (remove-rest_of b xs ∙ sym (remove_same b x xs q))
    | inr q ↦
        ap (remove b) (rest_of_other b x xs e q)
        ∙ (remove_other b x (rest_of b xs) q
            ∙ (ap (◌∷◌ x) (remove-rest_of b xs) ∙ sym (remove_other b x xs q)))
  ]
]

remove-insert_binding :
    (b : Binding) (xs : List Binding) → remove b (insert_binding b xs) ≡ remove b xs
unfolding insert_binding lower_bound upper_bound remove
remove-insert_binding b [] = rw (same_binding_self b) refl
remove-insert_binding b (x ∷ xs) = elim (Bool-cases (is_less x b)) [
  | inl p ↦
      let q = same_binding-is_less x b p in
      ap (remove b) (insert_binding_past b x xs p)
      ∙ (remove_other b x (insert_binding b xs) q
          ∙ (ap (◌∷◌ x) (remove-insert_binding b xs) ∙ sym (remove_other b x xs q)))
  | inr p ↦
      ap (remove b) (insert_binding_here b x xs p)
      ∙ (remove_same b b (rest_of b (x ∷ xs)) (same_binding_self b) ∙ remove-rest_of b (x ∷ xs))
]

-- Inserting a binding keeps the bindings sorted by how specific they are, with none twice, and changes
-- nothing about the bindings that are not the same as it; so does removing one.
pub insert_binding-remove :
    (b : Binding) (xs : List Binding)
    → IsSorted xs
    → IsSorted (insert_binding b xs)
      × IsSorted (remove b xs)
      × (remove b (insert_binding b xs) ≡ remove b xs)
insert_binding-remove b xs h =
    (insert_binding-IsSorted b xs h, remove-IsSorted b xs h, remove-insert_binding b xs)
