-- ===== src/Bindings/Insert.antt =====
-- core/src/binding_manager.cpp: `insert_binding` and `unbind` keep the bindings sorted and distinct.
use mathlib.Core.Path.{subst}
use fenestra_voli_edition.Base.{
  sym, ◌≡◌, refl, Bool, true, false, Bool-cases, List, [], ◌∷◌, ◌++◌, arith, inl, inr, length,
}
use fenestra_voli_edition.Bindings.{
  KeyHandle, Binding, same_key, same_keys, same_bits, count_bits, same_binding, is_less,
  lower_bound, upper_bound, remove, insert_binding,
}

abbrev pub All : (Binding → Type 0) → List Binding → Type 0
All P [] = Unit {0}
All P (x ∷ xs) = P x × All P xs

-- No binding behind one is less specific, or the same.
abbrev pub Behind : Binding → List Binding → Type 0
Behind b = All (λ x. (is_less x b ≡ false) × (same_binding x b ≡ false))

abbrev pub IsSorted : List Binding → Type 0
IsSorted [] = Unit {0}
IsSorted (x ∷ xs) = Behind x xs × IsSorted xs

same_keys-length : (js ks : List KeyHandle) → same_keys js ks ≡ true → length js ≡ length ks
same_keys-length [] [] h = refl
same_keys-length [] (k ∷ ks) h = cc
same_keys-length (j ∷ js) [] h = cc
same_keys-length (j ∷ js) (k ∷ ks) h = ground (arith, same_keys-length js ks)

same_bits-count : (xs ys : List Bool) → same_bits xs ys ≡ true → count_bits xs ≡ count_bits ys
same_bits-count [] [] h = refl
same_bits-count [] (b ∷ bs) h = cc
same_bits-count (a ∷ as_) [] h = cc
same_bits-count (a ∷ as_) (b ∷ bs) h = ground (arith, same_bits-count as_ bs)

-- The same binding is as specific.
pub same_binding-is_less : (a b : Binding) → is_less a b ≡ true → same_binding a b ≡ false
unfolding same_binding is_less
same_binding-is_less a b h =
    ground
      (arith, h, same_keys-length a.keys b.keys, same_bits-count a.predicate_mask b.predicate_mask)

pub same_binding_flip : (a b : Binding) → is_less a b ≡ true → same_binding b a ≡ false
unfolding same_binding is_less
same_binding_flip a b h =
    ground
      (arith, h, same_keys-length b.keys a.keys, same_bits-count b.predicate_mask a.predicate_mask)

pub is_less_asym : (a b : Binding) → is_less a b ≡ true → is_less b a ≡ false
unfolding is_less
is_less_asym a b h = ground (arith, h)

-- What is not less is at least as specific.
pub is_less_trans :
    (a b c : Binding) → is_less b a ≡ false → is_less c b ≡ false → is_less c a ≡ false
unfolding is_less
is_less_trans a b c h k = ground (arith, h, k)

pub is_less_below :
    (a b c : Binding) → is_less a b ≡ true → is_less c b ≡ false → is_less a c ≡ true
unfolding is_less
is_less_below a b c h k = ground (arith, h, k)

same_key_self : (k : KeyHandle) → same_key k k ≡ true
same_key_self k = ground arith

same_keys_self : (ks : List KeyHandle) → same_keys ks ks ≡ true
same_keys_self [] = refl
same_keys_self (k ∷ ks) = ground (arith, same_key_self k, same_keys_self ks)

same_bits_self : (bs : List Bool) → same_bits bs bs ≡ true
same_bits_self [] = refl
same_bits_self (true ∷ bs) = same_bits_self bs
same_bits_self (false ∷ bs) = same_bits_self bs

pub same_binding_self : (b : Binding) → same_binding b b ≡ true
unfolding same_binding
same_binding_self b = ground (
  arith,
  same_bits_self b.device_mask,
  same_bits_self b.predicate_mask,
  same_bits_self b.predicate,
  same_keys_self b.keys,
)

-- What stands behind the new binding.
unfoldable pub rest_of : Binding → List Binding → List Binding
rest_of b bs = let (equal, after) = upper_bound b bs in remove b equal ++ after

pub rest_of_more :
    (b x : Binding) (xs : List Binding) → is_less b x ≡ true → rest_of b (x ∷ xs) ≡ x ∷ xs
unfolding rest_of upper_bound remove
rest_of_more b x xs h = ground (arith, h)

pub rest_of_same :
    (b x : Binding) (xs : List Binding)
    → is_less b x ≡ false
    → same_binding x b ≡ true
    → rest_of b (x ∷ xs) ≡ rest_of b xs
unfolding rest_of upper_bound remove
rest_of_same b x xs h e = ground (arith, h, e)

pub rest_of_other :
    (b x : Binding) (xs : List Binding)
    → is_less b x ≡ false
    → same_binding x b ≡ false
    → rest_of b (x ∷ xs) ≡ x ∷ rest_of b xs
unfolding rest_of upper_bound remove
rest_of_other b x xs h e = ground (arith, h, e)

pub insert_binding_past :
    (b x : Binding) (xs : List Binding)
    → is_less x b ≡ true
    → insert_binding b (x ∷ xs) ≡ x ∷ insert_binding b xs
unfolding insert_binding lower_bound
insert_binding_past b x xs h = ground (arith, h)

pub insert_binding_here :
    (b x : Binding) (xs : List Binding)
    → is_less x b ≡ false
    → insert_binding b (x ∷ xs) ≡ b ∷ rest_of b (x ∷ xs)
unfolding insert_binding lower_bound rest_of
insert_binding_here b x xs h = ground (arith, h)

pub All-rest_of :
    (P : Binding → Type 0) (b : Binding) (xs : List Binding) → All P xs → All P (rest_of b xs)
unfolding rest_of upper_bound remove
All-rest_of P b [] h = tt
All-rest_of P b (x ∷ xs) h = elim (Bool-cases (is_less b x)) [
  | inl e ↦ subst (All P) (sym (rest_of_more b x xs e)) h
  | inr e ↦ elim (Bool-cases (same_binding x b)) [
    | inl q ↦ subst (All P) (sym (rest_of_same b x xs e q)) (All-rest_of P b xs h.1)
    | inr q ↦ subst (All P) (sym (rest_of_other b x xs e q)) (h.0, All-rest_of P b xs h.1)
  ]
]
