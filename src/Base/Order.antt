-- ===== src/Base/Order.antt =====
-- The lexicographic order of byte strings, as `std::u8string::compare` gives it, and of pairs of them.
use Prim.Native.Nat.{compare, Ordering}
use Prim.Native.Nat.Ordering.{lt, eq, gt}
use fenestra_voli_edition.Base.{ℕ, ◌≡◌, refl, Bool, true, false, List, [], ◌∷◌, arith}

unfoldable pub compare_text : List ℕ → List ℕ → Ordering
compare_text [] [] = eq
compare_text [] (b ∷ bs) = lt
compare_text (a ∷ as_) [] = gt
compare_text (a ∷ as_) (b ∷ bs) =
    let rest = compare_text as_ bs in elim (compare a b) [ lt ↦ lt | eq ↦ rest | gt ↦ gt ]

abbrev pub flip : Ordering → Ordering
flip lt = gt
flip eq = eq
flip gt = lt

pub compare_text_self : (a : List ℕ) → compare_text a a ≡ eq
unfolding compare_text
compare_text_self [] = refl
compare_text_self (a ∷ as_) = ground (arith, compare_text_self as_)

pub compare_text-eq : (a b : List ℕ) → compare_text a b ≡ eq → a ≡ b
unfolding compare_text
compare_text-eq [] [] h = refl
compare_text-eq [] (b ∷ bs) h = cc
compare_text-eq (a ∷ as_) [] h = cc
compare_text-eq (a ∷ as_) (b ∷ bs) h = ground (arith, compare_text-eq as_ bs)

pub compare_text-flip : (a b : List ℕ) → compare_text b a ≡ flip (compare_text a b)
unfolding compare_text
compare_text-flip [] [] = refl
compare_text-flip [] (b ∷ bs) = refl
compare_text-flip (a ∷ as_) [] = refl
compare_text-flip (a ∷ as_) (b ∷ bs) = ground (arith, compare_text-flip as_ bs)

pub compare_text_trans :
    (a b c : List ℕ) → compare_text a b ≡ lt → compare_text b c ≡ lt → compare_text a c ≡ lt
unfolding compare_text
compare_text_trans [] [] c h k = cc
compare_text_trans [] (b ∷ bs) [] h k = cc
compare_text_trans [] (b ∷ bs) (c ∷ cs) h k = refl
compare_text_trans (a ∷ as_) [] c h k = cc
compare_text_trans (a ∷ as_) (b ∷ bs) [] h k = cc
compare_text_trans (a ∷ as_) (b ∷ bs) (c ∷ cs) h k =
    ground (arith, compare_text-eq as_ bs, compare_text-eq bs cs, compare_text_trans as_ bs cs)

-- The first parts decide, then the second.
unfoldable pub compare_pair : List ℕ × List ℕ → List ℕ × List ℕ → Ordering
compare_pair (a, b) (c, d) =
    let rest = compare_text b d in elim (compare_text a c) [ lt ↦ lt | eq ↦ rest | gt ↦ gt ]

pub compare_pair_self : (a : List ℕ × List ℕ) → compare_pair a a ≡ eq
unfolding compare_pair
compare_pair_self (a, b) = ground (arith, compare_text_self a, compare_text_self b)

pub compare_pair-eq : (a b : List ℕ × List ℕ) → compare_pair a b ≡ eq → a ≡ b
unfolding compare_pair
compare_pair-eq (a, b) (c, d) h = ground (arith, compare_text-eq a c, compare_text-eq b d)

pub compare_pair-flip : (a b : List ℕ × List ℕ) → compare_pair b a ≡ flip (compare_pair a b)
unfolding compare_pair
compare_pair-flip (a, b) (c, d) = ground (arith, compare_text-flip a c, compare_text-flip b d)

pub compare_pair_trans :
    (a b c : List ℕ × List ℕ)
    → compare_pair a b ≡ lt
    → compare_pair b c ≡ lt
    → compare_pair a c ≡ lt
unfolding compare_pair
compare_pair_trans (a, x) (b, y) (c, z) h k = ground (
  arith,
  compare_text-eq a b,
  compare_text-eq b c,
  compare_text_trans a b c,
  compare_text_trans x y z,
)

-- `==` on byte strings.
unfoldable pub same_text : List ℕ → List ℕ → Bool
same_text a b = elim (compare_text a b) [ lt ↦ false | eq ↦ true | gt ↦ false ]

pub same_text-eq : (a b : List ℕ) → same_text a b ≡ true → a ≡ b
unfolding same_text
same_text-eq a b h = ground (arith, compare_text-eq a b)

pub same_text_self : (a : List ℕ) → same_text a a ≡ true
unfolding same_text
same_text_self a = ground (arith, compare_text_self a)
