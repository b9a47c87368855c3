-- ===== src/Windows/Count.antt =====
-- core/src/ui/window_manager.cpp: how often a window stands in a list.
use fenestra_voli_edition.Base.{
  ℕ, ◌+◌, ◌≡◌, refl, Bool, Bool-cases, true, false, not, inl, inr, List, [], ◌∷◌, ◌++◌, ◌==◌,
  if◌then◌else◌, arith,
}
use fenestra_voli_edition.Windows.{filter, erase, has, raise}

abbrev pub count : ℕ → List ℕ → ℕ
count i [] = 0
count i (x ∷ xs) = (if x == i then 1 else 0) + count i xs

pub count-append : (i : ℕ) (xs ys : List ℕ) → count i (xs ++ ys) ≡ count i xs + count i ys
count-append i [] ys = omega arith
count-append i (x ∷ xs) ys = omega (arith, count-append i xs ys)

pub count-erase :
    (i j : ℕ) (xs : List ℕ) → count i (erase j xs) ≡ (if i == j then 0 else count i xs)
unfolding erase
count-erase i j [] = ground arith
count-erase i j (x ∷ xs) = ground (arith, count-erase i j xs)

count-filter :
    (p : ℕ → Bool) (i : ℕ) (xs : List ℕ) → count i (filter p xs) ≡ (if p i then count i xs else 0)
unfolding filter
count-filter p i [] = ground arith
count-filter p i (x ∷ xs) = elim (Bool-cases (x == i)) [
  | inl e ↦ let same : x ≡ i = ground (arith, e) in rw (same) (ground (arith, count-filter p i xs))
  | inr e ↦ ground (arith, e, count-filter p i xs)
]

pub count-raise : (p q : ℕ → Bool) (i : ℕ) (xs : List ℕ) → count i (raise p q xs) ≡ count i xs
unfolding raise
count-raise p q i xs =
    let front = filter q xs in
    let lower = filter (λ x. not (p x)) front in
    ground (
      arith,
      count-append i (filter p front ++ lower) (filter (λ x. not (q x)) xs),
      count-append i (filter p front) lower,
      count-filter p i front,
      count-filter (λ x. not (p x)) i front,
      count-filter q i xs,
      count-filter (λ x. not (q x)) i xs,
    )

pub has-count : (i : ℕ) (xs : List ℕ) → has i xs ≡ (if count i xs == 0 then false else true)
unfolding has
has-count i [] = refl
has-count i (x ∷ xs) = ground (arith, has-count i xs)
