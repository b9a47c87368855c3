-- ===== src/Base/Lists.antt =====
-- Lists measured and indexed by native numbers, under the library's names.
use Prim.Native.Nat.{ℕ, zero, suc, ◌+◌, ◌-◌, ◌≤◌, ◌<◌}
use mathlib.Core.Bool.{Bool, true, ◌&&◌}
use mathlib.Core.Path.{◌≡◌, refl, ap}
use mathlib.Core.List.{List, [], ◌∷◌, ◌++◌}
use mathlib.Core.Option.{Option, none, some}
use native.Mathlib.Omega.{arith}
use fenestra_voli_edition.Base.Tests.{if◌then◌else◌, ◌==◌}

module _ {ℓ} {A : Type ℓ} where
  abbrev pub length : List A → ℕ
  length [] = 0
  length (x ∷ xs) = suc (length xs)

  abbrev pub get_elem? : List A → ℕ → Option A
  get_elem? [] i = none
  get_elem? (x ∷ xs) zero = some x
  get_elem? (x ∷ xs) (suc i) = get_elem? xs i

  abbrev pub get_or : List A → ℕ → A → A
  get_or [] i d = d
  get_or (x ∷ xs) zero d = x
  get_or (x ∷ xs) (suc i) d = get_or xs i d

  abbrev pub take : ℕ → List A → List A
  take zero xs = []
  take (suc n) [] = []
  take (suc n) (x ∷ xs) = x ∷ take n xs

  abbrev pub drop : ℕ → List A → List A
  drop zero xs = xs
  drop (suc n) [] = []
  drop (suc n) (x ∷ xs) = drop n xs

module _ {ℓ} {A : Type ℓ} where
  pub length-append : (xs ys : List A) → length (xs ++ ys) ≡ length xs + length ys
  length-append [] ys = omega arith
  length-append (x ∷ xs) ys = omega (arith, length-append xs ys)

  pub length-drop : (n : ℕ) (xs : List A) → length (drop n xs) ≡ length xs - n
  length-drop zero xs = omega arith
  length-drop (suc n) [] = omega arith
  length-drop (suc n) (x ∷ xs) = omega (arith, length-drop n xs)

  pub length-take : (n : ℕ) (xs : List A) → n ≤ length xs → length (take n xs) ≡ n
  length-take zero xs h = refl
  length-take (suc n) [] h = elim h [ ]
  length-take (suc n) (x ∷ xs) h = omega (arith, length-take n xs (omega arith))

  -- A prefix is cut off exactly, whatever stands behind it.
  pub take-append : (xs ys : List A) (n : ℕ) → n ≡ length xs → take n (xs ++ ys) ≡ xs
  take-append [] ys zero e = refl
  take-append [] ys (suc n) e = absurd (omega arith)
  take-append (x ∷ xs) ys zero e = absurd (omega arith)
  take-append (x ∷ xs) ys (suc n) e = ap (◌∷◌ x) (take-append xs ys n (omega arith))

  pub drop-append : (xs ys : List A) (n : ℕ) → n ≡ length xs → drop n (xs ++ ys) ≡ ys
  drop-append [] ys zero e = refl
  drop-append [] ys (suc n) e = absurd (omega arith)
  drop-append (x ∷ xs) ys zero e = absurd (omega arith)
  drop-append (x ∷ xs) ys (suc n) e = drop-append xs ys n (omega arith)

module _ {ℓ} {A : Type ℓ} where
  abbrev pub all_of : (A → Bool) → List A → Bool
  all_of p [] = true
  all_of p (x ∷ xs) = p x && all_of p xs

  -- What every element satisfies, the element at an index satisfies.
  pub get_elem?_all :
      (p : A → Bool) (xs : List A) (i : ℕ)
      → i < length xs
      → all_of p xs ≡ true
      → (x : A) × (get_elem? xs i ≡ some x) × (p x ≡ true)
  get_elem?_all p [] i h a = absurd (omega (arith, h))
  get_elem?_all p (x ∷ xs) zero h a = (x, refl, ground (arith, a))
  get_elem?_all p (x ∷ xs) (suc i) h a = get_elem?_all p xs i (omega (arith, h)) (ground (arith, a))

module _ {ℓ} {A : Type ℓ} where
  -- A write out of bounds changes nothing.
  abbrev pub set : List A → ℕ → A → List A
  set [] i v = []
  set (x ∷ xs) zero v = v ∷ xs
  set (x ∷ xs) (suc i) v = x ∷ set xs i v

module _ {ℓ} {A : Type ℓ} where
  pub get_elem?-set_self :
      (xs : List A) (i : ℕ) (a v : A) → get_elem? xs i ≡ some a → get_elem? (set xs i v) i ≡ some v
  get_elem?-set_self [] i a v h = absurd (cc (h))
  get_elem?-set_self (x ∷ xs) zero a v h = refl
  get_elem?-set_self (x ∷ xs) (suc i) a v h = get_elem?-set_self xs i a v h

  pub get_elem?-set :
      (xs : List A) (i j : ℕ) (a v : A)
      → get_elem? xs j ≡ some a
      → get_elem? (set xs i v) j ≡ some (if i == j then v else a)
  get_elem?-set [] i j a v h = absurd (cc (h))
  get_elem?-set (x ∷ xs) zero zero a v h = refl
  get_elem?-set (x ∷ xs) zero (suc j) a v h = ground (arith, h)
  get_elem?-set (x ∷ xs) (suc i) zero a v h = ground (arith, h)
  get_elem?-set (x ∷ xs) (suc i) (suc j) a v h = ground (arith, get_elem?-set xs i j a v h)

  pub get_elem?-set-none :
      (xs : List A) (i j : ℕ) (v : A) → get_elem? xs j ≡ none → get_elem? (set xs i v) j ≡ none
  get_elem?-set-none [] i j v h = refl
  get_elem?-set-none (x ∷ xs) zero zero v h = cc
  get_elem?-set-none (x ∷ xs) zero (suc j) v h = h
  get_elem?-set-none (x ∷ xs) (suc i) zero v h = cc
  get_elem?-set-none (x ∷ xs) (suc i) (suc j) v h = get_elem?-set-none xs i j v h
