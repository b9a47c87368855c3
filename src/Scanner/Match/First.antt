-- ===== src/Scanner/Match/First.antt =====
-- core/src/scanner.cpp: `match` finds the first place of a signature.
use mathlib.Core.Path.{subst}
use fenestra_voli_edition.Base.{
  ℕ, zero, suc, ◌+◌, ◌-◌, ◌%◌, ◌≤◌, ◌<◌, ◌≡◌, refl, ap, sym, Bool, true, false, ◌&&◌, Bool-cases,
  inl, inr, Option, none, some, List, [], ◌∷◌, ◌==◌, length, drop, arith,
}
use fenestra_voli_edition.Unicode.{Bytes}
use fenestra_voli_edition.Scanner.Signature.{Cell}
use fenestra_voli_edition.Scanner.Match.{equal, search, match_}

-- Do the bytes start with the signature? The masked bits alone count.
abbrev pub fits : List Cell → Bytes → Bool
fits [] bytes = true
fits (c ∷ cs) [] = false
fits (c ∷ cs) (b ∷ bs) = (c.data_ == (b % (c.mask + 1))) && fits cs bs

abbrev pub AllBytes : Bytes → Type 0
AllBytes [] = Unit {0}
AllBytes (b ∷ bs) = (b < 256) × AllBytes bs

equal-fits : (cs : List Cell) (bytes : Bytes) → equal cs bytes ≡ fits cs bytes
unfolding equal
equal-fits [] bytes = refl
equal-fits (c ∷ cs) [] = refl
equal-fits (c ∷ cs) (b ∷ bs) = ground (arith, equal-fits cs bs)

-- The first of `left` places where the signature fits, or that there is none.
abbrev pub IsFirst : List Cell → Bytes → ℕ → Option ℕ → Type 0
IsFirst cells data_ left none = (j : ℕ) → j < left → fits cells (drop j data_) ≡ false
IsFirst cells data_ left (some i) =
    (i < left)
    × (fits cells (drop i data_) ≡ true)
    × ((j : ℕ) → j < i → fits cells (drop j data_) ≡ false)

shift : Option ℕ → ℕ → Option ℕ
shift none i = none
shift (some j) i = some (j + i)

shift_again : (r : Option ℕ) (i : ℕ) → shift r (i + 1) ≡ shift (shift r 1) i
unfolding shift
shift_again none i = refl
shift_again (some j) i = ap some (omega arith)

shift_zero : (r : Option ℕ) → shift r 0 ≡ r
unfolding shift
shift_zero none = refl
shift_zero (some j) = ap some (omega arith)

not_here :
    (cells : List Cell) (b : ℕ) (bs : Bytes) (left j : ℕ)
    → fits cells (b ∷ bs) ≡ false
    → ((k : ℕ) → k < left → fits cells (drop k bs) ≡ false)
    → j < suc left
    → fits cells (drop j (b ∷ bs)) ≡ false
not_here cells b bs left zero e h k = e
not_here cells b bs left (suc j) e h k = h j (omega (arith, k))

at_next :
    (cells : List Cell) (b : ℕ) (bs : Bytes) (i : ℕ)
    → fits cells (drop i bs) ≡ true
    → fits cells (drop (i + 1) (b ∷ bs)) ≡ true
at_next cells b bs i f =
    let e : i + 1 ≡ suc i = omega arith in
    subst (λ n. fits cells (drop n (b ∷ bs)) ≡ true) (sym e) f

later :
    (cells : List Cell) (b : ℕ) (bs : Bytes) (left : ℕ) (r : Option ℕ)
    → fits cells (b ∷ bs) ≡ false
    → IsFirst cells bs left r
    → IsFirst cells (b ∷ bs) (suc left) (shift r 1)
unfolding shift
later cells b bs left none e h = λ j k. not_here cells b bs left j e h k
later cells b bs left (some i) e (l, f, h) = (
  omega (arith, l),
  at_next cells b bs i f,
  λ j k. not_here cells b bs i j e h (omega (arith, k)),
)

module _ (c : Cell) (cs : List Cell) (full : c.mask ≡ 0xFF) where
  pub here :
      (b : ℕ) (bs : Bytes) → b < 256 → ((b == c.data_) && equal cs bs) ≡ fits (c ∷ cs) (b ∷ bs)
  here b bs h = ground (arith, h, full, equal-fits cs bs)

  -- What the search finds from an index on.
  search-IsFirst :
      (left : ℕ) (data_ : Bytes) (i : ℕ)
      → AllBytes data_
      → left ≤ length data_
      → (r : Option ℕ) × (search c cs left data_ i ≡ shift r i) × IsFirst (c ∷ cs) data_ left r
  unfolding search shift
  search-IsFirst zero data_ i a h = (none, refl, λ j k. absurd (omega (arith, k)))
  search-IsFirst (suc left) [] i a h = absurd (omega (arith, h))
  search-IsFirst (suc left) (b ∷ bs) i a h = elim (Bool-cases (fits (c ∷ cs) (b ∷ bs))) [
    | inl e ↦ (
      some 0,
      ground (arith, here b bs a.0, e),
      (omega arith, e, λ j k. absurd (omega (arith, k))),
    )
    | inr e ↦
        let (r, found, first) = search-IsFirst left bs (i + 1) a.1 (omega (arith, h)) in
        (
          shift r 1,
          ground (arith, here b bs a.0, e, found, shift_again r i),
          later (c ∷ cs) b bs left r e first,
        )
  ]

  -- A signature whose first byte is not masked is found in data of at least its size, at the first
  -- place where it fits, or at none where there is none. The last place that it would have room at is
  -- not among the places looked at.
  pub match_-IsFirst :
      (data_ : Bytes)
      → AllBytes data_
      → length (c ∷ cs) ≤ length data_
      → (r : Option ℕ) × (match_ (c ∷ cs) data_ ≡ some r)
        × IsFirst (c ∷ cs) data_ (length data_ - length (c ∷ cs)) r
  unfolding match_
  match_-IsFirst data_ a h =
      let (r, found, first) =
        search-IsFirst (length data_ - length (c ∷ cs)) data_ 0 a (omega arith) in
      (r, ground (arith, h, found, shift_zero r), first)
