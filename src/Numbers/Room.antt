-- ===== src/Numbers/Room.antt =====
-- core/src/utility.cpp: which numbers have room in their buffers, and that `parse` reads them back.
use fenestra_voli_edition.Base.{
  ℕ, zero, suc, ◌+◌, ◌/◌, ◌%◌, ◌^◌, ◌≤◌, ◌<◌, ◌≡◌, ◌↔◌, ◌∙◌, ap, inl, inr, Bool-cases, none, some,
  List, [], ◌∷◌, ◌++◌, ltb, length, arith,
}
use fenestra_voli_edition.Numbers.{to_digits, to_chars, to_u8string}
use fenestra_voli_edition.Packages.Versions.{parse, Digits, number, parse-number}

to_digits_some :
    (fuel v : ℕ) (ds : List ℕ) → v < fuel → length ds + 1 ≤ length (to_digits fuel v ds)
unfolding to_digits
to_digits_some zero v ds h = absurd (omega (arith, h))
to_digits_some (suc fuel) v ds h = elim (Bool-cases (ltb v 10)) [
  | inl s ↦ rw (s) (omega arith)
  | inr s ↦
      let more : v / 10 < fuel = ground (arith, h, s) in
      let rest = to_digits_some fuel (v / 10) ((b'0' + v % 10) ∷ ds) more in
      rw (s) (omega (arith, rest))
]

power_some : (k : ℕ) → 10 ≤ 10 ^ suc k
power_some zero = omega arith
power_some (suc k) = omega (arith, power_some k)

length-to_digits :
    (fuel v k : ℕ) (ds : List ℕ)
    → v < fuel
    → (length (to_digits fuel v ds) ≤ suc k + length ds) ↔ (v < 10 ^ suc k)
unfolding to_digits
length-to_digits zero v k ds h = absurd (omega (arith, h))
length-to_digits (suc fuel) v zero ds h = elim (Bool-cases (ltb v 10)) [
  | inl s ↦ rw (s) ((λ i. ground (arith, s)), λ i. omega arith)
  | inr s ↦
      let more : v / 10 < fuel = ground (arith, h, s) in
      let rest = to_digits_some fuel (v / 10) ((b'0' + v % 10) ∷ ds) more in
      rw (s) ((λ i. absurd (omega (arith, i, rest))), λ i. absurd (ground (arith, i, s)))
]
length-to_digits (suc fuel) v (suc k) ds h = elim (Bool-cases (ltb v 10)) [
  | inl s ↦ rw (s) ((λ i. ground (arith, s, power_some k)), λ i. omega arith)
  | inr s ↦
      let more : v / 10 < fuel = ground (arith, h, s) in
      let (to, from) = length-to_digits fuel (v / 10) k ((b'0' + v % 10) ∷ ds) more in
      rw (s)
        ((λ i. omega (arith, to (omega (arith, i)))), λ i. omega (arith, from (omega (arith, i))))
]

number-to_digits :
    (fuel v : ℕ) (ds : List ℕ) → v < fuel → number (to_digits fuel v ds) 0 ≡ number ds v
unfolding to_digits
number-to_digits zero v ds h = absurd (omega (arith, h))
number-to_digits (suc fuel) v ds h = elim (Bool-cases (ltb v 10)) [
  | inl s ↦ rw (s) (ap (number ds) (omega arith))
  | inr s ↦
      let more : v / 10 < fuel = ground (arith, h, s) in
      let rest = number-to_digits fuel (v / 10) ((b'0' + v % 10) ∷ ds) more in
      rw (s) (rest ∙ ap (number ds) (omega arith))
]

to_digits-Digits : (fuel v : ℕ) (ds : List ℕ) → Digits ds → Digits (to_digits fuel v ds)
unfolding to_digits
to_digits-Digits zero v ds h = h
to_digits-Digits (suc fuel) v ds h = elim (Bool-cases (ltb v 10)) [
  | inl s ↦ rw (s) (ground (arith, s), h)
  | inr s ↦ rw (s) (to_digits-Digits fuel (v / 10) ((b'0' + v % 10) ∷ ds) (ground arith, h))
]

to_chars-none : (room : ℕ) (text : List ℕ) → (to_chars room text ≡ none) ↔ (¬ (length text ≤ room))
unfolding to_chars
to_chars-none room text = (ground arith, ground arith)

to_chars-some : (room : ℕ) (text : List ℕ) → length text ≤ room → to_chars room text ≡ some text
unfolding to_chars
to_chars-some room text h = ground (arith, h)

-- The text of a number without a sign is lost exactly if the number has more digits than digits10.
pub to_u8string-none : (k v : ℕ) → (to_u8string (suc k) v ≡ none) ↔ (10 ^ suc k ≤ v)
unfolding to_u8string
to_u8string-none k v =
    let (lost, no_room) = to_chars-none (suc k) (to_digits (suc v) v []) in
    let (small, short) = length-to_digits (suc v) v k [] (omega arith) in
    (
      (λ h. ground (arith, lost h, short)),
      λ h. no_room (λ i. absurd (omega (arith, h, small (omega (arith, i))))),
    )

-- A number of 32 bits without a sign that has at most digits10 digits is written, and parse reads it back, in
-- front of a dot.
pub parse-to_u8string :
    (k v old : ℕ) (rest : List ℕ)
    → v < 10 ^ suc k
    → v < 2 ^ 32
    → (ds : List ℕ) × (to_u8string (suc k) v ≡ some ds)
      × (parse (ds ++ b'.' ∷ rest) old ≡ (length ds, v))
unfolding to_u8string
parse-to_u8string k v old rest h b =
    let ds = to_digits (suc v) v [] in
    let e : number ds 0 ≡ v = number-to_digits (suc v) v [] (omega arith) in
    let short = (length-to_digits (suc v) v k [] (omega arith)).1 h in
    (
      ds,
      to_chars-some (suc k) ds (omega (arith, short)),
      parse-number ds rest old (to_digits-Digits (suc v) v [] tt)
            (omega (arith, to_digits_some (suc v) v [] (omega arith))) (omega (arith, e, b))
          ∙ ap (λ n. (length ds, n)) e,
    )
