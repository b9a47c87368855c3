-- ===== src/Unicode/Sjis/Bounds.antt =====
-- core/src/unicode.cpp: what `next_code_point` over Shift JIS makes of odd bytes.
use fenestra_voli_edition.Base.{
  ℕ, zero, suc, ◌%◌, ◌≤◌, ◌<◌, ◌≡◌, ◌≢◌, ◌⊎◌, ◌↔◌, inl, inr, refl, some, none, Option, Bool-cases,
  ltb, sym, ◌∙◌, List, [], ◌∷◌, arith, true, false, ◌==◌, get_elem?, length,
}
use fenestra_voli_edition.Unicode.{Bytes}
use fenestra_voli_edition.Unicode.Sjis.{
  Tables, with_rest, is_single, double_index, next_code_unit, masked, decode_autotranslate,
  next_sjis_code_point,
}

-- The index of a pair of bytes is outside the table of 11,200 characters only for 0xFC and a control
-- character.
double_index-le :
    (a b : ℕ)
    → a < 256
    → b < 256
    → is_single a ≡ false
    → a ≢ 0xFD
    → 0x20 ≤ a
    → 0 < b
    → (11200 ≤ double_index a b) ↔ ((a ≡ 0xFC) × (b < 0x1F))
unfolding double_index
double_index-le a b ha hb s n k p = (
  λ h. (ground (arith, h, ha, s, k), ground (arith, h, ha, hb, s, k)),
  λ h. ground (arith, h, hb, p),
)

get_elem?-none : {A : Type 0} (xs : List A) (i : ℕ) → (get_elem? xs i ≡ none) ↔ (length xs ≤ i)
get_elem?-none [] i = ((λ h. omega arith), λ h. refl)
get_elem?-none (x ∷ xs) zero = ((λ h. absurd (cc (h))), λ h. absurd (omega (arith, h)))
get_elem?-none (x ∷ xs) (suc i) =
    let (to, from) = get_elem?-none xs i in
    ((λ h. omega (arith, to h)), λ h. from (omega (arith, h)))

with_rest-none : (rest : Bytes) (o : Option ℕ) → (with_rest rest o ≡ none) ↔ (o ≡ none)
with_rest-none rest none = ((λ h. refl), λ h. refl)
with_rest-none rest (some c) = ((λ h. absurd (cc (h))), λ h. absurd (cc (h)))

module _ (t : Tables) (a b : ℕ) (rest : Bytes) where
  single_read :
      is_single a ≡ true
      → next_sjis_code_point t (a ∷ b ∷ rest)
        ≡ with_rest (b ∷ rest) (get_elem? t.decode_single_byte a)
  unfolding next_sjis_code_point next_code_unit
  single_read s = rw (next_sjis_code_point, s) refl

  -- Two bytes that are looked up together.
  IsDouble : Type 0
  IsDouble = (is_single a ≡ false) × (0x20 ≤ a) × (a ≢ 0xFD) × (0 < b)

  double_read :
      IsDouble
      → next_sjis_code_point t (a ∷ b ∷ rest)
        ≡ with_rest rest (get_elem? t.decode_double_byte (double_index a b))
  unfolding next_sjis_code_point next_code_unit IsDouble
  double_read (s, k, n, p) = rw (next_sjis_code_point, s) (ground (arith, s, k, n, p))

  other_read :
      is_single a ≡ false
      → (b ≡ 0) ⊎ (a < 0x20) ⊎ (a ≡ 0xFD)
      → next_sjis_code_point t (a ∷ b ∷ rest) ≢ none
  unfolding next_sjis_code_point next_code_unit
  other_read s (inl h) e = absurd (ground (arith, s, h, e))
  other_read s (inr (inl h)) e = absurd (ground (arith, s, h, e))
  other_read s (inr (inr h)) e = absurd (ground (arith, s, h, e))

  double_or_other : is_single a ≡ false → IsDouble ⊎ ((b ≡ 0) ⊎ (a < 0x20) ⊎ (a ≡ 0xFD))
  unfolding IsDouble
  double_or_other s = elim (Bool-cases (b == 0)) [
    | inl h ↦ inr (inl (ground (arith, h)))
    | inr h ↦ elim (Bool-cases (ltb a 0x20)) [
      | inl k ↦ inr (inr (inl (ground (arith, k))))
      | inr k ↦ elim (Bool-cases (a == 0xFD)) [
        | inl n ↦ inr (inr (inr (ground (arith, n))))
        | inr n ↦ inl (s, ground (arith, k), ground (arith, n), ground (arith, h))
      ]
    ]
  ]

-- Next_code_point fails on two bytes in front, with tables of the code's sizes, exactly if they are
-- 0xFC and a control character below 0x1F: their index is outside the table.
pub next_sjis_code_point-none :
    (t : Tables) (a b : ℕ) (rest : Bytes)
    → length t.decode_single_byte ≡ 256
    → length t.decode_double_byte ≡ 11200
    → a < 256
    → b < 256
    → (next_sjis_code_point t (a ∷ b ∷ rest) ≡ none) ↔ ((a ≡ 0xFC) × (0 < b) × (b < 0x1F))
unfolding IsDouble
next_sjis_code_point-none t a b rest e f ha hb = elim (Bool-cases (is_single a)) [
  | inl s ↦
      let read = single_read t a b rest s in
      (
        (λ h.
            let missing =
              (with_rest-none (b ∷ rest) (get_elem? t.decode_single_byte a)).0 (sym read ∙ h) in
            absurd (omega (arith, (get_elem?-none t.decode_single_byte a).0 missing, e, ha))),
        (λ h. absurd (ground (arith, h.0, s))),
      )
  | inr s ↦ elim (double_or_other t a b rest s) [
    | inl (q, k, n, p) ↦
        let read = double_read t a b rest (q, k, n, p) in
        let table = get_elem?-none t.decode_double_byte (double_index a b) in
        let lookup = with_rest-none rest (get_elem? t.decode_double_byte (double_index a b)) in
        let index = double_index-le a b ha hb s n k p in
        (
          (λ h.
              let outside = table.0 (lookup.0 (sym read ∙ h)) in
              let (c, d) = index.0 (omega (arith, outside, f)) in (c, p, d)),
          λ h. read ∙ lookup.1 (table.1 (omega (arith, index.1 (h.0, h.2), f))),
        )
    | inr o ↦ (
      (λ h. absurd (other_read t a b rest s o h)),
      λ h. elim o [
        | inl z ↦ absurd (omega (arith, z, h.1))
        | inr (inl z) ↦ absurd (omega (arith, z, h.0))
        | inr (inr z) ↦ absurd (omega (arith, z, h.0))
      ],
    )
  ]
]

-- A phrase is decoded to a number that is no code point exactly if its type has both bytes, in the range
-- for the private planes from 0x100000 on, and these are 0xFFFE or 0xFFFF.
pub decode_autotranslate_outside :
    (b d e : ℕ)
    → d < 256
    → e < 256
    → (0x10FFFF < decode_autotranslate b d e)
      ↔ ((0x07 ≤ b) × (b ≤ 0x12) × (b % 4 ≡ 3) × (d ≡ 0xFF) × (0xFE ≤ e))
unfolding decode_autotranslate masked
decode_autotranslate_outside b d e hd he = (
  (λ h. (
    ground (arith, h, hd, he),
    ground (arith, h, hd, he),
    ground (arith, h, hd, he),
    ground (arith, h, hd, he),
    ground (arith, h, hd, he),
  )),
  λ h. ground (arith, h, hd, he),
)
