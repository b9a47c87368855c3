-- ===== src/Unicode/Sjis/Tests.antt =====
-- core/src/unicode.cpp: Shift JIS on single texts.
use fenestra_voli_edition.Base.{
  ℕ, zero, suc, ◌≡◌, inl, refl, some, List, [], ◌∷◌, ◌++◌, arith, length,
}
use fenestra_voli_edition.Unicode.{Bytes}
use fenestra_voli_edition.Unicode.Sjis.{Tables, next_sjis_code_point, append_sjis}
use fenestra_voli_edition.Unicode.Sjis.Phrases.{next_sjis_code_point-append_sjis}

abbrev zeros : ℕ → List ℕ
zeros zero = []
zeros (suc n) = 0 ∷ zeros n

length-zeros : (n : ℕ) → length (zeros n) ≡ n
length-zeros zero = refl
length-zeros (suc n) = omega (arith, length-zeros n)

tables : Tables
tables = record { decode_single_byte = zeros 256; decode_double_byte = zeros 11200; encode = [] }

-- The phrase 0x0200 of the upper plane, in English.
next_sjis_code_point-append_sjis_example :
    (bs : Bytes) × (append_sjis tables (b'a' ∷ []) 0x100200 2 ≡ some (b'a' ∷ [] ++ bs))
    × (next_sjis_code_point tables (bs ++ b'b' ∷ []) ≡ some (0x100200, b'b' ∷ []))
next_sjis_code_point-append_sjis_example =
    next_sjis_code_point-append_sjis 0x100200 tables (b'a' ∷ []) (b'b' ∷ []) 2
      (inl (omega arith, omega arith)) (omega arith) (omega arith)
