-- ===== src/Scanner/Tests.antt =====
-- core/src/scanner.cpp and scanner.hpp on small inputs.
use Prim.Native.Char.{code}
use Prim.Native.String.{String}
use fenestra_voli_edition.Base.{
  ℕ, ◌≡◌, refl, true, false, Option, none, some, [], ◌∷◌, length, arith,
}
use fenestra_voli_edition.Unicode.{Bytes}
use fenestra_voli_edition.Scanner.Signature.{
  Cell, Signature, initial, ok, signature, loop, round, entry, class_of, act, put_byte, value,
}
use fenestra_voli_edition.Scanner.Signature.Cells.{byte, any, cells, signature-print}
use fenestra_voli_edition.Scanner.Match.{match_, search, equal, Section}
use fenestra_voli_edition.Scanner.Match.First.{IsFirst, match_-IsFirst}

abbrev codes : String → Bytes
codes String.[] = []
codes (String.◌∷◌ c s) = code c ∷ codes s

abbrev cell : ℕ → Cell
cell b = record { data_ = b; mask = 0xFF }

-- A mark in the middle, and a gap.
signature-runs :
    signature (codes "8B*??EC")
    ≡ ok (record {
      cells = cell 0x8B ∷ record { data_ = 0; mask = 0 } ∷ cell 0xEC ∷ [];
      offset_up = 1;
      offset_down = 0;
      dereference = true;
      high_nibble = 14;
      mask_count = 0;
    })
unfolding signature loop round entry class_of act put_byte value
signature-runs = refl

signature-print_example :
    (s : Signature) × (signature (codes "8B??EC") ≡ ok s)
    × (s.cells ≡ cells (byte 0x8B ∷ any ∷ byte 0xEC ∷ []))
    × (s.dereference ≡ true)
    × (s.offset_up ≡ length s.cells)
    × (s.offset_down ≡ 0)
signature-print_example =
    signature-print 0x8B (any ∷ byte 0xEC ∷ []) (omega arith) (omega arith, tt) (omega arith)

abbrev bytes : Bytes
bytes = 1 ∷ 7 ∷ 2 ∷ 7 ∷ 9 ∷ 0 ∷ []

match_-IsFirst_example :
    (r : Option ℕ) × (match_ (cell 7 ∷ cell 9 ∷ []) bytes ≡ some r)
    × IsFirst (cell 7 ∷ cell 9 ∷ []) bytes 4 r
match_-IsFirst_example =
    match_-IsFirst (cell 7) (cell 9 ∷ []) refl bytes (omega arith) (omega arith)

abbrev sig : Signature
sig = record initial { cells = cell 7 ∷ cell 9 ∷ []; dereference = false }

found : match_ sig.cells bytes ≡ some (some 3)
unfolding match_ search equal
found = refl

abbrev code_section : Section
code_section = record { executable = true; address = 0x1000; bytes = 1 ∷ 2 ∷ 3 ∷ [] }

abbrev data_section : Section
data_section = record { executable = false; address = 0x2000; bytes = 7 ∷ 9 ∷ 0 ∷ [] }

not_in_code : match_ sig.cells (1 ∷ 2 ∷ 3 ∷ []) ≡ some none
unfolding match_ search equal
not_in_code = refl
