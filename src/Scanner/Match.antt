-- ===== src/Scanner/Match.antt =====
-- core/src/scanner.cpp: `match` and `scan`. A section is its bytes and where they stand; the parsing of
-- the library's headers is left out. None is an iterator that leaves its span.
pub mod First
pub mod Repeats
use fenestra_voli_edition.Base.{
  ℕ, zero, suc, ◌+◌, ◌-◌, ◌%◌, ◌^◌, Bool, true, false, ◌&&◌, Option, none, some, List, [], ◌∷◌,
  ◌++◌, ◌==◌, leb, if◌then◌else◌, length, drop,
}
use fenestra_voli_edition.Unicode.{Bytes}
use fenestra_voli_edition.Scanner.Signature.{Cell, Signature}

-- `std::equal` behind the first byte. The masks are 0xFF and 0, so `b & mask` is a remainder.
unfoldable pub equal : List Cell → Bytes → Bool
equal [] bytes = true
equal (c ∷ cs) [] = false
equal (c ∷ cs) (b ∷ bs) = (c.data_ == (b % (c.mask + 1))) && equal cs bs

-- The loop with its `std::find`: `left` is the way to `end`, `i` the way from the beginning.
unfoldable pub search : Cell → List Cell → ℕ → Bytes → ℕ → Option ℕ
search c cs zero bytes i = none
search c cs (suc left) [] i = none
search c cs (suc left) (b ∷ bs) i =
    let rest = search c cs left bs (i + 1) in if (b == c.data_) && equal cs bs then some i else rest

-- `end` is as far in front of the data's end as the signature is long.
unfoldable pub match_ : List Cell → Bytes → Option (Option ℕ)
match_ [] data_ = none
match_ (c ∷ cs) data_ =
    if leb (length (c ∷ cs)) (length data_)
    then some (search c cs (length data_ - length (c ∷ cs)) data_ 0)
    else none

abbrev pub address_mod : ℕ
address_mod = 2 ^ 32

-- `result += sig.offset()`, and `*result`; `read` is the word in memory at an address.
unfoldable pub found_address : (ℕ → ℕ) → Signature → ℕ → ℕ
found_address read sig address =
    let result =
      if address == 0
      then 0
      else (address + sig.offset_up + address_mod - sig.offset_down) % address_mod in
    let target = if result == 0 then 0 else read result in
    if sig.dereference then target else result

-- The loop in one section, with room for so many results.
unfoldable pub scan_section :
    (ℕ → ℕ) → Signature → ℕ → ℕ → Bytes → Option (Option ℕ) → Option (List ℕ)
scan_section read sig room address data_ none = none
scan_section read sig room address data_ (some none) = some []
scan_section read sig zero address data_ (some (some i)) = some []
scan_section read sig (suc room) address data_ (some (some i)) =
    let rest =
      scan_section read sig room (address + i) (drop i data_) (match_ sig.cells (drop i data_)) in
    elim rest [ none ↦ none | some results ↦ some (found_address read sig (address + i) ∷ results) ]

pub record Section : Type 0 where
  pub executable : Bool
  pub address : ℕ
  pub bytes : Bytes

-- `get_data`
unfoldable pub get_data : Section → Bytes
get_data s = if s.executable then s.bytes else []

abbrev pub nulls : ℕ → List ℕ
nulls zero = []
nulls (suc n) = 0 ∷ nulls n

-- The loop over the sections, and the `std::fill` behind it.
unfoldable pub scan : (ℕ → ℕ) → Signature → ℕ → List Section → Option (List ℕ)
unfolding get_data
scan read sig room [] = some (nulls room)
scan read sig room (s ∷ ss) =
    elim (scan_section read sig room s.address (get_data s) (match_ sig.cells (get_data s))) [
      | none ↦ none
      | some results ↦
          let rest = scan read sig (room - length results) ss in
          if length results == room
          then some results
          else elim rest [ none ↦ none | some more ↦ some (results ++ more) ]
    ]
