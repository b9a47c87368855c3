-- ===== src/Numbers.antt =====
-- core/src/utility.cpp: `to_u8string` over integers, with the base at its default, ten.
-- The room is that of the buffer: `digits10` characters for a type without a sign, one more for a
-- signed type. `none` stands for a text whose characters `std::to_chars` leaves open, since they
-- found no room.
pub mod Room
mod Tests
use fenestra_voli_edition.Base.{
  ℕ, zero, suc, ◌+◌, ◌/◌, ◌%◌, Bool, Option, none, some, List, [], ◌∷◌, ltb, leb, if◌then◌else◌,
  length,
}

-- `std::to_chars`: the digits of a number, in front of those that are written.
unfoldable pub to_digits : ℕ → ℕ → List ℕ → List ℕ
to_digits zero value ds = ds
to_digits (suc fuel) value ds =
    let rest = to_digits fuel (value / 10) ((b'0' + value % 10) ∷ ds) in
    if ltb value 10 then (b'0' + value) ∷ ds else rest

abbrev pub sign : Bool → List ℕ → List ℕ
sign negative ds = if negative then b'-' ∷ ds else ds

unfoldable pub to_chars : ℕ → List ℕ → Option (List ℕ)
to_chars room text = if leb (length text) room then some text else none

unfoldable pub to_u8string : ℕ → ℕ → Option (List ℕ)
to_u8string digits10 value = to_chars digits10 (to_digits (suc value) value [])

-- A signed number is given as its sign and its size.
unfoldable pub to_u8string_signed : ℕ → Bool → ℕ → Option (List ℕ)
to_u8string_signed digits10 negative value =
    to_chars (digits10 + 1) (sign negative (to_digits (suc value) value []))
