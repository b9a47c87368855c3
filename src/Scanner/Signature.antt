-- ===== src/Scanner/Signature.antt =====
-- core/src/scanner.hpp: the constructor of `signature`, a state machine over a table.
-- The arrays are the lists of their first `m_size` elements, of data and mask together; those behind
-- are zero. `m_offset`, which may be negative, is kept as what was added to it and what was taken off.
pub mod Cells
use fenestra_voli_edition.Base.{
  ℕ, zero, suc, ◌+◌, ◌-◌, ◌*◌, ◌/◌, ◌%◌, ◌^◌, Bool, true, false, ◌||◌, Option, none, some, List, [],
  ◌∷◌, ◌++◌, ◌==◌, leb, within, if◌then◌else◌, length, get_elem?,
}
use fenestra_voli_edition.Unicode.{Bytes}

pub data Next : Type 0 where
  go : ℕ → Next
  halt : Next

abbrev pub state_table : List (List (Next × ℕ))
state_table =
    ((go 3, 1) ∷ (go 2, 0) ∷ (go 1, 0) ∷ (go 1, 5) ∷ (go 0, 8) ∷ (halt, 9) ∷ [])
    ∷ ((go 5, 1) ∷ (go 4, 0) ∷ (go 0, 10) ∷ (go 0, 10) ∷ (go 0, 8) ∷ (halt, 9) ∷ [])
    ∷ ((go 0, 11) ∷ (go 0, 0) ∷ (go 0, 11) ∷ (go 0, 11) ∷ (go 0, 11) ∷ (halt, 9) ∷ [])
    ∷ ((go 6, 2) ∷ (go 0, 12) ∷ (go 0, 12) ∷ (go 0, 12) ∷ (go 0, 12) ∷ (halt, 9) ∷ [])
    ∷ ((go 0, 11) ∷ (go 1, 3) ∷ (go 0, 11) ∷ (go 0, 11) ∷ (go 0, 11) ∷ (halt, 9) ∷ [])
    ∷ ((go 7, 2) ∷ (go 0, 12) ∷ (go 0, 12) ∷ (go 0, 12) ∷ (go 0, 12) ∷ (halt, 9) ∷ [])
    ∷ ((go 3, 1) ∷ (go 8, 0) ∷ (go 7, 7) ∷ (go 7, 6) ∷ (go 0, 8) ∷ (halt, 7) ∷ [])
    ∷ ((go 5, 1) ∷ (go 9, 0) ∷ (go 0, 10) ∷ (go 0, 10) ∷ (go 0, 8) ∷ (halt, 0) ∷ [])
    ∷ ((go 0, 11) ∷ (go 6, 4) ∷ (go 0, 11) ∷ (go 0, 11) ∷ (go 0, 11) ∷ (halt, 9) ∷ [])
    ∷ ((go 0, 11) ∷ (go 7, 4) ∷ (go 0, 11) ∷ (go 0, 11) ∷ (go 0, 11) ∷ (halt, 9) ∷ [])
    ∷ []

unfoldable pub entry : ℕ → ℕ → Option (Next × ℕ)
entry state char_class = elim (get_elem? state_table state) [
  | none ↦ none
  | some row ↦ get_elem? row char_class
]

-- The lambda `next`, on a character.
unfoldable pub class_of : ℕ → ℕ
class_of c =
    if within b'0' b'9' c || within b'A' b'F' c || within b'a' b'f' c
    then 0
    else if c == b'?'
    then 1
    else if c == b'*'
    then 2
    else if c == b'&'
    then 3
    else 4

-- The lambda `value`: `((c | 0x1B0) * 0x0E422D48U) >> 28`.
unfoldable pub value : ℕ → ℕ
value c = (0x1B0 + c % 2 ^ 4 + c / 2 ^ 6 % 2 * 2 ^ 6) * 0x0E422D48 % 2 ^ 32 / 2 ^ 28

-- `std::hardware_constructive_interference_size`
abbrev pub max_size : ℕ
max_size = 64

-- One element of data and mask.
pub record Cell : Type 0 where
  pub data_ : ℕ
  pub mask : ℕ

abbrev pub gap : Cell
gap = record { data_ = 0; mask = 0 }

abbrev pub gaps : ℕ → List Cell
gaps zero = []
gaps (suc n) = gap ∷ gaps n

-- The fields and the locals.
pub record Signature : Type 0 where
  pub cells : List Cell
  pub offset_up : ℕ
  pub offset_down : ℕ
  pub dereference : Bool
  pub high_nibble : ℕ
  pub mask_count : ℕ

-- The numbers of the `syntax_error`s "SIG:1" to "SIG:6", with the offset.
pub data Result (A : Type 0) : Type 0 where
  ok : A → Result A
  syntax_error : ℕ → ℕ → Result A
  fault : Result A

-- The action 2.
unfoldable pub put_byte : ℕ → ℕ → Signature → Result Signature
put_byte offset c s =
    if leb max_size (length s.cells + s.mask_count)
    then syntax_error 1 offset
    else ok (record s {
      cells =
          (s.cells ++ gaps s.mask_count)
          ++ record { data_ = s.high_nibble * 2 ^ 4 + value c; mask = 0xFF } ∷ [];
      mask_count = 0;
    })

-- The `switch` on the action; `c` is the character at the offset, if there is one.
unfoldable pub act : ℕ → ℕ → ℕ → Signature → Result Signature
act action offset c s =
    if action == 0
    then ok s
    else if action == 1
    then ok (record s { high_nibble = value c })
    else if action == 2
    then put_byte offset c s
    else if action == 3
    then ok (record s { offset_down = s.offset_down + 1 })
    else if action == 4
    then ok (record s { mask_count = s.mask_count + 1 })
    else if action == 5
    then ok (record s { dereference = false })
    else if action == 6
    then ok (record s { dereference = false; offset_up = length s.cells; offset_down = 0 })
    else if action == 7
    then ok (record s { offset_up = length s.cells; offset_down = 0 })
    else if within 8 12 action
    then syntax_error (action - 6) offset
    else fault

-- A round at a character, and the last one, at the end.
unfoldable pub round : ℕ → ℕ → ℕ → ℕ → Signature → Result (Next × Signature)
round state char_class offset c s = elim (entry state char_class) [
  | none ↦ fault
  | some (next_state, action) ↦ elim (act action offset c s) [
    | ok s' ↦ ok (next_state, s')
    | syntax_error n o ↦ syntax_error n o
    | fault ↦ fault
  ]
]

unfoldable pub loop : Bytes → ℕ → ℕ → Signature → Result Signature
loop [] state offset s = elim (round state 5 offset 0 s) [
  | ok (next_state, s') ↦ elim next_state [ halt ↦ ok s' | go state' ↦ fault ]
  | syntax_error n o ↦ syntax_error n o
  | fault ↦ fault
]
loop (c ∷ cs) state offset s = elim (round state (class_of c) offset c s) [
  | ok (next_state, s') ↦ elim next_state [
    | halt ↦ ok s'
    | go state' ↦ loop cs state' (offset + 1) s'
  ]
  | syntax_error n o ↦ syntax_error n o
  | fault ↦ fault
]

abbrev pub initial : Signature
initial = record {
  cells = [];
  offset_up = 0;
  offset_down = 0;
  dereference = true;
  high_nibble = 0;
  mask_count = 0;
}

unfoldable pub signature : Bytes → Result Signature
signature string = loop string 0 0 initial
