-- ===== src/Commands/Unescape.antt =====
-- core/src/command_manager.cpp: `unescape`, a state machine over the bytes of a string.
-- The bytes from `mark` up to the offset are `pending`.
pub mod Correct
pub mod Digits
use fenestra_voli_edition.Base.{
  ℕ, ◌+◌, ◌*◌, ◌/◌, ◌%◌, ◌^◌, ◌||◌, Option, none, some, List, [], ◌∷◌, ◌++◌, ◌==◌, leb, within,
  if◌then◌else◌, get_elem?,
}
use fenestra_voli_edition.Unicode.{Bytes}

-- The next state and the action. The row's last entry, for the end, is always -1 and the action 1.
abbrev pub state_table : List (List (ℕ × ℕ))
state_table =
    ((1, 1) ∷ (0, 0) ∷ (0, 0) ∷ (0, 0) ∷ (0, 0) ∷ (0, 0) ∷ [])
    ∷ ((0, 0) ∷ (2, 2) ∷ (0, 0) ∷ (0, 0) ∷ (0, 0) ∷ (0, 0) ∷ [])
    ∷ ((1, 1) ∷ (0, 0) ∷ (3, 3) ∷ (4, 0) ∷ (0, 0) ∷ (0, 0) ∷ [])
    ∷ ((1, 1) ∷ (0, 0) ∷ (5, 3) ∷ (0, 0) ∷ (0, 0) ∷ (0, 0) ∷ [])
    ∷ ((1, 1) ∷ (0, 0) ∷ (6, 3) ∷ (0, 0) ∷ (0, 0) ∷ (0, 0) ∷ [])
    ∷ ((1, 1) ∷ (0, 0) ∷ (7, 3) ∷ (0, 0) ∷ (0, 0) ∷ (0, 0) ∷ [])
    ∷ ((1, 1) ∷ (0, 0) ∷ (8, 3) ∷ (0, 0) ∷ (0, 5) ∷ (0, 0) ∷ [])
    ∷ ((1, 1) ∷ (0, 0) ∷ (0, 4) ∷ (0, 0) ∷ (0, 5) ∷ (0, 0) ∷ [])
    ∷ ((1, 1) ∷ (0, 0) ∷ (9, 3) ∷ (0, 0) ∷ (0, 5) ∷ (0, 0) ∷ [])
    ∷ ((1, 1) ∷ (0, 0) ∷ (10, 3) ∷ (0, 0) ∷ (0, 5) ∷ (0, 0) ∷ [])
    ∷ ((1, 1) ∷ (0, 0) ∷ (11, 3) ∷ (0, 0) ∷ (0, 5) ∷ (0, 0) ∷ [])
    ∷ ((1, 1) ∷ (0, 0) ∷ (12, 3) ∷ (0, 0) ∷ (0, 5) ∷ (0, 0) ∷ [])
    ∷ ((1, 1) ∷ (0, 0) ∷ (0, 0) ∷ (0, 0) ∷ (0, 5) ∷ (0, 0) ∷ [])
    ∷ []

-- `gsl::at(gsl::at(state_table, state), char_class)`, out of range none.
unfoldable pub entry : ℕ → ℕ → Option (ℕ × ℕ)
entry state char_class = elim (get_elem? state_table state) [
  | none ↦ none
  | some row ↦ get_elem? row char_class
]

-- The lambda `next`, on a byte.
unfoldable pub class_of : ℕ → ℕ
class_of c =
    if c == b'\\'
    then 0
    else if c == b'u'
    then 1
    else if within b'0' b'9' c || within b'A' b'F' c || within b'a' b'f' c
    then 2
    else if c == b'{'
    then 3
    else if c == b'}'
    then 4
    else 5

-- `((c | 0x1B0) * 0x0E422D48U) >> 28`: the bits of 0x1B0, and the four low bits and the bit 6 of `c`.
unfoldable pub hex_value : ℕ → ℕ
hex_value c = (0x1B0 + c % 2 ^ 4 + c / 2 ^ 6 % 2 * 2 ^ 6) * 0x0E422D48 % 2 ^ 32 / 2 ^ 28

-- `value << 4 | ...`, 32 bits wide; the digit has four bits.
unfoldable pub shift_in : ℕ → ℕ → ℕ
shift_in value c = value * 2 ^ 4 % 2 ^ 32 + hex_value c

pub record State : Type 0 where
  pub result : Bytes
  pub pending : Bytes
  pub value : ℕ

-- `append` writes a code point in UTF-8.
module _ (append : ℕ → Bytes) where
  unfoldable pub put_value : ℕ → ℕ → State → State
  put_value value c s =
      if leb value 0x10FFFF
      then record { result = s.result ++ append value; pending = []; value = value }
      else record s { pending = s.pending ++ c ∷ []; value = value }

  -- The `switch` on the action, with `it = next_it` done.
  unfoldable pub act : ℕ → ℕ → State → Option State
  act action c s =
      if action == 0
      then some (record s { pending = s.pending ++ c ∷ [] })
      else if action == 1
      then some (record s { result = s.result ++ s.pending; pending = [] })
      else if action == 2
      then some (record s { pending = s.pending ++ c ∷ []; value = 0 })
      else if action == 3
      then some (record s { pending = s.pending ++ c ∷ []; value = shift_in s.value c })
      else if action == 4
      then some (put_value (shift_in s.value c) c s)
      else if action == 5
      then some (put_value s.value c s)
      else none

  unfoldable pub round : ℕ → ℕ → State → Option (ℕ × State)
  round state c s = elim (entry state (class_of c)) [
    | none ↦ none
    | some (next_state, action) ↦ elim (act action c s) [
      | none ↦ none
      | some s' ↦ some (next_state, s')
    ]
  ]

  unfoldable pub loop : Bytes → ℕ → State → Option Bytes
  loop [] state s = some (s.result ++ s.pending)
  loop (c ∷ rest) state s = elim (round state c s) [
    | none ↦ none
    | some (next_state, s') ↦ loop rest next_state s'
  ]

  -- None is the call of `fail_fast`, or an index outside the table.
  unfoldable pub unescape : Bytes → Option Bytes
  unescape string = loop string 0 (record { result = []; pending = []; value = 0 })
