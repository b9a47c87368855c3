-- ===== src/Commands/Parse.antt =====
-- core/src/command_manager.cpp: `parse_command`, a state machine over a table.
-- A cursor is an offset `it` with `rest`, the bytes from there on. The loop takes fuel: it reads a
-- code point in each round but its last, so one round more than there are bytes is enough.
pub mod Reference
pub mod Correct
use fenestra_voli_edition.Base.{
  ℕ, zero, suc, ◌+◌, ◌≡◌, refl, Bool, true, false, ◌||◌, Option, none, some, List, [], ◌∷◌, ◌==◌,
  if◌then◌else◌, length, get_elem?, drop,
}
use fenestra_voli_edition.Unicode.{Bytes, Icu, next_code_point}
use fenestra_voli_edition.Commands.Names.{is_name_char}

pub data Code : Type 0 where
  p1 p2 p3 p4 p5 : Code

-- The code, mark, begin and end of a `syntax_error`.
pub record SyntaxError : Type 0 where
  pub code : Code
  pub mark_index : ℕ
  pub begin_index : ℕ
  pub end_index : ℕ

abbrev pub Range : Type 0
Range = ℕ × ℕ

pub record Parsed : Type 0 where
  pub component : Option Range
  pub command : Range

-- `fault` is an index outside the table, the call of `fail_fast`, or fuel that ran out.
pub data Result (A : Type 0) : Type 0 where
  ok : A → Result A
  syntax_error : SyntaxError → Result A
  fault : Result A

-- The next state; `halt` is the table's -1.
pub data Next : Type 0 where
  go : ℕ → Next
  halt : Next

abbrev state_table : List (List (Next × ℕ))
state_table =
    ((go 1, 2) ∷ (go 0, 4) ∷ (go 0, 4) ∷ (go 0, 4) ∷ (halt, 4) ∷ [])
    ∷ ((go 0, 7) ∷ (go 2, 1) ∷ (go 3, 0) ∷ (go 0, 7) ∷ (halt, 5) ∷ [])
    ∷ ((go 0, 8) ∷ (go 0, 6) ∷ (go 4, 0) ∷ (go 0, 8) ∷ (halt, 6) ∷ [])
    ∷ ((go 0, 7) ∷ (go 2, 1) ∷ (go 3, 0) ∷ (go 0, 7) ∷ (halt, 3) ∷ [])
    ∷ ((go 0, 8) ∷ (go 0, 8) ∷ (go 4, 0) ∷ (go 0, 8) ∷ (halt, 3) ∷ [])
    ∷ []

-- `gsl::at(gsl::at(state_table, state), char_class)`
unfoldable pub entry : ℕ → ℕ → Option (Next × ℕ)
entry state char_class = elim (get_elem? state_table state) [
  | none ↦ none
  | some row ↦ get_elem? row char_class
]

-- The lambda `next`: the class of the character at the offset.
unfoldable pub class_of : Icu → ℕ → ℕ
class_of icu c =
    if c == b'/'
    then 0
    else if c == b':'
    then 1
    else if is_name_char c
    then 2
    else if icu.is_whitespace c
    then 4
    else 3

-- The class, and the number of bytes that were read.
unfoldable pub next : Icu → Bytes → ℕ × ℕ
next icu [] = (4, 0)
next icu (b ∷ bs) = let (c, n) = next_code_point icu (b ∷ bs) in (class_of icu c, n)

pub record State : Type 0 where
  pub it : ℕ
  pub rest : Bytes
  pub mark : ℕ
  pub first : Option Range
  pub second : Range

abbrev at_it : Code → State → Result State
at_it code s =
    syntax_error (record { code = code; mark_index = s.it; begin_index = s.it; end_index = s.it })

abbrev from_mark : Code → State → Result State
from_mark code s =
    syntax_error (record { code = code; mark_index = s.it; begin_index = s.mark; end_index = s.it })

-- The `switch` on the action; the second number is `next_it`.
unfoldable pub act : ℕ → ℕ → State → Result State
act action next_it s =
    if action == 0
    then ok s
    else if action == 1
    then ok (record s { first = some (s.mark, s.it); mark = next_it })
    else if action == 2
    then ok (record s { mark = next_it })
    else if action == 3
    then ok (record s { second = (s.mark, s.it) })
    else if action == 4
    then at_it p1 s
    else if action == 5
    then at_it p2 s
    else if action == 6
    then at_it p3 s
    else if action == 7
    then from_mark p4 s
    else if action == 8
    then from_mark p5 s
    else fault

abbrev pub advance : ℕ → State → State
advance n s = record s { it = s.it + n; rest = drop n s.rest }

-- One round: the next state and the locals, with `it = next_it` done.
unfoldable pub round : Icu → ℕ → State → Result (Next × State)
round icu state s =
    let (char_class, n) = next icu s.rest in
    elim (entry state char_class) [
      | none ↦ fault
      | some (next_state, action) ↦ elim (act action (s.it + n) s) [
        | ok s' ↦ ok (next_state, advance n s')
        | syntax_error e ↦ syntax_error e
        | fault ↦ fault
      ]
    ]

unfoldable pub loop : ℕ → Icu → ℕ → State → Result Parsed
loop zero icu state s = fault
loop (suc fuel) icu state s = elim (round icu state s) [
  | ok (next_state, s') ↦ elim next_state [
    | halt ↦ ok (record { component = s'.first; command = s'.second })
    | go state' ↦ loop fuel icu state' s'
  ]
  | syntax_error e ↦ syntax_error e
  | fault ↦ fault
]

unfoldable pub parse_command : Icu → Bytes → Result Parsed
parse_command icu command_string =
    loop (length command_string + 1) icu 0
      (record { it = 0; rest = command_string; mark = 0; first = none; second = (0, 0) })
