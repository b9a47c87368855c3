-- ===== src/Bindings/Parse.antt =====
-- core/src/binding_manager.cpp: `parse_bind_string`, a table-driven parser with a stack.
pub mod Table
pub mod Fails
use fenestra_voli_edition.Base.{
  ℕ, zero, suc, ◌+◌, ◌-◌, Bool, true, false, not, ◌&&◌, ◌||◌, Option, none, some, List, [], ◌∷◌,
  ◌++◌, ◌==◌, ltb, if◌then◌else◌, length, take, drop, get_elem?,
}
use fenestra_voli_edition.Unicode.{Bytes, Icu, next_code_point}
use fenestra_voli_edition.Bindings.Parse.Table.{
  ℤ, pos, negsuc, parse_table, push_map, letters_m, letters_n, letters_u,
}

abbrev pub start_state : ℕ
start_state = 10

abbrev contains : ℕ → List ℕ → Bool
contains c [] = false
contains c (x ∷ xs) = (c == x) || contains c xs

-- The `switch` on a code point.
unfoldable pub class_of : Icu → ℕ → ℕ
class_of icu c =
    if c == b'+'
    then 0
    else if c == b':'
    then 1
    else if c == b'['
    then 2
    else if c == b']'
    then 3
    else if contains c letters_m
    then 4
    else if contains c letters_n
    then 5
    else if contains c letters_u
    then 6
    else if c == b'~'
    then 7
    else if icu.is_whitespace c
    then 8
    else 9

-- `next_token`: the token, and the offset behind it. The text is decoded where the string is empty.
unfoldable pub next_token : Icu → Bytes → ℕ → ℕ × ℕ
next_token icu [] offset =
    let (c, taken) = next_code_point icu [] in (class_of icu c, offset + taken)
next_token icu (b ∷ bs) offset = (10, offset)

pub record ParsedKey : Type 0 where
  pub device_offset : ℕ
  pub device_size : ℕ
  pub key_offset : ℕ
  pub key_size : ℕ

pub record ParsedFlag : Type 0 where
  pub negated : Bool
  pub name_offset : ℕ
  pub name_size : ℕ

-- The local variables, with `parse_result`; the top of the stack of states is its head.
pub record State : Type 0 where
  pub keys : List ParsedKey
  pub flags : List ParsedFlag
  pub marks : List ℕ
  pub stack : List ℤ
  pub next : ℕ
  pub index : ℕ
  pub input : ℕ

-- `syntax_error` has the state, the type and the three offsets; `internal` is the `runtime_error`;
-- `fault` is an access outside a table.
pub data Result (A : Type 0) : Type 0 where
  ok : A → Result A
  syntax_error : ℕ → ℕ → ℕ → ℕ → ℕ → Result A
  internal fault out_of_fuel : Result A

abbrev pub last_or : ℕ → List ℕ → ℕ
last_or d [] = d
last_or d (x ∷ xs) = last_or x xs

unfoldable pub complete_key : State → Result State
complete_key s = elim s.marks [
  | a ∷ [] ↦ ok (record s {
    keys =
        s.keys
        ++ record { device_offset = a; device_size = a; key_offset = a; key_size = s.index } ∷ [];
    marks = [];
  })
  | a ∷ b ∷ c ∷ [] ↦ ok (record s {
    keys =
        s.keys
        ++ record { device_offset = a; device_size = b; key_offset = c; key_size = s.index } ∷ [];
    marks = [];
  })
  | _ ↦ internal
]

unfoldable pub complete_flag : State → Result State
complete_flag s = elim s.marks [
  | a ∷ [] ↦ ok (record s {
    flags = s.flags ++ record { negated = true; name_offset = a; name_size = s.index } ∷ [];
    marks = [];
  })
  | a ∷ b ∷ [] ↦ ok (record s {
    flags = s.flags ++ record { negated = false; name_offset = b; name_size = s.index } ∷ [];
    marks = [];
  })
  | _ ↦ internal
]

-- `action_table`. The entries behind the third are null.
unfoldable pub act : ℕ → State → Result State
act action s =
    if action == 0
    then ok (record s { marks = s.marks ++ s.index ∷ [] })
    else if action == 1
    then complete_key s
    else if action == 2
    then complete_flag s
    else fault

unfoldable pub lookup : ℕ → ℕ → Option ℤ
lookup state input = elim (get_elem? parse_table state) [
  | none ↦ none
  | some row ↦ get_elem? row input
]

-- `push_back` of the first symbols, one by one.
abbrev pub push_all : List ℤ → List ℤ → List ℤ
push_all [] stack = stack
push_all (x ∷ xs) stack = push_all xs (x ∷ stack)

-- A transition that is not negative.
unfoldable pub expand : Icu → Bytes → ℕ → ℕ → State → Result State
expand icu source current transition s =
    let (token, after) = next_token icu source s.next in
    let s' =
      if s.input == current then record s { index = s.next; next = after; input = token } else s in
    elim (get_elem? push_map transition) [
      | none ↦ fault
      | some (count, symbols) ↦ ok (record s' { stack = push_all (take count symbols) s'.stack })
    ]

-- A round ends the parse, or goes on.
pub data Turn : Type 0 where
  done : State → Turn
  more : State → Turn

abbrev pub rejected : ℕ → ℕ → State → Result Turn
rejected state type s = syntax_error state type s.index (last_or s.index s.marks) s.next

-- The body of the loop, behind the `pop_back`.
unfoldable pub round : Icu → Bool → Bytes → ℤ → State → Result Turn
round icu match_all source (negsuc action) s = elim (act action s) [
  | ok s' ↦ ok (more s')
  | syntax_error a b c d e ↦ syntax_error a b c d e
  | internal ↦ internal
  | fault ↦ fault
  | out_of_fuel ↦ out_of_fuel
]
round icu match_all source (pos current) s = elim (lookup current s.input) [
  | none ↦ fault
  | some (pos transition) ↦ elim (expand icu source current transition s) [
    | ok s' ↦ ok (more s')
    | syntax_error a b c d e ↦ syntax_error a b c d e
    | internal ↦ internal
    | fault ↦ fault
    | out_of_fuel ↦ out_of_fuel
  ]
  | some (negsuc n) ↦
      if ltb n 2
      then rejected current n s
      else if match_all
      then rejected current (n - 2) s
      else ok (done s)
]

-- Behind the loop.
unfoldable pub finish : Bool → Bytes → State → Result State
finish match_all source s =
    if match_all && not (s.index == length source)
    then syntax_error start_state 1 s.index s.index (length source)
    else ok s

unfoldable pub loop : ℕ → Icu → Bool → Bytes → State → Result State
loop zero icu match_all source s = out_of_fuel
loop (suc fuel) icu match_all source s = elim s.stack [
  | [] ↦ finish match_all source s
  | symbol ∷ stack ↦ elim (round icu match_all source symbol (record s { stack = stack })) [
    | ok (more s') ↦ loop fuel icu match_all source s'
    | ok (done s') ↦ ok s'
    | syntax_error a b c d e ↦ syntax_error a b c d e
    | internal ↦ internal
    | fault ↦ fault
    | out_of_fuel ↦ out_of_fuel
  ]
]

unfoldable pub parse_bind_string : ℕ → Icu → Bytes → Bool → Result State
parse_bind_string fuel icu source match_all =
    let (token, after) = next_token icu source 0 in
    loop fuel icu match_all source (record {
      keys = [];
      flags = [];
      marks = [];
      stack = pos start_state ∷ [];
      next = after;
      index = 0;
      input = token;
    })
