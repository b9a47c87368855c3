-- ===== src/Commands/Arguments.antt =====
-- core/src/command_manager.cpp: `parse_arguments`, a state machine over the code points of a string.
-- The bytes from `mark` up to the offset are `pending`, those from there on are `rest`.
-- The loop takes fuel: each round but the last takes a code point off `rest`.
pub mod Total
pub mod Words
use fenestra_voli_edition.Base.{
  ℕ, zero, suc, ◌+◌, ◌-◌, Bool, true, false, not, Option, none, some, List, [], ◌∷◌, ◌++◌, ◌==◌,
  if◌then◌else◌, length, get_elem?, take, drop,
}
use fenestra_voli_edition.Unicode.{Bytes, Icu, next_code_point, is_autotranslate}
use fenestra_voli_edition.Commands.Parse.{Next, go, halt}
use fenestra_voli_edition.Commands.Unescape.{unescape}

abbrev pub state_table : List (List (Next × ℕ))
state_table =
    ((go 3, 0) ∷ (go 2, 1) ∷ (go 1, 1) ∷ (go 0, 3) ∷ (go 0, 1) ∷ (go 0, 0) ∷ (halt, 1) ∷ [])
    ∷ ((go 4, 0) ∷ (go 1, 0) ∷ (go 0, 2) ∷ (go 1, 0) ∷ (go 1, 0) ∷ (go 1, 0) ∷ (halt, 2) ∷ [])
    ∷ ((go 5, 0) ∷ (go 0, 2) ∷ (go 2, 0) ∷ (go 2, 0) ∷ (go 2, 0) ∷ (go 2, 0) ∷ (halt, 2) ∷ [])
    ∷ ((go 0, 0) ∷ (go 0, 0) ∷ (go 0, 0) ∷ (go 0, 0) ∷ (go 0, 0) ∷ (go 0, 0) ∷ (halt, 1) ∷ [])
    ∷ ((go 1, 0) ∷ (go 1, 0) ∷ (go 1, 0) ∷ (go 1, 0) ∷ (go 1, 0) ∷ (go 1, 0) ∷ (halt, 1) ∷ [])
    ∷ ((go 2, 0) ∷ (go 2, 0) ∷ (go 2, 0) ∷ (go 2, 0) ∷ (go 2, 0) ∷ (go 2, 0) ∷ (halt, 1) ∷ [])
    ∷ []

unfoldable pub entry : ℕ → ℕ → Option (Next × ℕ)
entry state char_class = elim (get_elem? state_table state) [
  | none ↦ none
  | some row ↦ get_elem? row char_class
]

-- The lambda `next`: the class of the character at the offset.
unfoldable pub class_of : Icu → ℕ → ℕ
class_of icu c =
    if c == b'\\'
    then 0
    else if c == b'\''
    then 1
    else if c == b'"'
    then 2
    else if is_autotranslate c
    then 3
    else if icu.is_whitespace c
    then 4
    else 5

-- The class, and the number of bytes that were read.
unfoldable pub next : Icu → Bytes → ℕ × ℕ
next icu [] = (6, 0)
next icu (b ∷ bs) = let (c, n) = next_code_point icu (b ∷ bs) in (class_of icu c, n)

-- `output`, and `count`, what is left of it.
pub record Output : Type 0 where
  pub arguments : List Bytes
  pub count : ℕ

pub record State : Type 0 where
  pub output : Output
  pub pending : Bytes
  pub rest : Bytes

abbrev pub emplace : Bytes → Output → Output
emplace argument o = record { arguments = o.arguments ++ argument ∷ []; count = o.count - 1 }

-- Behind the loop: what is left from the mark on, if anything, is the last argument.
unfoldable pub finish : State → List Bytes
finish s = elim (s.pending ++ s.rest) [
  | [] ↦ s.output.arguments
  | b ∷ bs ↦ s.output.arguments ++ (b ∷ bs) ∷ []
]

-- `put_utf8` is `append` of core/src/unicode.cpp, which `unescape` calls.
module _ (put_utf8 : ℕ → Bytes) where
  -- The lambda `append`. What it returns is whether `count` is left.
  unfoldable pub append : Bytes → Bool → Output → Option Output
  append [] false o = some o
  append [] true o = some (emplace [] o)
  append (b ∷ bs) allow_empty o = elim (unescape put_utf8 (b ∷ bs)) [
    | none ↦ none
    | some argument ↦ some (emplace argument o)
  ]

  -- The case 3, behind its first `append`.
  unfoldable pub append_alone : Bytes → Bytes → Output → Option State
  append_alone c rest o =
      if o.count == 0
      then some (record { output = o; pending = c; rest = rest })
      else elim (append c false o) [
        | none ↦ none
        | some o' ↦ some (record { output = o'; pending = []; rest = rest })
      ]

  -- The `switch` on the action, with `it = next_it` done; `c` are the bytes of the character.
  unfoldable pub act : ℕ → Bytes → Bytes → State → Option State
  act action c rest s =
      if action == 0
      then some (record { output = s.output; pending = s.pending ++ c; rest = rest })
      else if action == 1
      then elim (append s.pending false s.output) [
        | none ↦ none
        | some o ↦
            some (record { output = o; pending = if o.count == 0 then c else []; rest = rest })
      ]
      else if action == 2
      then elim (append s.pending true s.output) [
        | none ↦ none
        | some o ↦ some (record { output = o; pending = []; rest = rest })
      ]
      else if action == 3
      then elim (append s.pending false s.output) [ none ↦ none | some o ↦ append_alone c rest o ]
      else none

  unfoldable pub round : Icu → ℕ → State → Option (Next × State)
  round icu state s =
      let (char_class, n) = next icu s.rest in
      elim (entry state char_class) [
        | none ↦ none
        | some (next_state, action) ↦ elim (act action (take n s.rest) (drop n s.rest) s) [
          | none ↦ none
          | some s' ↦ some (next_state, s')
        ]
      ]

  -- None is a fault, or fuel that ran out.
  unfoldable pub loop : ℕ → Icu → ℕ → State → Option (List Bytes)
  loop zero icu state s = none
  loop (suc fuel) icu state s =
      if s.output.count == 0 then some (finish s) else elim (round icu state s) [
        | none ↦ none
        | some (next_state, s') ↦ elim next_state [
          | halt ↦ some (finish s')
          | go state' ↦ loop fuel icu state' s'
        ]
      ]

  unfoldable pub parse_arguments : Icu → Bytes → ℕ → Option (List Bytes)
  parse_arguments icu argument_string count = loop (length argument_string + 1) icu 0 (record {
    output = record { arguments = []; count = count };
    pending = [];
    rest = argument_string;
  })
