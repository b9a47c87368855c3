-- ===== src/Commands/Handle.antt =====
-- core/src/command_manager.cpp: aliases, and `handle_command`.
-- `σ` is the state of the code that the handlers and the unknown command's callback run; they do not
-- change the manager.
pub mod Total
pub mod Reached
pub mod Aliases
mod Tests
use Prim.Native.Nat.Ordering.{lt}
use fenestra_voli_edition.Base.{
  ℕ, zero, suc, ◌+◌, ◌-◌, Bool, true, false, Option, none, some, List, [], ◌∷◌, ◌++◌, if◌then◌else◌,
  take, drop, length, ltb,
}
use fenestra_voli_edition.Base.Order.{compare_text}
use fenestra_voli_edition.Unicode.{Bytes, Icu}
use fenestra_voli_edition.Commands.Parse
use fenestra_voli_edition.Commands.Parse.{Range, Parsed, SyntaxError, parse_command}
use fenestra_voli_edition.Commands.Arguments.{parse_arguments}
use fenestra_voli_edition.Commands.Registry.{
  Manager, Descriptor, NameView, Error, a1, checked, non_empty, find, unregister_command, at, is_lt,
  is_eq, ok, err, compare_descriptor,
}

-- What is thrown: an error of the registry, one of `parse_command`, or "CMD:X1"; and a fault, where what the
-- source does is not defined.
pub data Failure : Type 0 where
  registry : Error → Failure
  syntax : SyntaxError → Failure
  x1 unknown fault : Failure

pub data Outcome (A : Type 0) : Type 0 where
  returned : A → Outcome A
  thrown : Failure → Outcome A

-- The iterator of `std::lower_bound` on the aliases, and what `register_alias` does there.
unfoldable pub put_alias : Bytes → Bytes → List (Bytes × Bytes) → List (Bytes × Bytes)
put_alias alias command [] = (alias, command) ∷ []
put_alias alias command (x ∷ xs) =
    let rest = put_alias alias command xs in
    if is_lt (compare_text x.0 alias)
    then x ∷ rest
    else if is_eq (compare_text x.0 alias)
    then (alias, command) ∷ xs
    else (alias, command) ∷ x ∷ xs

-- `validate_command`
unfoldable pub validate_command : Icu → Bytes → Outcome (Unit {0})
validate_command icu command_string = elim (parse_command icu command_string) [
  | Parse.ok p ↦ returned tt
  | Parse.syntax_error e ↦ thrown (syntax e)
  | Parse.fault ↦ thrown fault
]

unfoldable pub register_alias : Icu → Bytes → Bytes → Manager → Outcome Manager
register_alias icu alias command m = elim (checked alias) [
  | err e ↦ thrown (registry e)
  | ok _ ↦ elim (non_empty alias a1) [
    | err e ↦ thrown (registry e)
    | ok _ ↦ elim (validate_command icu command) [
      | thrown e ↦ thrown e
      | returned _ ↦ returned (record m { aliases = put_alias alias command m.aliases })
    ]
  ]
]

unfoldable pub remove_alias : Bytes → List (Bytes × Bytes) → List (Bytes × Bytes)
remove_alias alias [] = []
remove_alias alias (x ∷ xs) =
    let rest = remove_alias alias xs in if is_eq (compare_text x.0 alias) then rest else x ∷ rest

unfoldable pub unregister_alias : Bytes → Manager → Manager
unregister_alias alias m = record m { aliases = remove_alias alias m.aliases }

-- `std::lower_bound` and the test on the name found there.
unfoldable pub alias_of : Bytes → List (Bytes × Bytes) → Option Bytes
alias_of name [] = none
alias_of name (x ∷ xs) =
    let rest = alias_of name xs in
    if is_lt (compare_text x.0 name)
    then rest
    else if is_eq (compare_text x.0 name)
    then some x.1
    else none

unfoldable pub resolve_alias : Bytes → Manager → Option Bytes
resolve_alias name m = alias_of name m.aliases

-- The two `substring`s.
unfoldable pub substring : Bytes → Range → Bytes
substring string range = take (range.1 - range.0) (drop range.0 string)

unfoldable pub substring_opt : Bytes → Option Range → Option Bytes
substring_opt string none = none
substring_opt string (some range) = some (substring string range)

-- The string to handle and its parts, once an alias is expanded.
unfoldable pub expand : Icu → Bytes → Manager → Outcome (Bytes × Parsed)
unfolding substring
expand icu command_string m = elim (parse_command icu command_string) [
  | Parse.syntax_error e ↦ thrown (syntax e)
  | Parse.fault ↦ thrown fault
  | Parse.ok p ↦ elim p.component [
    | some c ↦ returned (command_string, p)
    | none ↦ elim (resolve_alias (substring command_string p.command) m) [
      | none ↦ returned (command_string, p)
      | some alias ↦
          let expanded = alias ++ drop p.command.1 command_string in
          elim (parse_command icu expanded) [
            | Parse.syntax_error e ↦ thrown (syntax e)
            | Parse.fault ↦ thrown fault
            | Parse.ok q ↦ returned (expanded, q)
          ]
    ]
  ]
]

-- How a handler ends: it returns, throws a `command_error`, or another exception.
pub data Reply : Type 0 where
  done : Reply
  command_error : Failure → Reply
  exception : Reply

-- `unlimited`
abbrev unlimited : ℕ
unlimited = 0xFFFFFFFF

unfoldable pub name_of : Bytes → Parsed → NameView
unfolding substring_opt
name_of command_string p = record {
  component = substring_opt command_string p.component;
  command = substring command_string p.command;
}

-- `u8'/'`, the command and what stands behind it, for a raw command; else the parsed arguments.
unfoldable pub arguments_of : (ℕ → Bytes) → Icu → Bytes → Parsed → Descriptor → Option (List Bytes)
arguments_of put_utf8 icu command_string p d =
    if d.raw
    then some ((b'/' ∷ substring command_string p.command ++ drop p.command.1 command_string) ∷ [])
    else parse_arguments put_utf8 icu (drop p.command.1 command_string) unlimited

-- The number of commands, in all layers.
abbrev pub count_commands : Manager → ℕ
count_commands m =
    length m.client_commands
    + length m.core_commands
    + length m.addon_commands
    + length m.script_commands

-- How many commands stand behind the one of this name in a list.
unfoldable pub count_behind : Descriptor → List Descriptor → ℕ
count_behind d [] = 0
count_behind d (x ∷ xs) =
    let rest = count_behind d xs in if is_eq (compare_descriptor x d) then length xs else rest

-- `unregister_command` is given views into the descriptor itself. `std::remove` moves the command behind it
-- over it, and reads the views again if there is one more: views into a string that has been assigned to.
abbrev pub reads_overwritten : Descriptor → Manager → Bool
reads_overwritten d m = ltb 1 (count_behind d (at d.layer m))

module _ {σ : Type 0} (put_utf8 : ℕ → Bytes) (icu : Icu) (alive : ℕ → Bool)
    (handler : ℕ → List Bytes → σ → Reply × σ)
    (trigger_unknown_command : Bytes → σ → Bool × σ) where
  -- The rest of a round, for a command whose tag is alive.
  unfoldable pub run : Bytes → Parsed → Descriptor → σ → Outcome (Unit {0}) × σ
  run command_string p d s = elim (arguments_of put_utf8 icu command_string p d) [
    | none ↦ (thrown fault, s)
    | some arguments ↦
        let (reply, s') = handler d.handler arguments s in
        elim reply [
          | done ↦ (returned tt, s')
          | command_error e ↦ (thrown e, s')
          | exception ↦ (thrown x1, s')
        ]
  ]

  -- Behind the loop.
  unfoldable pub run_unknown : Bytes → Parsed → σ → Outcome (Unit {0}) × σ
  run_unknown command_string p s = elim p.component [
    | some c ↦ (thrown unknown, s)
    | none ↦
        let (handled, s') = trigger_unknown_command command_string s in
        if handled then (returned tt, s') else (thrown unknown, s')
  ]

  -- The loop, on fuel: a round that goes on has taken a command out of the manager.
  unfoldable pub dispatch :
      ℕ → Bytes → Parsed → Manager → σ → Option (Outcome (Unit {0}) × Manager × σ)
  dispatch zero command_string p m s = none
  dispatch (suc fuel) command_string p m s = elim (find (name_of command_string p) m) [
    | err e ↦ some (thrown (registry e), m, s)
    | ok none ↦ let (o, s') = run_unknown command_string p s in some (o, m, s')
    | ok (some d) ↦
        let turn =
          dispatch fuel command_string p (unregister_command d.layer d.component d.command m) s in
        let (o, s') = run command_string p d s in
        if alive d.tag
        then some (o, m, s')
        else if reads_overwritten d m
        then some (thrown fault, m, s)
        else turn
  ]

  unfoldable pub handle_command : Bytes → Manager → σ → Option (Outcome (Unit {0}) × Manager × σ)
  handle_command command_string m s = elim (expand icu command_string m) [
    | thrown e ↦ some (thrown e, m, s)
    | returned (string, p) ↦ dispatch (count_commands m + 1) string p m s
  ]
