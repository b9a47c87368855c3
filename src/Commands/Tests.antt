-- ===== src/Commands/Tests.antt =====
-- core/src/command_manager.cpp on concrete command lines and commands.
use Prim.Native.Char.{code}
use Prim.Native.String.{String}
use fenestra_voli_edition.Base.{
  ◌≡◌, refl, false, none, some, [], ◌∷◌, ◌&&◌, if◌then◌else◌, ℕ, List, length, ◌≤◌, arith, ap,
}
use fenestra_voli_edition.Base.Order.{compare_text, compare_pair}
use fenestra_voli_edition.Unicode.{Bytes, ascii_only, next_code_point}
use fenestra_voli_edition.Commands.Names.{check_name, find_first_not_of, is_name_char}
use fenestra_voli_edition.Commands.Parse.{
  parse_command, loop, round, entry, act, next, class_of, ok, syntax_error, p4,
}
use fenestra_voli_edition.Commands.Parse.Reference.{reference}
use fenestra_voli_edition.Commands.Parse.Correct.{parse_command-reference}
use fenestra_voli_edition.Commands.Arguments.{parse_arguments}
use fenestra_voli_edition.Commands.Arguments.Total.{parse_arguments_total}
use fenestra_voli_edition.Commands.Arguments.Words.{Words, parse_arguments-unwords}
use fenestra_voli_edition.Commands.Registry
use fenestra_voli_edition.Commands.Registry.{
  Manager, Layer, client, core, addon, script, at, update, put, Descriptor, register_command,
  unregister_command, new_descriptor, find, err, l2, is_eq,
}
use fenestra_voli_edition.Commands.Registry.Sorted.{IsValid, register, step, step-IsValid}
use fenestra_voli_edition.Commands.Registry.Lookup.{
  lookup, lookup_layers, find-lookup_layers, register_command-lookup, unregister_command-lookup,
  same_layer,
}

-- The code points of a text; every one below is ASCII.
abbrev codes : String → Bytes
codes String.[] = []
codes (String.◌∷◌ c s) = code c ∷ codes s

parse_command-runs :
    parse_command ascii_only (codes "/pkg:load chat")
    ≡ ok (record { component = some (1, 4); command = (5, 9) })
unfolding parse_command loop round entry act next class_of is_name_char next_code_point
parse_command-runs = refl

parse_command-throws :
    parse_command ascii_only (codes "/pkg,x")
    ≡ syntax_error (record { code = p4; mark_index = 4; begin_index = 1; end_index = 4 })
unfolding parse_command loop round entry act next class_of is_name_char next_code_point
parse_command-throws = refl

parse_command-reference_example :
    parse_command ascii_only (codes "/pkg:load chat")
    ≡ reference ascii_only (codes "/pkg:load chat")
parse_command-reference_example = parse_command-reference ascii_only (codes "/pkg:load chat")

-- `/pkg:load` of the core, and one layer without commands.
abbrev load : Descriptor
load = record {
  component = codes "pkg";
  command = codes "load";
  tag = 0;
  handler = 1;
  raw = false;
  layer = core;
}

abbrev manager : Manager
manager = record {
  client_commands = [];
  core_commands = load ∷ [];
  addon_commands = [];
  script_commands = [];
  default_tag = 0;
  aliases = [];
}

manager-IsValid : IsValid manager
manager-IsValid client = tt
manager-IsValid core = tt
manager-IsValid addon = tt
manager-IsValid script = tt

step-IsValid_example :
    IsValid (step manager (register core (codes "pkg") (codes "list") 2 false none))
step-IsValid_example =
    step-IsValid manager (register core (codes "pkg") (codes "list") 2 false none) manager-IsValid

find-lookup_layers_example :
    find (record { component = some (codes "pkg"); command = codes "load" }) manager
    ≡ elim (lookup_layers (codes "load", codes "pkg") manager) [
      | none ↦ err l2
      | some d ↦ Registry.ok (some d)
    ]
find-lookup_layers_example = find-lookup_layers (codes "load", codes "pkg") manager manager-IsValid

unregister_command-lookup_example :
    let m = unregister_command core (codes "pkg") (codes "load") manager in
    (lookup (codes "load", codes "pkg") (at core m) ≡ (
      if same_layer core core
        && is_eq (compare_pair (codes "load", codes "pkg") (codes "load", codes "pkg"))
      then none
      else lookup (codes "load", codes "pkg") (at core manager)))
    × (m.aliases ≡ manager.aliases)
    × (m.default_tag ≡ manager.default_tag)
unregister_command-lookup_example =
    unregister_command-lookup core (codes "pkg") (codes "load") manager core
      (codes "load", codes "pkg")

listed : Descriptor
listed = new_descriptor core (codes "pkg") (codes "list") 2 false none manager

register_command-runs :
    register_command core (codes "pkg") (codes "list") 2 false none manager
    ≡ Registry.ok (update core (listed ∷ load ∷ []) manager)
unfolding register_command check_name find_first_not_of put compare_pair compare_text listed
    Registry.compare_descriptor
register_command-runs = refl

register_command-lookup_example :
    lookup (codes "list", codes "pkg") (at core (update core (listed ∷ load ∷ []) manager)) ≡ (
      if same_layer core core
        && is_eq (compare_pair (codes "list", codes "pkg") (codes "list", codes "pkg"))
      then some (new_descriptor core (codes "pkg") (codes "list") 2 false none manager)
      else lookup (codes "list", codes "pkg") (at core manager))
register_command-lookup_example =
    register_command-lookup core (codes "pkg") (codes "list") 2 false none manager core
      (codes "list", codes "pkg") manager-IsValid register_command-runs

-- A code point is written as one byte.
abbrev one_byte : ℕ → Bytes
one_byte c = c ∷ []

parse_arguments_total_example :
    (out : List Bytes) × (parse_arguments one_byte ascii_only (codes "one 'two three' four") 2
      ≡ some out)
    × (length out ≤ 3)
parse_arguments_total_example =
    parse_arguments_total one_byte ascii_only (codes "one 'two three' four") 2

greeting : Words (codes "hi" ∷ codes "you" ∷ [])
greeting = (
  (λ e. absurd (omega (arith, ap length e))),
  (refl, (refl, tt)),
  ((λ e. absurd (omega (arith, ap length e))), (refl, (refl, (refl, tt))), tt),
)

parse_arguments-unwords_example :
    parse_arguments one_byte ascii_only (codes "hi you ") 5 ≡ some (codes "hi" ∷ codes "you" ∷ [])
parse_arguments-unwords_example =
    parse_arguments-unwords one_byte ascii_only (codes "hi" ∷ codes "you" ∷ []) 5 greeting
      (omega arith)
