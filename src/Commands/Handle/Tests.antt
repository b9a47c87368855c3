-- ===== src/Commands/Handle/Tests.antt =====
-- core/src/command_manager.cpp: aliases and `handle_command` on a small manager.
use Prim.Native.Char.{code}
use Prim.Native.String.{String}
use fenestra_voli_edition.Base.{
  ℕ, ◌≡◌, refl, Bool, true, false, none, some, List, [], ◌∷◌, ◌==◌, if◌then◌else◌,
}
use fenestra_voli_edition.Base.Order.{compare_text}
use fenestra_voli_edition.Unicode.{Bytes, ascii_only, next_code_point}
use fenestra_voli_edition.Commands.Names.{check_name, find_first_not_of, is_name_char}
use fenestra_voli_edition.Commands.Parse.{parse_command, loop, round, entry, act, next, class_of}
use fenestra_voli_edition.Commands.Registry.{Manager, core, addon, is_eq}
use fenestra_voli_edition.Commands.Handle.{
  Outcome, Reply, done, returned, handle_command, register_alias, resolve_alias, validate_command,
  put_alias,
}
use fenestra_voli_edition.Commands.Handle.{
  expand, resolve_alias, alias_of, substring, dispatch, count_behind, name_of, substring_opt, run,
  arguments_of, thrown, fault,
}
use fenestra_voli_edition.Commands.Registry.{
  find, find_layers, equal_range, find_in, compare_descriptor, register_command, put, lower_bound,
  place, unregister_command, compare_view,
}
use fenestra_voli_edition.Base.Order.{compare_pair}
use fenestra_voli_edition.Commands.Registry.Sorted.{Operation, register, step}
use fenestra_voli_edition.Commands.Handle.Reached.{
  Reached, constructed, operated, empty, handle_command-Reached,
}
use fenestra_voli_edition.Commands.Handle.Aliases.{register_alias-resolve_alias}

abbrev codes : String → Bytes
codes String.[] = []
codes (String.◌∷◌ c s) = code c ∷ codes s

-- The tag 7 has expired, the tag 1 is alive.
abbrev small : Manager
small = record {
  client_commands = [];
  core_commands =
      record {
        component = codes "core";
        command = codes "help";
        tag = 7;
        handler = 3;
        raw = false;
        layer = core;
      }
      ∷ [];
  addon_commands =
      record {
        component = codes "pkg";
        command = codes "help";
        tag = 1;
        handler = 4;
        raw = true;
        layer = addon;
      }
      ∷ [];
  script_commands = [];
  default_tag = 1;
  aliases = (codes "q", codes "/quit") ∷ [];
}

-- The handlers note their number.
abbrev note_handler : ℕ → List Bytes → List ℕ → Reply × List ℕ
note_handler h arguments s = (done, h ∷ s)

abbrev no_callback : Bytes → List ℕ → Bool × List ℕ
no_callback command_string s = (false, s)

abbrev one_byte : ℕ → Bytes
one_byte c = c ∷ []

abbrev help_core : Operation
help_core = register core (codes "pkg") (codes "help") 3 true (some 7)

abbrev help_addon : Operation
help_addon = register addon (codes "pkg") (codes "help") 4 true none

abbrev registered : Manager
registered = step (step (empty 1) help_core) help_addon

registered-Reached : Reached registered
registered-Reached =
    operated help_addon (step (empty 1) help_core)
      (operated help_core (empty 1) (constructed 1 refl) refl) refl

handle_command-Reached_example :
    (r : Outcome (Unit {0}) × Manager × List ℕ) × (handle_command one_byte ascii_only
        (◌==◌ 1)
        note_handler
        no_callback
        (codes "/help me")
        registered
        []
      ≡ some r)
handle_command-Reached_example =
    handle_command-Reached one_byte ascii_only (◌==◌ 1) note_handler no_callback (codes "/help me")
      registered [] registered-Reached

abbrev with_alias : Manager
with_alias = record small { aliases = (codes "h", codes "/help") ∷ (codes "q", codes "/quit") ∷ [] }

with_alias_registered :
    register_alias ascii_only (codes "h") (codes "/help") small ≡ returned with_alias
unfolding register_alias validate_command put_alias parse_command loop round entry act next class_of
    is_name_char next_code_point check_name find_first_not_of compare_text
with_alias_registered = refl

register_alias-resolve_alias_example : resolve_alias (codes "h") with_alias ≡ (
    if is_eq (compare_text (codes "h") (codes "h"))
    then some (codes "/help")
    else resolve_alias (codes "h") small)
register_alias-resolve_alias_example =
    register_alias-resolve_alias ascii_only (codes "h") (codes "/help") small (codes "h")
      with_alias_registered

-- A command whose tag has expired, with two others behind it.
abbrev crowded : Manager
crowded =
    step
      (step (step (empty 7) (register core (codes "core") (codes "a") 1 false none))
        (register core (codes "core") (codes "b") 2 false (some 1)))
      (register core (codes "core") (codes "c") 3 false (some 1))

handle_command-overwritten :
    handle_command one_byte ascii_only (◌==◌ 1) note_handler no_callback (codes "/a") crowded []
    ≡ some (thrown fault, crowded, [])
unfolding handle_command expand resolve_alias alias_of substring dispatch find find_layers
    equal_range find_in count_behind name_of substring_opt compare_descriptor compare_pair
    compare_text step register_command check_name find_first_not_of put lower_bound place run
    arguments_of unregister_command compare_view parse_command loop round entry act next class_of
    is_name_char next_code_point
handle_command-overwritten = refl
