-- ===== src/Lib.antt =====
-- Fenestra's core: the parts of core/src that compute, modelled and proved.
--
-- The core is a library loaded into the game. It reads machine code to place its hooks
-- (core/src/hooklib/x86.cpp, trampoline.cpp), passes the game's packets through the Lua addons
-- (core/src/packet_queue.cpp, core/src/addon/modules/packet.cpp), routes command lines from the
-- chat, the console and the addons to their handlers (core/src/command_manager.cpp), orders the
-- packages of addons by their dependencies (core/src/addon/package_manager.cpp) and loads them
-- (core/src/addon/addon_manager.cpp), finds the game's
-- functions by patterns of their bytes (core/src/scanner.cpp), and hands keys that are pressed to the
-- bindings of the addons (core/src/binding_manager.cpp). The addons draw into windows, which
-- core/src/ui/window_manager.cpp orders, with texts that core/src/ui/markdown.cpp reads. The commands and the
-- packets meet the addons through functions of the Lua interpreters, which are arguments here;
-- text is walked with ICU, whose two functions are the fields of `Unicode.Icu`.
--
-- Files and sources:
-- - Base, Base/Tests, Base/Lists, Base/Order: shared names, tests on numbers, lists, the order of
--   byte strings (`std::u8string::compare`).
-- - Hooklib/X86/Opcode, Prefix, Length: `decode_mod_sib`, `decode_opcode_1`, `decode_prefix`,
--   `decode`, `next_instruction`. Code is a function from addresses to bytes. The loop over prefixes
--   takes fuel, one round more than there are prefixes.
-- - Hooklib/X86/Jump, Follow, Hotpatch: the constructors of `jump` and `thiscall_thunk`,
--   `follow_jumps` (fuel: one round more than there are jumps), `is_hotpatchable`.
-- - Packets/Header, Trigger, Queue: `packet_header`, `trigger_packet`, `packet_queue`. `none` stands
--   for an access outside a span or for fuel that ran out; Packets/Safety shows that there is none. A
--   `lua::error` of a handler leaves `trigger_packet` and `process_buffer`, and is a value here.
--   The first loop of `process_buffer` has the length of its input for fuel.
-- - Packets/Stream: what comes out, as lists of packets.
-- - Unicode: `next_code_point` over UTF-8, with what ICU documents of `U8_NEXT_OR_FFFD` and
--   `u_isWhitespace`.
-- - Commands/Names: `is_valid_name`, `check_name`.
-- - Commands/Parse: `parse_command` with its table; fuel is one round more than there are bytes.
--   Parse/Reference is the grammar of the comment above it as a recursive descent.
-- - Commands/Registry: descriptors, `register_command`, `unregister_command`, `purge`, `find`. A
--   `weak_ptr` is the number of its object. `lower_bound` and `equal_range` are modelled on the
--   sorted vectors that Registry/Sorted shows them to be.
-- - Commands/Unescape, Commands/Arguments: `unescape` and `parse_arguments` with their tables. The
--   bytes between the mark and the offset stand for the two. `unescape` recurs on its string; the
--   loop of `parse_arguments` has one round more than there are bytes. `append` of unicode.cpp, which
--   writes a code point, is an argument.
-- - Commands/Escape: `escape`, with one round of fuel more than there are bytes.
-- - Commands/Handle: the aliases and `handle_command`. The handlers, the callback for an unknown
--   command, and which tags are alive are arguments; a handler does not change the manager. The loop
--   over expired commands has one round more than there are commands; it is a fault where it hands
--   `unregister_command` views into strings that are assigned to. Handle/Reached has the managers that
--   calls lead to.
-- - Scheduler: wait states, `schedule`, `purge` and, in Scheduler/Run, `run_until_idle` of
--   core/src/addon/scheduler.cpp. The clock, the coroutines and the error handler are arguments over a
--   type of worlds; a coroutine that schedules a task while it runs is left out, as is `initialize`.
-- - Packages: `load_order_impl` of core/src/addon/package_manager.cpp, with `topological_sort`, and
--   Packages/Unload, `unload_order_impl` with `reverse_topological_sort`. The colours of the packages
--   are a function of their names. A call for a package that is in progress stops, so one more round
--   than there are packages is fuel enough. Types, paths and the lock are left out.
--   Unload/Asked has what may be in the order to unload.
-- - Packages/Cycle, Update: `throw_cycle_error` and `out_of_date`, on any fuel.
-- - Packages/Versions: `package_version` and its order, with `parse` of core/src/utility.cpp on
--   32-bit numbers.
-- - Scanner/Signature: the parser of core/src/scanner.hpp, by recursion on its string. Scanner/Match:
--   `match`, `get_data` and `scan` of core/src/scanner.cpp. Sections are given as bytes, with what
--   their headers say; memory is a function. `none` is an iterator that leaves its span.
-- - Bindings: keys and bindings of core/src/binding_manager.cpp, with `key_state` (`change_key` where it
--   sets a state), `lost_focus`, `process_message`, `insert_binding`. A `bitset` is a list of Booleans.
--   The handlers are an argument; they return and do not change the table.
-- - Bindings/Parse: `parse_bind_string` with its tables, on any fuel. Bindings/Devices, Create:
--   `register_device`, `unregister_device`, `find`, `create_binding`, `bind`, `unbind`. `nfkc_fold_case`
--   and `get_system_key` are arguments.
-- - Hooklib/Trampoline: the constructor of `trampoline::block` of core/src/hooklib/trampoline.cpp, in flat
--   memory: `fresh_block`, `locate`, then `install`, which is `fill_block` and `redirect`. The loop over
--   instructions has five rounds, since each takes a byte at least.
-- - Unicode/Sjis: `next_code_point`, `append` and `to_autotranslate_id` of core/src/unicode.cpp for Shift
--   JIS. The tables are arguments; `none` is an index outside a table.
-- - Numbers: `to_u8string` over integers of core/src/utility.cpp, with base ten and `std::to_chars` as it
--   is documented. A number has no more digits than itself and one, which is the fuel.
-- - Windows: `get`, `activate_window` and, in Windows/Update, `update` of core/src/ui/window_manager.cpp,
--   with the order of core/src/ui/window.cpp. A window is its index in `m_windows`; the order of two
--   depths, whether the mouse is inside a window, and `std::stable_sort` are arguments; the sort is relied on
--   for strict weak orders only. The loop over
--   the parents takes fuel, and gives none where they form a circle.
-- - Markdown, Tables, Options, Parse: core/src/ui/markdown.cpp. A text is a list of UTF-16 units, an index
--   stands with the rest of the text. A float is kept as its digits and what they are divided by, a
--   colour with a name as its name. `parse_inner` has one round more than there are characters.
-- - Addons: core/src/addon/addon_manager.cpp over the orders of Packages. An addon is its package; what its
--   interpreter does, the purge of the commands, and whether its weak pointer is held, are the fields of
--   `Host`, over a type of worlds; `addon::package` throws for one that is neither held nor installed. The
--   loop of `run_until_idle` gives a fault where the list that it runs over is changed.
-- - Addons/Dependency, Reached, Circle: `find_dependency` of core/src/addon/addon.cpp, on any fuel.
--
-- Not modelled: the Lua interface and the Lua modules, the user interface but for the
-- order of its windows and its marked-up texts, the hooks and
-- wrappers of Windows and DirectX functions, downloads and files, messages to the log, and the
-- launcher. Of the package manager, its sources, manifests and directories are left out; of the
-- scanner, the headers of the sections.
pub mod Base
pub mod Hooklib
pub mod Packets
pub mod Unicode
pub mod Commands
pub mod Scheduler
pub mod Packages
pub mod Scanner
pub mod Bindings
pub mod Numbers
pub mod Windows
pub mod Markdown
pub mod Addons
