-- ===== src/Commands/Registry.antt =====
-- core/src/command_manager.cpp: the table of commands, `register_command` to `find`.
-- A `weak_ptr` is the number of the object that it watches; which objects are alive is an argument.
-- A handler is the number of a function.
pub mod Sorted
pub mod Lookup
use Prim.Native.Nat.{Ordering}
use Prim.Native.Nat.Ordering.{lt, eq, gt}
use fenestra_voli_edition.Base.{
  ℕ, ◌≡◌, refl, Bool, true, false, not, ◌&&◌, Option, none, some, List, [], ◌∷◌, ◌++◌,
  if◌then◌else◌, length, ◌==◌,
}
use fenestra_voli_edition.Base.Order.{compare_text, compare_pair}
use fenestra_voli_edition.Unicode.{Bytes}
use fenestra_voli_edition.Commands.Names.{check_name}

pub data Layer : Type 0 where
  client core addon script : Layer

pub record Descriptor : Type 0 where
  pub component : Bytes
  pub command : Bytes
  pub tag : ℕ
  pub handler : ℕ
  pub raw : Bool
  pub layer : Layer

-- `name_view`
pub record NameView : Type 0 where
  pub component : Option Bytes
  pub command : Bytes

-- `descriptor::operator<=>`: the command first, then the component.
abbrev pub key : Descriptor → Bytes × Bytes
key d = (d.command, d.component)

unfoldable pub compare_descriptor : Descriptor → Descriptor → Ordering
compare_descriptor a b = compare_pair (key a) (key b)

abbrev pub view_of : Descriptor → NameView
view_of d = record { component = some d.component; command = d.command }

compare_component : Option Bytes → Option Bytes → Ordering
compare_component none _ = eq
compare_component (some c) none = eq
compare_component (some c) (some d) = compare_text c d

-- `name_view::operator<=>`: a missing component is equivalent to any.
unfoldable pub compare_view : NameView → NameView → Ordering
unfolding compare_component
compare_view a b =
    let rest = compare_component a.component b.component in
    elim (compare_text a.command b.command) [ lt ↦ lt | eq ↦ rest | gt ↦ gt ]

abbrev pub is_lt : Ordering → Bool
is_lt lt = true
is_lt eq = false
is_lt gt = false

abbrev pub is_eq : Ordering → Bool
is_eq lt = false
is_eq eq = true
is_eq gt = false

-- `std::lower_bound`, as the elements in front of the position and those from there on.
unfoldable pub lower_bound : Descriptor → List Descriptor → List Descriptor × List Descriptor
lower_bound d [] = ([], [])
lower_bound d (x ∷ xs) =
    let (before, from) = lower_bound d xs in
    if is_lt (compare_descriptor x d) then (x ∷ before, from) else ([], x ∷ xs)

-- Insertion in front of the position, or assignment to the element there.
unfoldable pub place : Descriptor → List Descriptor → List Descriptor
place d [] = d ∷ []
place d (x ∷ xs) = if is_lt (compare_descriptor d x) then d ∷ x ∷ xs else d ∷ xs

unfoldable pub put : Descriptor → List Descriptor → List Descriptor
unfolding lower_bound place
put d commands = let (before, from) = lower_bound d commands in before ++ place d from

-- `m_commands`, the default tag and the aliases.
pub record Manager : Type 0 where
  pub client_commands : List Descriptor
  pub core_commands : List Descriptor
  pub addon_commands : List Descriptor
  pub script_commands : List Descriptor
  pub default_tag : ℕ
  pub aliases : List (Bytes × Bytes)

-- `m_commands.at(layer)`
abbrev pub at : Layer → Manager → List Descriptor
at client m = m.client_commands
at core m = m.core_commands
at addon m = m.addon_commands
at script m = m.script_commands

abbrev pub update : Layer → List Descriptor → Manager → Manager
update client ds m = record m { client_commands = ds }
update core ds m = record m { core_commands = ds }
update addon ds m = record m { addon_commands = ds }
update script ds m = record m { script_commands = ds }

-- `syntax_error`s: "CMD:N1" with its offset, "CMD:R1", "CMD:A1", "CMD:L1" with the candidates, "CMD:L2".
pub data Error : Type 0 where
  n1 : ℕ → Error
  r1 a1 l2 : Error
  l1 : List (Bytes × Bytes) → Error

pub data Result (A : Type 0) : Type 0 where
  ok : A → Result A
  err : Error → Result A

infixl 5 ◌>>=◌ ◌>>◌
abbrev pub ◌>>=◌ : {A B : Type 0} → Result A → (A → Result B) → Result B
ok a >>= f = f a
err e >>= f = err e

abbrev pub ◌>>◌ : {B : Type 0} → Result (Unit {0}) → Result B → Result B
m >> k = m >>= λ _. k

abbrev pub checked : Bytes → Result (Unit {0})
checked name = elim (check_name name) [ none ↦ ok tt | some offset ↦ err (n1 offset) ]

abbrev pub non_empty : Bytes → Error → Result (Unit {0})
non_empty [] e = err e
non_empty (b ∷ bs) e = ok tt

abbrev or_default : Option ℕ → ℕ → ℕ
or_default none d = d
or_default (some t) d = t

abbrev pub new_descriptor : Layer → Bytes → Bytes → ℕ → Bool → Option ℕ → Manager → Descriptor
new_descriptor layer component command handler raw tag m = record {
  component = component;
  command = command;
  tag = or_default tag m.default_tag;
  handler = handler;
  raw = raw;
  layer = layer;
}

unfoldable pub register_command :
    Layer → Bytes → Bytes → ℕ → Bool → Option ℕ → Manager → Result Manager
register_command layer component command handler raw tag m = do
  checked component
  checked command
  non_empty command r1
  ok (update layer (put (new_descriptor layer component command handler raw tag m) (at layer m)) m)

same_component : Option Bytes → Option Bytes → Bool
same_component none _ = true
same_component (some c) none = true
same_component (some c) (some d) = is_eq (compare_text c d)

-- `name_view::operator==`
unfoldable pub same_name : NameView → NameView → Bool
unfolding same_component
same_name a b = is_eq (compare_text a.command b.command) && same_component a.component b.component

-- `std::remove` and `erase`
unfoldable pub remove : NameView → List Descriptor → List Descriptor
remove name [] = []
remove name (x ∷ xs) =
    let rest = remove name xs in if same_name (view_of x) name then rest else x ∷ rest

unfoldable pub unregister_command : Layer → Bytes → Bytes → Manager → Manager
unregister_command layer component command m =
    update layer (remove (record { component = some component; command = command }) (at layer m)) m

-- The elements whose tag is alive.
unfoldable pub living : (ℕ → Bool) → List Descriptor → List Descriptor
living alive [] = []
living alive (x ∷ xs) = let rest = living alive xs in if alive x.tag then x ∷ rest else rest

unfoldable pub purge : (ℕ → Bool) → Manager → Manager
purge alive m = record m {
  client_commands = living alive m.client_commands;
  core_commands = living alive m.core_commands;
  addon_commands = living alive m.addon_commands;
  script_commands = living alive m.script_commands;
}

-- `std::equal_range` on a sorted range: the elements that are equivalent to the name.
unfoldable pub equal_range : NameView → List Descriptor → List Descriptor
equal_range name [] = []
equal_range name (x ∷ xs) =
    let rest = equal_range name xs in
    if is_eq (compare_view (view_of x) name) then x ∷ rest else rest

-- The names in the exception, component and command.
options : List Descriptor → List (Bytes × Bytes)
options [] = []
options (d ∷ ds) = (d.component, d.command) ∷ options ds

-- One layer: its only candidate, an exception if there are several, else nothing.
unfoldable pub find_in : Option Bytes → List Descriptor → Result (Option Descriptor)
unfolding options
find_in component [] = ok none
find_in component (d ∷ []) = ok (some d)
find_in none (d ∷ e ∷ ds) = err (l1 (options (d ∷ e ∷ ds)))
find_in (some c) (d ∷ e ∷ ds) = ok none

-- The loop over the layers.
unfoldable pub find_layers : NameView → List (List Descriptor) → Result (Option Descriptor)
find_layers name [] = ok none
find_layers name (commands ∷ layers) =
    find_in name.component (equal_range name commands)
    >>= elim [ none ↦ find_layers name layers | some d ↦ ok (some d) ]

abbrev pub layers : Manager → List (List Descriptor)
layers m = m.client_commands ∷ m.core_commands ∷ m.addon_commands ∷ m.script_commands ∷ []

unfoldable pub missing : Option Bytes → Option Descriptor → Result (Option Descriptor)
missing component (some d) = ok (some d)
missing (some c) none = err l2
missing none none = ok none

unfoldable pub find : NameView → Manager → Result (Option Descriptor)
unfolding missing
find name m = find_layers name (layers m) >>= missing name.component
