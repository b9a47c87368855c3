-- ===== src/Bindings/Create.antt =====
-- core/src/binding_manager.cpp: `find`, `create_binding`, `bind` and `unbind`.
-- `fold` is `nfkc_fold_case`, `system_key` is `get_system_key`. The exceptions of `validate_command` have
-- no number here.
pub mod Fails
use Prim.Native.Nat.Ordering.{lt}
use fenestra_voli_edition.Base.{
  set, ℕ, zero, suc, ◌+◌, ◌-◌, Bool, true, false, not, ◌&&◌, Option, none, some, List, [], ◌∷◌,
  ◌++◌, ◌==◌, ltb, leb, if◌then◌else◌, length, take, drop, get_elem?,
}
use fenestra_voli_edition.Base.Order.{same_text, compare_text}
use fenestra_voli_edition.Unicode.{Bytes, Icu}
use fenestra_voli_edition.Bindings.{
  KeyHandle, Binding, DeviceDescriptor, KeyName, Manager, test_bit, insert_binding, unbind,
}
use fenestra_voli_edition.Bindings.Parse
use fenestra_voli_edition.Bindings.Parse.{ParsedKey, ParsedFlag, parse_bind_string}
use fenestra_voli_edition.Bindings.Devices.{
  Error, r1, r2, u1, narrowing, out_of_range, lookup, c1, parse, internal, invalid_command, Outcome,
  returned, thrown, fault, out_of_fuel, find_in,
}

abbrev names_key : Bytes → List (Bytes × DeviceDescriptor) → List KeyHandle
names_key key_name [] = []
names_key key_name ((device_name, d) ∷ ds) =
    let rest = names_key key_name ds in
    elim (find_in key_name d.keys) [
      | none ↦ rest
      | some k ↦ record { device_id = d.id; key_id = k.id } ∷ rest
    ]

-- `find` for the name of a key. The offset and the size are those of the name in the text.
unfoldable pub find_key : (Bytes → ℕ) → Bytes → ℕ → ℕ → Manager → Outcome KeyHandle
find_key system_key key_name offset size m =
    let system =
      if system_key key_name == 0
      then []
      else record { device_id = 0; key_id = system_key key_name } ∷ [] in
    elim (system ++ names_key key_name m.descriptors) [
      | [] ↦ thrown (lookup 1 offset) m
      | key ∷ [] ↦ returned key m
      | key ∷ other ∷ keys ↦ thrown (lookup 2 offset) m
    ]

-- `find` for the names of a device and a key.
unfoldable pub find_device_key : (Bytes → ℕ) → Bytes → Bytes → ℕ → ℕ → Manager → Outcome KeyHandle
find_device_key system_key [] key_name device_offset key_offset m =
    returned (record { device_id = 0; key_id = system_key key_name }) m
find_device_key system_key (b ∷ bs) key_name device_offset key_offset m =
    elim (find_in (b ∷ bs) m.descriptors) [
      | none ↦ thrown (lookup 3 device_offset) m
      | some d ↦ elim (find_in key_name d.keys) [
        | none ↦ thrown (lookup 4 key_offset) m
        | some k ↦ returned (record { device_id = d.id; key_id = k.id }) m
      ]
    ]

-- `basic_string_view::substr`
unfoldable pub substr : Bytes → ℕ → ℕ → Option Bytes
substr text offset size =
    if leb offset (length text) then some (take size (drop offset text)) else none

abbrev pub text_up : Bytes
text_up = b'u' ∷ b'p' ∷ []

abbrev pub text_chat : Bytes
text_chat = b'c' ∷ b'h' ∷ b'a' ∷ b't' ∷ []

-- `get_flag`
unfoldable pub get_flag : Bytes → Option ℕ
get_flag name =
    if same_text name text_up then some 0 else if same_text name text_chat then some 1 else none

module _ (fold : Bytes → Bytes) (system_key : Bytes → ℕ) (text : Bytes) where
  unfoldable pub key_of : ParsedKey → Manager → Outcome KeyHandle
  key_of k m = elim (substr text k.key_offset k.key_size) [
    | none ↦ thrown out_of_range m
    | some key_name ↦
        if k.device_offset == k.key_offset
        then find_key system_key (fold key_name) k.key_offset k.key_size m
        else elim (substr text k.device_offset k.device_size) [
          | none ↦ thrown out_of_range m
          | some device_name ↦
              find_device_key system_key (fold device_name) (fold key_name) k.device_offset
                k.key_offset m
        ]
  ]

  -- The loop over the keys. A device's id is below 64, the size of the mask.
  unfoldable pub add_keys : List ParsedKey → Manager → Binding → Outcome Binding
  add_keys [] m b = returned b m
  add_keys (k ∷ ks) m b = elim (key_of k m) [
    | returned key m' ↦
        add_keys ks m' (record b {
          device_mask = set b.device_mask key.device_id true;
          keys = b.keys ++ key ∷ [];
        })
    | thrown e m' ↦ thrown e m'
    | fault ↦ fault
    | out_of_fuel ↦ out_of_fuel
  ]

  -- The loop over the flags.
  unfoldable pub add_flags : List ParsedFlag → Manager → Binding → Outcome Binding
  add_flags [] m b = returned (record b { predicate_mask = set b.predicate_mask 0 true }) m
  add_flags (f ∷ fs) m b = elim (substr text f.name_offset f.name_size) [
    | none ↦ thrown out_of_range m
    | some name ↦ elim (get_flag (fold name)) [
      | none ↦ thrown (lookup 5 f.name_offset) m
      | some index ↦ add_flags fs m (record b {
        predicate_mask = set b.predicate_mask index true;
        predicate = set b.predicate index f.negated;
      })
    ]
  ]

abbrev pub bits : ℕ → List Bool
bits zero = []
bits (suc n) = false ∷ bits n

abbrev pub no_binding : ℕ → Binding
no_binding handler = record {
  device_mask = bits 64;
  keys = [];
  predicate_mask = bits 32;
  predicate = bits 32;
  handler = handler;
}

-- What follows on the parse.
unfoldable pub create_parsed :
    (Bytes → Bytes)
    → (Bytes → ℕ)
    → Bytes
    → ℕ
    → Manager
    → Parse.Result Parse.State
    → Outcome (Binding × ℕ)
create_parsed fold system_key text handler m (Parse.ok result) =
    elim (add_keys fold system_key text result.keys m (no_binding handler)) [
      | returned b m' ↦ elim (add_flags fold system_key text result.flags m' b) [
        | returned b' m'' ↦ returned (b', result.index) m''
        | thrown e m'' ↦ thrown e m''
        | fault ↦ fault
        | out_of_fuel ↦ out_of_fuel
      ]
      | thrown e m' ↦ thrown e m'
      | fault ↦ fault
      | out_of_fuel ↦ out_of_fuel
    ]
create_parsed fold system_key text handler m (Parse.syntax_error a b c d e) =
    thrown (parse a b c d e) m
create_parsed fold system_key text handler m Parse.internal = thrown internal m
create_parsed fold system_key text handler m Parse.fault = fault
create_parsed fold system_key text handler m Parse.out_of_fuel = out_of_fuel

unfoldable pub create_binding :
    ℕ → Icu → (Bytes → Bytes) → (Bytes → ℕ) → Bytes → Bool → ℕ → Manager → Outcome (Binding × ℕ)
create_binding fuel icu fold system_key text match_all handler m =
    create_parsed fold system_key text handler m (parse_bind_string fuel icu text match_all)

-- `bind` with a handler.
unfoldable pub bind :
    ℕ → Icu → (Bytes → Bytes) → (Bytes → ℕ) → Bytes → ℕ → Manager → Outcome (Unit {0})
bind fuel icu fold system_key text handler m =
    elim (create_binding fuel icu fold system_key text true handler m) [
      | returned (b, end) m' ↦ returned tt (record m' { bindings = insert_binding b m'.bindings })
      | thrown e m' ↦ thrown e m'
      | fault ↦ fault
      | out_of_fuel ↦ out_of_fuel
    ]

-- `bind` with a command. `validate` tells whether `validate_command` returns.
unfoldable pub bind_to :
    ℕ
    → Icu
    → (Bytes → Bytes)
    → (Bytes → ℕ)
    → (Bytes → Bool)
    → Bytes
    → Bytes
    → ℕ
    → Manager
    → Outcome (Unit {0})
bind_to fuel icu fold system_key validate text command handler m =
    if validate command
    then bind fuel icu fold system_key text handler m
    else thrown invalid_command m

-- `bind` with a command behind the binding.
unfoldable pub bind_command :
    ℕ
    → Icu
    → (Bytes → Bytes)
    → (Bytes → ℕ)
    → (Bytes → Bool)
    → Bytes
    → ℕ
    → Manager
    → Outcome (Unit {0})
bind_command fuel icu fold system_key validate text handler m =
    elim (create_binding fuel icu fold system_key text false handler m) [
      | returned (b, end) m' ↦
          if end == length text
          then thrown (c1 end) m'
          else if validate (drop end text)
          then returned tt (record m' { bindings = insert_binding b m'.bindings })
          else thrown invalid_command m'
      | thrown e m' ↦ thrown e m'
      | fault ↦ fault
      | out_of_fuel ↦ out_of_fuel
    ]

unfoldable pub unbind_text :
    ℕ → Icu → (Bytes → Bytes) → (Bytes → ℕ) → Bytes → Manager → Outcome (Unit {0})
unbind_text fuel icu fold system_key text m =
    elim (create_binding fuel icu fold system_key text true 0 m) [
      | returned (b, end) m' ↦ returned tt (unbind b m')
      | thrown e m' ↦ thrown e m'
      | fault ↦ fault
      | out_of_fuel ↦ out_of_fuel
    ]
