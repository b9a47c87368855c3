-- ===== src/Bindings.antt =====
-- core/src/binding_manager.cpp: the keys that are down, and the table of bindings.
-- A `bitset` is a list of Booleans, `bindings` is sorted as Insert shows. `nfkc_fold_case` and the
-- names of the system's keys are ICU's and Windows'. None is an index outside an array.
pub mod Parse
pub mod Insert
pub mod Sorted
pub mod Press
pub mod Release
pub mod Devices
pub mod Create
mod Tests
use fenestra_voli_edition.Base.{
  ℕ, zero, suc, ◌+◌, ◌-◌, ◌/◌, ◌%◌, ◌^◌, Bool, true, false, not, ◌&&◌, ◌||◌, Option, none, some,
  List, [], ◌∷◌, ◌++◌, ◌==◌, ltb, if◌then◌else◌, length, get_elem?, set,
}
use fenestra_voli_edition.Base.Order.{same_text}
use fenestra_voli_edition.Unicode.{Bytes}

pub record KeyHandle : Type 0 where
  pub device_id : ℕ
  pub key_id : ℕ

-- The handler is the number of a function.
pub record Binding : Type 0 where
  pub device_mask : List Bool
  pub keys : List KeyHandle
  pub predicate_mask : List Bool
  pub predicate : List Bool
  pub handler : ℕ

pub record KeyName : Type 0 where
  pub id : ℕ
  pub name : Bytes

-- The keys of a device are in the order of their names.
pub record DeviceDescriptor : Type 0 where
  pub id : ℕ
  pub name : Bytes
  pub keys : List (Bytes × KeyName)

pub record Manager : Type 0 where
  pub system_device : List Bool
  pub system_device_client : List ℕ
  pub devices : List (Bool × List Bool)
  pub flags : List Bool
  pub bindings : List Binding
  pub descriptors : List (Bytes × DeviceDescriptor)

-- The right one of two keys stands for the left one.
unfoldable pub left_key : ℕ → ℕ
left_key id =
    if id == 0x36
    then 0x2A
    else if id == 0x9D
    then 0x1D
    else if id == 0xB8
    then 0x38
    else if id == 0xDC
    then 0xDB
    else id

abbrev pub same_key : KeyHandle → KeyHandle → Bool
same_key a b = (a.device_id == b.device_id) && (a.key_id == b.key_id)

unfoldable pub key_state : KeyHandle → Manager → Option Bool
key_state key m =
    if key.device_id == 0
    then get_elem? m.system_device (left_key key.key_id)
    else elim (get_elem? m.devices (key.device_id - 1)) [
      | none ↦ none
      | some device ↦ get_elem? device.1 key.key_id
    ]

-- The key that the rest of `key_state` goes by.
unfoldable pub actual_key : KeyHandle → KeyHandle
actual_key key = if key.device_id == 0 then record key { key_id = left_key key.key_id } else key

-- The state of the key that has been found there.
unfoldable pub write_key : KeyHandle → Bool → Manager → Manager
write_key key state m =
    if key.device_id == 0
    then record m {
      system_device = set m.system_device key.key_id state;
      system_device_client =
          if state then m.system_device_client else set m.system_device_client key.key_id 0;
    }
    else elim (get_elem? m.devices (key.device_id - 1)) [
      | none ↦ m
      | some device ↦ record m {
        devices = set m.devices (key.device_id - 1) (device.0, set device.1 key.key_id state);
      }
    ]

-- Bitsets of the same size.
abbrev pub and_bits : List Bool → List Bool → List Bool
and_bits [] bs = []
and_bits (a ∷ as_) [] = []
and_bits (a ∷ as_) (b ∷ bs) = (a && b) ∷ and_bits as_ bs

abbrev pub same_bit : Bool → Bool → Bool
same_bit true b = b
same_bit false b = not b

abbrev pub same_bits : List Bool → List Bool → Bool
same_bits [] [] = true
same_bits [] (b ∷ bs) = false
same_bits (a ∷ as_) [] = false
same_bits (a ∷ as_) (b ∷ bs) = same_bit a b && same_bits as_ bs

abbrev pub count_bits : List Bool → ℕ
count_bits [] = 0
count_bits (b ∷ bs) = if b then suc (count_bits bs) else count_bits bs

abbrev pub test_bit : List Bool → ℕ → Bool
test_bit [] i = false
test_bit (b ∷ bs) zero = b
test_bit (b ∷ bs) (suc i) = test_bit bs i

abbrev pub same_keys : List KeyHandle → List KeyHandle → Bool
same_keys [] [] = true
same_keys [] (k ∷ ks) = false
same_keys (j ∷ js) [] = false
same_keys (j ∷ js) (k ∷ ks) = same_key j k && same_keys js ks

-- `binding::operator==`
unfoldable pub same_binding : Binding → Binding → Bool
same_binding a b =
    same_bits a.device_mask b.device_mask
    && same_bits a.predicate_mask b.predicate_mask
    && same_bits a.predicate b.predicate
    && same_keys a.keys b.keys

-- `binding::operator<`: more keys, then more flags, are more specific.
unfoldable pub is_less : Binding → Binding → Bool
is_less a b =
    ltb (length a.keys) (length b.keys)
    || (length a.keys == length b.keys)
      && ltb (count_bits a.predicate_mask) (count_bits b.predicate_mask)

-- `std::lower_bound` and `std::upper_bound` on a sorted range: the elements in front of the position
-- and those from there on.
unfoldable pub lower_bound : Binding → List Binding → List Binding × List Binding
lower_bound b [] = ([], [])
lower_bound b (x ∷ xs) =
    let (before, from) = lower_bound b xs in
    if is_less x b then (x ∷ before, from) else ([], x ∷ xs)

unfoldable pub upper_bound : Binding → List Binding → List Binding × List Binding
upper_bound b [] = ([], [])
upper_bound b (x ∷ xs) =
    let (before, from) = upper_bound b xs in
    if is_less b x then ([], x ∷ xs) else (x ∷ before, from)

-- `std::remove` and `erase`
unfoldable pub remove : Binding → List Binding → List Binding
remove b [] = []
remove b (x ∷ xs) = let rest = remove b xs in if same_binding x b then rest else x ∷ rest

unfoldable pub insert_binding : Binding → List Binding → List Binding
insert_binding b bs =
    let (before, from) = lower_bound b bs in
    let (equal, after) = upper_bound b from in before ++ b ∷ (remove b equal ++ after)

-- `unbind`, for the binding that its text describes.
unfoldable pub unbind : Binding → Manager → Manager
unbind b m = record m { bindings = remove b m.bindings }

-- `std::find` on the keys of a binding.
abbrev pub contains : KeyHandle → List KeyHandle → Bool
contains key [] = false
contains key (k ∷ ks) = same_key k key || contains key ks

-- `std::all_of` on the keys of a binding stops at the first that is not down.
unfoldable pub all_down : List KeyHandle → Manager → Option Bool
all_down [] m = some true
all_down (k ∷ ks) m = elim (key_state k m) [
  | none ↦ none
  | some down ↦ if down then all_down ks m else some false
]

unfoldable pub matches : KeyHandle → List Bool → Manager → Binding → Option Bool
matches key flags m b =
    if test_bit b.device_mask key.device_id
      && contains key b.keys
      && same_bits (and_bits flags b.predicate_mask) b.predicate
    then all_down b.keys m
    else some false

abbrev pub better : Option Binding → Binding → Option Binding
better none b = some b
better (some a) b = if is_less a b then some b else some a

-- The loop over the bindings, with what the test says of each.
unfoldable pub best_match :
    (Binding → Option Bool) → List Binding → Option Binding → Option (Option Binding)
best_match test [] best = some best
best_match test (b ∷ bs) best = elim (test b) [
  | none ↦ none
  | some matching ↦ best_match test bs (if matching then better best b else best)
]

-- The end, where no handler has taken the key.
unfoldable pub pass_on : KeyHandle → Bool → Manager → Manager
pass_on key state m =
    if key.device_id == 0 && state
    then record m { system_device_client = set m.system_device_client key.key_id 0x80 }
    else m

-- The messages of Windows, with their `lParam`.
pub data Message : Type 0 where
  kill_focus other : Message
  key_down key_up : ℕ → Message

-- The scan code of a message, with the bit of an extended key as its highest.
unfoldable pub message_key : ℕ → ℕ
message_key l_param =
    let code = l_param / 2 ^ 16 % 2 ^ 8 in
    if ltb code 128 && (l_param / 2 ^ 24 % 2 == 1) then code + 128 else code

-- `std::fill`
abbrev pub zeros : List ℕ → List ℕ
zeros [] = []
zeros (x ∷ xs) = 0 ∷ zeros xs

module _ {σ : Type 0} (handle : ℕ → σ → Bool × σ) where
  -- Behind the loop. `std::remove` is given a reference into its range; bindings are distinct, so what
  -- it compares with is found no second time.
  unfoldable pub finish :
      KeyHandle → Bool → Bool → Option Binding → Manager → σ → Bool × Manager × σ
  finish key state changed none m s = (false, pass_on key state m, s)
  finish key state changed (some b) m s =
      let (kept, s') = handle b.handler s in
      if not changed
      then (true, m, s)
      else if kept
      then (true, m, s')
      else (false, pass_on key state (unbind b m), s')

  -- `key_state` with a new state, on the numbers of the handlers.
  unfoldable pub change_key : KeyHandle → Bool → Manager → σ → Option (Bool × Manager × σ)
  change_key key state m s = elim (key_state key m) [
    | none ↦ none
    | some old ↦
        let key' = actual_key key in
        let m' = write_key key' state m in
        let flags = set m.flags 0 (not state) in
        elim (best_match (matches key' flags m') m'.bindings none) [
          | none ↦ none
          | some best ↦ some (finish key' state (not (same_bit old state)) best m' s)
        ]
  ]

  -- The loop of `lost_focus`, with so many keys left.
  unfoldable pub release_keys : ℕ → ℕ → Manager → σ → Option (Manager × σ)
  release_keys zero i m s = some (m, s)
  release_keys (suc left) i m s =
      elim (change_key (record { device_id = 0; key_id = i }) false m s) [
        | none ↦ none
        | some (taken, m', s') ↦ release_keys left (i + 1) m' s'
      ]

  unfoldable pub lost_focus : Manager → σ → Option (Manager × σ)
  lost_focus m s = elim (release_keys 0xFB 0 m s) [
    | none ↦ none
    | some (m', s') ↦ some (record m' { system_device_client = zeros m'.system_device_client }, s')
  ]

  -- `process_message`: whether it answers `TRUE`.
  unfoldable pub process_message : Message → Manager → σ → Option (Bool × Manager × σ)
  process_message kill_focus m s = elim (lost_focus m s) [
    | none ↦ none
    | some (m', s') ↦ some (false, m', s')
  ]
  process_message (key_down l_param) m s =
      change_key (record { device_id = 0; key_id = message_key l_param }) true m s
  process_message (key_up l_param) m s =
      change_key (record { device_id = 0; key_id = message_key l_param }) false m s
  process_message other m s = some (false, m, s)
