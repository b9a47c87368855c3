-- ===== src/Bindings/Devices.antt =====
-- core/src/binding_manager.cpp: `register_device`, `unregister_device`. `fold` is `nfkc_fold_case`.
pub mod Slots
use Prim.Native.Nat.Ordering.{lt}
use fenestra_voli_edition.Base.{
  set, ℕ, zero, suc, ◌+◌, ◌-◌, Bool, true, false, not, ◌&&◌, Option, none, some, List, [], ◌∷◌,
  ◌++◌, ◌==◌, ltb, leb, if◌then◌else◌, length, take, drop, get_elem?,
}
use fenestra_voli_edition.Base.Order.{same_text, compare_text}
use fenestra_voli_edition.Unicode.{Bytes, Icu}
use fenestra_voli_edition.Bindings.{
  KeyHandle, Binding, DeviceDescriptor, KeyName, Manager, test_bit, insert_binding, unbind,
}
use fenestra_voli_edition.Bindings.Parse
use fenestra_voli_edition.Bindings.Parse.{ParsedKey, ParsedFlag, parse_bind_string}

-- The codes of the exceptions; `lookup` has the number of a BIND:L and an offset, `parse` what
-- `parse_bind_string` throws.
pub data Error : Type 0 where
  r1 r2 u1 narrowing out_of_range : Error
  lookup : ℕ → ℕ → Error
  c1 : ℕ → Error
  parse : ℕ → ℕ → ℕ → ℕ → ℕ → Error
  internal invalid_command : Error

-- A call that throws leaves the manager as it is then; `fault` is an index outside an array.
pub data Outcome (A : Type 0) : Type 0 where
  returned : A → Manager → Outcome A
  thrown : Error → Manager → Outcome A
  fault out_of_fuel : Outcome A

-- `std::map` as a list sorted by its keys.
module _ {A : Type 0} where
  unfoldable pub find_in : Bytes → List (Bytes × A) → Option A
  find_in name [] = none
  find_in name ((k, a) ∷ xs) =
      let rest = find_in name xs in if same_text k name then some a else rest

  unfoldable pub put_in : Bytes → A → List (Bytes × A) → List (Bytes × A)
  put_in name a [] = (name, a) ∷ []
  put_in name a ((k, x) ∷ xs) =
      let rest = put_in name a xs in
      if same_text k name
      then (k, a) ∷ xs
      else elim (compare_text k name) [ lt ↦ (k, x) ∷ rest | _ ↦ (name, a) ∷ (k, x) ∷ xs ]

  unfoldable pub erase_in : Bytes → List (Bytes × A) → List (Bytes × A)
  erase_in name [] = []
  erase_in name ((k, x) ∷ xs) =
      let rest = erase_in name xs in if same_text k name then xs else (k, x) ∷ rest

-- `resize`, with zeros.
abbrev pub resize : ℕ → List Bool → List Bool
resize zero ks = []
resize (suc n) [] = false ∷ resize n []
resize (suc n) (k ∷ ks) = k ∷ resize n ks

-- The loop that looks for a device that is not taken, from an index on.
unfoldable pub free_device : ℕ → List (Bool × List Bool) → Option ℕ
free_device i [] = none
free_device i ((taken, ks) ∷ ds) =
    let rest = free_device (i + 1) ds in if taken then rest else some i

-- The loop over the names of the keys; none is a `narrowing_error`.
unfoldable pub name_keys :
    (Bytes → Bytes)
    → ℕ
    → ℕ
    → List Bytes
    → List (Bytes × KeyName)
    → Option (List KeyHandle × List (Bytes × KeyName))
name_keys fold id i [] table = some ([], table)
name_keys fold id i (name ∷ names) table =
    let rest =
      name_keys fold id (i + 1) names (put_in (fold name) (record { id = i; name = name }) table) in
    if leb 256 i then none else elim rest [
      | none ↦ none
      | some (handles, table') ↦ some (record { device_id = id; key_id = i } ∷ handles, table')
    ]

-- A device is taken before its keys are named.
abbrev pub with_device : ℕ → ℕ → List Bool → Manager → Manager
with_device i count ks m = record m { devices = set m.devices i (true, resize count ks) }

unfoldable pub register_device :
    (Bytes → Bytes) → Bytes → List Bytes → Manager → Outcome (List KeyHandle)
register_device fold device_name names m = elim (find_in (fold device_name) m.descriptors) [
  | some d ↦ thrown r1 m
  | none ↦ elim (free_device 0 m.devices) [
    | none ↦ thrown r2 m
    | some i ↦ elim (get_elem? m.devices i) [
      | none ↦ fault
      | some (taken, ks) ↦
          let m' = with_device i (length names) ks m in
          elim (name_keys fold (i + 1) 0 names []) [
            | none ↦ thrown narrowing m'
            | some (handles, table) ↦ returned handles (record m' {
              descriptors =
                  put_in (fold device_name)
                    (record { id = i + 1; name = device_name; keys = table }) m.descriptors;
            })
          ]
    ]
  ]
]

-- `std::remove_if` and `erase`
unfoldable pub remove_device : ℕ → List Binding → List Binding
remove_device id [] = []
remove_device id (b ∷ bs) =
    let rest = remove_device id bs in if test_bit b.device_mask id then rest else b ∷ rest

-- The index of the array is the device's id here.
unfoldable pub unregister_device : (Bytes → Bytes) → Bytes → Manager → Outcome (Unit {0})
unregister_device fold device_name m = elim (find_in (fold device_name) m.descriptors) [
  | none ↦ thrown u1 m
  | some d ↦ elim (get_elem? m.devices d.id) [
    | none ↦ fault
    | some slot ↦ returned tt (record m {
      bindings = remove_device d.id m.bindings;
      descriptors = erase_in (fold device_name) m.descriptors;
      devices = set m.devices d.id (false, []);
    })
  ]
]
