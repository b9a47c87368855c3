-- ===== src/Bindings/Tests.antt =====
-- core/src/binding_manager.cpp on a small table.
use fenestra_voli_edition.Base.{
  if◌then◌else◌, ℕ, zero, suc, ◌≡◌, refl, Bool, true, false, some, List, [], ◌∷◌,
}
use fenestra_voli_edition.Unicode.{Bytes, ascii_only}
use fenestra_voli_edition.Bindings.{pass_on, unbind}
use fenestra_voli_edition.Bindings.{
  KeyHandle, Binding, Manager, key_state, actual_key, write_key, left_key, same_binding, is_less,
  remove, insert_binding, matches, all_down, change_key, same_bit,
}
use fenestra_voli_edition.Bindings.Insert.{IsSorted}
use fenestra_voli_edition.Bindings.Sorted.{insert_binding-remove}
use fenestra_voli_edition.Bindings.Press.{change_key-insert_binding}
use fenestra_voli_edition.Bindings.Release.{Has, HasBound, change_key_up}
use fenestra_voli_edition.Bindings.Devices.{parse, thrown, out_of_fuel}
use fenestra_voli_edition.Bindings.Create.{bits, bind, bind_command, unbind_text}
use fenestra_voli_edition.Bindings.Create.Fails.{bind_fails}

abbrev system : ℕ → KeyHandle
system i = record { device_id = 0; key_id = i }

-- Bindings of the system's keys. The flag up stands at 0, chat at 1.
abbrev binding : List KeyHandle → List Bool → List Bool → ℕ → Binding
binding keys mask predicate handler = record {
  device_mask = true ∷ [];
  keys = keys;
  predicate_mask = mask;
  predicate = predicate;
  handler = handler;
}

abbrev plain : Binding
plain = binding (system 0x1E ∷ []) (true ∷ false ∷ []) (false ∷ false ∷ []) 1

abbrev chat : Binding
chat = binding (system 0x1E ∷ []) (true ∷ true ∷ []) (false ∷ true ∷ []) 2

abbrev chord : Binding
chord = binding (system 0x1D ∷ system 0x1E ∷ []) (true ∷ false ∷ []) (false ∷ false ∷ []) 3

abbrev two : List Binding
two = plain ∷ chord ∷ []

two-IsSorted : IsSorted two
unfolding is_less same_binding
two-IsSorted = (((refl, refl), tt), (tt, tt))

insert_binding-remove_example :
    IsSorted (insert_binding chat two)
    × IsSorted (remove chat two)
    × (remove chat (insert_binding chat two) ≡ remove chat two)
insert_binding-remove_example = insert_binding-remove chat two two-IsSorted

abbrev empty_slots : ℕ → List (Bool × List Bool)
empty_slots zero = []
empty_slots (suc n) = (false, []) ∷ empty_slots n

abbrev manager : List Binding → Manager
manager bindings = record {
  system_device = bits 256;
  system_device_client = [];
  devices = empty_slots 63;
  flags = false ∷ false ∷ [];
  bindings = bindings;
  descriptors = [];
}

abbrev handle : ℕ → List ℕ → Bool × List ℕ
handle handler s = (true, handler ∷ s)

abbrev pressed : Manager
pressed = write_key (system 0x1E) true (manager (insert_binding plain (chord ∷ [])))

change_key-insert_binding_example :
    let key = actual_key (system 0x1E) in
    let m = write_key key true (manager (insert_binding plain (chord ∷ []))) in
    change_key handle (system 0x1E) true (manager (insert_binding plain (chord ∷ []))) []
    ≡ some (
        if same_bit false true
        then (true, m, [])
        else if (handle plain.handler []).0
        then (true, m, (handle plain.handler []).1)
        else (false, pass_on key true (unbind plain m), (handle plain.handler []).1))
unfolding matches all_down key_state write_key actual_key left_key
change_key-insert_binding_example =
    change_key-insert_binding handle plain (chord ∷ []) (system 0x1E) true false
      (manager (insert_binding plain (chord ∷ []))) [] refl refl refl
      ((false, refl, λ h. absurd (cc (h))), tt)

key_up : Has (manager two) (system 0x1E)
unfolding key_state left_key
key_up = (false, refl)

bound-HasBound : HasBound (manager two) two
unfolding key_state left_key
bound-HasBound = (((false, refl), tt), (((false, refl), ((false, refl), tt)), tt))

change_key_up_example :
    (change_key handle (system 0x1E) false (manager two) []
      ≡ some (false, write_key (actual_key (system 0x1E)) false (manager two), []))
    × (key_state (system 0x1E) (write_key (actual_key (system 0x1E)) false (manager two))
        ≡ some false)
    × ((write_key (actual_key (system 0x1E)) false (manager two)).bindings ≡ two)
change_key_up_example = change_key_up handle (system 0x1E) (manager two) [] key_up bound-HasBound

bind_fails_example :
    let m = manager two in
    (bind 5 ascii_only (λ t. t) (λ t. 1) (b'a' ∷ []) 1 m ≡ thrown (parse 10 0 0 0 0) m)
    × (bind_command 5 ascii_only (λ t. t) (λ t. 1) (λ t. true) (b'a' ∷ []) 1 m
        ≡ thrown (parse 10 0 0 0 0) m)
    × (unbind_text 5 ascii_only (λ t. t) (λ t. 1) (b'a' ∷ []) m ≡ thrown (parse 10 0 0 0 0) m)
    × (bind 4 ascii_only (λ t. t) (λ t. 1) [] 1 m ≡ out_of_fuel)
    × (bind_command 4 ascii_only (λ t. t) (λ t. 1) (λ t. true) [] 1 m ≡ out_of_fuel)
    × (unbind_text 4 ascii_only (λ t. t) (λ t. 1) [] m ≡ out_of_fuel)
bind_fails_example = bind_fails 4 ascii_only (λ t. t) (λ t. 1) (λ t. true) b'a' [] 1 (manager two)

abbrev pad : Bytes
pad = b'p' ∷ []

abbrev with_pad : Manager
with_pad = record (manager []) {
  devices = (true, false ∷ false ∷ []) ∷ empty_slots 62;
  descriptors =
      (
        pad,
        record {
          id = 1;
          name = pad;
          keys =
              (b'a' ∷ [], record { id = 0; name = b'a' ∷ [] })
              ∷ (b'b' ∷ [], record { id = 1; name = b'b' ∷ [] })
              ∷ [];
        },
      )
      ∷ [];
}
