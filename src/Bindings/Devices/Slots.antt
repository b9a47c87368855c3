-- ===== src/Bindings/Devices/Slots.antt =====
-- core/src/binding_manager.cpp: the slots of the devices.
use fenestra_voli_edition.Base.{
  get_elem?-set-none, get_elem?-set, get_elem?-set_self, set, ℕ, zero, suc, ◌+◌, ◌≡◌, refl, sym, ap,
  ◌∙◌, Bool, true, false, Bool-cases, Option-cases, none, some, List, [], ◌∷◌, arith, inl, inr,
  get_elem?, length,
}
use fenestra_voli_edition.Base.Order.{same_text_self}
use fenestra_voli_edition.Unicode.{Bytes}
use fenestra_voli_edition.Bindings.{KeyHandle, KeyName, DeviceDescriptor, Manager}
use fenestra_voli_edition.Bindings.Devices.{
  Outcome, returned, fault, find_in, put_in, erase_in, resize, free_device, name_keys, with_device,
  register_device, remove_device, unregister_device,
}

module _ {A : Type 0} where
  find_in-put_in :
      (name : Bytes) (a : A) (xs : List (Bytes × A)) → find_in name (put_in name a xs) ≡ some a
  unfolding find_in put_in
  find_in-put_in name a [] = ground (arith, same_text_self name)
  find_in-put_in name a ((k, x) ∷ xs) =
      ground (arith, same_text_self name, find_in-put_in name a xs)

free_device_lem :
    (i j : ℕ) (ds : List (Bool × List Bool))
    → free_device i ds ≡ some j
    → (n : ℕ) × (ks : List Bool) × (j ≡ i + n) × (get_elem? ds n ≡ some (false, ks))
unfolding free_device
free_device_lem i j [] h = absurd (cc (h))
free_device_lem i j ((taken, ks) ∷ ds) h = elim (Bool-cases taken) [
  | inl e ↦
      let (n, ks', q, g) = free_device_lem (i + 1) j ds (ground (arith, h, e)) in
      (suc n, ks', omega (arith, q), g)
  | inr e ↦ (zero, ks, ground (arith, h, e), ground (arith, e))
]

module _ (fold : Bytes → Bytes) (device_name : Bytes) (names : List Bytes) (m : Manager) where
  -- The manager behind a registration that takes the slot at an index.
  abbrev registered : ℕ → List Bool → List (Bytes × KeyName) → Manager
  registered i ks table = record (with_device i (length names) ks m) {
    descriptors =
        put_in (fold device_name) (record { id = i + 1; name = device_name; keys = table })
          m.descriptors;
  }

  -- What a registration has found where it returns.
  pub record Registers (handles : List KeyHandle) (m' : Manager) : Type 0 where
    pub slot : ℕ
    pub keys : List Bool
    pub table : List (Bytes × KeyName)
    pub chosen : free_device 0 m.devices ≡ some slot
    pub free : get_elem? m.devices slot ≡ some (false, keys)
    pub named : name_keys fold (slot + 1) 0 names [] ≡ some (handles, table)
    pub result : m' ≡ registered slot keys table

  register_device-Registers :
      (handles : List KeyHandle) (m' : Manager)
      → register_device fold device_name names m ≡ returned handles m'
      → Registers handles m'
  unfolding register_device
  register_device-Registers handles m' h =
      elim (Option-cases (find_in (fold device_name) m.descriptors)) [
        | inr (d, e) ↦ absurd (cc (rw (register_device, e) at h))
        | inl e ↦ elim (Option-cases (free_device 0 m.devices)) [
          | inl f ↦ absurd (cc (rw (register_device, e, f) at h))
          | inr (i, f) ↦
              let (n, ks, q, g) = free_device_lem 0 i m.devices f in
              let at_i : get_elem? m.devices i ≡ some (false, ks) =
                ap (get_elem? m.devices) q ∙ (ap (get_elem? m.devices) (omega arith) ∙ g) in
              elim (Option-cases (name_keys fold (i + 1) 0 names [])) [
                | inl k ↦ absurd (cc (rw (register_device, e, f, at_i, k) at h))
                | inr ((hs, table), k) ↦
                    let r : Path (Outcome (List KeyHandle)) (returned hs (registered i ks table))
                        (returned handles m') =
                      rw (register_device, e, f, at_i, k) at h in
                    let a : hs ≡ handles = cc (r) in
                    record {
                      slot = i;
                      chosen = f;
                      keys = ks;
                      table = table;
                      free = at_i;
                      named = k ∙ ap (λ (x : List KeyHandle). some (x, table)) a;
                      result = cc (r);
                    }
              ]
        ]
      ]

  unregister_registered :
      (i : ℕ) (ks : List Bool) (table : List (Bytes × KeyName)) (slot : Bool × List Bool)
      → get_elem? m.devices i ≡ some (false, ks)
      → get_elem? m.devices (i + 1) ≡ some slot
      → (m'' : Manager) × (unregister_device fold device_name (registered i ks table)
          ≡ returned tt m'')
        × (get_elem? m''.devices i ≡ some (true, resize (length names) ks))
        × (get_elem? m''.devices (i + 1) ≡ some (false, []))
  unfolding unregister_device
  unregister_registered i ks table slot h n =
      let d : DeviceDescriptor = record { id = i + 1; name = device_name; keys = table } in
      let taken : Bool × List Bool = (true, resize (length names) ks) in
      let found = find_in-put_in (fold device_name) d m.descriptors in
      let kept : get_elem? (set m.devices i taken) (i + 1) ≡ some slot =
        ground (arith, get_elem?-set m.devices i (i + 1) slot taken n) in
      let here = get_elem?-set_self m.devices i (false, ks) taken h in
      (
        record (registered i ks table) {
          bindings = remove_device (i + 1) m.bindings;
          descriptors = erase_in (fold device_name) (registered i ks table).descriptors;
          devices = set (set m.devices i taken) (i + 1) (false, []);
        },
        rw (unregister_device, found, kept) refl,
        ground (arith, get_elem?-set (set m.devices i taken) (i + 1) i taken (false, []) here),
        get_elem?-set_self (set m.devices i taken) (i + 1) slot (false, []) kept,
      )

  unregister_last :
      (i : ℕ) (ks : List Bool) (table : List (Bytes × KeyName))
      → get_elem? m.devices (i + 1) ≡ none
      → unregister_device fold device_name (registered i ks table) ≡ fault
  unfolding unregister_device
  unregister_last i ks table n =
      let d : DeviceDescriptor = record { id = i + 1; name = device_name; keys = table } in
      let taken : Bool × List Bool = (true, resize (length names) ks) in
      rw
        (
          unregister_device,
          find_in-put_in (fold device_name) d m.descriptors,
          get_elem?-set-none m.devices i (i + 1) taken n,
        )
        refl

  -- Where a device has been registered in a slot that is not the last, unregistering it leaves that slot
  -- taken and empties the next one.
  pub register_device-unregister_device :
      (handles : List KeyHandle) (m' : Manager) (i : ℕ) (next : Bool × List Bool)
      → register_device fold device_name names m ≡ returned handles m'
      → free_device 0 m.devices ≡ some i
      → get_elem? m.devices (i + 1) ≡ some next
      → (ks : List Bool) × (m'' : Manager) × (unregister_device fold device_name m'
          ≡ returned tt m'')
        × (get_elem? m''.devices i ≡ some (true, ks))
        × (get_elem? m''.devices (i + 1) ≡ some (false, []))
  register_device-unregister_device handles m' i next h f n =
      let r = register_device-Registers handles m' h in
      let same : r.slot ≡ i = cc (r.chosen, f) in
      let (m'', unregistered, here, emptied) =
        unregister_registered r.slot r.keys r.table next r.free
          (ap (λ (k : ℕ). get_elem? m.devices (k + 1)) same ∙ n) in
      (
        resize (length names) r.keys,
        m'',
        ap (unregister_device fold device_name) r.result ∙ unregistered,
        ap (get_elem? m''.devices) (sym same) ∙ here,
        ap (λ (k : ℕ). get_elem? m''.devices (k + 1)) (sym same) ∙ emptied,
      )

  -- The last slot is one too far for it.
  pub register_device-last :
      (handles : List KeyHandle) (m' : Manager) (i : ℕ)
      → register_device fold device_name names m ≡ returned handles m'
      → free_device 0 m.devices ≡ some i
      → get_elem? m.devices (i + 1) ≡ none
      → unregister_device fold device_name m' ≡ fault
  register_device-last handles m' i h f n =
      let r = register_device-Registers handles m' h in
      let same : r.slot ≡ i = cc (r.chosen, f) in
      ap (unregister_device fold device_name) r.result
      ∙ unregister_last r.slot r.keys r.table (ap (λ (k : ℕ). get_elem? m.devices (k + 1)) same ∙ n)
