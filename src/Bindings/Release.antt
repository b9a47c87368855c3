-- ===== src/Bindings/Release.antt =====
-- core/src/binding_manager.cpp: a key that is released goes to no binding.
use mathlib.Core.Path.{subst}
use fenestra_voli_edition.Base.{
  get_elem?-set, get_elem?-set_self, set, ℕ, zero, suc, ◌≡◌, refl, sym, ap, ◌∙◌, Bool, true, false,
  not, Bool-cases, Option-cases, none, some, List, [], ◌∷◌, arith, inl, inr, if◌then◌else◌, ◌==◌,
  get_elem?,
}
use fenestra_voli_edition.Bindings.{
  KeyHandle, Binding, Manager, left_key, same_key, key_state, actual_key, write_key, contains,
  all_down, matches, best_match, finish, pass_on, change_key, same_bit,
}
use fenestra_voli_edition.Bindings.Press.{write_key-bindings}

left_key_twice : (id : ℕ) → left_key (left_key id) ≡ left_key id
unfolding left_key
left_key_twice id = ground arith

-- The key handles of the system's keys, and of a device's.
abbrev system_key : ℕ → KeyHandle
system_key i = record { device_id = 0; key_id = i }

abbrev device_key : ℕ → ℕ → KeyHandle
device_key d i = record { device_id = suc d; key_id = i }

write_system_key :
    (i : ℕ) (state old : Bool) (m : Manager)
    → key_state (system_key i) m ≡ some old
    → key_state (actual_key (system_key i)) (write_key (actual_key (system_key i)) state m)
      ≡ some state
unfolding key_state actual_key write_key
write_system_key i state old m h =
    rw (left_key_twice i) (get_elem?-set_self m.system_device (left_key i) old state h)

key_state-actual_key :
    (key : KeyHandle) (m : Manager) → key_state key m ≡ key_state (actual_key key) m
unfolding key_state actual_key
key_state-actual_key key m = ground (arith, left_key_twice key.key_id)

device_found :
    (d i : ℕ) (old : Bool) (m : Manager)
    → key_state (device_key d i) m ≡ some old
    → (device : Bool × List Bool) × (get_elem? m.devices d ≡ some device)
      × (get_elem? device.1 i ≡ some old)
unfolding key_state
device_found d i old m h = elim (Option-cases (get_elem? m.devices d)) [
  | inl e ↦ absurd (ground (arith, e, h))
  | inr (device, e) ↦ (device, e, ground (arith, e, h))
]

write_device_key :
    (d i : ℕ) (state old : Bool) (m : Manager)
    → key_state (device_key d i) m ≡ some old
    → key_state (actual_key (device_key d i)) (write_key (actual_key (device_key d i)) state m)
      ≡ some state
unfolding key_state actual_key write_key
write_device_key d i state old m h =
    let (device, e, g) = device_found d i old m h in
    ground (
      arith,
      e,
      get_elem?-set_self m.devices d device (device.0, set device.1 i state) e,
      get_elem?-set_self device.1 i old state g,
    )

-- The key has a state.
abbrev pub Has : Manager → KeyHandle → Type 0
Has m key = (v : Bool) × (key_state key m ≡ some v)

abbrev pub HasAll : Manager → List KeyHandle → Type 0
HasAll m [] = Unit {0}
HasAll m (k ∷ ks) = Has m k × HasAll m ks

-- Every key of every binding has a state.
abbrev pub HasBound : Manager → List Binding → Type 0
HasBound m [] = Unit {0}
HasBound m (b ∷ bs) = HasAll m b.keys × HasBound m bs

-- A write takes no state away.
Has-system :
    (i : ℕ) (key : KeyHandle) (state : Bool) (m : Manager)
    → Has m (system_key i)
    → Has (write_key key state m) (system_key i)
unfolding key_state write_key
Has-system i key state m (v, h) = elim (Bool-cases (key.device_id == 0)) [
  | inl e ↦ (
    (if key.key_id == left_key i then state else v),
    rw e (get_elem?-set m.system_device key.key_id (left_key i) v state h),
  )
  | inr e ↦ (v, ground (arith, e, h))
]

Has-device :
    (d i e j : ℕ) (state : Bool) (m : Manager)
    → Has m (device_key d i)
    → Has (write_key (device_key e j) state m) (device_key d i)
unfolding key_state write_key
Has-device d i e j state m (v, h) = elim (Option-cases (get_elem? m.devices e)) [
  | inl none_there ↦ (v, ground (arith, none_there, h))
  | inr (written, there) ↦
      let (device, found, g) = device_found d i v m h in
      let new : Bool × List Bool = (written.0, set written.1 j state) in
      let moved = get_elem?-set m.devices e d device new found in
      elim (Bool-cases (e == d)) [
        | inl same ↦ (
          (if j == i then state else v),
          ground (arith, there, found, same, moved, g, get_elem?-set written.1 j i v state),
        )
        | inr other ↦ (v, ground (arith, there, found, other, moved, g))
      ]
]

Has-other :
    (d i j : ℕ) (state : Bool) (m : Manager)
    → Has m (device_key d i)
    → Has (write_key (system_key j) state m) (device_key d i)
unfolding key_state write_key
Has-other d i j state m (v, h) = (v, ground (arith, h))

Has-parts :
    (d i e j : ℕ) (state : Bool) (m : Manager)
    → Has m (record { device_id = d; key_id = i })
    → Has
        (write_key (record { device_id = e; key_id = j }) state m)
        (record { device_id = d; key_id = i })
Has-parts zero i e j state m h = Has-system i (record { device_id = e; key_id = j }) state m h
Has-parts (suc d) i zero j state m h = Has-other d i j state m h
Has-parts (suc d) i (suc e) j state m h = Has-device d i e j state m h

key_written :
    (d i : ℕ) (state old : Bool) (m : Manager)
    → let key : KeyHandle = record { device_id = d; key_id = i } in
      key_state key m ≡ some old
      → key_state (actual_key key) (write_key (actual_key key) state m) ≡ some state
key_written zero i state old m h = write_system_key i state old m h
key_written (suc d) i state old m h = write_device_key d i state old m h

HasAll-write_key :
    (key : KeyHandle) (state : Bool) (m : Manager) (ks : List KeyHandle)
    → HasAll m ks
    → HasAll (write_key key state m) ks
HasAll-write_key key state m [] h = tt
HasAll-write_key key state m (k ∷ ks) h = (
  Has-parts k.device_id k.key_id key.device_id key.key_id state m h.0,
  HasAll-write_key key state m ks h.1,
)

same_key-eq : (j k : KeyHandle) → same_key j k ≡ true → j ≡ k
same_key-eq j k h = ground (arith, h)

-- Not all keys are down if one of them is up.
all_down-up :
    (key : KeyHandle) (ks : List KeyHandle) (m : Manager)
    → key_state key m ≡ some false
    → contains key ks ≡ true
    → HasAll m ks
    → all_down ks m ≡ some false
unfolding all_down
all_down-up key [] m up c h = absurd (cc (c))
all_down-up key (k ∷ ks) m up c ((down, e), h) = elim (Bool-cases (same_key k key)) [
  | inl q ↦ rw (all_down, ap (λ (x : KeyHandle). key_state x m) (same_key-eq k key q) ∙ up) refl
  | inr q ↦ elim (Bool-cases down) [
    | inl d ↦ rw (all_down, e, d) (all_down-up key ks m up (ground (arith, c, q)) h)
    | inr d ↦ rw (all_down, e, d) refl
  ]
]

matches-up :
    (key : KeyHandle) (flags : List Bool) (m : Manager) (b : Binding)
    → key_state key m ≡ some false
    → HasAll m b.keys
    → matches key flags m b ≡ some false
unfolding matches
matches-up key flags m b up h = ground (arith, all_down-up key b.keys m up, h)

best_match-up :
    (key : KeyHandle) (flags : List Bool) (m : Manager) (bs : List Binding)
    → key_state key m ≡ some false
    → HasBound m bs
    → best_match (matches key flags m) bs none ≡ some none
unfolding best_match
best_match-up key flags m [] up h = refl
best_match-up key flags m (b ∷ bs) up h =
    rw (best_match, matches-up key flags m b up h.0) (best_match-up key flags m bs up h.1)

HasBound-write_key :
    (key : KeyHandle) (state : Bool) (m : Manager) (bs : List Binding)
    → HasBound m bs
    → HasBound (write_key key state m) bs
HasBound-write_key key state m [] h = tt
HasBound-write_key key state m (b ∷ bs) h =
    (HasAll-write_key key state m b.keys h.0, HasBound-write_key key state m bs h.1)

finish_up :
    {σ : Type 0} (handle : ℕ → σ → Bool × σ) (key : KeyHandle) (changed : Bool) (m : Manager)
    (s : σ)
    → finish handle key false changed none m s ≡ (false, m, s)
unfolding finish pass_on
finish_up handle key changed m s = ground arith

-- A key that is released goes to no binding, also not to one for its release: where the key and those
-- of all bindings have a state, its state becomes up, and neither a handler runs nor a binding changes.
pub change_key_up :
    {σ : Type 0} (handle : ℕ → σ → Bool × σ) (key : KeyHandle) (m : Manager) (s : σ)
    → Has m key
    → HasBound m m.bindings
    → (change_key handle key false m s ≡ some (false, write_key (actual_key key) false m, s))
      × (key_state key (write_key (actual_key key) false m) ≡ some false)
      × ((write_key (actual_key key) false m).bindings ≡ m.bindings)
unfolding change_key
change_key_up handle key m s (old, e) h =
    let key' = actual_key key in
    let m' = write_key key' false m in
    let up = key_written key.device_id key.key_id false old m e in
    let table = write_key-bindings key' false m in
    let found : best_match (matches key' (set m.flags 0 true) m') m'.bindings none ≡ some none =
      best_match-up key' (set m.flags 0 true) m' m'.bindings up
        (subst (HasBound m') (sym table) (HasBound-write_key key' false m m.bindings h)) in
    (
      rw (change_key, e, found) (ap some (finish_up handle key' (not (same_bit old false)) m' s)),
      key_state-actual_key key m' ∙ up,
      table,
    )
