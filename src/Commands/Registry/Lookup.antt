-- ===== src/Commands/Registry/Lookup.antt =====
-- core/src/command_manager.cpp: what `find` finds, for a name with its component.
use fenestra_voli_edition.Base.{
  ℕ, ◌≡◌, ◌⊎◌, refl, Bool, true, ◌&&◌, Option, none, some, List, [], ◌∷◌, arith, if◌then◌else◌,
  ◌==◌, Bool-cases, inl, inr,
}
use fenestra_voli_edition.Base.Order.{
  compare_pair, compare_pair-flip, compare_pair-eq, compare_pair_self,
}
use fenestra_voli_edition.Unicode.{Bytes}
use fenestra_voli_edition.Commands.Registry.{
  Descriptor, key, compare_descriptor, compare_view, is_eq, put, NameView, remove, view_of,
  same_name, Manager, at, update, Layer, client, core, addon, script, register_command,
  unregister_command, ok, Result, err, l2, checked, non_empty, new_descriptor, ◌>>◌, r1,
  equal_range, find_in, find_layers, find,
}
use fenestra_voli_edition.Commands.Registry.Sorted.{
  Above, IsSorted, Above-IsSorted, Above-trans, IsValid,
}

-- Does the descriptor bear exactly this name?
abbrev pub is_named : Bytes × Bytes → Descriptor → Bool
is_named k d = is_eq (compare_pair (key d) k)

-- The first descriptor of that name. A name is a pair of a command and a component.
unfoldable pub lookup : Bytes × Bytes → List Descriptor → Option Descriptor
lookup k [] = none
lookup k (d ∷ ds) = let rest = lookup k ds in if is_named k d then some d else rest

lookup-Above : (k : Bytes × Bytes) (ds : List Descriptor) → Above k ds → lookup k ds ≡ none
unfolding lookup
lookup-Above k [] a = refl
lookup-Above k (d ∷ ds) a =
    ground
      (arith, compare_pair-flip k (key d), lookup-Above k ds (Above-trans k (key d) ds a.0 a.1))

-- After a registration its own name finds the new descriptor, and any other what it found before.
pub lookup-put :
    (k : Bytes × Bytes) (d : Descriptor) (ds : List Descriptor)
    → IsSorted ds
    → lookup k (put d ds) ≡ (if is_named k d then some d else lookup k ds)
unfolding lookup put compare_descriptor
lookup-put k d [] s = refl
lookup-put k d (x ∷ ds) s = ground (
  arith,
  lookup-put k d ds (Above-IsSorted (key x) ds s),
  compare_pair-flip (key x) (key d),
  compare_pair-eq (key x) (key d),
  compare_pair-eq (key x) k,
  compare_pair-eq (key d) k,
  compare_pair_self k,
)

same_name-pair :
    (d : Descriptor) (j : Bytes × Bytes)
    → same_name (view_of d) (record { component = some j.1; command = j.0 }) ≡ is_named j d
unfolding same_name compare_pair
same_name-pair d j = ground arith

lookup-remove :
    (k j : Bytes × Bytes) (ds : List Descriptor)
    → lookup k (remove (record { component = some j.1; command = j.0 }) ds)
      ≡ (if is_eq (compare_pair j k) then none else lookup k ds)
unfolding lookup remove
lookup-remove k j [] = ground arith
lookup-remove k j (x ∷ ds) = ground (
  arith,
  same_name-pair x j,
  lookup-remove k j ds,
  compare_pair-eq (key x) j,
  compare_pair-eq (key x) k,
  compare_pair-eq j k,
  compare_pair_self k,
)

abbrev qualified : Bytes × Bytes → NameView
qualified k = record { component = some k.1; command = k.0 }

compare_view-pair :
    (k : Bytes × Bytes) (d : Descriptor)
    → compare_view (view_of d) (qualified k) ≡ compare_pair (key d) k
unfolding compare_view compare_pair
compare_view-pair k d = refl

equal_range-Above :
    (k : Bytes × Bytes) (ds : List Descriptor) → Above k ds → equal_range (qualified k) ds ≡ []
unfolding equal_range
equal_range-Above k [] a = refl
equal_range-Above k (d ∷ ds) a = ground (
  arith,
  compare_view-pair k d,
  compare_pair-flip k (key d),
  equal_range-Above k ds (Above-trans k (key d) ds a.0 a.1),
)

-- In a sorted layer one descriptor at most bears a whole name.
equal_range-lookup :
    (k : Bytes × Bytes) (ds : List Descriptor)
    → IsSorted ds
    → ((lookup k ds ≡ none) × (equal_range (qualified k) ds ≡ []))
      ⊎ ((d : Descriptor) × (lookup k ds ≡ some d) × (equal_range (qualified k) ds ≡ d ∷ []))
unfolding equal_range lookup
equal_range-lookup k [] s = inl (refl, refl)
equal_range-lookup k (x ∷ ds) s = elim (Bool-cases (is_named k x)) [
  | inl named ↦
      let e : key x ≡ k = compare_pair-eq (key x) k (ground arith) in
      inr (
        x,
        rw named,
        ground (arith, named, compare_view-pair k x, equal_range-Above k ds (rw e at s)),
      )
  | inr not_named ↦ elim (equal_range-lookup k ds (Above-IsSorted (key x) ds s)) [
    | inl (found, range) ↦ inl (ground (arith, found), ground (arith, range, compare_view-pair k x))
    | inr (d, found, range) ↦
        inr (d, ground (arith, found), ground (arith, range, compare_view-pair k x))
  ]
]

find_in-lookup :
    (k : Bytes × Bytes) (ds : List Descriptor)
    → IsSorted ds
    → find_in (some k.1) (equal_range (qualified k) ds) ≡ ok (lookup k ds)
unfolding find_in
find_in-lookup k ds s = elim (equal_range-lookup k ds s) [
  | inl (found, range) ↦ rw (found, range)
  | inr (d, found, range) ↦ rw (found, range)
]

-- The first layer that has the name.
abbrev or_else : Option Descriptor → Option Descriptor → Option Descriptor
or_else none o = o
or_else (some d) o = some d

abbrev pub lookup_layers : Bytes × Bytes → Manager → Option Descriptor
lookup_layers k m = or_else (lookup k m.client_commands) (
    or_else (lookup k m.core_commands)
      (or_else (lookup k m.addon_commands) (lookup k m.script_commands)))

-- A name with its component finds the descriptor of that name in the first of the layers client,
-- core, addon and script that has one. It is never ambiguous, and unknown if no layer has it.
pub find-lookup_layers :
    (k : Bytes × Bytes) (m : Manager)
    → IsValid m
    → find (record { component = some k.1; command = k.0 }) m
      ≡ elim (lookup_layers k m) [ none ↦ err l2 | some d ↦ ok (some d) ]
unfolding find find_layers
find-lookup_layers k m v = ground (
  arith,
  find_in-lookup k m.client_commands (v client),
  find_in-lookup k m.core_commands (v core),
  find_in-lookup k m.addon_commands (v addon),
  find_in-lookup k m.script_commands (v script),
)

abbrev layer_index : Layer → ℕ
layer_index client = 0
layer_index core = 1
layer_index addon = 2
layer_index script = 3

abbrev pub same_layer : Layer → Layer → Bool
same_layer a b = layer_index a == layer_index b

at-update :
    (l layer : Layer) (ds : List Descriptor) (m : Manager)
    → at l (update layer ds m) ≡ (if same_layer l layer then ds else at l m)
at-update l layer ds m = ground arith

-- Layers that count alike are one.
at-same_layer : (l layer : Layer) (m : Manager) → same_layer l layer ≡ true → at l m ≡ at layer m
at-same_layer l layer m h = ground arith

checks_passed :
    (a b c : Result (Unit {0})) {m m' : Manager} → (a >> (b >> (c >> ok m))) ≡ ok m' → m ≡ m'
checks_passed (ok _) (ok _) (ok _) e = cc
checks_passed (ok _) (ok _) (err _) e = cc
checks_passed (ok _) (err _) c e = cc
checks_passed (err _) b c e = cc

-- A registration that succeeds is found in its layer by its name. Every other name, and every other
-- layer, is as before.
pub register_command-lookup :
    (layer : Layer) (component command : Bytes) (handler : ℕ) (raw : Bool) (tag : Option ℕ)
    (m : Manager) {m' : Manager} (l : Layer) (k : Bytes × Bytes)
    → IsValid m
    → register_command layer component command handler raw tag m ≡ ok m'
    → lookup k (at l m') ≡ (
        if same_layer l layer && is_eq (compare_pair (command, component) k)
        then some (new_descriptor layer component command handler raw tag m)
        else lookup k (at l m))
unfolding register_command
register_command-lookup layer component command handler raw tag m {m'} l k v e =
    let d = new_descriptor layer component command handler raw tag m in
    let stored : update layer (put d (at layer m)) m ≡ m' =
      checks_passed (checked component) (checked command) (non_empty command r1) e in
    rw (← stored) (
      ground (
        arith,
        at-update l layer (put d (at layer m)) m,
        at-same_layer l layer m,
        lookup-put k d (at layer m) (v layer),
      ))

-- An unregistered name is gone from its layer. Every other name of it, every name of another layer, the
-- aliases and the default tag are found as before.
pub unregister_command-lookup :
    (layer : Layer) (component command : Bytes) (m : Manager) (l : Layer) (k : Bytes × Bytes)
    → let m' = unregister_command layer component command m in
      (lookup k (at l m') ≡ (
        if same_layer l layer && is_eq (compare_pair (command, component) k)
        then none
        else lookup k (at l m)))
      × (m'.aliases ≡ m.aliases)
      × (m'.default_tag ≡ m.default_tag)
unfolding unregister_command
unregister_command-lookup layer component command m l k =
    let name : NameView = record { component = some component; command = command } in
    let ds = remove name (at layer m) in
    (
      ground (
        arith,
        at-update l layer ds m,
        at-same_layer l layer m,
        lookup-remove k (command, component) (at layer m),
      ),
      ground arith,
      ground arith,
    )
