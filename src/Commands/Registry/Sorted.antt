-- ===== src/Commands/Registry/Sorted.antt =====
-- core/src/command_manager.cpp: each layer stays sorted by name, with no name twice.
use Prim.Native.Nat.Ordering.{lt}
use fenestra_voli_edition.Base.{
  ℕ, ◌≡◌, refl, Bool, Option, some, List, [], ◌∷◌, arith, Bool-cases, inl, inr, ◌⊎◌,
}
use fenestra_voli_edition.Base.Order.{
  compare_pair, compare_pair-flip, compare_pair-eq, compare_pair_trans,
}
use fenestra_voli_edition.Unicode.{Bytes}
use fenestra_voli_edition.Commands.Registry.{
  Descriptor, key, compare_descriptor, put, NameView, remove, view_of, same_name, living, Manager,
  at, update, Layer, client, core, addon, script, register_command, unregister_command, purge, ok,
  Result, err, checked, non_empty, new_descriptor, ◌>>◌, r1,
}

-- Every name of the list comes behind `k`.
abbrev pub Above : Bytes × Bytes → List Descriptor → Type 0
Above k [] = Unit {0}
Above k (d ∷ ds) = (compare_pair k (key d) ≡ lt) × Above (key d) ds

abbrev pub IsSorted : List Descriptor → Type 0
IsSorted [] = Unit {0}
IsSorted (d ∷ ds) = Above (key d) ds

pub Above-trans :
    (j k : Bytes × Bytes) (ds : List Descriptor) → compare_pair j k ≡ lt → Above k ds → Above j ds
Above-trans j k [] h a = tt
Above-trans j k (d ∷ ds) h a = (compare_pair_trans j k (key d) h a.0, a.1)

pub Above-IsSorted : (k : Bytes × Bytes) (ds : List Descriptor) → Above k ds → IsSorted ds
Above-IsSorted k [] a = tt
Above-IsSorted k (d ∷ ds) a = a.1

Above-put :
    (k : Bytes × Bytes) (d : Descriptor) (ds : List Descriptor)
    → compare_pair k (key d) ≡ lt
    → Above k ds
    → Above k (put d ds)
unfolding put compare_descriptor
Above-put k d [] h a = (h, tt)
Above-put k d (x ∷ ds) h a = ground (
  arith,
  Above-put (key x) d ds,
  compare_pair-flip (key x) (key d),
  compare_pair-eq (key d) (key x),
  compare_pair-eq (key x) (key d),
  h,
  a.0,
  a.1,
)

put-IsSorted : (d : Descriptor) (ds : List Descriptor) → IsSorted ds → IsSorted (put d ds)
unfolding put compare_descriptor
put-IsSorted d [] s = tt
put-IsSorted d (x ∷ ds) s = ground (
  arith,
  Above-put (key x) d ds,
  compare_pair-flip (key x) (key d),
  compare_pair-eq (key d) (key x),
  compare_pair-eq (key x) (key d),
)

Above-remove :
    (k : Bytes × Bytes) (name : NameView) (ds : List Descriptor)
    → Above k ds
    → Above k (remove name ds)
unfolding remove
Above-remove k name [] a = tt
Above-remove k name (x ∷ ds) a =
    ground (arith, Above-trans k (key x) (remove name ds) a.0, Above-remove (key x) name ds a.1)

remove-IsSorted : (name : NameView) (ds : List Descriptor) → IsSorted ds → IsSorted (remove name ds)
unfolding remove
remove-IsSorted name [] s = tt
remove-IsSorted name (x ∷ ds) s = elim (Bool-cases (same_name (view_of x) name)) [
  | inl gone ↦ rw gone (remove-IsSorted name ds (Above-IsSorted (key x) ds s))
  | inr stays ↦ rw stays (Above-remove (key x) name ds s)
]

Above-living :
    (alive : ℕ → Bool) (k : Bytes × Bytes) (ds : List Descriptor)
    → Above k ds
    → Above k (living alive ds)
unfolding living
Above-living alive k [] a = tt
Above-living alive k (x ∷ ds) a =
    ground (arith, Above-trans k (key x) (living alive ds) a.0, Above-living alive (key x) ds a.1)

living-IsSorted :
    (alive : ℕ → Bool) (ds : List Descriptor) → IsSorted ds → IsSorted (living alive ds)
unfolding living
living-IsSorted alive [] s = tt
living-IsSorted alive (x ∷ ds) s = elim (Bool-cases (alive x.tag)) [
  | inl stays ↦ rw stays (Above-living alive (key x) ds s)
  | inr gone ↦ rw gone (living-IsSorted alive ds (Above-IsSorted (key x) ds s))
]

-- The invariant of the manager.
abbrev pub IsValid : Manager → Type 0
IsValid m = (l : Layer) → IsSorted (at l m)

update-IsValid :
    (layer : Layer) (ds : List Descriptor) (m : Manager)
    → IsSorted ds
    → IsValid m
    → IsValid (update layer ds m)
update-IsValid client ds m s v client = s
update-IsValid client ds m s v core = v core
update-IsValid client ds m s v addon = v addon
update-IsValid client ds m s v script = v script
update-IsValid core ds m s v client = v client
update-IsValid core ds m s v core = s
update-IsValid core ds m s v addon = v addon
update-IsValid core ds m s v script = v script
update-IsValid addon ds m s v client = v client
update-IsValid addon ds m s v core = v core
update-IsValid addon ds m s v addon = s
update-IsValid addon ds m s v script = v script
update-IsValid script ds m s v client = v client
update-IsValid script ds m s v core = v core
update-IsValid script ds m s v addon = v addon
update-IsValid script ds m s v script = s

-- The operations on the table, as steps. A call that throws leaves the manager as it was.
pub data Operation : Type 0 where
  register : Layer → Bytes → Bytes → ℕ → Bool → Option ℕ → Operation
  unregister : Layer → Bytes → Bytes → Operation
  purge_expired : (ℕ → Bool) → Operation

abbrev pub after : Manager → Result Manager → Manager
after m (ok m') = m'
after m (err e) = m

unfoldable pub step : Manager → Operation → Manager
step m (register layer component command handler raw tag) =
    after m (register_command layer component command handler raw tag m)
step m (unregister layer component command) = unregister_command layer component command m
step m (purge_expired alive) = purge alive m

checks_cases :
    (a b c : Result (Unit {0})) (m m' : Manager)
    → (after m (a >> (b >> (c >> ok m'))) ≡ m) ⊎ (after m (a >> (b >> (c >> ok m'))) ≡ m')
checks_cases (ok _) (ok _) (ok _) m m' = inr refl
checks_cases (ok _) (ok _) (err _) m m' = inl refl
checks_cases (ok _) (err _) c m m' = inl refl
checks_cases (err _) b c m m' = inl refl

-- The call throws, or puts one descriptor into its layer.
pub register_cases :
    (layer : Layer) (component command : Bytes) (handler : ℕ) (raw : Bool) (tag : Option ℕ)
    (m : Manager)
    → let d = new_descriptor layer component command handler raw tag m in
      let m' = after m (register_command layer component command handler raw tag m) in
      (m' ≡ m) ⊎ (m' ≡ update layer (put d (at layer m)) m)
unfolding register_command
register_cases layer component command handler raw tag m =
    checks_cases (checked component) (checked command) (non_empty command r1) m _

purge-IsValid : (alive : ℕ → Bool) (m : Manager) → IsValid m → IsValid (purge alive m)
unfolding purge
purge-IsValid alive m v client = living-IsSorted alive m.client_commands (v client)
purge-IsValid alive m v core = living-IsSorted alive m.core_commands (v core)
purge-IsValid alive m v addon = living-IsSorted alive m.addon_commands (v addon)
purge-IsValid alive m v script = living-IsSorted alive m.script_commands (v script)

-- Every operation keeps each layer sorted by command and component, with no name twice.
pub step-IsValid : (m : Manager) (o : Operation) → IsValid m → IsValid (step m o)
unfolding step unregister_command
step-IsValid m (register layer component command handler raw tag) v =
    elim (register_cases layer component command handler raw tag m) [
      | inl e ↦ rw e v
      | inr e ↦ rw e (
          update-IsValid layer
            (put (new_descriptor layer component command handler raw tag m) (at layer m)) m
            (put-IsSorted (new_descriptor layer component command handler raw tag m) (at layer m)
              (v layer))
            v)
    ]
step-IsValid m (unregister layer component command) v =
    let name : NameView = record { component = some component; command = command } in
    update-IsValid layer (remove name (at layer m)) m (remove-IsSorted name (at layer m) (v layer))
      v
step-IsValid m (purge_expired alive) v = purge-IsValid alive m v
