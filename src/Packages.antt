-- ===== src/Packages.antt =====
-- core/src/addon/package_manager.cpp: packages, and the order in which they are loaded.
-- `m_installed_packages` is a list of packages with different names; the colours of its vertices are a
-- function of the names. Types and paths of packages and the lock are left out.
pub mod Versions
pub mod Visit
pub mod Sorted
pub mod Total
pub mod Acyclic
pub mod Unload
pub mod Cycle
pub mod Update
mod Tests
use fenestra_voli_edition.Base.{
  ℕ, zero, suc, ◌+◌, ◌≡◌, Bool, true, false, ◌||◌, Option, none, some, List, [], ◌∷◌, ◌++◌,
  if◌then◌else◌, length,
}
use fenestra_voli_edition.Base.Order.{same_text}
use fenestra_voli_edition.Unicode.{Bytes}
use fenestra_voli_edition.Packages.Versions.{Version}

pub record Dependency : Type 0 where
  pub name : Bytes
  pub required : Bool

pub record Package : Type 0 where
  pub name : Bytes
  pub version : Version
  pub dependencies : List Dependency
  pub can_update : Bool

-- `vertex_color`
pub data Color : Type 0 where
  white gray black : Color

-- `m_installed_packages.find`
unfoldable pub find : Bytes → List Package → Option Package
find name [] = none
find name (p ∷ ps) = let rest = find name ps in if same_text p.name name then some p else rest

-- The colours and `results`.
pub record Sorting : Type 0 where
  pub colors : Bytes → Color
  pub results : List Package

-- "PKG:P1" and "PKG:P2" with the name, and the call of `throw_cycle_error`, with its argument and the
-- colours at that point.
pub data Error : Type 0 where
  p1 p2 : Bytes → Error
  cycle : Package → (Bytes → Color) → Error

pub data Result (A : Type 0) : Type 0 where
  ok : A → Result A
  err : Error → Result A
  out_of_fuel : Result A

infixl 5 ◌>>=◌
abbrev pub ◌>>=◌ : {A B : Type 0} → Result A → (A → Result B) → Result B
ok a >>= f = f a
err e >>= f = err e
out_of_fuel >>= f = out_of_fuel

-- `color = ...`
unfoldable pub paint : Bytes → Color → (Bytes → Color) → Bytes → Color
paint name color colors n = if same_text name n then color else colors n

-- The loop over the dependencies.
unfoldable pub each :
    (Dependency → Sorting → Result Sorting) → List Dependency → Sorting → Result Sorting
each f [] s = ok s
each f (d ∷ ds) s = f d s >>= each f ds

abbrev pub start_vertex : Bytes → Sorting → Sorting
start_vertex name s = record s { colors = paint name gray s.colors }

abbrev pub finish_vertex : Bytes → Package → Sorting → Sorting
finish_vertex name p s = record {
  colors = paint name black s.colors;
  results = s.results ++ p ∷ [];
}

-- Each call for a vertex that is white makes it gray, so one more round than there are packages is
-- fuel enough.
unfoldable pub topological_sort : ℕ → List Package → Bytes → Bool → Sorting → Result Sorting
topological_sort zero installed name required s = out_of_fuel
topological_sort (suc fuel) installed name required s = elim (find name installed) [
  | none ↦ if required then err (p2 name) else ok s
  | some p ↦ elim (s.colors name) [
    | gray ↦ if required then err (cycle p s.colors) else ok s
    | white ↦
        each (λ d. topological_sort fuel installed d.name d.required) p.dependencies
          (start_vertex name s)
        >>= λ s'. ok (finish_vertex name p s')
    | black ↦ ok s
  ]
]

-- The loop over the names.
unfoldable pub load_each : ℕ → List Package → List Bytes → Sorting → Result Sorting
load_each fuel installed [] s = ok s
load_each fuel installed (name ∷ names) s = elim (find name installed) [
  | none ↦ err (p1 name)
  | some p ↦ topological_sort fuel installed name true s >>= load_each fuel installed names
]

-- `clear` makes every vertex white.
abbrev pub cleared : Sorting
cleared = record { colors = λ name. white; results = [] }

unfoldable pub load_order_impl : List Package → List Bytes → Result (List Package)
load_order_impl installed names =
    load_each (length installed + 1) installed names cleared >>= λ s. ok s.results
