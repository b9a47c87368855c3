-- ===== src/Packages/Unload.antt =====
-- core/src/addon/package_manager.cpp: the order in which packages are unloaded.
pub mod Dependents
pub mod Ordered
pub mod Twice
pub mod Asked
use fenestra_voli_edition.Base.{
  ℕ, zero, suc, ◌+◌, ◌≡◌, Bool, true, false, ◌&&◌, ◌||◌, Option, none, some, List, [], ◌∷◌, ◌++◌,
  if◌then◌else◌, length,
}
use fenestra_voli_edition.Base.Order.{same_text}
use fenestra_voli_edition.Unicode.{Bytes}
use fenestra_voli_edition.Packages.{
  Dependency, Package, Color, white, gray, black, find, Sorting, paint, cleared,
}
use fenestra_voli_edition.Packages.Total.{is_white}

infixl 5 ◌>>=◌
abbrev pub ◌>>=◌ : {A B : Type 0} → Option A → (A → Option B) → Option B
none >>= f = none
some a >>= f = f a

-- The `find_if` over the dependencies.
unfoldable pub depends_on : Bytes → List Dependency → Bool
depends_on name [] = false
depends_on name (d ∷ ds) = same_text d.name name || depends_on name ds

abbrev pub with_color : Bytes → Color → Sorting → Sorting
with_color name color s = record s { colors = paint name color s.colors }

-- One turn of the loop over the vertices.
unfoldable pub visit_dependent :
    (Bytes → Sorting → Option Sorting) → Bytes → Package → Sorting → Option Sorting
visit_dependent f name v s =
    let turn = f v.name (with_color v.name gray s) >>= λ s'. some (with_color v.name black s') in
    if is_white (s.colors v.name) && depends_on name v.dependencies then turn else some s

unfoldable pub each_vertex :
    (Bytes → Sorting → Option Sorting) → Bytes → List Package → Sorting → Option Sorting
each_vertex f name [] s = some s
each_vertex f name (v ∷ vs) s = visit_dependent f name v s >>= each_vertex f name vs

abbrev pub push : Package → Sorting → Sorting
push p s = record s { results = s.results ++ p ∷ [] }

-- The package itself gets no colour here.
unfoldable pub reverse_topological_sort : ℕ → List Package → Bytes → Sorting → Option Sorting
reverse_topological_sort zero installed name s = none
reverse_topological_sort (suc fuel) installed name s = elim (find name installed) [
  | none ↦ some s
  | some p ↦ each_vertex (reverse_topological_sort fuel installed) name installed s >>= λ s'.
      some (push p s')
]

unfoldable pub unload_each : ℕ → List Package → List Bytes → Sorting → Option Sorting
unload_each fuel installed [] s = some s
unload_each fuel installed (name ∷ names) s =
    reverse_topological_sort fuel installed name s >>= unload_each fuel installed names

unfoldable pub unload_order_impl : List Package → List Bytes → Option (List Package)
unload_order_impl installed names =
    unload_each (length installed + 1) installed names cleared >>= λ s. some s.results
