-- ===== src/Addons/Dependency.antt =====
-- core/src/addon/addon.cpp: `find_dependency`, which finds the package that a script of an addon requires.
-- The names of `implicit_packages_key`, a table of the interpreter, are an argument; they are none but in
-- developer mode. Adding a name to that table, and the message about it, are left out.
use fenestra_voli_edition.Base.{ℕ, zero, suc, Bool, none, some, List, [], ◌∷◌, ◌++◌, if◌then◌else◌}
use fenestra_voli_edition.Base.Order.{same_text}
use fenestra_voli_edition.Unicode.{Bytes}
use fenestra_voli_edition.Packages.{Dependency, Package, find}

-- A package that is a dependency, directly or not; one that the manifest does not name, with a warning;
-- the errors "PKG:P1" and "PKG:P2".
pub data Found : Type 0 where
  found warned : Package → Found
  p1 p2 out_of_fuel : Found

module _ (is_library : Package → Bool) (installed : List Package) (name : Bytes) where
  -- The dependencies that are installed.
  unfoldable pub dependencies_of : List Dependency → List Package
  dependencies_of [] = []
  dependencies_of (d ∷ ds) =
      let rest = dependencies_of ds in
      elim (find d.name installed) [ none ↦ rest | some p ↦ p ∷ rest ]

  -- The libraries of the table.
  unfoldable pub implicit_packages : List Bytes → List Package
  implicit_packages [] = []
  implicit_packages (n ∷ ns) =
      let rest = implicit_packages ns in
      elim (find n installed) [ none ↦ rest | some p ↦ if is_library p then p ∷ rest else rest ]

  abbrev pub pushed : Package → List Package → List Package
  pushed p queue = if is_library p then queue ++ dependencies_of p.dependencies else queue

  -- Behind both loops.
  unfoldable pub missing : Bool → Found
  missing developer_mode =
      if developer_mode then elim (find name installed) [ none ↦ p1 | some p ↦ warned p ] else p2

  -- The loop over the queue.
  unfoldable pub search : ℕ → Bool → List Package → Found
  search zero developer_mode queue = out_of_fuel
  search (suc fuel) developer_mode [] = missing developer_mode
  search (suc fuel) developer_mode (p ∷ queue) =
      let rest = search fuel developer_mode (pushed p queue) in
      if same_text p.name name then found p else rest

  -- The loop over the dependencies of the addon.
  unfoldable pub search_direct : ℕ → Bool → List Bytes → List Dependency → List Package → Found
  search_direct fuel developer_mode implicit [] queue =
      search fuel developer_mode
        (if developer_mode then queue ++ implicit_packages implicit else queue)
  search_direct fuel developer_mode implicit (d ∷ ds) queue = elim (find d.name installed) [
    | none ↦ search_direct fuel developer_mode implicit ds queue
    | some p ↦
        let rest = search_direct fuel developer_mode implicit ds (pushed p queue) in
        if same_text d.name name then found p else rest
  ]

  unfoldable pub find_dependency : ℕ → Bool → List Bytes → List Dependency → Found
  find_dependency fuel developer_mode implicit ds = search_direct fuel developer_mode implicit ds []
