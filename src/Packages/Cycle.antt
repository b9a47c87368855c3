-- ===== src/Packages/Cycle.antt =====
-- core/src/addon/package_manager.cpp: `throw_cycle_error`, which names the packages of a circle.
use fenestra_voli_edition.Base.{
  ℕ, zero, suc, ◌≡◌, refl, false, Option, none, some, List, [], ◌∷◌, if◌then◌else◌,
}
use fenestra_voli_edition.Base.Order.{same_text}
use fenestra_voli_edition.Unicode.{Bytes}
use fenestra_voli_edition.Packages.{Dependency, Package, Color, find}
use fenestra_voli_edition.Packages.Visit.{is_gray}

-- The loop over the dependencies: the first gray one, or the package itself.
unfoldable pub next_gray : List Package → (Bytes → Color) → List Dependency → Package → Package
next_gray installed colors [] p = p
next_gray installed colors (d ∷ ds) p =
    let rest = next_gray installed colors ds p in
    elim (find d.name installed) [
      | none ↦ rest
      | some q ↦ if is_gray (colors d.name) then q else rest
    ]

abbrev pub step : List Package → (Bytes → Color) → Package → Package
step installed colors p = next_gray installed colors p.dependencies p

-- The `do` loop, on fuel, up to `start`: the names in "PKG:P3".
unfoldable pub trace : ℕ → List Package → (Bytes → Color) → Package → Package → Option (List Bytes)
trace zero installed colors start p = none
trace (suc fuel) installed colors start p =
    let next = step installed colors p in
    let rest = trace fuel installed colors start next in
    if same_text next.name start.name
    then some (p.name ∷ [])
    else elim rest [ none ↦ none | some names ↦ some (p.name ∷ names) ]

unfoldable pub throw_cycle_error :
    ℕ → List Package → (Bytes → Color) → Package → Option (List Bytes)
throw_cycle_error fuel installed colors start = trace fuel installed colors start start

module _ (installed : List Package) (colors : Bytes → Color) (start : Package)
    (lost : Package → Type 0)
    (stays : (p : Package)
      → lost p
      → lost (step installed colors p)
        × (same_text (step installed colors p).name start.name ≡ false)) where
  -- Where the first gray dependencies lead into a circle that `start` is not in, the loop never ends.
  pub throw_cycle_error_lost :
      (fuel : ℕ) (p : Package) → lost p → trace fuel installed colors start p ≡ none
  unfolding trace
  throw_cycle_error_lost zero p h = refl
  throw_cycle_error_lost (suc fuel) p h =
      let (l, n) = stays p h in rw (n, throw_cycle_error_lost fuel (step installed colors p) l) refl
