-- ===== src/Packages/Tests.antt =====
-- core/src/addon/package_manager.cpp on a few packages.
use Prim.Native.Char.{code}
use Prim.Native.String.{String}
use mathlib.Core.Path.{subst}
use fenestra_voli_edition.Base.{
  ℕ, ◌≡◌, refl, true, false, some, List, [], ◌∷◌, if◌then◌else◌, arith, Bool-cases, inl, inr,
}
use fenestra_voli_edition.Base.Order.{same_text, same_text-eq, compare_text}
use fenestra_voli_edition.Unicode.{Bytes}
use fenestra_voli_edition.Packages.{
  Dependency, Package, Color, white, gray, find, paint, each, topological_sort, load_each,
  load_order_impl, ok, err, cycle,
}
use fenestra_voli_edition.Packages.Versions.{Version}
use fenestra_voli_edition.Packages.Visit.{HasAll}
use fenestra_voli_edition.Packages.Sorted.{Loadable, load_order_impl-Loadable}
use fenestra_voli_edition.Packages.Acyclic.{Ranked, Below, load_order_impl_succeeds}
use fenestra_voli_edition.Packages.Unload.{unload_order_impl}
use fenestra_voli_edition.Packages.Unload.Dependents.{Falls, Unloadable}
use fenestra_voli_edition.Packages.Unload.Ordered.{unload_order_impl-Unloadable}
use fenestra_voli_edition.Packages.Unload.Twice.{client, library}

abbrev codes : String → Bytes
codes String.[] = []
codes (String.◌∷◌ c s) = code c ∷ codes s

abbrev one : Version
one = record { major = 1; minor = 0; revision = 0; build = 0; tag = [] }

-- `app` needs `base`, and wants `extra`, which is not installed.
abbrev app : Package
app = record {
  name = codes "app";
  version = one;
  dependencies =
      record { name = codes "base"; required = true }
      ∷ record { name = codes "extra"; required = false }
      ∷ [];
  can_update = true;
}

abbrev base : Package
base = record { name = codes "base"; version = one; dependencies = []; can_update = true }

abbrev both : List Package
both = app ∷ base ∷ []

abbrev names : List Bytes
names = codes "app" ∷ codes "base" ∷ []

load_order_impl-runs : load_order_impl both names ≡ ok (base ∷ app ∷ [])
unfolding load_order_impl load_each topological_sort each find paint same_text compare_text
load_order_impl-runs = refl

load_order_impl-Loadable_example : Loadable both (base ∷ app ∷ []) × HasAll names (base ∷ app ∷ [])
load_order_impl-Loadable_example =
    load_order_impl-Loadable both names (base ∷ app ∷ []) load_order_impl-runs

abbrev rank : Bytes → ℕ
rank name = if same_text (codes "app") name then 1 else 0

base_installed : (p : Package) × (find (codes "base") both ≡ some p)
unfolding find same_text compare_text
base_installed = (base, refl)

app_installed : (p : Package) × (find (codes "app") both ≡ some p)
unfolding find same_text compare_text
app_installed = (app, refl)

app-Below : Below both rank (rank (codes "app")) app.dependencies
unfolding same_text compare_text
app-Below = (omega arith, (λ r. base_installed), (omega arith, (λ r. absurd (cc)), tt))

both-Ranked : Ranked both rank
unfolding find
both-Ranked name p e = elim (Bool-cases (same_text (codes "app") name)) [
  | inl h ↦
      let n : codes "app" ≡ name = same_text-eq (codes "app") name h in
      let q : app ≡ p = ground (arith, e, h) in
      subst (λ m. Below both rank (rank m) p.dependencies) n
        (subst (λ (x : Package). Below both rank (rank (codes "app")) x.dependencies) q app-Below)
  | inr h ↦ elim (Bool-cases (same_text (codes "base") name)) [
    | inl g ↦
        let q : base ≡ p = ground (arith, e, h, g) in
        subst (λ (x : Package). Below both rank (rank name) x.dependencies) q tt
    | inr g ↦ absurd (ground (arith, e, h, g))
  ]
]

both-Falls : Falls rank both
unfolding same_text compare_text
both-Falls = ((omega arith, (omega arith, tt)), (tt, tt))

load_order_impl_succeeds_example : (rs : List Package) × (load_order_impl both names ≡ ok rs)
load_order_impl_succeeds_example =
    load_order_impl_succeeds both rank both-Ranked names (app_installed, (base_installed, tt))

unload_order_impl-Unloadable_example :
    (rs : List Package) × (unload_order_impl both names ≡ some rs)
    × Unloadable both rs
    × HasAll names rs
unload_order_impl-Unloadable_example =
    unload_order_impl-Unloadable both rank both-Falls names (app_installed, (base_installed, tt))

apart : same_text (codes "app") (codes "base") ≡ false
unfolding same_text compare_text
apart = refl

apart_back : same_text (codes "base") (codes "app") ≡ false
unfolding same_text compare_text
apart_back = refl

abbrev needs : Package
needs = client (codes "app") (codes "base") one one true true

abbrev needed : Package
needed = library (codes "app") (codes "base") one one true true

-- Three packages: the optional dependencies of `a` on itself and of `b` on `a` stand first, then `a`
-- needs `b`, `b` needs `c` and `c` needs `b`.
abbrev wants : Bytes → Dependency
wants name = record { name = name; required = false }

abbrev requires : Bytes → Dependency
requires name = record { name = name; required = true }

abbrev plain : Bytes → List Dependency → Package
plain name dependencies = record {
  name = name;
  version = one;
  dependencies = dependencies;
  can_update = true;
}

abbrev a : Package
a = plain (codes "a") (wants (codes "a") ∷ requires (codes "b") ∷ [])

abbrev b : Package
b = plain (codes "b") (wants (codes "a") ∷ requires (codes "c") ∷ [])

abbrev c : Package
c = plain (codes "c") (requires (codes "b") ∷ [])

abbrev abc : List Package
abc = a ∷ b ∷ c ∷ []

abbrev grays : Bytes → Color
grays = paint (codes "c") gray (paint (codes "b") gray (paint (codes "a") gray (λ name. white)))

load_order_impl-cycle : load_order_impl abc (codes "a" ∷ []) ≡ err (cycle b grays)
unfolding load_order_impl load_each topological_sort each find paint same_text compare_text
load_order_impl-cycle = refl

abbrev IsLost : Package → Type 0
IsLost p = a ≡ p
