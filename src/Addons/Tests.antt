-- ===== src/Addons/Tests.antt =====
-- core/src/addon/addon_manager.cpp on a few addons.
use Prim.Native.Char.{code}
use Prim.Native.String.{String}
use fenestra_voli_edition.Base.{
  ℕ, false, some, ◌+◌, ◌≡◌, refl, not, true, List, [], ◌∷◌, if◌then◌else◌,
}
use fenestra_voli_edition.Base.Order.{same_text, compare_text}
use fenestra_voli_edition.Unicode.{Bytes}
use fenestra_voli_edition.Packages.{
  Dependency, Package, find, paint, each, topological_sort, load_each, load_order_impl, ok, p1,
}
use fenestra_voli_edition.Packages.Versions.{Version}
use fenestra_voli_edition.Packages.Unload.{
  unload_order_impl, unload_each, reverse_topological_sort, each_vertex, visit_dependent,
  depends_on,
}
use fenestra_voli_edition.Addons
use fenestra_voli_edition.Addons.{
  int2, Host, returned, thrown, fault, order, erase, load_packages, unload_packages, load, unload,
  reload, loaded_of, run_until_idle, run_each, raise_error, go_on,
}
use fenestra_voli_edition.Addons.Distinct.{IsValid, HavePackages}
use fenestra_voli_edition.Addons.Kept.{Kept, call, call-IsValid, load_}
use fenestra_voli_edition.Addons.Sets.{fresh, Loads, load-Loads}
use fenestra_voli_edition.Addons.Dependency.{
  found, out_of_fuel, dependencies_of, search, search_direct, find_dependency,
}
use fenestra_voli_edition.Addons.Reached.{IsReached, find_dependency-IsReached}

abbrev codes : String → Bytes
codes String.[] = []
codes (String.◌∷◌ c s) = code c ∷ codes s

abbrev one : Version
one = record { major = 1; minor = 0; revision = 0; build = 0; tag = [] }

abbrev required : String → Dependency
required name = record { name = codes name; required = true }

abbrev base : Package
base = record { name = codes "base"; version = one; dependencies = []; can_update = true }

abbrev tool : Package
tool = record { name = codes "tool"; version = one; dependencies = []; can_update = true }

-- `app` needs the library `base` and the addon `tool`.
abbrev app : Package
app = record {
  name = codes "app";
  version = one;
  dependencies = required "base" ∷ required "tool" ∷ [];
  can_update = true;
}

abbrev installed : List Package
installed = app ∷ tool ∷ base ∷ []

-- The world counts the calls. What `tool` runs fails.
abbrev host : Host ℕ
host = record {
  is_library = λ p. same_text p.name (codes "base");
  make = λ p w. (true, w + 1);
  destroy = λ p w. w + 1;
  run = λ p w. (not (same_text p.name (codes "tool")), w + 1);
  purge = λ w. w + 1;
  is_held = λ p. false;
}

abbrev names : List Bytes
names = codes "app" ∷ []

abbrev tools : List Bytes
tools = codes "tool" ∷ []

no_addons : IsValid host []
no_addons = record { distinct = tt; clients = tt }

one_installed : HavePackages host installed (tool ∷ [])
unfolding find same_text compare_text
one_installed = (refl, tt)

load_order_impl-app : load_order_impl installed names ≡ ok (base ∷ tool ∷ app ∷ [])
unfolding load_order_impl load_each topological_sort each find paint same_text compare_text
load_order_impl-app = refl

abbrev rank : Bytes → ℕ
rank name = if same_text (codes "app") name then 1 else 0

call-IsValid_example : Kept (IsValid host) (call host installed (load_ names) [] 0)
call-IsValid_example = call-IsValid host installed (load_ names) [] 0 no_addons

load-Loads_example :
    Loads host
      (tool ∷ [])
      (fresh host (tool ∷ []) (base ∷ tool ∷ app ∷ []))
      0
      (load host installed names (tool ∷ []) 0)
load-Loads_example =
    load-Loads host installed (base ∷ tool ∷ app ∷ []) names (tool ∷ []) 0 one_installed
      load_order_impl-app

-- `reload` does not load an addon again that depends on the one that is reloaded.
reload_lost : reload host installed tools (tool ∷ app ∷ []) 0 ≡ returned (tool ∷ []) 5
unfolding reload load unload_packages load_packages erase loaded_of Addons.search load_order_impl
    load_each topological_sort each find paint same_text compare_text unload_order_impl unload_each
    reverse_topological_sort each_vertex visit_dependent depends_on
reload_lost = refl

-- Where a name is not installed, `reload` throws when the addons are unloaded already.
reload_unloaded :
    reload host installed (codes "tool" ∷ codes "gone" ∷ []) (tool ∷ app ∷ []) 0
    ≡ thrown (order (p1 (codes "gone"))) [] 4
unfolding reload load unload_packages load_packages erase loaded_of Addons.search load_order_impl
    load_each topological_sort each find paint same_text compare_text unload_order_impl unload_each
    reverse_topological_sort each_vertex visit_dependent depends_on
reload_unloaded = refl

-- An addon that fails is erased from the list that the loop runs over.
run_until_idle_fault : run_until_idle host installed (tool ∷ app ∷ []) 0 ≡ fault
unfolding run_until_idle run_each raise_error Addons.search go_on unload unload_packages erase find
    paint same_text compare_text unload_order_impl unload_each reverse_topological_sort each_vertex
    visit_dependent depends_on
run_until_idle_fault = refl

-- A library that needs `tool`, and what is installed with it.
abbrev kit : Package
kit = record base { dependencies = required "tool" ∷ [] }

abbrev kits : List Package
kits = kit ∷ tool ∷ []

find_dependency-tool :
    find_dependency host.is_library kits (codes "tool") 3 false [] (required "base" ∷ [])
    ≡ found tool
unfolding find_dependency search_direct search dependencies_of find same_text compare_text
find_dependency-tool = refl

find_dependency-IsReached_example :
    IsReached host.is_library kits (required "base" ∷ []) tool
    × (find (codes "tool") kits ≡ some tool)
find_dependency-IsReached_example =
    find_dependency-IsReached host.is_library kits (codes "tool") (required "base" ∷ []) 3 [] tool
      find_dependency-tool

-- A library that wants itself.
abbrev circle : Package
circle = record base { dependencies = record { name = codes "base"; required = false } ∷ [] }

find_dependency-circle :
    find_dependency host.is_library (circle ∷ []) (codes "tool") 100 false [] (required "base" ∷ [])
    ≡ out_of_fuel
unfolding find_dependency search_direct search dependencies_of find same_text compare_text
find_dependency-circle = refl

-- An addon whose package is gone is not unloaded, nor is one that is found behind it.
abbrev gone_addon : Package
gone_addon = record tool { name = codes "gone" }

unload_gone :
    unload host installed tools (gone_addon ∷ tool ∷ []) 0 ≡ thrown int2 (gone_addon ∷ tool ∷ []) 0
unfolding unload unload_packages erase Addons.search find same_text compare_text unload_order_impl
    unload_each reverse_topological_sort each_vertex visit_dependent depends_on paint
unload_gone = refl
