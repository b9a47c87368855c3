-- ===== src/Packages/Unload/Twice.antt =====
-- core/src/addon/package_manager.cpp: `unload_order_impl` can put a package out twice.
use fenestra_voli_edition.Base.{◌≡◌, Bool, false, some, [], ◌∷◌, arith}
use fenestra_voli_edition.Base.Order.{same_text, same_text_self}
use fenestra_voli_edition.Unicode.{Bytes}
use fenestra_voli_edition.Packages.Versions.{Version}
use fenestra_voli_edition.Packages.{Package, find, paint}
use fenestra_voli_edition.Packages.Unload.{
  depends_on, visit_dependent, each_vertex, reverse_topological_sort, unload_each,
  unload_order_impl,
}

module _ (a b : Bytes) (va vb : Version) (required can_update : Bool) where
  abbrev pub client : Package
  client = record {
    name = a;
    version = va;
    dependencies = record { name = b; required = required } ∷ [];
    can_update = can_update;
  }

  abbrev pub library : Package
  library = record { name = b; version = vb; dependencies = []; can_update = can_update }

  -- A package that depends on another one is unloaded twice when both are unloaded in this order.
  pub unload_order_impl_twice :
      same_text a b ≡ false
      → same_text b a ≡ false
      → unload_order_impl (client ∷ library ∷ []) (a ∷ b ∷ [])
        ≡ some (client ∷ client ∷ library ∷ [])
  unfolding unload_order_impl unload_each reverse_topological_sort each_vertex visit_dependent
      depends_on find paint
  unload_order_impl_twice h k = ground (arith, h, k, same_text_self a, same_text_self b)
