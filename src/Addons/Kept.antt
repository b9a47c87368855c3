-- ===== src/Addons/Kept.antt =====
-- core/src/addon/addon_manager.cpp: what no call changes about the addons that are loaded.
use fenestra_voli_edition.Base.{
  ◌==◌, Bool-cases, Option, none, some, List, [], ◌∷◌, ◌++◌, inl, inr, length,
}
use fenestra_voli_edition.Unicode.{Bytes}
use fenestra_voli_edition.Packages
use fenestra_voli_edition.Packages.{Package, Result, ok, err, find, load_order_impl}
use fenestra_voli_edition.Packages.Unload.{unload_order_impl}
use fenestra_voli_edition.Addons.Distinct.{search-cases}
use fenestra_voli_edition.Addons.{
  terminated, then_load, unload_loaded, no_throw, reload_names, loaded_names, has_package, Host,
  Error, Outcome, returned, thrown, fault, out_of_fuel, erase, load_packages, unload_packages, load,
  unload, reload, unload_all, reload_all, raise_error, go_on, run_each, run_until_idle, loaded_of,
  names_of, load_result, unload_result, reload_result,
}
use fenestra_voli_edition.Addons.Distinct.{
  AreDistinct-append, erase-AreDistinct, AreClients-append, erase-AreClients, IsValid,
}

-- A call that returns or throws leaves addons that a predicate holds of.
pub data Kept {W : Type 0} (P : List Package → Type 0) : Outcome W → Type 0 where
  kept_returned : (addons : List Package) (w : W) → P addons → Kept P (returned addons w)
  kept_thrown : (e : Error) (addons : List Package) (w : W) → P addons → Kept P (thrown e addons w)
  kept_fault : Kept P fault
  kept_terminated : Kept P terminated
  kept_out_of_fuel : Kept P out_of_fuel

-- The calls of the manager.
pub data Call : Type 0 where
  load_ unload_ reload_ : List Bytes → Call
  unload_all_ reload_all_ run_until_idle_ : Call
  raise_error_ : Package → Call

module _ {W : Type 0} (host : Host W) (installed : List Package) where
  load_packages-IsValid :
      (ps addons : List Package) (w : W)
      → IsValid host addons
      → Kept (IsValid host) (load_packages host installed ps addons w)
  unfolding load_packages
  load_packages-IsValid [] addons w v = kept_returned addons w v
  load_packages-IsValid (p ∷ ps) addons w v = elim (Bool-cases (host.is_library p)) [
    | inl e ↦ rw e (load_packages-IsValid ps addons w v)
    | inr e ↦ elim (search-cases host installed p.name addons) [
      | inl s ↦ rw (e, s) (kept_thrown _ addons w v)
      | inr (inl (a, s)) ↦ rw (e, s) (load_packages-IsValid ps addons w v)
      | inr (inr (s, new)) ↦ elim (Bool-cases (host.make p w).0) [
        | inl h ↦
            rw (e, s, h)
              (load_packages-IsValid ps (addons ++ p ∷ []) (host.make p w).1 (record {
                distinct = AreDistinct-append addons p v.distinct new;
                clients = AreClients-append host addons p v.clients e;
              }))
        | inr h ↦ rw (e, s, h) (kept_thrown _ addons _ v)
      ]
    ]
  ]

  unload_packages-IsValid :
      (ps addons : List Package) (w : W)
      → IsValid host addons
      → Kept (IsValid host) (unload_packages host installed ps addons w)
  unfolding unload_packages
  unload_packages-IsValid [] addons w v = kept_returned addons w v
  unload_packages-IsValid (p ∷ ps) addons w v = elim (Bool-cases (host.is_library p)) [
    | inl e ↦ rw e (unload_packages-IsValid ps addons w v)
    | inr e ↦ elim (search-cases host installed p.name addons) [
      | inl s ↦ rw (e, s) (kept_thrown _ addons w v)
      | inr (inl (a, s)) ↦
          rw (e, s)
            (unload_packages-IsValid ps (erase p.name addons) _ (record {
              distinct = erase-AreDistinct p.name addons v.distinct;
              clients = erase-AreClients host p.name addons v.clients;
            }))
      | inr (inr (s, new)) ↦ rw (e, s) (unload_packages-IsValid ps addons w v)
    ]
  ]

  unfoldable pub call : Call → List Package → W → Outcome W
  call (load_ names) = load host installed names
  call (unload_ names) = unload host installed names
  call (reload_ names) = reload host installed names
  call unload_all_ = unload_all host installed
  call reload_all_ = reload_all host installed
  call run_until_idle_ = run_until_idle host installed
  call (raise_error_ p) = raise_error host installed p

  load_result-IsValid :
      (addons : List Package) (w : W) (r : Result (List Package))
      → IsValid host addons
      → Kept (IsValid host) (load_result host installed addons w r)
  load_result-IsValid addons w (ok ps) v = load_packages-IsValid ps addons w v
  load_result-IsValid addons w (err e) v = kept_thrown _ addons w v
  load_result-IsValid addons w Packages.out_of_fuel v = kept_out_of_fuel

  unload_result-IsValid :
      (addons : List Package) (w : W) (o : Option (List Package))
      → IsValid host addons
      → Kept (IsValid host) (unload_result host installed addons w o)
  unload_result-IsValid addons w none v = kept_out_of_fuel
  unload_result-IsValid addons w (some ps) v = unload_packages-IsValid ps addons w v

  then_load-IsValid :
      (names : List Bytes) (o : Outcome W)
      → Kept (IsValid host) o
      → Kept (IsValid host) (then_load host installed names o)
  unfolding load
  then_load-IsValid names _ (kept_returned addons w v) =
      load_result-IsValid addons w (load_order_impl installed names) v
  then_load-IsValid names _ (kept_thrown e addons w v) = kept_thrown e addons w v
  then_load-IsValid names _ kept_fault = kept_fault
  then_load-IsValid names _ kept_terminated = kept_terminated
  then_load-IsValid names _ kept_out_of_fuel = kept_out_of_fuel

  unload_loaded-IsValid :
      (addons : List Package) (w : W) (o : Option (List Package))
      → IsValid host addons
      → Kept (IsValid host) (unload_loaded host installed addons w o)
  unload_loaded-IsValid addons w none v = kept_thrown _ addons w v
  unload_loaded-IsValid addons w (some ps) v = unload_packages-IsValid ps addons w v

  reload_result-IsValid :
      (names : List Bytes) (addons : List Package) (w : W) (o : Option (List Package))
      → IsValid host addons
      → Kept (IsValid host) (reload_result host installed names addons w o)
  reload_result-IsValid names addons w none v = kept_out_of_fuel
  reload_result-IsValid names addons w (some ps) v =
      then_load-IsValid names _
        (unload_loaded-IsValid addons w (loaded_of host installed addons ps) v)

  reload_names-IsValid :
      (addons : List Package) (w : W) (o : Option (List Bytes))
      → IsValid host addons
      → Kept (IsValid host) (reload_names host installed addons w o)
  unfolding reload
  reload_names-IsValid addons w none v = kept_thrown _ addons w v
  reload_names-IsValid addons w (some names) v =
      reload_result-IsValid names addons w (unload_order_impl installed names) v

  no_throw-IsValid :
      (o : Outcome W) → Kept (IsValid host) o → Kept (IsValid host) (no_throw host installed o)
  no_throw-IsValid _ (kept_returned addons w v) = kept_returned addons w v
  no_throw-IsValid _ (kept_thrown e addons w v) = kept_terminated
  no_throw-IsValid _ kept_fault = kept_fault
  no_throw-IsValid _ kept_terminated = kept_terminated
  no_throw-IsValid _ kept_out_of_fuel = kept_out_of_fuel

  go_on-IsValid :
      (again : W → Outcome W) (addons : List Package) (o : Outcome W)
      → ((w : W) → Kept (IsValid host) (again w))
      → Kept (IsValid host) o
      → Kept (IsValid host) (go_on host installed again addons o)
  unfolding go_on
  go_on-IsValid again addons (returned bs w) h k = elim (Bool-cases (length bs == length addons)) [
    | inl e ↦ rw e (h w)
    | inr e ↦ rw e kept_fault
  ]
  go_on-IsValid again addons (thrown e bs w) h k = k
  go_on-IsValid again addons fault h k = k
  go_on-IsValid again addons terminated h k = k
  go_on-IsValid again addons out_of_fuel h k = k

  run_each-IsValid :
      (bs addons : List Package) (w : W)
      → IsValid host addons
      → Kept (IsValid host) (run_each host installed bs addons w)
  unfolding run_each raise_error unload
  run_each-IsValid [] addons w v = kept_returned addons w v
  run_each-IsValid (a ∷ bs) addons w v = elim (Bool-cases (host.run a w).0) [
    | inl e ↦ rw e (run_each-IsValid bs addons (host.run a w).1 v)
    | inr e ↦ elim (Bool-cases (has_package host installed a)) [
      | inl h ↦
          rw (e, h)
            (go_on-IsValid (run_each host installed bs addons) addons _
              (λ u. run_each-IsValid bs addons u v)
              (unload_result-IsValid addons _ (unload_order_impl installed (a.name ∷ [])) v))
      | inr h ↦ rw (e, h) (kept_thrown _ addons _ v)
    ]
  ]

  -- No call loads an addon a second time or loads a library, also where an addon throws.
  pub call-IsValid :
      (c : Call) (addons : List Package) (w : W)
      → IsValid host addons
      → Kept (IsValid host) (call c addons w)
  unfolding call load unload reload unload_all reload_all raise_error run_until_idle
  call-IsValid (load_ names) addons w v =
      load_result-IsValid addons w (load_order_impl installed names) v
  call-IsValid (unload_ names) addons w v =
      unload_result-IsValid addons w (unload_order_impl installed names) v
  call-IsValid (reload_ names) addons w v =
      reload_result-IsValid names addons w (unload_order_impl installed names) v
  call-IsValid unload_all_ addons w v =
      no_throw-IsValid _
        (unload_result-IsValid addons w (unload_order_impl installed (names_of installed)) v)
  call-IsValid reload_all_ addons w v =
      reload_names-IsValid addons w (loaded_names host installed addons) v
  call-IsValid run_until_idle_ addons w v = run_each-IsValid addons addons w v
  call-IsValid (raise_error_ p) addons w v =
      unload_result-IsValid addons w (unload_order_impl installed (p.name ∷ [])) v
