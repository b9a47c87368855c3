-- ===== src/Addons.antt =====
-- core/src/addon/addon_manager.cpp: the addons that are loaded, each by its package.
-- The packages that are installed are an argument, as are the calls of an addon's interpreter and the
-- purge of the commands, over a type of worlds. `m_mutex` and messages to the log are left out.
pub mod Distinct
pub mod Kept
pub mod Sets
pub mod Dependency
pub mod Circle
pub mod Reached
mod Tests
use fenestra_voli_edition.Base.{
  not, true, false, ℕ, Bool, true, false, ◌||◌, ◌==◌, Option, none, some, List, [], ◌∷◌, ◌++◌,
  if◌then◌else◌, length,
}
use fenestra_voli_edition.Base.Order.{same_text}
use fenestra_voli_edition.Unicode.{Bytes}
use fenestra_voli_edition.Packages
use fenestra_voli_edition.Packages.{Package, Result, ok, err, find, load_order_impl}
use fenestra_voli_edition.Packages.Visit.{has}
use fenestra_voli_edition.Packages.Unload.{unload_order_impl}

-- What an addon's package and its interpreter do, and whether the weak pointer to the package is held by
-- something. A call that may throw gives `false` where it does.
pub record Host (W : Type 0) : Type 0 where
  pub is_library : Package → Bool
  pub make : Package → W → Bool × W
  pub destroy : Package → W → W
  pub run : Package → W → Bool × W
  pub is_held : Package → Bool
  pub purge : W → W

-- An error of the package manager, one of an addon with its name, or "INT:2" for an addon whose package is
-- gone.
pub data Error : Type 0 where
  order : Packages.Error → Error
  script : Bytes → Error
  int2 : Error

-- With `m_loaded_addons`; a fault is an iterator that is used behind an erasure, and an exception that
-- leaves a function that throws none ends the process.
pub data Outcome (W : Type 0) : Type 0 where
  returned : List Package → W → Outcome W
  thrown : Error → List Package → W → Outcome W
  fault terminated out_of_fuel : Outcome W

-- `m_loaded_addons.erase`
unfoldable pub erase : Bytes → List Package → List Package
erase name [] = []
erase name (a ∷ bs) = let rest = erase name bs in if same_text a.name name then bs else a ∷ rest

-- What `find_if` over the addons finds by a name; a package that is gone is thrown from it.
pub data Search : Type 0 where
  missing gone : Search
  found : Package → Search

-- The names of the packages that are installed.
unfoldable pub names_of : List Package → List Bytes
names_of [] = []
names_of (p ∷ ps) = p.name ∷ names_of ps

abbrev pub is_some : Option Package → Bool
is_some none = false
is_some (some p) = true

module _ {W : Type 0} (host : Host W) (installed : List Package) where
  -- `addon::package` gives a package, by its pointer or by its name.
  abbrev pub has_package : Package → Bool
  has_package a = host.is_held a || is_some (find a.name installed)

  unfoldable pub search : Bytes → List Package → Search
  search name [] = missing
  search name (a ∷ bs) =
      let rest = search name bs in
      if not (has_package a) then gone else if same_text a.name name then found a else rest

  -- The `copy_if` of `reload`; none is an error.
  unfoldable pub loaded_of : List Package → List Package → Option (List Package)
  loaded_of addons [] = some []
  loaded_of addons (p ∷ ps) =
      let rest = loaded_of addons ps in
      elim (search p.name addons) [
        | gone ↦ none
        | missing ↦ rest
        | found a ↦ elim rest [ none ↦ none | some qs ↦ some (p ∷ qs) ]
      ]

  -- The `transform` of `reload_all`.
  unfoldable pub loaded_names : List Package → Option (List Bytes)
  loaded_names [] = some []
  loaded_names (a ∷ bs) =
      let rest = loaded_names bs in
      if has_package a then elim rest [ none ↦ none | some ns ↦ some (a.name ∷ ns) ] else none

  -- The loop of `load` over the packages.
  unfoldable pub load_packages : List Package → List Package → W → Outcome W
  load_packages [] addons w = returned addons w
  load_packages (p ∷ ps) addons w =
      let made = host.make p w in
      let passed = load_packages ps addons w in
      let rest = load_packages ps (addons ++ p ∷ []) made.1 in
      if host.is_library p then passed else elim (search p.name addons) [
        | gone ↦ thrown int2 addons w
        | found a ↦ passed
        | missing ↦ if made.0 then rest else thrown (script p.name) addons made.1
      ]

  -- The loop of `unload` over the packages.
  unfoldable pub unload_packages : List Package → List Package → W → Outcome W
  unload_packages [] addons w = returned addons w
  unload_packages (p ∷ ps) addons w =
      let passed = unload_packages ps addons w in
      if host.is_library p then passed else elim (search p.name addons) [
        | gone ↦ thrown int2 addons w
        | missing ↦ passed
        | found a ↦ unload_packages ps (erase p.name addons) (host.purge (host.destroy a w))
      ]

  abbrev pub load_result : List Package → W → Result (List Package) → Outcome W
  load_result addons w (ok ps) = load_packages ps addons w
  load_result addons w (err e) = thrown (order e) addons w
  load_result addons w Packages.out_of_fuel = out_of_fuel

  unfoldable pub load : List Bytes → List Package → W → Outcome W
  load names addons w = load_result addons w (load_order_impl installed names)

  abbrev pub unload_result : List Package → W → Option (List Package) → Outcome W
  unload_result addons w none = out_of_fuel
  unload_result addons w (some ps) = unload_packages ps addons w

  unfoldable pub unload : List Bytes → List Package → W → Outcome W
  unload names addons w = unload_result addons w (unload_order_impl installed names)

  -- `load` behind a call that returns.
  abbrev pub then_load : List Bytes → Outcome W → Outcome W
  then_load names (returned addons w) = load names addons w
  then_load names (thrown e addons w) = thrown e addons w
  then_load names fault = fault
  then_load names terminated = terminated
  then_load names out_of_fuel = out_of_fuel

  abbrev pub unload_loaded : List Package → W → Option (List Package) → Outcome W
  unload_loaded addons w none = thrown int2 addons w
  unload_loaded addons w (some ps) = unload_packages ps addons w

  abbrev pub reload_result : List Bytes → List Package → W → Option (List Package) → Outcome W
  reload_result names addons w none = out_of_fuel
  reload_result names addons w (some ps) =
      then_load names (unload_loaded addons w (loaded_of addons ps))

  unfoldable pub reload : List Bytes → List Package → W → Outcome W
  reload names addons w = reload_result names addons w (unload_order_impl installed names)

  abbrev pub no_throw : Outcome W → Outcome W
  no_throw (returned addons w) = returned addons w
  no_throw (thrown e addons w) = terminated
  no_throw fault = fault
  no_throw terminated = terminated
  no_throw out_of_fuel = out_of_fuel

  unfoldable pub unload_all : List Package → W → Outcome W
  unload_all addons w = no_throw (unload (names_of installed) addons w)

  abbrev pub reload_names : List Package → W → Option (List Bytes) → Outcome W
  reload_names addons w none = thrown int2 addons w
  reload_names addons w (some names) = reload names addons w

  unfoldable pub reload_all : List Package → W → Outcome W
  reload_all addons w = reload_names addons w (loaded_names addons)

  -- Without the message.
  unfoldable pub raise_error : Package → List Package → W → Outcome W
  raise_error p addons w = unload (p.name ∷ []) addons w

  -- Behind an error: an erasure leaves no iterator of the loop that may be used.
  unfoldable pub go_on : (W → Outcome W) → List Package → Outcome W → Outcome W
  go_on again addons (returned addons' w) =
      let rest = again w in if length addons' == length addons then rest else fault
  go_on again addons o = o

  -- The loop of `run_until_idle`, from an addon on.
  unfoldable pub run_each : List Package → List Package → W → Outcome W
  run_each [] addons w = returned addons w
  run_each (a ∷ bs) addons w =
      let ran = host.run a w in
      let rest = run_each bs addons ran.1 in
      let failed = go_on (run_each bs addons) addons (raise_error a addons ran.1) in
      if ran.0 then rest else if has_package a then failed else thrown int2 addons ran.1

  unfoldable pub run_until_idle : List Package → W → Outcome W
  run_until_idle addons w = run_each addons addons w
