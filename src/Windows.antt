-- ===== src/Windows.antt =====
-- core/src/ui/window_manager.cpp and the order of core/src/ui/window.cpp.
-- A window is the index of its entry in `m_windows`, which never moves. What a window draws, its bounds
-- and the focus inside it are left out: whether the mouse is inside a window is an argument, as are the
-- order of two depths, which are floats, and `std::stable_sort`.
pub mod Update
pub mod Count
pub mod Listed
pub mod Valid
pub mod Get
pub mod Sweep
pub mod Kept
pub mod Raised
mod Tests
use fenestra_voli_edition.Base.{
  ℕ, zero, suc, Bool, true, false, not, ◌&&◌, ◌||◌, Option, none, some, List, [], ◌∷◌, ◌++◌, ◌==◌,
  ltb, if◌then◌else◌, length, get_elem?, set,
}

pub data Layer : Type 0 where
  layout screen world : Layer

unfoldable pub layer_index : Layer → ℕ
layer_index layout = 0
layer_index screen = 1
layer_index world = 2

abbrev pub same_layer : Layer → Layer → Bool
same_layer k l = layer_index k == layer_index l

-- A window with the flag that it was asked for since the last update.
pub record Window : Type 0 where
  pub id : ℕ
  pub layer : Layer
  pub depth : ℕ
  pub parent : Option ℕ
  pub is_interactable : Bool
  pub used : Bool

pub record WindowManager : Type 0 where
  pub windows : List Window
  pub z_order : Layer → List ℕ
  pub free_list : List ℕ
  pub hot_window : Option ℕ
  pub active_window : Option ℕ

pub data Order : Type 0 where
  equivalent less greater unordered : Order

-- The loop over the parents; none if it does not end.
unfoldable pub is_descendent_of : ℕ → List Window → Window → ℕ → Option Bool
is_descendent_of zero ws w ancestor = none
is_descendent_of (suc fuel) ws w ancestor = elim w.parent [
  | none ↦ some false
  | some p ↦ elim (get_elem? ws p) [
    | none ↦ none
    | some v ↦
        let rest = is_descendent_of fuel ws v ancestor in if p == ancestor then some true else rest
  ]
]

abbrev by_descent : Option Bool → Option Bool → Option Order
by_descent (some true) b = some greater
by_descent (some false) (some true) = some less
by_descent (some false) (some false) = some unordered
by_descent (some false) none = none
by_descent none b = none

abbrev by_depth : Order → Option Order → Option Order
by_depth less rest = some less
by_depth greater rest = some greater
by_depth _ rest = rest

-- `operator<=>` of the windows at two indices.
unfoldable pub compare_windows :
    ℕ → (ℕ → ℕ → Order) → List Window → ℕ → Window → ℕ → Window → Option Order
compare_windows fuel compare_depth ws i w j v =
    let k = layer_index w.layer in
    let l = layer_index v.layer in
    if w.id == v.id
    then some equivalent
    else if ltb k l
    then some less
    else if ltb l k
    then some greater
    else by_depth (compare_depth w.depth v.depth)
        (by_descent (is_descendent_of fuel ws w j) (is_descendent_of fuel ws v i))

abbrev is_lt : Option Order → Bool
is_lt (some less) = true
is_lt _ = false

abbrev is_le : Option Order → Bool
is_le (some less) = true
is_le (some equivalent) = true
is_le _ = false

-- The order of the windows at two indices; none where no window stands, or without an end.
unfoldable pub order : ℕ → (ℕ → ℕ → Order) → List Window → ℕ → ℕ → Option Order
order fuel compare_depth ws i j = elim (get_elem? ws i) [
  | none ↦ none
  | some w ↦ elim (get_elem? ws j) [
    | none ↦ none
    | some v ↦ compare_windows fuel compare_depth ws i w j v
  ]
]

unfoldable pub lt : ℕ → (ℕ → ℕ → Order) → List Window → ℕ → ℕ → Bool
lt fuel compare_depth ws i j = is_lt (order fuel compare_depth ws i j)

unfoldable pub le : ℕ → (ℕ → ℕ → Order) → List Window → ℕ → ℕ → Bool
le fuel compare_depth ws i j = is_le (order fuel compare_depth ws i j)

unfoldable pub filter : (ℕ → Bool) → List ℕ → List ℕ
filter p [] = []
filter p (x ∷ xs) = let rest = filter p xs in if p x then x ∷ rest else rest

-- `std::erase`
unfoldable pub erase : ℕ → List ℕ → List ℕ
erase i [] = []
erase i (x ∷ xs) = let rest = erase i xs in if x == i then rest else x ∷ rest

unfoldable pub has : ℕ → List ℕ → Bool
has i [] = false
has i (x ∷ xs) = let rest = has i xs in x == i || rest

-- `m_z_order` with the list of one layer replaced.
unfoldable pub put_layer : Layer → List ℕ → (Layer → List ℕ) → Layer → List ℕ
put_layer l xs z k = if same_layer l k then xs else z k

-- The two calls of `stable_partition`: the windows that the given one is less than, it, and the rest.
unfoldable pub raise : (ℕ → Bool) → (ℕ → Bool) → List ℕ → List ℕ
raise is_less is_less_or_equal xs =
    let front = filter is_less_or_equal xs in
    let back = filter (λ x. not (is_less_or_equal x)) xs in
    (filter is_less front ++ filter (λ x. not (is_less x)) front) ++ back

abbrev pub interactable : Bool → Window → Bool
interactable layout_mode w =
    w.is_interactable && (not layout_mode || not (ltb (layer_index layout) (layer_index w.layer)))

abbrev pub same_index : Option ℕ → ℕ → Bool
same_index none i = false
same_index (some j) i = j == i

-- `get` for a window that is there, at `i`.
unfoldable pub get_again : ℕ → Window → Layer → ℕ → Option ℕ → WindowManager → WindowManager
get_again i w layer depth parent m =
    let z = put_layer w.layer (erase i (m.z_order w.layer)) m.z_order in
    let moved =
      if ltb (layer_index w.layer) (layer_index layer) then z layer ++ i ∷ [] else i ∷ z layer in
    record m {
      windows =
          set m.windows i (record w { layer = layer; depth = depth; parent = parent; used = true });
      z_order = if same_layer w.layer layer then m.z_order else put_layer layer moved z;
    }

unfoldable pub index_of : ℕ → List Window → Option ℕ
index_of id [] = none
index_of id (w ∷ ws) =
    let rest = index_of id ws in
    if w.id == id then some 0 else elim rest [ none ↦ none | some i ↦ some (suc i) ]

module _ (fuel : ℕ) (compare_depth : ℕ → ℕ → Order) (layout_mode : Bool) where
  -- `activate_window` on the window `w`, which stands at `i`.
  unfoldable pub activate : ℕ → Window → WindowManager → WindowManager
  activate i w m =
      let xs = m.z_order w.layer in
      let raised =
        raise (lt fuel compare_depth m.windows i) (le fuel compare_depth m.windows i) xs in
      if not (has i xs)
      then record m { active_window = none }
      else if interactable layout_mode w && not (same_index m.active_window i)
      then record m { active_window = some i; z_order = put_layer w.layer raised m.z_order }
      else m

  -- `get` for a new window, which is `w` at `i`.
  unfoldable pub put_new : ℕ → Window → WindowManager → WindowManager
  put_new i w m =
      activate i w
        (record m { z_order = put_layer w.layer (m.z_order w.layer ++ i ∷ []) m.z_order })

  -- None is an index outside the windows.
  unfoldable pub get : ℕ → Layer → ℕ → Option ℕ → WindowManager → Option (ℕ × WindowManager)
  get id layer depth parent m = elim (index_of id m.windows) [
    | some i ↦ elim (get_elem? m.windows i) [
      | none ↦ none
      | some w ↦ some (i, get_again i w layer depth parent m)
    ]
    | none ↦ elim m.free_list [
      | [] ↦
          let w : Window = record {
            id = id;
            layer = layer;
            depth = depth;
            parent = parent;
            is_interactable = true;
            used = true;
          } in
          let i = length m.windows in
          some (i, put_new i w (record m { windows = m.windows ++ w ∷ [] }))
      | i ∷ free ↦ elim (get_elem? m.windows i) [
        | none ↦ none
        | some old ↦
            let w = record old {
              id = id;
              layer = layer;
              depth = depth;
              parent = parent;
              used = true;
            } in
            some (i, put_new i w (record m { windows = set m.windows i w; free_list = free }))
      ]
    ]
  ]
