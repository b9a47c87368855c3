-- ===== src/Windows/Update.antt =====
-- core/src/ui/window_manager.cpp: `update` and `update_hot_window`.
use fenestra_voli_edition.Base.{
  ℕ, ◌+◌, Bool, false, not, ◌&&◌, Option, none, some, List, [], ◌∷◌, ◌==◌, if◌then◌else◌, get_elem?,
}
use fenestra_voli_edition.Windows.{
  Layer, layout, screen, world, Window, WindowManager, Order, lt, erase, put_layer, interactable,
  activate,
}

-- The loop over the windows: those that were not asked for leave their layer and lose their id.
pub record Swept : Type 0 where
  pub windows : List Window
  pub z_order : Layer → List ℕ
  pub free_list : List ℕ

abbrev pub is_dropped : Window → Bool
is_dropped w = not w.used && not (w.id == 0)

abbrev pub dropped : Window → Window
dropped w = record w { id = if is_dropped w then 0 else w.id; used = false }

unfoldable pub sweep : ℕ → List Window → (Layer → List ℕ) → List ℕ → Swept
sweep i [] z free = record { windows = []; z_order = z; free_list = free }
sweep i (w ∷ ws) z free =
    let rest =
      sweep (i + 1) ws
        (λ l. if is_dropped w then put_layer w.layer (erase i (z w.layer)) z l else z l)
        (if is_dropped w then i ∷ free else free) in
    record rest { windows = dropped w ∷ rest.windows }

-- `find_if` over one layer, with the window that is found.
unfoldable pub first_hot : Bool → (ℕ → Bool) → List Window → List ℕ → Option (ℕ × Window)
first_hot layout_mode is_inside ws [] = none
first_hot layout_mode is_inside ws (i ∷ xs) =
    let rest = first_hot layout_mode is_inside ws xs in
    elim (get_elem? ws i) [
      | none ↦ rest
      | some w ↦ if interactable layout_mode w && is_inside i then some (i, w) else rest
    ]

abbrev pub or_else : {A : Type 0} → Option A → Option A → Option A
or_else none b = b
or_else (some a) b = some a

unfoldable pub update_hot_window : Bool → (ℕ → Bool) → WindowManager → Option (ℕ × Window)
update_hot_window layout_mode is_inside m =
    let hot = first_hot layout_mode is_inside m.windows in
    or_else (hot (m.z_order layout)) (or_else (hot (m.z_order screen)) (hot (m.z_order world)))

-- `activate_window` where there may be none.
abbrev pub activate_hot :
    ℕ → (ℕ → ℕ → Order) → Bool → Option (ℕ × Window) → WindowManager → WindowManager
activate_hot fuel compare_depth layout_mode none m = record m { active_window = none }
activate_hot fuel compare_depth layout_mode (some (i, w)) m =
    activate fuel compare_depth layout_mode i w m

abbrev pub index : Option (ℕ × Window) → Option ℕ
index none = none
index (some (i, w)) = some i

module _ (fuel : ℕ) (compare_depth : ℕ → ℕ → Order) (stable_sort : (ℕ → ℕ → Bool) → List ℕ → List ℕ)
    (layout_mode : Bool) where
  unfoldable pub sorted : WindowManager → WindowManager
  sorted m =
      let s = sweep 0 m.windows m.z_order m.free_list in
      record m {
        windows = s.windows;
        z_order = λ l. stable_sort (lt fuel compare_depth s.windows) (s.z_order l);
        free_list = s.free_list;
      }

  unfoldable pub update : (ℕ → Bool) → Bool → WindowManager → WindowManager
  update is_inside was_pressed m =
      let n = sorted m in
      let hot = update_hot_window layout_mode is_inside n in
      let found = record n { hot_window = index hot } in
      if was_pressed then activate_hot fuel compare_depth layout_mode hot found else found
