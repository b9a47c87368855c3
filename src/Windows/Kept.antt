-- ===== src/Windows/Kept.antt =====
-- core/src/ui/window_manager.cpp: `update` keeps the invariant.
use fenestra_voli_edition.Base.{
  ℕ, ◌<◌, ◌≡◌, refl, ◌∙◌, Bool, true, false, inl, inr, Option, none, some, List, if◌then◌else◌,
  arith, get_elem?,
}
use fenestra_voli_edition.Windows.{Layer, Window, WindowManager, Order, lt}
use fenestra_voli_edition.Windows.Update.{
  dropped, sweep, sorted, update, update_hot_window, activate_hot, index,
}
use fenestra_voli_edition.Windows.Count.{count}
use fenestra_voli_edition.Windows.Listed.{at, at-get_elem?}
use fenestra_voli_edition.Windows.Valid.{IsValid, listed, freed, activate-IsValid, activate-rest}
use fenestra_voli_edition.Windows.Sweep.{
  out_of, out, sweep_z_order, sweep_free_list, sweep_windows, sweep-count_id, at_or,
}

-- The id of a window that stays.
abbrev pub kept : Window → ℕ
kept w = if w.used then w.id else 0

-- A strict weak order of the elements of a list, which is what `std::stable_sort` asks for.
pub record IsStrictWeak (less : ℕ → ℕ → Bool) (xs : List ℕ) : Type 0 where
  pub irreflexive : (a : ℕ) → 0 < count a xs → less a a ≡ false
  pub transitive :
      (a b c : ℕ)
      → 0 < count a xs
      → 0 < count b xs
      → 0 < count c xs
      → less a b ≡ true
      → less b c ≡ true
      → less a c ≡ true
  pub negatively_transitive :
      (a b c : ℕ)
      → 0 < count a xs
      → 0 < count b xs
      → 0 < count c xs
      → less a b ≡ false
      → less b c ≡ false
      → less a c ≡ false

-- `operator<` is one on the windows that stay in each layer.
abbrev pub AreOrdered : ℕ → (ℕ → ℕ → Order) → WindowManager → Type 0
AreOrdered fuel compare_depth m =
    let s = sweep 0 m.windows m.z_order m.free_list in
    (l : Layer) → IsStrictWeak (lt fuel compare_depth s.windows) (s.z_order l)

module _ (fuel : ℕ) (compare_depth : ℕ → ℕ → Order) (stable_sort : (ℕ → ℕ → Bool) → List ℕ → List ℕ)
    (permutes : (less : ℕ → ℕ → Bool) (xs : List ℕ)
      → IsStrictWeak less xs
      → (i : ℕ) → count i (stable_sort less xs) ≡ count i xs)
    (layout_mode : Bool) where
  swept-listed :
      (m : WindowManager) (j : ℕ) (l : Layer)
      → IsValid m
      → let s = sweep 0 m.windows m.z_order m.free_list in
        count j (s.z_order l) ≡ at (listed l) s.windows j
  swept-listed m j l v = elim (at_or m.windows j) [
    | inl h ↦ ground (
      arith,
      v.on_layer j l,
      h (listed l),
      h (out_of l),
      h (λ w. listed l (dropped w)),
      sweep_z_order 0 m.windows m.z_order m.free_list j l,
      sweep_windows (listed l) 0 m.windows m.z_order m.free_list j,
    )
    | inr (w, h) ↦ ground (
      arith,
      v.on_layer j l,
      h (listed l),
      h (out_of l),
      h (λ w. listed l (dropped w)),
      sweep_z_order 0 m.windows m.z_order m.free_list j l,
      sweep_windows (listed l) 0 m.windows m.z_order m.free_list j,
    )
  ]

  swept-freed :
      (m : WindowManager) (j : ℕ)
      → IsValid m
      → let s = sweep 0 m.windows m.z_order m.free_list in
        count j s.free_list ≡ at freed s.windows j
  swept-freed m j v = elim (at_or m.windows j) [
    | inl h ↦ ground (
      arith,
      v.on_free_list j,
      h freed,
      h out,
      h (λ w. freed (dropped w)),
      sweep_free_list 0 m.windows m.z_order m.free_list j,
      sweep_windows freed 0 m.windows m.z_order m.free_list j,
    )
    | inr (w, h) ↦ ground (
      arith,
      v.on_free_list j,
      h freed,
      h out,
      h (λ w. freed (dropped w)),
      sweep_free_list 0 m.windows m.z_order m.free_list j,
      sweep_windows freed 0 m.windows m.z_order m.free_list j,
    )
  ]

  sorted-IsValid :
      (m : WindowManager)
      → IsValid m
      → AreOrdered fuel compare_depth m
      → IsValid (sorted fuel compare_depth stable_sort layout_mode m)
  unfolding sorted
  sorted-IsValid m v o =
      let s = sweep 0 m.windows m.z_order m.free_list in
      record {
        on_layer = λ j l.
            permutes (lt fuel compare_depth s.windows) (s.z_order l) (o l) j ∙ swept-listed m j l v;
        on_free_list = λ j. swept-freed m j v;
        distinct = λ id h.
            omega (arith, sweep-count_id id 0 m.windows m.z_order m.free_list h, v.distinct id h);
      }

  sorted-kept :
      (m : WindowManager) (j : ℕ)
      → at (λ w. w.id) (sorted fuel compare_depth stable_sort layout_mode m).windows j
        ≡ at kept m.windows j
  unfolding sorted
  sorted-kept m j = elim (at_or m.windows j) [
    | inl h ↦ ground (
      arith,
      h kept,
      h (λ w. (dropped w).id),
      sweep_windows (λ w. w.id) 0 m.windows m.z_order m.free_list j,
    )
    | inr (w, h) ↦ ground (
      arith,
      h kept,
      h (λ w. (dropped w).id),
      sweep_windows (λ w. w.id) 0 m.windows m.z_order m.free_list j,
    )
  ]

  activate_hot-IsValid :
      (hot : Option (ℕ × Window)) (m : WindowManager)
      → IsValid m
      → IsValid (activate_hot fuel compare_depth layout_mode hot m)
  activate_hot-IsValid none m v = record {
    on_layer = v.on_layer;
    on_free_list = v.on_free_list;
    distinct = v.distinct;
  }
  activate_hot-IsValid (some (i, w)) m v = activate-IsValid fuel compare_depth layout_mode i w m v

  activate_hot-windows :
      (hot : Option (ℕ × Window)) (m : WindowManager)
      → (activate_hot fuel compare_depth layout_mode hot m).windows ≡ m.windows
  activate_hot-windows none m = refl
  activate_hot-windows (some (i, w)) m = (activate-rest fuel compare_depth layout_mode i w m).0

  -- Where `operator<` is a strict weak order on the windows of each layer that stay, and the sort leaves the
  -- windows of a list as they are for such an order, an update keeps the invariant; the windows that were
  -- asked for keep their ids, and the others have none.
  pub update-IsValid :
      (is_inside : ℕ → Bool) (was_pressed : Bool) (m : WindowManager)
      → IsValid m
      → AreOrdered fuel compare_depth m
      → let n = update fuel compare_depth stable_sort layout_mode is_inside was_pressed m in
        IsValid n × ((i : ℕ) → at (λ w. w.id) n.windows i ≡ at kept m.windows i)
  unfolding update
  update-IsValid is_inside true m v o =
      let n = sorted fuel compare_depth stable_sort layout_mode m in
      let hot = update_hot_window layout_mode is_inside n in
      let found = record n { hot_window = index hot } in
      let u = sorted-IsValid m v o in
      (
        activate_hot-IsValid hot found (record {
          on_layer = u.on_layer;
          on_free_list = u.on_free_list;
          distinct = u.distinct;
        }),
        λ i. rw (activate_hot-windows hot found) (sorted-kept m i),
      )
  update-IsValid is_inside false m v o =
      let u = sorted-IsValid m v o in
      (
        record { on_layer = u.on_layer; on_free_list = u.on_free_list; distinct = u.distinct },
        λ i. sorted-kept m i,
      )

  -- The active window stays the active one when it is dropped, unless a button is pressed.
  pub update-active_window :
      (is_inside : ℕ → Bool) (m : WindowManager) (i : ℕ) (w : Window)
      → m.active_window ≡ some i
      → get_elem? m.windows i ≡ some w
      → w.used ≡ false
      → let n = update fuel compare_depth stable_sort layout_mode is_inside false m in
        (n.active_window ≡ some i) × (at (λ w. w.id) n.windows i ≡ 0)
  unfolding update sorted
  update-active_window is_inside m i w active here unused =
      (active, sorted-kept m i ∙ ground (arith, unused, at-get_elem? kept m.windows i w here))
