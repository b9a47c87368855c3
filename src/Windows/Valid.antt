-- ===== src/Windows/Valid.antt =====
-- core/src/ui/window_manager.cpp: an invariant of the manager, and that `get` keeps it.
use fenestra_voli_edition.Base.{
  ℕ, ◌+◌, ◌≤◌, ◌≡◌, refl, ◌∙◌, ◌≢◌, Bool, Bool-cases, true, inl, inr, Option, some, List, [], ◌∷◌,
  ◌++◌, ◌==◌, ltb, if◌then◌else◌, arith, length, get_elem?, set,
}
use fenestra_voli_edition.Windows.{
  Layer, layout, screen, world, layer_index, Window, WindowManager, Order, lt, le, same_layer,
  raise, erase, put_layer, activate, get_again,
}
use fenestra_voli_edition.Windows.Count.{count, count-append, count-erase, count-raise}
use fenestra_voli_edition.Windows.Listed.{
  at, at-get_elem?, at-set, at-append, at_outside, count_id, count_id-set, count_id-append,
}

-- How often a window is to stand in a layer, and among the free ones.
abbrev pub listed : Layer → Window → ℕ
listed l w = if w.id == 0 then 0 else if same_layer w.layer l then 1 else 0

abbrev pub freed : Window → ℕ
freed w = if w.id == 0 then 1 else 0

-- Each window stands once in its own layer, or once among the free ones if it has no id, and nowhere else;
-- no two windows have an id in common.
pub record IsValid (m : WindowManager) : Type 0 where
  pub on_layer : (i : ℕ) (l : Layer) → count i (m.z_order l) ≡ at (listed l) m.windows i
  pub on_free_list : (i : ℕ) → count i m.free_list ≡ at freed m.windows i
  pub distinct : (id : ℕ) → id ≢ 0 → count_id id m.windows ≤ 1

same_layer-eq : (k l : Layer) → same_layer k l ≡ true → k ≡ l
unfolding layer_index
same_layer-eq layout layout h = refl
same_layer-eq layout screen h = absurd (cc (h))
same_layer-eq layout world h = absurd (cc (h))
same_layer-eq screen layout h = absurd (cc (h))
same_layer-eq screen screen h = refl
same_layer-eq screen world h = absurd (cc (h))
same_layer-eq world layout h = absurd (cc (h))
same_layer-eq world screen h = absurd (cc (h))
same_layer-eq world world h = refl

-- A list in a layer is replaced by one with the same windows.
pub count-put_layer :
    (i : ℕ) (k l : Layer) (xs : List ℕ) (z : Layer → List ℕ)
    → count i (put_layer k xs z l) ≡ (if same_layer k l then count i xs else count i (z l))
unfolding put_layer
count-put_layer i k l xs z = ground arith

pub count-same_layer :
    (i : ℕ) (k l : Layer) (z : Layer → List ℕ)
    → (if same_layer k l then count i (z k) else 0) ≡ (if same_layer k l then count i (z l) else 0)
count-same_layer i k l z = elim (Bool-cases (same_layer k l)) [
  | inl e ↦ rw (same_layer-eq k l e) refl
  | inr e ↦ rw (e) refl
]

module _ (fuel : ℕ) (compare_depth : ℕ → ℕ → Order) (layout_mode : Bool) where
  activate-count :
      (i : ℕ) (w : Window) (m : WindowManager) (j : ℕ) (l : Layer)
      → count j ((activate fuel compare_depth layout_mode i w m).z_order l) ≡ count j (m.z_order l)
  unfolding activate
  activate-count i w m j l =
      let p = lt fuel compare_depth m.windows i in
      let q = le fuel compare_depth m.windows i in
      ground (
        arith,
        count-put_layer j w.layer l (raise p q (m.z_order w.layer)) m.z_order,
        count-raise p q j (m.z_order w.layer),
        count-same_layer j w.layer l m.z_order,
      )

  pub activate-rest :
      (i : ℕ) (w : Window) (m : WindowManager)
      → ((activate fuel compare_depth layout_mode i w m).windows ≡ m.windows)
        × ((activate fuel compare_depth layout_mode i w m).free_list ≡ m.free_list)
  unfolding activate
  activate-rest i w m = (ground arith, ground arith)

  pub activate-IsValid :
      (i : ℕ) (w : Window) (m : WindowManager)
      → IsValid m
      → IsValid (activate fuel compare_depth layout_mode i w m)
  activate-IsValid i w m v =
      let (same, free) = activate-rest i w m in
      record {
        on_layer = λ j l. rw (same) (activate-count i w m j l ∙ v.on_layer j l);
        on_free_list = λ j. rw (same, free) (v.on_free_list j);
        distinct = λ id h. rw (same) (v.distinct id h);
      }

module _ (m : WindowManager) (v : IsValid m) (i : ℕ) (w : Window)
    (here : get_elem? m.windows i ≡ some w) where
  moved-count :
      (layer : Layer) (depth : ℕ) (parent : Option ℕ) (j : ℕ) (l : Layer)
      → w.id ≢ 0
      → count j ((get_again i w layer depth parent m).z_order l)
        ≡ at (listed l) (get_again i w layer depth parent m).windows j
  unfolding get_again
  moved-count layer depth parent j l live =
      let xs = erase i (m.z_order w.layer) in
      let z = put_layer w.layer xs m.z_order in
      let moved =
        if ltb (layer_index w.layer) (layer_index layer) then z layer ++ i ∷ [] else i ∷ z layer in
      let new = record w { layer = layer; depth = depth; parent = parent; used = true } in
      ground (
        arith,
        live,
        at-set (listed l) m.windows i j w new here,
        at-get_elem? (listed l) m.windows i w here,
        v.on_layer j l,
        count-put_layer j layer l moved z,
        count-put_layer j w.layer l xs m.z_order,
        count-put_layer j w.layer layer xs m.z_order,
        count-append j (z layer) (i ∷ []),
        count-erase j i (m.z_order w.layer),
        count-same_layer j layer l m.z_order,
        count-same_layer j w.layer l m.z_order,
      )

  pub get_again-IsValid :
      (layer : Layer) (depth : ℕ) (parent : Option ℕ)
      → w.id ≢ 0
      → IsValid (get_again i w layer depth parent m)
  unfolding get_again
  get_again-IsValid layer depth parent live =
      let new = record w { layer = layer; depth = depth; parent = parent; used = true } in
      record {
        on_layer = λ j l. moved-count layer depth parent j l live;
        on_free_list = λ j. ground (
          arith,
          live,
          at-set freed m.windows i j w new here,
          at-get_elem? freed m.windows i w here,
          v.on_free_list j,
        );
        distinct = λ id h. omega (arith, count_id-set id m.windows i w new here, v.distinct id h);
      }

-- A window that is new at `i`, in windows that differ from the old ones at `i` only.
pub IsNew : WindowManager → ℕ → Window → List Window → Type 0
IsNew m i w ws =
    ((f : Window → ℕ) (j : ℕ) → at f ws j ≡ (if i == j then f w else at f m.windows j))
    × ((l : Layer) → at (listed l) m.windows i ≡ 0)
    × ((id : ℕ) → id ≢ 0 → count_id id ws ≡ count_id id m.windows + (if w.id == id then 1 else 0))
    × (count_id w.id m.windows ≡ 0)
    × (w.id ≢ 0)

pub new-IsValid :
    (m : WindowManager) (i : ℕ) (w : Window) (ws : List Window) (free : List ℕ)
    → IsValid m
    → IsNew m i w ws
    → ((j : ℕ) → count j free ≡ (if i == j then 0 else count j m.free_list))
    → IsValid (record m {
      windows = ws;
      free_list = free;
      z_order = put_layer w.layer (m.z_order w.layer ++ i ∷ []) m.z_order;
    })
unfolding IsNew
new-IsValid m i w ws free v (there, off, ids, fresh, live) taken = record {
  on_layer = λ j l. ground (
    arith,
    live,
    there (listed l) j,
    off l,
    v.on_layer j l,
    count-put_layer j w.layer l (m.z_order w.layer ++ i ∷ []) m.z_order,
    count-append j (m.z_order w.layer) (i ∷ []),
    count-same_layer j w.layer l m.z_order,
  );
  on_free_list = λ j. ground (arith, live, there freed j, taken j, v.on_free_list j);
  distinct = λ id h. ground (arith, ids id h, fresh, v.distinct id h);
}

pub append-IsNew :
    (m : WindowManager) (w : Window)
    → count_id w.id m.windows ≡ 0
    → w.id ≢ 0
    → IsNew m (length m.windows) w (m.windows ++ w ∷ [])
unfolding IsNew
append-IsNew m w fresh live = (
  (λ f j. at-append f m.windows j w),
  (λ l. at_outside (listed l) m.windows (length m.windows) (omega arith)),
  (λ id h. count_id-append id m.windows w),
  fresh,
  live,
)

pub reused-IsNew :
    (m : WindowManager) (i : ℕ) (old w : Window)
    → get_elem? m.windows i ≡ some old
    → old.id ≡ 0
    → count_id w.id m.windows ≡ 0
    → w.id ≢ 0
    → IsNew m i w (set m.windows i w)
unfolding IsNew
reused-IsNew m i old w here dead fresh live = (
  (λ f j. at-set f m.windows i j old w here),
  (λ l. ground (arith, dead, at-get_elem? (listed l) m.windows i old here)),
  (λ id h. ground (arith, dead, h, count_id-set id m.windows i old w here)),
  fresh,
  live,
)
