-- ===== src/Windows/Raised.antt =====
-- core/src/ui/window_manager.cpp: where a window stands after it is activated.
use fenestra_voli_edition.Base.{
  ℕ, ◌<◌, zero, suc, ◌≤◌, ◌≡◌, refl, sym, ap, ◌∙◌, ◌≢◌, ◌↔◌, Bool, Bool-cases, Option-cases, true,
  false, not, ◌&&◌, inl, inr, Option, none, some, List, [], ◌∷◌, ◌++◌, ◌==◌, arith, get_elem?, set,
}
use fenestra_voli_edition.Windows.{
  Layer, Window, WindowManager, Order, equivalent, less, greater, unordered, compare_windows,
  by_descent, by_depth, is_lt, is_le, is_descendent_of, order, lt, le, filter, has, raise,
  put_layer, interactable, same_index, activate, put_new, index_of, get,
}
use fenestra_voli_edition.Windows.Count.{count, has-count}
use fenestra_voli_edition.Windows.Listed.{at, at-get_elem?, count_id}
use fenestra_voli_edition.Windows.Valid.{IsValid, listed}
use fenestra_voli_edition.Windows.Get.{new_window, get_reused, free_window}

filter-cong : (p q : ℕ → Bool) (xs : List ℕ) → ((x : ℕ) → p x ≡ q x) → filter p xs ≡ filter q xs
unfolding filter
filter-cong p q [] h = refl
filter-cong p q (x ∷ xs) h = rw (h x, filter-cong p q xs h) refl

filter-filter :
    (p q : ℕ → Bool) (xs : List ℕ) → filter p (filter q xs) ≡ filter (λ x. q x && p x) xs
unfolding filter
filter-filter p q [] = refl
filter-filter p q (x ∷ xs) = elim (Bool-cases (q x)) [
  | inl e ↦ rw (e, filter-filter p q xs) refl
  | inr e ↦ rw (e) (filter-filter p q xs)
]

-- A window that stands once in a list is what a test for it finds.
filter-none : (i : ℕ) (xs : List ℕ) → count i xs ≡ 0 → filter (λ x. x == i) xs ≡ []
unfolding filter
filter-none i [] h = refl
filter-none i (x ∷ xs) h = ground (arith, h, filter-none i xs)

filter-one : (i : ℕ) (xs : List ℕ) → count i xs ≡ 1 → filter (λ x. x == i) xs ≡ i ∷ []
unfolding filter
filter-one i [] h = absurd (omega (arith, h))
filter-one i (x ∷ xs) h = elim (Bool-cases (x == i)) [
  | inl e ↦
      let same : x ≡ i = ground (arith, e) in
      let rest = filter-none i xs (ground (arith, h, e)) in
      rw (e) (ap (λ y. y ∷ filter (λ z. z == i) xs) same ∙ ap (◌∷◌ i) rest)
  | inr e ↦ rw (e) (filter-one i xs (ground (arith, h, e)))
]

-- No two windows have an id in common.
count_id-at :
    (id : ℕ) (ws : List Window) (i : ℕ) (w : Window)
    → get_elem? ws i ≡ some w
    → w.id ≡ id
    → 1 ≤ count_id id ws
count_id-at id [] i w h e = absurd (cc (h))
count_id-at id (x ∷ ws) zero w h e = ground (arith, h, e)
count_id-at id (x ∷ ws) (suc i) w h e = omega (arith, count_id-at id ws i w h e)

same_window :
    (id : ℕ) (ws : List Window) (i j : ℕ) (w v : Window)
    → count_id id ws ≤ 1
    → get_elem? ws i ≡ some w
    → get_elem? ws j ≡ some v
    → w.id ≡ id
    → v.id ≡ id
    → i ≡ j
same_window id [] i j w v h here there e f = absurd (cc (here))
same_window id (x ∷ ws) zero zero w v h here there e f = refl
same_window id (x ∷ ws) zero (suc j) w v h here there e f =
    absurd (ground (arith, h, here, e, count_id-at id ws j v there f))
same_window id (x ∷ ws) (suc i) zero w v h here there e f =
    absurd (ground (arith, h, there, f, count_id-at id ws i w here e))
same_window id (x ∷ ws) (suc i) (suc j) w v h here there e f =
    ap suc (same_window id ws i j w v (omega (arith, h)) here there e f)

by_descent-equivalent : (a b : Option Bool) → by_descent a b ≢ some equivalent
by_descent-equivalent (some true) b h = absurd (cc (h))
by_descent-equivalent (some false) (some true) h = absurd (cc (h))
by_descent-equivalent (some false) (some false) h = absurd (cc (h))
by_descent-equivalent (some false) none h = absurd (cc (h))
by_descent-equivalent none b h = absurd (cc (h))

by_depth-equivalent :
    (o : Order) (r : Option Order) → r ≢ some equivalent → by_depth o r ≢ some equivalent
by_depth-equivalent less r h e = absurd (cc (e))
by_depth-equivalent greater r h e = absurd (cc (e))
by_depth-equivalent equivalent r h e = h e
by_depth-equivalent unordered r h e = h e

-- The order holds no two windows for the same but by their ids.
compare_windows-id :
    (fuel : ℕ) (compare_depth : ℕ → ℕ → Order) (ws : List Window) (i : ℕ) (w : Window) (j : ℕ)
    (v : Window)
    → (compare_windows fuel compare_depth ws i w j v ≡ some equivalent) ↔ (w.id ≡ v.id)
unfolding compare_windows
compare_windows-id fuel compare_depth ws i w j v =
    let a = is_descendent_of fuel ws w j in
    let b = is_descendent_of fuel ws v i in
    let never =
      by_depth-equivalent (compare_depth w.depth v.depth) (by_descent a b)
        (by_descent-equivalent a b) in
    (ground (arith, never), λ h. ground (arith, h))

-- Behind the window by the order, or not comparable with it.
abbrev pub is_behind : Option Order → Bool
is_behind (some greater) = true
is_behind (some unordered) = true
is_behind _ = false

behind-le : (o : Order) → not (is_le (some o)) ≡ is_behind (some o)
behind-le equivalent = refl
behind-le less = refl
behind-le greater = refl
behind-le unordered = refl

-- Two tests that agree on the elements of a list keep the same ones.
filter-members :
    (p q : ℕ → Bool) (xs : List ℕ)
    → ((x : ℕ) → 0 < count x xs → p x ≡ q x)
    → filter p xs ≡ filter q xs
unfolding filter
filter-members p q [] h = refl
filter-members p q (x ∷ xs) h =
    let here = h x (ground arith) in
    ground (arith, here, filter-members p q xs (λ y k. h y (ground (arith, k))))

lower-le : (o : Option Order) → (is_le o && is_lt o) ≡ is_lt o
lower-le none = refl
lower-le (some equivalent) = refl
lower-le (some less) = refl
lower-le (some greater) = refl
lower-le (some unordered) = refl

le-not-lt : (o : Option Order) → ((is_le o && not (is_lt o)) ≡ true) ↔ (o ≡ some equivalent)
le-not-lt none = ((λ h. absurd (cc (h))), λ h. absurd (cc (h)))
le-not-lt (some equivalent) = ((λ h. refl), λ h. refl)
le-not-lt (some less) = ((λ h. absurd (cc (h))), λ h. absurd (cc (h)))
le-not-lt (some greater) = ((λ h. absurd (cc (h))), λ h. absurd (cc (h)))
le-not-lt (some unordered) = ((λ h. absurd (cc (h))), λ h. absurd (cc (h)))

put_layer_self : (l : Layer) (xs : List ℕ) (z : Layer → List ℕ) → put_layer l xs z l ≡ xs
unfolding put_layer
put_layer_self l xs z = ground arith

same_index_other : (o : Option ℕ) (i : ℕ) → o ≢ some i → same_index o i ≡ false
same_index_other none i h = refl
same_index_other (some j) i h = ground (arith, h)

same_index_self : (o : Option ℕ) (i : ℕ) → o ≡ some i → same_index o i ≡ true
same_index_self none i h = absurd (cc (h))
same_index_self (some j) i h = ground (arith, h)

module _ (fuel : ℕ) (compare_depth : ℕ → ℕ → Order) (layout_mode : Bool) (m : WindowManager)
    (v : IsValid m) (i : ℕ) (w : Window) (here : get_elem? m.windows i ≡ some w)
    (live : w.id ≢ 0) where
  order-equivalent : (x : ℕ) → (order fuel compare_depth m.windows i x ≡ some equivalent) ↔ (x ≡ i)
  unfolding order
  order-equivalent x = elim (Option-cases (get_elem? m.windows x)) [
    | inl e ↦
        let read : order fuel compare_depth m.windows i x ≡ none = rw (order, here, e) refl in
        ((λ h. absurd (cc (h, read))), λ h. absurd (cc (e, here, ap (get_elem? m.windows) h)))
    | inr (u, e) ↦
        let compared = compare_windows fuel compare_depth m.windows i w x u in
        let read : order fuel compare_depth m.windows i x ≡ compared = rw (order, here, e) refl in
        let (to, from) = compare_windows-id fuel compare_depth m.windows i w x u in
        (
          (λ h.
              same_window w.id m.windows x i u w (v.distinct w.id live) e here
                (sym (to (sym read ∙ h))) refl),
          λ h.
              let ids = λ (y : Window). y.id in
              read
              ∙ from (
                  omega (
                    arith,
                    at-get_elem? ids m.windows x u e,
                    at-get_elem? ids m.windows i w here,
                    ap (at ids m.windows) h,
                  )),
        )
  ]

  abbrev less_than : ℕ → Bool
  less_than = lt fuel compare_depth m.windows i

  abbrev up_to : ℕ → Bool
  up_to = le fuel compare_depth m.windows i

  lower : (x : ℕ) → (up_to x && less_than x) ≡ less_than x
  unfolding lt le
  lower x = lower-le (order fuel compare_depth m.windows i x)

  middle : (x : ℕ) → (up_to x && not (less_than x)) ≡ (x == i)
  unfolding lt le
  middle x =
      let (to, from) = le-not-lt (order fuel compare_depth m.windows i x) in
      let (left, right) = order-equivalent x in ground (arith, to, from, left, right)

  ahead :
      (x : ℕ)
      → (o : Order) × (order fuel compare_depth m.windows i x ≡ some o)
      → not (up_to x) ≡ is_behind (order fuel compare_depth m.windows i x)
  unfolding le
  ahead x (o, e) = rw (le, e) (behind-le o)

  raise_once :
      (xs : List ℕ)
      → count i xs ≡ 1
      → raise less_than up_to xs ≡ (filter less_than xs ++ i ∷ []) ++ filter (λ x. not (up_to x)) xs
  unfolding raise
  raise_once xs h =
      let front =
        filter-filter less_than up_to xs
        ∙ filter-cong (λ x. up_to x && less_than x) less_than xs lower in
      let one =
        filter-filter (λ x. not (less_than x)) up_to xs
        ∙ filter-cong (λ x. up_to x && not (less_than x)) (λ x. x == i) xs middle
        ∙ filter-one i xs h in
      rw (front, one) refl

  -- A window that can be used and is activated, and was not active, stands behind those of its layer that it
  -- is less than by `operator<`, and in front of those that it is greater than or not comparable with; both
  -- keep their order. The loops over the parents end on the fuel.
  pub activate-z_order :
      interactable layout_mode w ≡ true
      → m.active_window ≢ some i
      → ((x : ℕ)
          → 0 < count x (m.z_order w.layer)
          → (o : Order) × (order fuel compare_depth m.windows i x ≡ some o))
      → let n = activate fuel compare_depth layout_mode i w m in
        let xs = m.z_order w.layer in
        (n.active_window ≡ some i)
        × (n.z_order w.layer
            ≡ (filter (lt fuel compare_depth m.windows i) xs ++ i ∷ [])
              ++ filter (λ x. is_behind (order fuel compare_depth m.windows i x)) xs)
  unfolding activate
  activate-z_order usable inactive known =
      let xs = m.z_order w.layer in
      let once : count i xs ≡ 1 =
        ground
          (arith, live, v.on_layer i w.layer, at-get_elem? (listed w.layer) m.windows i w here) in
      let present : has i xs ≡ true = ground (arith, has-count i xs, once) in
      let moved = put_layer_self w.layer (raise less_than up_to xs) m.z_order in
      let apart = same_index_other m.active_window i inactive in
      (
        ground (arith, present, usable, apart),
        ground (arith, present, usable, apart, moved, raise_once xs once)
            ∙ ap (λ ys. (filter less_than xs ++ i ∷ []) ++ ys)
                (filter-members (λ x. not (up_to x))
                  (λ x. is_behind (order fuel compare_depth m.windows i x)) xs
                  (λ x h. ahead x (known x h))),
      )

-- A new window in the place of the one that is active is taken for active already.
module _ (fuel : ℕ) (compare_depth : ℕ → ℕ → Order) (layout_mode : Bool) (id : ℕ) (layer : Layer)
    (depth : ℕ) (parent : Option ℕ) (m : WindowManager) where
  put_new-active :
      (i : ℕ) (w : Window) (n : WindowManager)
      → n.active_window ≡ some i
      → (put_new fuel compare_depth layout_mode i w n).z_order w.layer ≡ n.z_order w.layer ++ i ∷ []
  unfolding put_new activate
  put_new-active i w n active =
      let xs = n.z_order w.layer ++ i ∷ [] in
      ground (arith, same_index_self n.active_window i active, put_layer_self w.layer xs n.z_order)

  -- A window that is new where the active one was dropped is put at the end of its layer, and not raised.
  pub get-active_window :
      (i : ℕ) (free : List ℕ)
      → IsValid m
      → index_of id m.windows ≡ none
      → m.free_list ≡ i ∷ free
      → m.active_window ≡ some i
      → (n : WindowManager) × (get fuel compare_depth layout_mode id layer depth parent m
          ≡ some (i, n))
        × (n.z_order layer ≡ m.z_order layer ++ i ∷ [])
  get-active_window i free v e k active =
      let (old, here, dead, rest) =
        free_window fuel compare_depth layout_mode id layer depth parent m i free v k in
      let w =
        new_window fuel compare_depth layout_mode id layer depth parent m old.is_interactable in
      let n = record m { windows = set m.windows i w; free_list = free } in
      (
        put_new fuel compare_depth layout_mode i w n,
        get_reused fuel compare_depth layout_mode id layer depth parent m i free old e k here,
        put_new-active i w n active,
      )
