-- ===== src/Windows/Get.antt =====
-- core/src/ui/window_manager.cpp: what `get` gives.
use fenestra_voli_edition.Base.{
  ℕ, ◌≡◌, refl, ap, ◌≢◌, Bool, Option-cases, true, inl, inr, Option, none, some, List, [], ◌∷◌,
  ◌++◌, ◌==◌, if◌then◌else◌, arith, length, get_elem?, set, get_elem?-set_self,
}
use fenestra_voli_edition.Windows.{
  Layer, Window, WindowManager, Order, put_layer, get_again, put_new, index_of, get,
}
use fenestra_voli_edition.Windows.Count.{count}
use fenestra_voli_edition.Windows.Listed.{at-get_elem?, at_inside, index_of-none, index_of-some}
use fenestra_voli_edition.Windows.Valid.{
  IsValid, IsNew, freed, activate-IsValid, activate-rest, get_again-IsValid, new-IsValid,
  append-IsNew, reused-IsNew,
}

get_elem?-last : (ws : List Window) (w : Window) → get_elem? (ws ++ w ∷ []) (length ws) ≡ some w
get_elem?-last [] w = refl
get_elem?-last (x ∷ ws) w = get_elem?-last ws w

-- The window at `i` has been asked for, with this id and layer.
abbrev pub IsGot : ℕ → Layer → ℕ → WindowManager → Type 0
IsGot id layer i m =
    (w : Window) × (get_elem? m.windows i ≡ some w)
    × (w.id ≡ id)
    × (w.layer ≡ layer)
    × (w.used ≡ true)

module _ (fuel : ℕ) (compare_depth : ℕ → ℕ → Order) (layout_mode : Bool) where
  put_new-IsValid :
      (m : WindowManager) (i : ℕ) (w : Window) (ws : List Window) (free : List ℕ)
      → IsValid m
      → IsNew m i w ws
      → ((j : ℕ) → count j free ≡ (if i == j then 0 else count j m.free_list))
      → IsValid
          (put_new fuel compare_depth layout_mode i w (record m { windows = ws; free_list = free }))
  unfolding put_new
  put_new-IsValid m i w ws free v new taken =
      activate-IsValid fuel compare_depth layout_mode i w
        (record m {
          windows = ws;
          free_list = free;
          z_order = put_layer w.layer (m.z_order w.layer ++ i ∷ []) m.z_order;
        })
        (new-IsValid m i w ws free v new taken)

  put_new-IsGot :
      (i : ℕ) (w : Window) (m : WindowManager)
      → get_elem? m.windows i ≡ some w
      → w.used ≡ true
      → IsGot w.id w.layer i (put_new fuel compare_depth layout_mode i w m)
  unfolding put_new
  put_new-IsGot i w m here used =
      let same =
        (activate-rest fuel compare_depth layout_mode i w
          (record m { z_order = put_layer w.layer (m.z_order w.layer ++ i ∷ []) m.z_order })).0 in
      (w, rw (same) here, refl, refl, used)

  module _ (id : ℕ) (layer : Layer) (depth : ℕ) (parent : Option ℕ) (m : WindowManager) where
    get_there :
        (i : ℕ) (w : Window)
        → index_of id m.windows ≡ some i
        → get_elem? m.windows i ≡ some w
        → get fuel compare_depth layout_mode id layer depth parent m
          ≡ some (i, get_again i w layer depth parent m)
    unfolding get
    get_there i w h k = rw (get, h, k) refl

    abbrev pub new_window : Bool → Window
    new_window is_interactable = record {
      id = id;
      layer = layer;
      depth = depth;
      parent = parent;
      is_interactable = is_interactable;
      used = true;
    }

    get_appended :
        index_of id m.windows ≡ none
        → m.free_list ≡ []
        → get fuel compare_depth layout_mode id layer depth parent m
          ≡ some (
            length m.windows,
            put_new fuel compare_depth layout_mode
                (length m.windows)
                (new_window true)
                (record m { windows = m.windows ++ new_window true ∷ [] }),
          )
    unfolding get
    get_appended h k = ground (arith, h, k)

    pub get_reused :
        (i : ℕ) (free : List ℕ) (old : Window)
        → index_of id m.windows ≡ none
        → m.free_list ≡ i ∷ free
        → get_elem? m.windows i ≡ some old
        → let w = new_window old.is_interactable in
          get fuel compare_depth layout_mode id layer depth parent m
          ≡ some (
            i,
            put_new fuel compare_depth layout_mode i w
                (record m { windows = set m.windows i w; free_list = free }),
          )
    unfolding get
    get_reused i free old h k e = rw (get, h, k, e) refl

    -- The first free window has no id.
    pub free_window :
        (i : ℕ) (free : List ℕ)
        → IsValid m
        → m.free_list ≡ i ∷ free
        → (old : Window) × (get_elem? m.windows i ≡ some old)
          × (old.id ≡ 0)
          × ((j : ℕ) → count j free ≡ (if i == j then 0 else count j m.free_list))
    free_window i free v e =
        let one = ap (count i) e in
        let (old, here) = at_inside freed m.windows i (ground (arith, v.on_free_list i, one)) in
        (
          old,
          here,
          ground (arith, at-get_elem? freed m.windows i old here, v.on_free_list i, one),
          λ j.
              ground
                (arith, ap (count j) e, v.on_free_list j, at-get_elem? freed m.windows i old here),
        )

    get_again_there :
        (i : ℕ) (w : Window)
        → get_elem? m.windows i ≡ some w
        → get_elem? (get_again i w layer depth parent m).windows i
          ≡ some (record w { layer = layer; depth = depth; parent = parent; used = true })
    unfolding get_again
    get_again_there i w here =
        get_elem?-set_self m.windows i w
          (record w { layer = layer; depth = depth; parent = parent; used = true }) here

    abbrev Gets : Type 0
    Gets =
        (i : ℕ) × (n : WindowManager) × (get fuel compare_depth layout_mode id layer depth parent m
          ≡ some (i, n))
        × IsValid n
        × IsGot id layer i n

    get_fresh :
        (free : List ℕ)
        → m.free_list ≡ free
        → index_of id m.windows ≡ none
        → IsValid m
        → id ≢ 0
        → Gets
    get_fresh [] k e v live =
        let i = length m.windows in
        let w = new_window true in
        let ws = m.windows ++ w ∷ [] in
        let fresh = index_of-none id m.windows e in
        (
          i,
          put_new fuel compare_depth layout_mode i w (record m { windows = ws }),
          get_appended e k,
          put_new-IsValid m i w ws m.free_list v (append-IsNew m w fresh live)
              (λ j. ground (arith, ap (count j) k)),
          put_new-IsGot i w (record m { windows = ws }) (get_elem?-last m.windows w) refl,
        )
    get_fresh (i ∷ free) k e v live =
        let (old, here, dead, rest) = free_window i free v k in
        let w = new_window old.is_interactable in
        let ws = set m.windows i w in
        let fresh = index_of-none id m.windows e in
        (
          i,
          put_new fuel compare_depth layout_mode i w (record m { windows = ws; free_list = free }),
          get_reused i free old e k here,
          put_new-IsValid m i w ws free v (reused-IsNew m i old w here dead fresh live) rest,
          put_new-IsGot i w (record m { windows = ws; free_list = free })
              (get_elem?-set_self m.windows i old w here) refl,
        )

    -- A window that is asked for by an id that is not zero is there then, with this id, in the layer, and
    -- keeps the invariant, also where it takes the place of a window that was dropped.
    pub get-IsValid :
        IsValid m
        → id ≢ 0
        → (i : ℕ) × (n : WindowManager) × (get fuel compare_depth layout_mode id layer depth parent
              m
            ≡ some (i, n))
          × IsValid n
          × IsGot id layer i n
    get-IsValid v live = elim (Option-cases (index_of id m.windows)) [
      | inr (i, e) ↦
          let (w, here, same) = index_of-some id m.windows i e in
          (
            i,
            get_again i w layer depth parent m,
            get_there i w e here,
            get_again-IsValid m v i w here layer depth parent (ground (arith, same, live)),
            (
              record w { layer = layer; depth = depth; parent = parent; used = true },
              get_again_there i w here,
              same,
              refl,
              refl,
            ),
          )
      | inl e ↦ get_fresh m.free_list refl e v live
    ]
