-- ===== src/Windows/Tests.antt =====
-- core/src/ui/window_manager.cpp on two windows.
use fenestra_voli_edition.Base.{
  ℕ, ◌<◌, zero, suc, ◌+◌, ◌≡◌, refl, Bool, true, false, none, some, List, [], ◌∷◌, ◌++◌, ◌==◌, ltb,
  if◌then◌else◌, arith,
}
use fenestra_voli_edition.Windows.{
  Layer, layout, screen, world, layer_index, Window, WindowManager, Order, less, greater,
  equivalent, unordered, lt, filter, activate, index_of, get, order, compare_windows,
  is_descendent_of, put_layer, erase,
}
use fenestra_voli_edition.Windows.Update.{update, sorted, sweep}
use fenestra_voli_edition.Windows.Count.{count}
use fenestra_voli_edition.Windows.Listed.{at}
use fenestra_voli_edition.Windows.Valid.{IsValid, listed}
use fenestra_voli_edition.Windows.Get.{IsGot, get-IsValid}
use fenestra_voli_edition.Windows.Kept.{kept, update-IsValid, IsStrictWeak, AreOrdered}
use fenestra_voli_edition.Windows.Raised.{is_behind, activate-z_order, get-active_window}

abbrev by_number : ℕ → ℕ → Order
by_number a b = if ltb a b then less else if ltb b a then greater else equivalent

abbrev window_at : ℕ → Layer → Bool → Window
window_at id layer used = record {
  id = id;
  layer = layer;
  depth = 0;
  parent = none;
  is_interactable = true;
  used = used;
}

abbrev layers : Layer → List ℕ
layers layout = []
layers screen = 1 ∷ 0 ∷ []
layers world = []

-- Two windows of one layer; the first was not asked for.
abbrev two : WindowManager
two = record {
  windows = window_at 5 screen false ∷ window_at 7 screen true ∷ [];
  z_order = layers;
  free_list = [];
  hot_window = none;
  active_window = some 0;
}

two-on_layer : (i : ℕ) (l : Layer) → count i (layers l) ≡ at (listed l) two.windows i
unfolding layer_index
two-on_layer zero layout = refl
two-on_layer zero screen = refl
two-on_layer zero world = refl
two-on_layer (suc zero) layout = refl
two-on_layer (suc zero) screen = refl
two-on_layer (suc zero) world = refl
two-on_layer (suc (suc i)) layout = refl
two-on_layer (suc (suc i)) screen = ground arith
two-on_layer (suc (suc i)) world = refl

two-on_free_list : (i : ℕ) → 0 ≡ at (λ w. if w.id == 0 then 1 else 0) two.windows i
two-on_free_list zero = refl
two-on_free_list (suc zero) = refl
two-on_free_list (suc (suc i)) = refl

two-IsValid : IsValid two
two-IsValid = record {
  on_layer = two-on_layer;
  on_free_list = two-on_free_list;
  distinct = λ id h. ground arith;
}

abbrev insert_by : (ℕ → ℕ → Bool) → ℕ → List ℕ → List ℕ
insert_by is_less x [] = x ∷ []
insert_by is_less x (y ∷ ys) =
    let rest = insert_by is_less x ys in if is_less y x then y ∷ rest else x ∷ y ∷ ys

abbrev sort_by : (ℕ → ℕ → Bool) → List ℕ → List ℕ
sort_by is_less [] = []
sort_by is_less (x ∷ xs) = insert_by is_less x (sort_by is_less xs)

count-insert_by :
    (is_less : ℕ → ℕ → Bool) (x : ℕ) (xs : List ℕ) (i : ℕ)
    → count i (insert_by is_less x xs) ≡ (if x == i then 1 else 0) + count i xs
count-insert_by is_less x [] i = refl
count-insert_by is_less x (y ∷ ys) i = ground (arith, count-insert_by is_less x ys i)

count-sort_by :
    (is_less : ℕ → ℕ → Bool) (xs : List ℕ) (i : ℕ) → count i (sort_by is_less xs) ≡ count i xs
count-sort_by is_less [] i = refl
count-sort_by is_less (x ∷ xs) i =
    omega (arith, count-insert_by is_less x (sort_by is_less xs) i, count-sort_by is_less xs i)

get-IsValid_example :
    (i : ℕ) × (n : WindowManager) × (get 3 by_number false 9 screen 0 (some 1) two ≡ some (i, n))
    × IsValid n
    × IsGot 9 screen i n
get-IsValid_example =
    get-IsValid 3 by_number false 9 screen 0 (some 1) two two-IsValid (omega arith)

none-IsStrictWeak : (is_less : ℕ → ℕ → Bool) → IsStrictWeak is_less []
none-IsStrictWeak is_less = record {
  irreflexive = λ a h. absurd (omega (arith, h));
  transitive = λ a b c h k l e f. absurd (omega (arith, h));
  negatively_transitive = λ a b c h k l e f. absurd (omega (arith, h));
}

only_one : (a : ℕ) → 0 < count a (1 ∷ []) → a ≡ 1
only_one a h = ground (arith, h)

one-IsStrictWeak : (is_less : ℕ → ℕ → Bool) → is_less 1 1 ≡ false → IsStrictWeak is_less (1 ∷ [])
one-IsStrictWeak is_less n = record {
  irreflexive = λ a h. rw (only_one a h) n;
  transitive =
      λ a b c h k l e f. rw (only_one a h, only_one c l) (rw (only_one a h, only_one b k) at e);
  negatively_transitive = λ a b c h k l e f. rw (only_one a h, only_one c l) n;
}

two-AreOrdered : AreOrdered 3 by_number two
unfolding sweep put_layer erase layer_index lt order compare_windows
two-AreOrdered layout = none-IsStrictWeak _
two-AreOrdered screen = one-IsStrictWeak _ refl
two-AreOrdered world = none-IsStrictWeak _

update-IsValid_example :
    let n = update 3 by_number sort_by false (λ i. false) true two in
    IsValid n × ((i : ℕ) → at (λ w. w.id) n.windows i ≡ at kept two.windows i)
update-IsValid_example =
    update-IsValid 3 by_number sort_by (λ is_less xs o. count-sort_by is_less xs) false (λ i. false)
      true two two-IsValid two-AreOrdered

two-known :
    (x : ℕ)
    → 0 < count x (layers screen)
    → (o : Order) × (order 3 by_number two.windows 1 x ≡ some o)
unfolding order compare_windows layer_index is_descendent_of
two-known zero h = (unordered, refl)
two-known (suc zero) h = (equivalent, refl)
two-known (suc (suc x)) h = absurd (ground (arith, h))

activate-z_order_example :
    let n = activate 3 by_number false 1 (window_at 7 screen true) two in
    (n.active_window ≡ some 1)
    × (n.z_order screen
        ≡ (filter (lt 3 by_number two.windows 1) (layers screen) ++ 1 ∷ [])
          ++ filter (λ x. is_behind (order 3 by_number two.windows 1 x)) (layers screen))
unfolding layer_index
activate-z_order_example =
    activate-z_order 3 by_number false two two-IsValid 1 (window_at 7 screen true) refl
      (omega arith) refl (cc) two-known

-- What an update leaves of the two; the next new window takes the place of the first.
after : WindowManager
after = update 3 by_number sort_by false (λ i. false) false two

get-active_window_example :
    (n : WindowManager) × (get 3 by_number false 9 screen 0 none after ≡ some (0, n))
    × (n.z_order screen ≡ after.z_order screen ++ 0 ∷ [])
unfolding after update sorted sweep index_of
get-active_window_example =
    get-active_window 3 by_number false 9 screen 0 none after 0 []
      (update-IsValid 3 by_number sort_by (λ is_less xs o. count-sort_by is_less xs) false
        (λ i. false) false two two-IsValid two-AreOrdered).0
      refl refl refl
