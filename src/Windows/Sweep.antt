-- ===== src/Windows/Sweep.antt =====
-- core/src/ui/window_manager.cpp: `update` drops the windows that were not asked for.
use fenestra_voli_edition.Base.{
  ℕ, zero, suc, ◌+◌, ◌≤◌, ◌<◌, ◌≡◌, refl, ◌∙◌, ◌≢◌, ◌&&◌, ◌⊎◌, inl, inr, List, [], ◌∷◌, ◌==◌,
  if◌then◌else◌, arith,
}
use fenestra_voli_edition.Windows.{Layer, layout, Window, same_layer, erase, put_layer}
use fenestra_voli_edition.Windows.Update.{is_dropped, dropped, sweep}
use fenestra_voli_edition.Windows.Count.{count, count-erase}
use fenestra_voli_edition.Windows.Listed.{at, count_id}
use fenestra_voli_edition.Windows.Valid.{count-put_layer, count-same_layer}

-- What the loop takes out of a layer.
abbrev pub out_of : Layer → Window → ℕ
out_of l w = if is_dropped w && same_layer w.layer l then 1 else 0

abbrev pub out : Window → ℕ
out w = if is_dropped w then 1 else 0

-- The layers behind the first round.
abbrev pub without : ℕ → Window → (Layer → List ℕ) → Layer → List ℕ
without i w z l = if is_dropped w then put_layer w.layer (erase i (z w.layer)) z l else z l

count-without :
    (i : ℕ) (w : Window) (z : Layer → List ℕ) (j : ℕ) (l : Layer)
    → count j (without i w z l)
      ≡ (if is_dropped w && same_layer w.layer l && i == j then 0 else count j (z l))
count-without i w z j l = ground (
  arith,
  count-put_layer j w.layer l (erase i (z w.layer)) z,
  count-erase j i (z w.layer),
  count-same_layer j w.layer l z,
)

-- Windows in front are left alone.
pub sweep_before :
    (i : ℕ) (ws : List Window) (z : Layer → List ℕ) (free : List ℕ) (j : ℕ) (l : Layer)
    → j < i
    → (count j ((sweep i ws z free).z_order l) ≡ count j (z l))
      × (count j (sweep i ws z free).free_list ≡ count j free)
unfolding sweep
sweep_before i [] z free j l h = (refl, refl)
sweep_before i (w ∷ ws) z free j l h =
    let next = if is_dropped w then i ∷ free else free in
    let (rest, more) = sweep_before (i + 1) ws (without i w z) next j l (omega (arith, h)) in
    (rest ∙ ground (arith, h, count-without i w z j l), more ∙ ground (arith, h))

pub sweep_z_order :
    (i : ℕ) (ws : List Window) (z : Layer → List ℕ) (free : List ℕ) (j : ℕ) (l : Layer)
    → count (i + j) ((sweep i ws z free).z_order l)
      ≡ (if at (out_of l) ws j == 0 then count (i + j) (z l) else 0)
unfolding sweep
sweep_z_order i [] z free j l = refl
sweep_z_order i (w ∷ ws) z free zero l =
    let next = if is_dropped w then i ∷ free else free in
    let (rest, more) = sweep_before (i + 1) ws (without i w z) next (i + 0) l (omega arith) in
    rest ∙ ground (arith, count-without i w z (i + 0) l)
sweep_z_order i (w ∷ ws) z free (suc j) l =
    let next = if is_dropped w then i ∷ free else free in
    let rest = sweep_z_order (i + 1) ws (without i w z) next j l in
    let same : i + 1 + j ≡ i + suc j = omega arith in
    (rw (same) at rest) ∙ ground (arith, count-without i w z (i + suc j) l)

pub sweep_free_list :
    (i : ℕ) (ws : List Window) (z : Layer → List ℕ) (free : List ℕ) (j : ℕ)
    → count (i + j) (sweep i ws z free).free_list ≡ count (i + j) free + at out ws j
unfolding sweep
sweep_free_list i [] z free j = omega arith
sweep_free_list i (w ∷ ws) z free zero =
    let next = if is_dropped w then i ∷ free else free in
    let (rest, more) = sweep_before (i + 1) ws (without i w z) next (i + 0) layout (omega arith) in
    more ∙ ground arith
sweep_free_list i (w ∷ ws) z free (suc j) =
    let next = if is_dropped w then i ∷ free else free in
    let rest = sweep_free_list (i + 1) ws (without i w z) next j in
    let same : i + 1 + j ≡ i + suc j = omega arith in (rw (same) at rest) ∙ ground arith

pub sweep_windows :
    (f : Window → ℕ) (i : ℕ) (ws : List Window) (z : Layer → List ℕ) (free : List ℕ) (j : ℕ)
    → at f (sweep i ws z free).windows j ≡ at (λ w. f (dropped w)) ws j
unfolding sweep
sweep_windows f i [] z free j = refl
sweep_windows f i (w ∷ ws) z free zero = refl
sweep_windows f i (w ∷ ws) z free (suc j) =
    sweep_windows f (i + 1) ws (without i w z) (if is_dropped w then i ∷ free else free) j

pub sweep-count_id :
    (id i : ℕ) (ws : List Window) (z : Layer → List ℕ) (free : List ℕ)
    → id ≢ 0
    → count_id id (sweep i ws z free).windows ≤ count_id id ws
unfolding sweep
sweep-count_id id i [] z free h = omega arith
sweep-count_id id i (w ∷ ws) z free h = ground (
  arith,
  h,
  sweep-count_id id (i + 1) ws (without i w z) (if is_dropped w then i ∷ free else free) h,
)

-- All numbers of a window at an index are those of one window, or there is none.
pub at_or :
    (ws : List Window) (i : ℕ)
    → ((f : Window → ℕ) → at f ws i ≡ 0) ⊎ ((w : Window) × ((f : Window → ℕ) → at f ws i ≡ f w))
at_or [] i = inl (λ f. refl)
at_or (w ∷ ws) zero = inr (w, λ f. refl)
at_or (w ∷ ws) (suc i) = at_or ws i
