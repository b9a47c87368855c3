-- ===== src/Windows/Listed.antt =====
-- core/src/ui/window_manager.cpp: a property of the window at an index, when the windows change.
use fenestra_voli_edition.Base.{
  ℕ, zero, suc, ◌+◌, ◌≤◌, ◌<◌, ◌≡◌, refl, Bool-cases, Option-cases, inl, inr, none, some, List, [],
  ◌∷◌, ◌++◌, ◌==◌, if◌then◌else◌, arith, length, get_elem?, set,
}
use fenestra_voli_edition.Windows.{Window, index_of}

-- A number that the window at an index has; zero where there is none.
abbrev pub at : (Window → ℕ) → List Window → ℕ → ℕ
at f [] i = 0
at f (w ∷ ws) zero = f w
at f (w ∷ ws) (suc i) = at f ws i

pub at-get_elem? :
    (f : Window → ℕ) (ws : List Window) (i : ℕ) (w : Window)
    → get_elem? ws i ≡ some w
    → at f ws i ≡ f w
at-get_elem? f [] i w h = absurd (cc (h))
at-get_elem? f (v ∷ ws) zero w h = ground (arith, h)
at-get_elem? f (v ∷ ws) (suc i) w h = at-get_elem? f ws i w h

pub at-set :
    (f : Window → ℕ) (ws : List Window) (i j : ℕ) (w v : Window)
    → get_elem? ws i ≡ some w
    → at f (set ws i v) j ≡ (if i == j then f v else at f ws j)
at-set f [] i j w v h = absurd (cc (h))
at-set f (x ∷ ws) zero zero w v h = refl
at-set f (x ∷ ws) zero (suc j) w v h = ground arith
at-set f (x ∷ ws) (suc i) zero w v h = ground arith
at-set f (x ∷ ws) (suc i) (suc j) w v h = ground (arith, at-set f ws i j w v h)

pub at-append :
    (f : Window → ℕ) (ws : List Window) (j : ℕ) (v : Window)
    → at f (ws ++ v ∷ []) j ≡ (if length ws == j then f v else at f ws j)
at-append f [] zero v = refl
at-append f [] (suc j) v = ground arith
at-append f (x ∷ ws) zero v = ground arith
at-append f (x ∷ ws) (suc j) v = ground (arith, at-append f ws j v)

pub at_outside : (f : Window → ℕ) (ws : List Window) (i : ℕ) → length ws ≤ i → at f ws i ≡ 0
at_outside f [] i h = refl
at_outside f (w ∷ ws) zero h = absurd (omega (arith, h))
at_outside f (w ∷ ws) (suc i) h = at_outside f ws i (omega (arith, h))

pub at_inside :
    (f : Window → ℕ) (ws : List Window) (i : ℕ)
    → 0 < at f ws i
    → (w : Window) × (get_elem? ws i ≡ some w)
at_inside f [] i h = absurd (omega (arith, h))
at_inside f (w ∷ ws) zero h = (w, refl)
at_inside f (w ∷ ws) (suc i) h = at_inside f ws i h

-- How many windows have an id.
abbrev pub count_id : ℕ → List Window → ℕ
count_id id [] = 0
count_id id (w ∷ ws) = (if w.id == id then 1 else 0) + count_id id ws

pub count_id-set :
    (id : ℕ) (ws : List Window) (i : ℕ) (w v : Window)
    → get_elem? ws i ≡ some w
    → count_id id (set ws i v) + (if w.id == id then 1 else 0)
      ≡ count_id id ws + (if v.id == id then 1 else 0)
count_id-set id [] i w v h = absurd (cc (h))
count_id-set id (x ∷ ws) zero w v h = ground (arith, h)
count_id-set id (x ∷ ws) (suc i) w v h = omega (arith, count_id-set id ws i w v h)

pub count_id-append :
    (id : ℕ) (ws : List Window) (v : Window)
    → count_id id (ws ++ v ∷ []) ≡ count_id id ws + (if v.id == id then 1 else 0)
count_id-append id [] v = omega arith
count_id-append id (x ∷ ws) v = omega (arith, count_id-append id ws v)

pub index_of-none : (id : ℕ) (ws : List Window) → index_of id ws ≡ none → count_id id ws ≡ 0
unfolding index_of
index_of-none id [] h = refl
index_of-none id (w ∷ ws) h = elim (Option-cases (index_of id ws)) [
  | inl e ↦ ground (arith, h, index_of-none id ws e)
  | inr (i, e) ↦ absurd (ground (arith, h, e))
]

pub index_of-some :
    (id : ℕ) (ws : List Window) (i : ℕ)
    → index_of id ws ≡ some i
    → (w : Window) × (get_elem? ws i ≡ some w) × (w.id ≡ id)
unfolding index_of
index_of-some id [] i h = absurd (cc (h))
index_of-some id (w ∷ ws) zero h = elim (Bool-cases (w.id == id)) [
  | inl s ↦ (w, refl, ground (arith, s))
  | inr s ↦ elim (Option-cases (index_of id ws)) [
    | inl e ↦ absurd (ground (arith, h, s, e))
    | inr (k, e) ↦ absurd (ground (arith, h, s, e))
  ]
]
index_of-some id (w ∷ ws) (suc i) h = elim (Bool-cases (w.id == id)) [
  | inl s ↦ absurd (ground (arith, h, s))
  | inr s ↦ elim (Option-cases (index_of id ws)) [
    | inl e ↦ absurd (ground (arith, h, s, e))
    | inr (k, e) ↦ index_of-some id ws i (ground (arith, h, s, e))
  ]
]
