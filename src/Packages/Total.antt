-- ===== src/Packages/Total.antt =====
-- core/src/addon/package_manager.cpp: `load_order_impl` ends, and on acyclic dependencies succeeds.
use fenestra_voli_edition.Base.{
  ℕ, zero, suc, ◌+◌, ◌≤◌, ◌<◌, ◌≡◌, ◌≢◌, refl, Bool, true, false, Option-cases, some, List, [], ◌∷◌,
  if◌then◌else◌, length, arith, inl, inr,
}
use fenestra_voli_edition.Base.Order.{same_text-eq, same_text_self}
use fenestra_voli_edition.Unicode.{Bytes}
use fenestra_voli_edition.Packages.{
  Dependency, Package, Color, white, gray, black, find, Sorting, Error, Result, ok, err,
  out_of_fuel, ◌>>=◌, paint, each, start_vertex, topological_sort, load_each, load_order_impl,
  cleared,
}
use fenestra_voli_edition.Packages.Visit.{
  is_black, is_gray, Extends, visit_dependencies, sort_none, sort_gray, sort_black, sort_white,
}
use fenestra_voli_edition.Packages.Sorted.{
  Inv, Inv-start_vertex, Inv-cleared, topological_sort-Post, Post,
}

abbrev pub is_white : Color → Bool
is_white white = true
is_white gray = false
is_white black = false

-- How many packages are white.
abbrev pub count_white : (Bytes → Color) → List Package → ℕ
count_white c [] = 0
count_white c (p ∷ ps) = (if is_white (c p.name) then 1 else 0) + count_white c ps

count_white_mono :
    (c c' : Bytes → Color) (ps : List Package)
    → ((n : Bytes) → is_white (c' n) ≡ true → is_white (c n) ≡ true)
    → count_white c' ps ≤ count_white c ps
count_white_mono c c' [] h = omega arith
count_white_mono c c' (p ∷ ps) h = ground (arith, h p.name, count_white_mono c c' ps h)

white_back :
    (a b : Color)
    → is_gray b ≡ is_gray a
    → (is_black a ≡ true → is_black b ≡ true)
    → is_white b ≡ true
    → is_white a ≡ true
white_back white b g h w = refl
white_back gray b g h w = ground (arith, g, w)
white_back black b g h w = ground (arith, h refl, w)

pub count_white-Extends :
    {c c' : Bytes → Color} (ps : List Package) → Extends c c' → count_white c' ps ≤ count_white c ps
count_white-Extends {c} {c'} ps x =
    count_white_mono c c' ps (λ n. white_back (c n) (c' n) (x.kept n) (x.grown n))

paint_white :
    (name : Bytes) (c : Bytes → Color) (n : Bytes)
    → is_white (paint name gray c n) ≡ true
    → is_white (c n) ≡ true
unfolding paint
paint_white name c n h = ground (arith, h)

-- A vertex that becomes gray is one white vertex less.
pub count_white-paint :
    (name : Bytes) (c : Bytes → Color) (ps : List Package) {p : Package}
    → find name ps ≡ some p
    → c name ≡ white
    → count_white (paint name gray c) ps < count_white c ps
unfolding find paint
count_white-paint name c [] {p} e w = absurd (ground (arith, e))
count_white-paint name c (x ∷ ps) {p} e w = ground (
  arith,
  e,
  w,
  same_text-eq x.name name,
  same_text_self name,
  count_white-paint name c ps {p = p},
  count_white_mono c (paint name gray c) ps (paint_white name c),
)

pub count_white_bound : (c : Bytes → Color) (ps : List Package) → count_white c ps ≤ length ps
count_white_bound c [] = omega arith
count_white_bound c (p ∷ ps) = ground (arith, count_white_bound c ps)

settled_if :
    {A : Type 0} (required : Bool) (x : Error) (s : A)
    → (if required then err x else ok s) ≢ out_of_fuel
settled_if true x s = λ e. cc
settled_if false x s = λ e. cc

bind_settled :
    {A B : Type 0} (r : Result A) (f : A → Result B)
    → r ≢ out_of_fuel
    → ((a : A) → r ≡ ok a → f a ≢ out_of_fuel)
    → (r >>= f) ≢ out_of_fuel
bind_settled (ok a) f h k e = k a refl e
bind_settled (err x) f h k e = cc
bind_settled out_of_fuel f h k e = h refl

module _ (installed : List Package) where
  abbrev count : Sorting → ℕ
  count s = count_white s.colors installed

  each_settled :
      (f : Dependency → Sorting → Result Sorting) (ds : List Dependency) (s : Sorting) (k : ℕ)
      → ((d : Dependency) (t t' : Sorting)
          → Inv installed t
          → f d t ≡ ok t'
          → Post installed t d.required d.name t')
      → ((d : Dependency) (t : Sorting) → Inv installed t → count t < k → f d t ≢ out_of_fuel)
      → Inv installed s
      → count s < k
      → each f ds s ≢ out_of_fuel
  unfolding each
  each_settled f [] s k post ih v h = λ e. cc
  each_settled f (d ∷ ds) s k post ih v h =
      bind_settled (f d s) (each f ds) (ih d s v h) (λ t called.
        let (u, x, b) = post d s t v called in
        each_settled f ds t k post ih u (omega (arith, h, count_white-Extends installed x)))

  pub Post-of :
      (fuel : ℕ) (d : Dependency) (t t' : Sorting)
      → Inv installed t
      → topological_sort fuel installed d.name d.required t ≡ ok t'
      → Post installed t d.required d.name t'
  Post-of fuel d t t' v e = topological_sort-Post installed fuel d.name d.required t t' v e

  visited_settled :
      (fuel : ℕ) (name : Bytes) (required : Bool) (s : Sorting) (p : Package) (c : Color)
      → ((d : Dependency) (t : Sorting)
          → Inv installed t
          → count t < fuel
          → topological_sort fuel installed d.name d.required t ≢ out_of_fuel)
      → Inv installed s
      → count s < suc fuel
      → find name installed ≡ some p
      → s.colors name ≡ c
      → topological_sort (suc fuel) installed name required s ≢ out_of_fuel
  visited_settled fuel name true s p gray ih v h found e =
      rw (sort_gray fuel installed name true s found e) (λ q. cc)
  visited_settled fuel name false s p gray ih v h found e =
      rw (sort_gray fuel installed name false s found e) (λ q. cc)
  visited_settled fuel name required s p black ih v h found e =
      rw (sort_black fuel installed name required s found e) (λ q. cc)
  visited_settled fuel name required s p white ih v h found e =
      rw (sort_white fuel installed name required s found e) (
        bind_settled (visit_dependencies fuel installed name required s p) _
          (each_settled _ p.dependencies (start_vertex name s) fuel (Post-of fuel) ih
            (Inv-start_vertex installed name s e v)
            (omega (arith, h, count_white-paint name s.colors installed found e)))
          (λ t called. λ q. cc))

  topological_sort_settled :
      (fuel : ℕ) (name : Bytes) (required : Bool) (s : Sorting)
      → Inv installed s
      → count s < fuel
      → topological_sort fuel installed name required s ≢ out_of_fuel
  topological_sort_settled zero name required s v h = absurd (omega (arith, h))
  topological_sort_settled (suc fuel) name required s v h =
      elim (Option-cases (find name installed)) [
        | inl missing ↦
            rw (sort_none fuel installed name required s missing) (settled_if required _ _)
        | inr (p, found) ↦
            visited_settled fuel name required s p (s.colors name)
              (λ d t. topological_sort_settled fuel d.name d.required t) v h found refl
      ]

  load_each_settled :
      (fuel : ℕ) (names : List Bytes) (s : Sorting)
      → Inv installed s
      → count s < fuel
      → load_each fuel installed names s ≢ out_of_fuel
  unfolding load_each
  load_each_settled fuel [] s v h = λ e. cc
  load_each_settled fuel (name ∷ names) s v h = elim (Option-cases (find name installed)) [
    | inl missing ↦ rw (missing, load_each) (λ e. cc)
    | inr (p, found) ↦
        rw (found, load_each)
          (bind_settled (topological_sort fuel installed name true s) _
            (topological_sort_settled fuel name true s v h)
            (λ t called.
              let (u, x, b) = topological_sort-Post installed fuel name true s t v called in
              load_each_settled fuel names t u (omega (arith, h, count_white-Extends installed x))))
  ]

  -- The search ends on every set of packages, with a list or one of the three errors, however the
  -- dependencies run.
  pub load_order_impl_ends : (names : List Bytes) → load_order_impl installed names ≢ out_of_fuel
  unfolding load_order_impl
  load_order_impl_ends names =
      bind_settled (load_each (length installed + 1) installed names cleared) _
        (load_each_settled _ names cleared (Inv-cleared installed)
          (omega (arith, count_white_bound cleared.colors installed)))
        (λ s called. λ e. cc)
