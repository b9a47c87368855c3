-- ===== src/Packages/Acyclic.antt =====
-- core/src/addon/package_manager.cpp: `load_order_impl` succeeds where no dependency runs in a circle.
use fenestra_voli_edition.Base.{
  ℕ, zero, suc, ◌+◌, ◌≤◌, ◌<◌, ◌≡◌, refl, ◌∙◌, Bool, true, false, Option-cases, none, some, List,
  [], ◌∷◌, length, arith, inl, inr,
}
use fenestra_voli_edition.Base.Order.{same_text-eq}
use fenestra_voli_edition.Unicode.{Bytes}
use fenestra_voli_edition.Packages.{
  Dependency, Package, Color, white, gray, black, find, Sorting, ok, paint, each, start_vertex,
  finish_vertex, topological_sort, load_each, load_order_impl, cleared,
}
use fenestra_voli_edition.Packages.Visit.{is_gray, Extends, sort_none, sort_black, sort_white}
use fenestra_voli_edition.Packages.Sorted.{
  Inv, Inv-start_vertex, Inv-cleared, topological_sort-Post,
}
use fenestra_voli_edition.Packages.Total.{
  count_white, count_white-Extends, count_white-paint, count_white_bound, Post-of,
}

abbrev pub IsInstalled : List Package → Bytes → Type 0
IsInstalled installed name = (p : Package) × (find name installed ≡ some p)

abbrev pub AllInstalled : List Package → List Bytes → Type 0
AllInstalled installed [] = Unit {0}
AllInstalled installed (n ∷ ns) = IsInstalled installed n × AllInstalled installed ns

-- The dependencies rank below `k`, and the required ones are installed.
abbrev pub Below : List Package → (Bytes → ℕ) → ℕ → List Dependency → Type 0
Below installed rank k [] = Unit {0}
Below installed rank k (d ∷ ds) =
    (rank d.name < k)
    × (d.required ≡ true → IsInstalled installed d.name)
    × Below installed rank k ds

-- A rank of the names that falls along every dependency, so that none runs in a circle.
abbrev pub Ranked : List Package → (Bytes → ℕ) → Type 0
Ranked installed rank =
    (name : Bytes) (p : Package)
    → find name installed ≡ some p
    → Below installed rank (rank name) p.dependencies

module _ (installed : List Package) (rank : Bytes → ℕ) where
  -- The gray vertices rank at `k` and above.
  abbrev Grays : ℕ → Sorting → Type 0
  Grays k s = (n : Bytes) → is_gray (s.colors n) ≡ true → k ≤ rank n

  Grays-Extends : (k : ℕ) (s t : Sorting) → Extends s.colors t.colors → Grays k s → Grays k t
  Grays-Extends k s t x g n h = g n (ground (arith, x.kept n, h))

  Grays-start_vertex :
      (name : Bytes) (s : Sorting)
      → Grays (suc (rank name)) s
      → Grays (rank name) (start_vertex name s)
  unfolding paint
  Grays-start_vertex name s g n h = ground (arith, g n, h, same_text-eq name n)

  abbrev count : Sorting → ℕ
  count s = count_white s.colors installed

  each_succeeds :
      (fuel k : ℕ) (ds : List Dependency) (s : Sorting)
      → ((name : Bytes) (required : Bool) (t : Sorting)
          → rank name < k
          → (required ≡ true → IsInstalled installed name)
          → Grays k t
          → Inv installed t
          → count t < fuel
          → (t' : Sorting) × (topological_sort fuel installed name required t ≡ ok t'))
      → Below installed rank k ds
      → Grays k s
      → Inv installed s
      → count s < fuel
      → (s' : Sorting) × (each (λ d. topological_sort fuel installed d.name d.required) ds s
          ≡ ok s')
  unfolding each
  each_succeeds fuel k [] s ih b g v h = (s, refl)
  each_succeeds fuel k (d ∷ ds) s ih b g v h =
      let (t, called) = ih d.name d.required s b.0 b.1 g v h in
      let (u, x, c) = Post-of installed fuel d s t v called in
      let (s', rest) =
        each_succeeds fuel k ds t ih b.2 (Grays-Extends k s t x g) u
          (omega (arith, h, count_white-Extends installed x)) in
      (s', rw (called, each) rest)

  -- What a call needs to succeed.
  abbrev Ready : ℕ → Bytes → Bool → Sorting → Type 0
  Ready fuel name required s = Grays (suc (rank name)) s × Inv installed s × (count s < fuel)

  visited_succeeds :
      (fuel : ℕ) (name : Bytes) (required : Bool) (s : Sorting) (p : Package) (c : Color)
      → ((s1 : Sorting)
          → Grays (rank name) s1
          → Inv installed s1
          → count s1 < fuel
          → (s' : Sorting) × (each
                (λ d. topological_sort fuel installed d.name d.required)
                p.dependencies
                s1
              ≡ ok s'))
      → Ready (suc fuel) name required s
      → find name installed ≡ some p
      → s.colors name ≡ c
      → (s' : Sorting) × (topological_sort (suc fuel) installed name required s ≡ ok s')
  visited_succeeds fuel name required s p gray ih (g, v, h) found e =
      absurd (omega (arith, g name (rw e refl)))
  visited_succeeds fuel name required s p black ih (g, v, h) found e =
      (s, sort_black fuel installed name required s found e)
  visited_succeeds fuel name required s p white ih (g, v, h) found e =
      let (t, visited) =
        ih (start_vertex name s) (Grays-start_vertex name s g)
          (Inv-start_vertex installed name s e v)
          (omega (arith, h, count_white-paint name s.colors installed found e)) in
      (finish_vertex name p t, sort_white fuel installed name required s found e ∙ rw visited refl)

  missing_succeeds :
      (fuel : ℕ) (name : Bytes) (required : Bool) (s : Sorting)
      → (required ≡ true → IsInstalled installed name)
      → find name installed ≡ none
      → (s' : Sorting) × (topological_sort (suc fuel) installed name required s ≡ ok s')
  missing_succeeds fuel name true s i e = let (p, found) = i refl in absurd (cc)
  missing_succeeds fuel name false s i e = (s, sort_none fuel installed name false s e)

  module _ (ranked : Ranked installed rank) where
    topological_sort_succeeds :
        (fuel : ℕ) (name : Bytes) (required : Bool) (s : Sorting)
        → (required ≡ true → IsInstalled installed name)
        → Ready fuel name required s
        → (s' : Sorting) × (topological_sort fuel installed name required s ≡ ok s')
    topological_sort_succeeds zero name required s i (g, v, h) = absurd (omega (arith, h))
    topological_sort_succeeds (suc fuel) name required s i r =
        elim (Option-cases (find name installed)) [
          | inl missing ↦ missing_succeeds fuel name required s i missing
          | inr (p, found) ↦
              visited_succeeds fuel name required s p (s.colors name)
                (λ s1 g v h.
                  each_succeeds fuel (rank name) p.dependencies s1
                    (λ n q t b j g' v' h'.
                      topological_sort_succeeds fuel n q t j
                        ((λ m e. omega (arith, b, g' m e)), v', h'))
                    (ranked name p found) g v h)
                r found refl
        ]

    abbrev NoGray : Sorting → Type 0
    NoGray s = (n : Bytes) → is_gray (s.colors n) ≡ false

    load_each_succeeds :
        (fuel : ℕ) (names : List Bytes) (s : Sorting)
        → AllInstalled installed names
        → NoGray s
        → Inv installed s
        → count s < fuel
        → (s' : Sorting) × (load_each fuel installed names s ≡ ok s')
    unfolding load_each
    load_each_succeeds fuel [] s i g v h = (s, refl)
    load_each_succeeds fuel (name ∷ names) s i g v h =
        let (p, found) = i.0 in
        let (t, called) =
          topological_sort_succeeds fuel name true s (λ r. (p, found))
            ((λ n e. absurd (ground (arith, g n, e))), v, h) in
        let (u, x, b) = topological_sort-Post installed fuel name true s t v called in
        let (s', rest) =
          load_each_succeeds fuel names t i.1 (λ n. ground (arith, g n, x.kept n)) u
            (omega (arith, h, count_white-Extends installed x)) in
        (s', rw (found, called, load_each) rest)

    -- Installed packages are ordered if every required dependency is installed and no dependency,
    -- required or not, runs in a circle.
    pub load_order_impl_succeeds :
        (names : List Bytes)
        → AllInstalled installed names
        → (rs : List Package) × (load_order_impl installed names ≡ ok rs)
    unfolding load_order_impl
    load_order_impl_succeeds names i =
        let (s, loaded) =
          load_each_succeeds (length installed + 1) names cleared i (λ n. refl)
            (Inv-cleared installed) (omega (arith, count_white_bound cleared.colors installed)) in
        (s.results, rw loaded refl)
