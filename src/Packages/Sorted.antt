-- ===== src/Packages/Sorted.antt =====
-- core/src/addon/package_manager.cpp: what `load_order_impl` puts out is an order to load in.
use mathlib.Core.Path.{subst}
use fenestra_voli_edition.Base.{
  ℕ, zero, suc, ◌+◌, ◌≡◌, refl, sym, ◌∙◌, Bool, true, false, Option-cases, some, List, [], ◌∷◌,
  ◌++◌, if◌then◌else◌, length, arith, inl, inr,
}
use fenestra_voli_edition.Base.Order.{same_text-eq, same_text_self}
use fenestra_voli_edition.Unicode.{Bytes}
use fenestra_voli_edition.Packages.{
  Dependency, Package, Color, white, gray, black, find, Sorting, Error, Result, ok, err, paint,
  each, start_vertex, finish_vertex, topological_sort, load_each, load_order_impl, cleared, p2,
  cycle,
}
use fenestra_voli_edition.Packages.Visit.{
  has, HasAll, Needs, is_black, Extends, Extends-self, Extends-trans, NeedsBlack, AllBlack,
  has-append, find-name, Needs-black, HasAll-black, bind_ok, still_gray, visit_dependencies,
  sort_none, sort_gray, sort_black, sort_white,
}

-- An order to load in: each package is installed and new, and stands behind its required
-- dependencies.
pub data Loadable (installed : List Package) : List Package → Type 0 where
  nothing : Loadable installed []
  behind :
      (before : List Package) (p : Package) {rs : List Package}
      → Loadable installed before
      → find p.name installed ≡ some p
      → Needs before p.dependencies
      → has p.name before ≡ false
      → rs ≡ before ++ p ∷ []
      → Loadable installed rs

-- The black vertices are those put out.
pub record Inv (installed : List Package) (s : Sorting) : Type 0 where
  pub agree : (n : Bytes) → has n s.results ≡ is_black (s.colors n)
  pub loadable : Loadable installed s.results

-- What a successful call leaves behind.
abbrev pub Post : List Package → Sorting → Bool → Bytes → Sorting → Type 0
Post installed s required name s' =
    Inv installed s'
    × Extends s.colors s'.colors
    × (required ≡ true → is_black (s'.colors name) ≡ true)

module _ (installed : List Package) where
  pub Inv-start_vertex :
      (name : Bytes) (s : Sorting)
      → s.colors name ≡ white
      → Inv installed s
      → Inv installed (start_vertex name s)
  unfolding paint
  Inv-start_vertex name s w v = record {
    agree = λ n. ground (arith, v.agree n, same_text-eq name n, w);
    loadable = v.loadable;
  }

  Inv-finish_vertex :
      (name : Bytes) (p : Package) (s : Sorting)
      → find name installed ≡ some p
      → s.colors name ≡ gray
      → NeedsBlack s.colors p.dependencies
      → Inv installed s
      → Inv installed (finish_vertex name p s)
  unfolding paint
  Inv-finish_vertex name p s found g h v =
      let e : p.name ≡ name = find-name name installed p found in
      record {
        agree = λ n. ground (arith, v.agree n, has-append n s.results p, e);
        loadable =
            behind s.results p v.loadable (subst (λ m. find m installed ≡ some p) (sym e) found)
              (Needs-black s.colors s.results p.dependencies v.agree h)
              (ground (arith, v.agree p.name, e, g)) refl;
      }

  pub each-Post :
      (f : Dependency → Sorting → Result Sorting) (ds : List Dependency) (s s' : Sorting)
      → ((d : Dependency) (t t' : Sorting)
          → Inv installed t
          → f d t ≡ ok t'
          → Post installed t d.required d.name t')
      → Inv installed s
      → each f ds s ≡ ok s'
      → Inv installed s' × Extends s.colors s'.colors × NeedsBlack s'.colors ds
  unfolding each
  each-Post f [] s s' h v e = let p : s ≡ s' = cc in rw (← p) (v, Extends-self s.colors, tt)
  each-Post f (d ∷ ds) s s' h v e =
      let (t, called, rest) = bind_ok (f d s) (each f ds) e in
      let (u, x, b) = h d s t v called in
      let (u', x', needs) = each-Post f ds t s' h u rest in
      (u', Extends-trans x x', ((λ r. x'.grown d.name (b r)), needs))

  white-Post :
      (name : Bytes) (required : Bool) (p : Package) (s t : Sorting)
      → s.colors name ≡ white
      → find name installed ≡ some p
      → Inv installed t
      → Extends (start_vertex name s).colors t.colors
      → NeedsBlack t.colors p.dependencies
      → Post installed s required name (finish_vertex name p t)
  unfolding paint
  white-Post name required p s t w e v x needs = (
    Inv-finish_vertex name p t e (still_gray name s t x) needs v,
    record {
      kept = λ n. ground (arith, x.kept n, same_text-eq name n, w);
      grown = λ n h. ground (arith, x.grown n, same_text-eq name n, w, h);
    },
    λ r. ground (arith, same_text_self name),
  )

  -- A call that changes nothing.
  unchanged-Post :
      (required : Bool) (name : Bytes) (s s' : Sorting) (x : Error)
      → Inv installed s
      → (if required then err x else ok s) ≡ ok s'
      → Post installed s required name s'
  unchanged-Post true name s s' x v e = absurd (cc)
  unchanged-Post false name s s' x v e =
      let p : s ≡ s' = cc in rw (← p) (v, Extends-self s.colors, λ r. absurd (cc))

  black-Post :
      (required : Bool) (name : Bytes) (s s' : Sorting)
      → Inv installed s
      → s.colors name ≡ black
      → ok s ≡ ok s'
      → Post installed s required name s'
  black-Post required name s s' v b e =
      let p : s ≡ s' = cc in rw (← p) (v, Extends-self s.colors, λ r. rw b refl)

  visited-Post :
      (fuel : ℕ) (name : Bytes) (required : Bool) (s s' : Sorting) (p : Package) (c : Color)
      → ((d : Dependency) (t t' : Sorting)
          → Inv installed t
          → topological_sort fuel installed d.name d.required t ≡ ok t'
          → Post installed t d.required d.name t')
      → Inv installed s
      → find name installed ≡ some p
      → s.colors name ≡ c
      → topological_sort (suc fuel) installed name required s ≡ ok s'
      → Post installed s required name s'
  visited-Post fuel name required s s' p gray ih v found e called =
      unchanged-Post required name s s' (cycle p s.colors) v
        (sym (sort_gray fuel installed name required s found e) ∙ called)
  visited-Post fuel name required s s' p black ih v found e called =
      black-Post required name s s' v e
        (sym (sort_black fuel installed name required s found e) ∙ called)
  visited-Post fuel name required s s' p white ih v found e called =
      let (t, visited, finished) =
        bind_ok (visit_dependencies fuel installed name required s p) _
          (sym (sort_white fuel installed name required s found e) ∙ called) in
      let (u, x, needs) =
        each-Post _ p.dependencies (start_vertex name s) t ih (Inv-start_vertex name s e v)
          visited in
      let q : finish_vertex name p t ≡ s' = cc in
      rw (← q) (white-Post name required p s t e found u x needs)

  pub topological_sort-Post :
      (fuel : ℕ) (name : Bytes) (required : Bool) (s s' : Sorting)
      → Inv installed s
      → topological_sort fuel installed name required s ≡ ok s'
      → Post installed s required name s'
  unfolding topological_sort
  topological_sort-Post zero name required s s' v e = absurd (cc)
  topological_sort-Post (suc fuel) name required s s' v e =
      elim (Option-cases (find name installed)) [
        | inl none_ ↦
            unchanged-Post required name s s' (p2 name) v
              (sym (sort_none fuel installed name required s none_) ∙ e)
        | inr (p, found) ↦
            visited-Post fuel name required s s' p (s.colors name)
              (λ d t t'. topological_sort-Post fuel d.name d.required t t') v found refl e
      ]

  load_each-Post :
      (fuel : ℕ) (names : List Bytes) (s s' : Sorting)
      → Inv installed s
      → load_each fuel installed names s ≡ ok s'
      → Inv installed s' × Extends s.colors s'.colors × AllBlack s'.colors names
  unfolding load_each
  load_each-Post fuel [] s s' v e = let p : s ≡ s' = cc in rw (← p) (v, Extends-self s.colors, tt)
  load_each-Post fuel (name ∷ names) s s' v e = elim (Option-cases (find name installed)) [
    | inl none_ ↦ absurd (ground (arith, e, none_))
    | inr (p, found) ↦
        let (t, called, rest) =
          bind_ok (topological_sort fuel installed name true s) (load_each fuel installed names)
            (rw (found, load_each) at e) in
        let (u, x, b) = topological_sort-Post fuel name true s t v called in
        let (u', x', bs) = load_each-Post fuel names t s' u rest in
        (u', Extends-trans x x', (x'.grown name (b refl), bs))
  ]

  pub Inv-cleared : Inv installed cleared
  Inv-cleared = record { agree = λ n. refl; loadable = nothing }

  -- When `load_order_impl` succeeds, its result has every package that was asked for, no package
  -- twice, and each behind its required dependencies.
  pub load_order_impl-Loadable :
      (names : List Bytes) (rs : List Package)
      → load_order_impl installed names ≡ ok rs
      → Loadable installed rs × HasAll names rs
  unfolding load_order_impl
  load_order_impl-Loadable names rs e =
      let (s, loaded, out) =
        bind_ok (load_each (length installed + 1) installed names cleared) _ e in
      let (v, x, blacks) = load_each-Post _ names cleared s Inv-cleared loaded in
      let q : s.results ≡ rs = cc in
      rw (← q) (v.loadable, HasAll-black s.colors s.results names v.agree blacks)
