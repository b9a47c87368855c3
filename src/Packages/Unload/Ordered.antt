-- ===== src/Packages/Unload/Ordered.antt =====
-- core/src/addon/package_manager.cpp: `unload_order_impl` puts dependents first.
use mathlib.Core.Path.{subst}
use fenestra_voli_edition.Base.{
  ℕ, zero, suc, ◌+◌, ◌≤◌, ◌<◌, ◌≡◌, refl, sym, true, false, ◌&&◌, Bool-cases, Option-cases, Option,
  some, List, [], ◌∷◌, length, arith, inl, inr,
}
use fenestra_voli_edition.Base.Order.{same_text-eq, same_text_self}
use fenestra_voli_edition.Unicode.{Bytes}
use fenestra_voli_edition.Packages.{Package, gray, black, find, Sorting, paint, cleared}
use fenestra_voli_edition.Packages.Visit.{
  has, has-append, find-name, HasAll, is_black, is_gray, Extends, Extends-self, Extends-trans,
}
use fenestra_voli_edition.Packages.Total.{
  is_white, count_white, count_white-Extends, count_white-paint, count_white_bound,
}
use fenestra_voli_edition.Packages.Acyclic.{IsInstalled, AllInstalled}
use fenestra_voli_edition.Packages.Unload.Dependents.{
  DependsOn, After, Unloadable, nothing, behind, Falls, DependsOn-RanksBelow, depends_on-DependsOn,
  DependsOn-depends_on, Known, Known-self, both, white_of, passed,
}
use fenestra_voli_edition.Packages.Unload.{
  depends_on, with_color, visit_dependent, each_vertex, push, reverse_topological_sort, unload_each,
  unload_order_impl,
}

pub record Inv (installed : List Package) (s : Sorting) : Type 0 where
  pub out : (n : Bytes) → is_black (s.colors n) ≡ true → has n s.results ≡ true
  pub unloadable : Unloadable installed s.results

module _ (installed : List Package) (rank : Bytes → ℕ) where
  -- The gray vertices rank at `k` and below.
  abbrev Grays : ℕ → Sorting → Type 0
  Grays k s = (n : Bytes) → is_gray (s.colors n) ≡ true → rank n ≤ k

  abbrev count : Sorting → ℕ
  count s = count_white s.colors installed

  -- What a call that starts in `s` ends in: it puts out more, and the package itself if it is
  -- installed.
  abbrev Done : Sorting → Sorting → Type 0
  Done s s' =
      Inv installed s'
      × Extends s.colors s'.colors
      × ((n : Bytes) → has n s.results ≡ true → has n s'.results ≡ true)

  Done-trans : (s t u : Sorting) → Done s t → Done t u → Done s u
  Done-trans s t u (v, x, h) (w, y, k) = (w, Extends-trans x y, λ n e. k n (h n e))

  Inv-gray : (name : Bytes) (s : Sorting) → Inv installed s → Inv installed (with_color name gray s)
  unfolding paint
  Inv-gray name s i = record { out = λ n e. ground (arith, e, i.out n); unloadable = i.unloadable }

  -- The colours of a turn of the loop.
  around :
      (v : Package) (s t : Sorting)
      → is_white (s.colors v.name) ≡ true
      → Done (with_color v.name gray s) t
      → has v.name t.results ≡ true
      → Done s (with_color v.name black t)
  unfolding paint
  around v s t w (u, x, h) out = (
    record {
      out = λ n. ground (arith, u.out n, same_text-eq v.name n, out);
      unloadable = u.unloadable;
    },
    record {
      kept = λ n. ground (arith, x.kept n, same_text-eq v.name n, w);
      grown = λ n e. ground (arith, x.grown n, same_text-eq v.name n, w, e);
    },
    h,
  )

  Grays-child :
      (name : Bytes) (v : Package) (s : Sorting)
      → Grays (rank name) s
      → rank name < rank v.name
      → Grays (rank v.name) (with_color v.name gray s)
  unfolding paint
  Grays-child name v s g h n e = ground (arith, g n, h, e, same_text-eq v.name n)

  -- What a call of `reverse_topological_sort` gives.
  abbrev Call : (Bytes → Sorting → Option Sorting) → Bytes → Sorting → Type 0
  Call f name s =
      (s' : Sorting) × (f name s ≡ some s')
      × Done s s'
      × (IsInstalled installed name → has name s'.results ≡ true)

  abbrev Calls : ℕ → (Bytes → Sorting → Option Sorting) → Type 0
  Calls k f =
      (n : Bytes) (t : Sorting) → Grays (rank n) t → Inv installed t → count t < k → Call f n t

  turn-Done :
      (f : Bytes → Sorting → Option Sorting) (k : ℕ) (name : Bytes) (v : Package) (s : Sorting)
      → Calls k f
      → IsInstalled installed v.name
      → (DependsOn name v.dependencies → rank name < rank v.name)
      → Grays (rank name) s
      → Inv installed s
      → count s < suc k
      → (s' : Sorting) × (visit_dependent f name v s ≡ some s')
        × Done s s'
        × (DependsOn name v.dependencies → has v.name s'.results ≡ true)
  unfolding visit_dependent
  turn-Done f k name v s ih (p, found) r g i h =
      elim (Bool-cases (is_white (s.colors v.name) && depends_on name v.dependencies)) [
        | inl e ↦
            let (w, d) = both (is_white (s.colors v.name)) (depends_on name v.dependencies) e in
            let needs = depends_on-DependsOn name v.dependencies d in
            let s1 : Sorting = with_color v.name gray s in
            let (t, called, done, out) =
              ih v.name s1 (Grays-child name v s g (r needs)) (Inv-gray v.name s i) (
                omega (
                  arith,
                  h,
                  count_white-paint v.name s.colors installed found (white_of (s.colors v.name) w),
                )) in
            (
              with_color v.name black t,
              rw (e, called) refl,
              around v s t w done (out (p, found)),
              λ q. out (p, found),
            )
        | inr e ↦ (
          s,
          rw e refl,
          (i, Extends-self s.colors, λ n q. q),
          λ q. i.out v.name (
              passed (s.colors v.name) (depends_on name v.dependencies) e
                (DependsOn-depends_on name v.dependencies q)
                (λ gr. omega (arith, g v.name gr, r q))),
        )
      ]

  each-Done :
      (f : Bytes → Sorting → Option Sorting) (k : ℕ) (name : Bytes) (vs : List Package)
      (s : Sorting)
      → Calls k f
      → Known installed vs
      → Falls rank vs
      → Grays (rank name) s
      → Inv installed s
      → count s < suc k
      → (s' : Sorting) × (each_vertex f name vs s ≡ some s') × Done s s' × After s'.results name vs
  unfolding each_vertex
  each-Done f k name [] s ih kn fl g i h = (s, refl, (i, Extends-self s.colors, λ n q. q), tt)
  each-Done f k name (v ∷ vs) s ih kn fl g i h =
      let (t, turned, (j, x, grown), out) =
        turn-Done f k name v s ih kn.0
          (DependsOn-RanksBelow rank (rank v.name) name v.dependencies fl.0) g i h in
      let (s', rest, (j', x', grown'), after) =
        each-Done f k name vs t ih kn.1 fl.1 (λ n e. g n (ground (arith, x.kept n, e))) j
          (omega (arith, h, count_white-Extends installed x)) in
      (
        s',
        rw (turned, each_vertex) rest,
        Done-trans s t s' (j, x, grown) (j', x', grown'),
        ((λ e. grown' v.name (out e)), after),
      )

  Inv-push :
      (p : Package) (s : Sorting)
      → Inv installed s
      → After s.results p.name installed
      → Inv installed (push p s)
  Inv-push p s i a = record {
    out = λ n e. ground (arith, i.out n e, has-append n s.results p);
    unloadable = behind s.results p i.unloadable a refl;
  }

  module _ (falls : Falls rank installed) where
    reverse_done : (fuel : ℕ) → Calls fuel (reverse_topological_sort fuel installed)
    unfolding reverse_topological_sort
    reverse_done zero n t g i h = absurd (omega (arith, h))
    reverse_done (suc fuel) name s g i h = elim (Option-cases (find name installed)) [
      | inl missing ↦ (
        s,
        rw (missing, reverse_topological_sort) refl,
        (i, Extends-self s.colors, λ n q. q),
        λ q. absurd (cc (missing, q.1)),
      )
      | inr (p, found) ↦
          let (t, visited, (j, x, grown), after) =
            each-Done (reverse_topological_sort fuel installed) fuel name installed s
              (reverse_done fuel) (Known-self installed) falls g i h in
          let e : p.name ≡ name = find-name name installed p found in
          (
            push p t,
            rw (found, visited, reverse_topological_sort) refl,
            (
              Inv-push p t j (subst (λ m. After t.results m installed) (sym e) after),
              x,
              λ n q. ground (arith, has-append n t.results p, grown n q),
            ),
            λ q. ground (arith, has-append name t.results p, e, same_text_self name),
          )
    ]

    unload_each_done :
        (fuel : ℕ) (names : List Bytes) (s : Sorting)
        → AllInstalled installed names
        → ((n : Bytes) → is_gray (s.colors n) ≡ false)
        → Inv installed s
        → count s < fuel
        → (s' : Sorting) × (unload_each fuel installed names s ≡ some s')
          × Inv installed s'
          × ((n : Bytes) → has n s.results ≡ true → has n s'.results ≡ true)
          × HasAll names s'.results
    unfolding unload_each
    unload_each_done fuel [] s a g i h = (s, refl, i, (λ n q. q), tt)
    unload_each_done fuel (name ∷ names) s a g i h =
        let (t, called, (j, x, grown), out) =
          reverse_done fuel name s (λ n e. absurd (ground (arith, g n, e))) i h in
        let (s', rest, i', grown', has_all) =
          unload_each_done fuel names t a.1 (λ n. ground (arith, g n, x.kept n)) j
            (omega (arith, h, count_white-Extends installed x)) in
        (
          s',
          rw (called, unload_each) rest,
          i',
          (λ n q. grown' n (grown n q)),
          (grown' name (out a.0), has_all),
        )

    -- Where no dependency runs in a circle, the packages asked for are all in the result, and each
    -- package in it stands behind every installed one that depends on it.
    pub unload_order_impl-Unloadable :
        (names : List Bytes)
        → AllInstalled installed names
        → (rs : List Package) × (unload_order_impl installed names ≡ some rs)
          × Unloadable installed rs
          × HasAll names rs
    unfolding unload_order_impl
    unload_order_impl-Unloadable names a =
        let (s, unloaded, i, grown, has_all) =
          unload_each_done (length installed + 1) names cleared a (λ n. refl)
            (record { out = λ n e. absurd (cc); unloadable = nothing })
            (omega (arith, count_white_bound cleared.colors installed)) in
        (s.results, rw unloaded refl, i.unloadable, has_all)
