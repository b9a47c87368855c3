-- ===== src/Packages/Unload/Asked.antt =====
-- core/src/addon/package_manager.cpp: nothing is unloaded but what has to be.
use fenestra_voli_edition.Base.{
  ℕ, zero, suc, ◌+◌, ◌≡◌, refl, sym, Bool-cases, true, ◌&&◌, ◌⊎◌, inl, inr, Option, Option-cases,
  none, some, List, [], ◌∷◌, ◌++◌, length, arith,
}
use mathlib.Core.Path.{subst}
use fenestra_voli_edition.Unicode.{Bytes}
use fenestra_voli_edition.Packages.{Package, gray, black, find, Sorting, cleared}
use fenestra_voli_edition.Packages.Visit.{find-name}
use fenestra_voli_edition.Packages.Total.{is_white}
use fenestra_voli_edition.Packages.Unload.{
  depends_on, with_color, visit_dependent, each_vertex, push, reverse_topological_sort, unload_each,
  unload_order_impl, ◌>>=◌,
}

abbrev pub IsIn : Bytes → List Bytes → Type 0
IsIn n [] = ⊥
IsIn n (m ∷ ms) = (m ≡ n) ⊎ IsIn n ms

-- A name that is asked for, or one of a package that depends on such a package, directly or not.
pub data IsAsked (names : List Bytes) : Bytes → Type 0 where
  asked : (n : Bytes) → IsIn n names → IsAsked names n
  dependent :
      (n : Bytes) (v : Package)
      → IsAsked names n
      → depends_on n v.dependencies ≡ true
      → IsAsked names v.name

abbrev pub AllAsked : List Bytes → List Package → Type 0
AllAsked names [] = Unit {0}
AllAsked names (p ∷ ps) = IsAsked names p.name × AllAsked names ps

AllAsked-append :
    (names : List Bytes) (ps : List Package) (p : Package)
    → AllAsked names ps
    → IsAsked names p.name
    → AllAsked names (ps ++ p ∷ [])
AllAsked-append names [] p a h = (h, tt)
AllAsked-append names (q ∷ ps) p (g, a) h = (g, AllAsked-append names ps p a h)

-- What is put out has been asked for, where there is a result.
abbrev Asked : List Bytes → Option Sorting → Type 0
Asked names none = Unit {0}
Asked names (some s) = AllAsked names s.results

bind-Asked :
    (names : List Bytes) (o : Option Sorting) (f : Sorting → Option Sorting)
    → Asked names o
    → ((s : Sorting) → AllAsked names s.results → Asked names (f s))
    → Asked names (o >>= f)
bind-Asked names none f a h = tt
bind-Asked names (some s) f a h = h s a

put_out :
    (names : List Bytes) (o : Option Sorting) (rs : List Package)
    → Asked names o
    → (o >>= λ s. some s.results) ≡ some rs
    → AllAsked names rs
put_out names none rs a e = absurd (cc (e))
put_out names (some s) rs a e = subst (AllAsked names) (cc (e)) a

module _ (installed : List Package) (names : List Bytes) where
  each_vertex-Asked :
      (f : Bytes → Sorting → Option Sorting) (n : Bytes) (vs : List Package) (s : Sorting)
      → ((m : Bytes) (t : Sorting)
          → IsAsked names m
          → AllAsked names t.results
          → Asked names (f m t))
      → IsAsked names n
      → AllAsked names s.results
      → Asked names (each_vertex f n vs s)
  unfolding each_vertex visit_dependent
  each_vertex-Asked f n [] s h i a = a
  each_vertex-Asked f n (v ∷ vs) s h i a =
      elim (Bool-cases (is_white (s.colors v.name) && depends_on n v.dependencies)) [
        | inl e ↦ rw e (
            bind-Asked names
              (f v.name (with_color v.name gray s) >>= λ t. some (with_color v.name black t))
              (each_vertex f n vs)
              (bind-Asked names (f v.name (with_color v.name gray s))
                (λ t. some (with_color v.name black t))
                (h v.name (with_color v.name gray s) (dependent n v i (ground (arith, e))) a)
                (λ t b. b))
              (λ t b. each_vertex-Asked f n vs t h i b))
        | inr e ↦ rw e (each_vertex-Asked f n vs s h i a)
      ]

  reverse_topological_sort-Asked :
      (fuel : ℕ) (n : Bytes) (s : Sorting)
      → IsAsked names n
      → AllAsked names s.results
      → Asked names (reverse_topological_sort fuel installed n s)
  unfolding reverse_topological_sort
  reverse_topological_sort-Asked zero n s i a = tt
  reverse_topological_sort-Asked (suc fuel) n s i a =
      let found_dependents : Option Package → Option Sorting = λ o. elim o [
        | none ↦ some s
        | some p ↦ each_vertex (reverse_topological_sort fuel installed) n installed s >>= λ t.
            some (push p t)
      ] in
      elim (Option-cases (find n installed)) [
        | inl e ↦ subst (λ o. Asked names (found_dependents o)) (sym e) a
        | inr (p, e) ↦
            subst (λ o. Asked names (found_dependents o)) (sym e)
              (bind-Asked names
                (each_vertex (reverse_topological_sort fuel installed) n installed s)
                (λ t. some (push p t))
                (each_vertex-Asked (reverse_topological_sort fuel installed) n installed s
                  (reverse_topological_sort-Asked fuel) i a)
                (λ t b.
                  AllAsked-append names t.results p b
                    (subst (IsAsked names) (sym (find-name n installed p e)) i)))
      ]

  unload_each-Asked :
      (fuel : ℕ) (ns : List Bytes) (s : Sorting)
      → ((n : Bytes) → IsIn n ns → IsIn n names)
      → AllAsked names s.results
      → Asked names (unload_each fuel installed ns s)
  unfolding unload_each
  unload_each-Asked fuel [] s h a = a
  unload_each-Asked fuel (n ∷ ns) s h a =
      bind-Asked names (reverse_topological_sort fuel installed n s) (unload_each fuel installed ns)
        (reverse_topological_sort-Asked fuel n s (asked n (h n (inl refl))) a)
        (λ t b. unload_each-Asked fuel ns t (λ m i. h m (inr i)) b)

  -- Only what is asked for, and what depends on it, is put out.
  pub unload_order_impl-AllAsked :
      (rs : List Package) → unload_order_impl installed names ≡ some rs → AllAsked names rs
  unfolding unload_order_impl
  unload_order_impl-AllAsked rs e =
      put_out names (unload_each (length installed + 1) installed names cleared) rs
        (unload_each-Asked (length installed + 1) names cleared (λ n i. i) tt) e
