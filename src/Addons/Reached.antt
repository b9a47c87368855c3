-- ===== src/Addons/Reached.antt =====
-- core/src/addon/addon.cpp: what `find_dependency` finds.
use mathlib.Core.Path.{subst}
use fenestra_voli_edition.Base.{
  ℕ, sym, zero, suc, ◌≡◌, refl, Bool, Bool-cases, true, false, ◌⊎◌, Option-cases, some, List, [],
  ◌∷◌, arith, inl, inr,
}
use fenestra_voli_edition.Base.Order.{same_text, same_text-eq}
use fenestra_voli_edition.Unicode.{Bytes}
use fenestra_voli_edition.Packages.{Dependency, Package, find}
use fenestra_voli_edition.Packages.Visit.{find-name}
use fenestra_voli_edition.Addons.Dependency.{
  found, dependencies_of, pushed, missing, search, search_direct, find_dependency,
}
use fenestra_voli_edition.Addons.Circle.{AreAll, AreAll-append}

abbrev pub IsAmong : Dependency → List Dependency → Type 0
IsAmong d [] = ⊥
IsAmong d (e ∷ es) = (e ≡ d) ⊎ IsAmong d es

-- The packages that are installed and named by the dependencies of the addon, or by those of a library
-- among them.
pub data IsReached (is_library : Package → Bool) (installed : List Package)
    (start : List Dependency) : Package → Type 0 where
  direct :
      (d : Dependency) (p : Package)
      → IsAmong d start
      → find d.name installed ≡ some p
      → IsReached is_library installed start p
  indirect :
      (l : Package)
      → IsReached is_library installed start l
      → is_library l ≡ true
      → (d : Dependency) (p : Package) → IsAmong d l.dependencies
      → find d.name installed ≡ some p
      → IsReached is_library installed start p

module _ (is_library : Package → Bool) (installed : List Package) (name : Bytes)
    (start : List Dependency) where
  find-name_same :
      (n : Bytes) (p : Package) → find n installed ≡ some p → find p.name installed ≡ some p
  find-name_same n p e = subst (λ m. find m installed ≡ some p) (sym (find-name n installed p e)) e

  -- A package in the queue.
  abbrev Queued : Package → Type 0
  Queued p = IsReached is_library installed start p × (find p.name installed ≡ some p)

  all-dependencies_of :
      (ds : List Dependency)
      → ((d : Dependency) (p : Package)
          → IsAmong d ds
          → find d.name installed ≡ some p
          → IsReached is_library installed start p)
      → AreAll Queued (dependencies_of is_library installed name ds)
  unfolding dependencies_of
  all-dependencies_of [] h = tt
  all-dependencies_of (d ∷ ds) h = elim (Option-cases (find d.name installed)) [
    | inl e ↦ rw (AreAll, e) (all-dependencies_of ds (λ c p i. h c p (inr i)))
    | inr (p, e) ↦
        rw (AreAll, e)
          (
            (h d p (inl refl) e, find-name_same d.name p e),
            all-dependencies_of ds (λ c q i. h c q (inr i)),
          )
  ]

  all-pushed :
      (p : Package) (queue : List Package)
      → IsReached is_library installed start p
      → AreAll Queued queue
      → AreAll Queued (pushed is_library installed name p queue)
  all-pushed p queue r a = elim (Bool-cases (is_library p)) [
    | inl e ↦ rw e (
        AreAll-append Queued queue _ a
          (all-dependencies_of p.dependencies (λ d q i f. indirect p r e d q i f)))
    | inr e ↦ rw e a
  ]

  search-found :
      (fuel : ℕ) (queue : List Package) (p : Package)
      → AreAll Queued queue
      → search is_library installed name fuel false queue ≡ found p
      → IsReached is_library installed start p × (find name installed ≡ some p)
  unfolding search missing
  search-found zero queue p a e = absurd (cc (e))
  search-found (suc fuel) [] p a e = absurd (cc (e))
  search-found (suc fuel) (q ∷ queue) p ((r, f), a) e = elim (Bool-cases (same_text q.name name)) [
    | inl h ↦
        subst (λ x. IsReached is_library installed start x × (find name installed ≡ some x))
          (ground (arith, e, h))
          (r, subst (λ m. find m installed ≡ some q) (same_text-eq q.name name h) f)
    | inr h ↦
        search-found fuel (pushed is_library installed name q queue) p (all-pushed q queue r a)
          (ground (arith, e, h))
  ]

  search_direct-found :
      (fuel : ℕ) (implicit : List Bytes) (ds : List Dependency) (queue : List Package) (p : Package)
      → ((d : Dependency) → IsAmong d ds → IsAmong d start)
      → AreAll Queued queue
      → search_direct is_library installed name fuel false implicit ds queue ≡ found p
      → IsReached is_library installed start p × (find name installed ≡ some p)
  unfolding search_direct
  search_direct-found fuel implicit [] queue p s a e = search-found fuel queue p a e
  search_direct-found fuel implicit (d ∷ ds) queue p s a e =
      elim (Option-cases (find d.name installed)) [
        | inl f ↦
            search_direct-found fuel implicit ds queue p (λ c i. s c (inr i)) a
              (ground (arith, e, f))
        | inr (q, f) ↦ elim (Bool-cases (same_text d.name name)) [
          | inl h ↦
              subst (λ x. IsReached is_library installed start x × (find name installed ≡ some x))
                (ground (arith, e, f, h))
                (
                  direct d q (s d (inl refl)) f,
                  subst (λ m. find m installed ≡ some q) (same_text-eq d.name name h) f,
                )
          | inr h ↦
              search_direct-found fuel implicit ds (pushed is_library installed name q queue) p
                (λ c i. s c (inr i)) (all-pushed q queue (direct d q (s d (inl refl)) f) a)
                (ground (arith, e, f, h))
        ]
      ]

  -- Out of developer mode a package is found only if it is installed under the name that is asked for,
  -- and is named by the dependencies of the addon, or by those of a library among them.
  pub find_dependency-IsReached :
      (fuel : ℕ) (implicit : List Bytes) (p : Package)
      → find_dependency is_library installed name fuel false implicit start ≡ found p
      → IsReached is_library installed start p × (find name installed ≡ some p)
  unfolding find_dependency
  find_dependency-IsReached fuel implicit p e =
      search_direct-found fuel implicit start [] p (λ d i. i) tt e
