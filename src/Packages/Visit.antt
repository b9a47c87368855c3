-- ===== src/Packages/Visit.antt =====
-- core/src/addon/package_manager.cpp: a call of `topological_sort`, by what it finds.
use fenestra_voli_edition.Base.{
  ℕ, suc, ◌≡◌, refl, Bool, true, false, ◌||◌, none, some, List, [], ◌∷◌, ◌++◌, if◌then◌else◌, arith,
}
use fenestra_voli_edition.Base.Order.{same_text, same_text-eq, same_text_self}
use fenestra_voli_edition.Unicode.{Bytes}
use fenestra_voli_edition.Packages.{
  Dependency, Package, Color, white, gray, black, find, Sorting, Result, ok, err, out_of_fuel,
  ◌>>=◌, paint, each, start_vertex, finish_vertex, topological_sort, p2, cycle,
}

-- Is a package of that name in the list?
abbrev pub has : Bytes → List Package → Bool
has name [] = false
has name (p ∷ ps) = same_text p.name name || has name ps

-- Every name has a package in the list.
abbrev pub HasAll : List Bytes → List Package → Type 0
HasAll [] rs = Unit {0}
HasAll (n ∷ ns) rs = (has n rs ≡ true) × HasAll ns rs

-- Every required dependency is in the list.
abbrev pub Needs : List Package → List Dependency → Type 0
Needs rs [] = Unit {0}
Needs rs (d ∷ ds) = (d.required ≡ true → has d.name rs ≡ true) × Needs rs ds

abbrev pub is_black : Color → Bool
is_black white = false
is_black gray = false
is_black black = true

abbrev pub is_gray : Color → Bool
is_gray white = false
is_gray gray = true
is_gray black = false

-- A call leaves the gray vertices gray, the black ones black, and makes no other gray.
pub record Extends (c c' : Bytes → Color) : Type 0 where
  pub kept : (n : Bytes) → is_gray (c' n) ≡ is_gray (c n)
  pub grown : (n : Bytes) → is_black (c n) ≡ true → is_black (c' n) ≡ true

-- Every required dependency is black.
abbrev pub NeedsBlack : (Bytes → Color) → List Dependency → Type 0
NeedsBlack c [] = Unit {0}
NeedsBlack c (d ∷ ds) = (d.required ≡ true → is_black (c d.name) ≡ true) × NeedsBlack c ds

pub Extends-self : (c : Bytes → Color) → Extends c c
Extends-self c = record { kept = λ n. refl; grown = λ n h. h }

pub Extends-trans : {c d e : Bytes → Color} → Extends c d → Extends d e → Extends c e
Extends-trans x y = record {
  kept = λ n. ground (arith, x.kept n, y.kept n);
  grown = λ n h. y.grown n (x.grown n h);
}

pub has-append :
    (n : Bytes) (rs : List Package) (p : Package)
    → has n (rs ++ p ∷ []) ≡ (has n rs || same_text p.name n)
has-append n [] p = ground arith
has-append n (r ∷ rs) p = ground (arith, has-append n rs p)

pub find-name :
    (name : Bytes) (ps : List Package) (p : Package) → find name ps ≡ some p → p.name ≡ name
unfolding find
find-name name [] p e = absurd (ground (arith, e))
find-name name (x ∷ ps) p e = ground (arith, e, find-name name ps p, same_text-eq x.name name)

abbrev pub AllBlack : (Bytes → Color) → List Bytes → Type 0
AllBlack c [] = Unit {0}
AllBlack c (n ∷ ns) = (is_black (c n) ≡ true) × AllBlack c ns

pub Needs-black :
    (c : Bytes → Color) (rs : List Package) (ds : List Dependency)
    → ((n : Bytes) → has n rs ≡ is_black (c n))
    → NeedsBlack c ds
    → Needs rs ds
Needs-black c rs [] a h = tt
Needs-black c rs (d ∷ ds) a h = ((λ r. ground (arith, a d.name, h.0 r)), Needs-black c rs ds a h.1)

pub HasAll-black :
    (c : Bytes → Color) (rs : List Package) (names : List Bytes)
    → ((n : Bytes) → has n rs ≡ is_black (c n))
    → AllBlack c names
    → HasAll names rs
HasAll-black c rs [] a h = tt
HasAll-black c rs (n ∷ ns) a h = (ground (arith, a n, h.0), HasAll-black c rs ns a h.1)

-- Inversion of a successful call.
pub bind_ok :
    {A B : Type 0} (r : Result A) (f : A → Result B) {b : B}
    → (r >>= f) ≡ ok b
    → (a : A) × (r ≡ ok a) × (f a ≡ ok b)
bind_ok (ok a) f e = (a, refl, e)
bind_ok (err x) f e = absurd (cc)
bind_ok out_of_fuel f e = absurd (cc)

pub gray_of : (c : Color) → is_gray c ≡ true → c ≡ gray
gray_of white h = absurd (cc)
gray_of gray h = refl
gray_of black h = absurd (cc)

pub still_gray :
    (name : Bytes) (s t : Sorting)
    → Extends (start_vertex name s).colors t.colors
    → t.colors name ≡ gray
unfolding paint
still_gray name s t x = gray_of (t.colors name) (ground (arith, x.kept name, same_text_self name))

-- One call, by what it finds.
module _ (fuel : ℕ) (installed : List Package) (name : Bytes) (required : Bool) (s : Sorting) where
  abbrev pub Visit : Result Sorting → Type 0
  Visit r = topological_sort (suc fuel) installed name required s ≡ r

  abbrev pub visit_dependencies : Package → Result Sorting
  visit_dependencies p =
      each (λ d. topological_sort fuel installed d.name d.required) p.dependencies
        (start_vertex name s)

  pub sort_none : find name installed ≡ none → Visit (if required then err (p2 name) else ok s)
  unfolding topological_sort
  sort_none e = rw (e, topological_sort) refl

  module _ {p : Package} (found : find name installed ≡ some p) where
    pub sort_gray : s.colors name ≡ gray → Visit (if required then err (cycle p s.colors) else ok s)
    unfolding topological_sort
    sort_gray e = rw (found, e, topological_sort) refl

    pub sort_black : s.colors name ≡ black → Visit (ok s)
    unfolding topological_sort
    sort_black e = rw (found, e, topological_sort) refl

    pub sort_white :
        s.colors name ≡ white → Visit (visit_dependencies p >>= λ s'. ok (finish_vertex name p s'))
    unfolding topological_sort
    sort_white e = rw (found, e, topological_sort) refl
