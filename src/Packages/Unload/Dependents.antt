-- ===== src/Packages/Unload/Dependents.antt =====
-- core/src/addon/package_manager.cpp: what the order in which packages are unloaded has to be.
use fenestra_voli_edition.Base.{
  ℕ, ◌<◌, ◌≡◌, ◌⊎◌, refl, Bool, true, false, ◌&&◌, Bool-cases, List, [], ◌∷◌, ◌++◌, arith, inl, inr,
}
use fenestra_voli_edition.Base.Order.{same_text, same_text-eq, same_text_self}
use fenestra_voli_edition.Unicode.{Bytes}
use fenestra_voli_edition.Packages.{Dependency, Package, Color, white, gray, black, find}
use fenestra_voli_edition.Packages.Visit.{has, is_black, is_gray}
use fenestra_voli_edition.Packages.Total.{is_white}
use fenestra_voli_edition.Packages.Acyclic.{IsInstalled}
use fenestra_voli_edition.Packages.Unload.{depends_on}

-- One of the dependencies has the name.
abbrev pub DependsOn : Bytes → List Dependency → Type 0
DependsOn name [] = ⊥
DependsOn name (d ∷ ds) = (d.name ≡ name) ⊎ DependsOn name ds

-- The vertices that depend on the name are all in the list.
abbrev pub After : List Package → Bytes → List Package → Type 0
After rs name [] = Unit {0}
After rs name (v ∷ vs) = (DependsOn name v.dependencies → has v.name rs ≡ true) × After rs name vs

-- Each package stands behind every installed one that depends on it.
pub data Unloadable (installed : List Package) : List Package → Type 0 where
  nothing : Unloadable installed []
  behind :
      (before : List Package) (p : Package) {rs : List Package}
      → Unloadable installed before
      → After before p.name installed
      → rs ≡ before ++ p ∷ []
      → Unloadable installed rs

-- The names of the dependencies rank below `k`.
abbrev pub RanksBelow : (Bytes → ℕ) → ℕ → List Dependency → Type 0
RanksBelow rank k [] = Unit {0}
RanksBelow rank k (d ∷ ds) = (rank d.name < k) × RanksBelow rank k ds

-- The ranks fall along every dependency, so that none runs in a circle.
abbrev pub Falls : (Bytes → ℕ) → List Package → Type 0
Falls rank [] = Unit {0}
Falls rank (v ∷ vs) = RanksBelow rank (rank v.name) v.dependencies × Falls rank vs

pub DependsOn-RanksBelow :
    (rank : Bytes → ℕ) (k : ℕ) (name : Bytes) (ds : List Dependency)
    → RanksBelow rank k ds
    → DependsOn name ds
    → rank name < k
DependsOn-RanksBelow rank k name [] b h = absurd h
DependsOn-RanksBelow rank k name (d ∷ ds) b (inl e) = ground (arith, b.0, e)
DependsOn-RanksBelow rank k name (d ∷ ds) b (inr h) = DependsOn-RanksBelow rank k name ds b.1 h

pub depends_on-DependsOn :
    (name : Bytes) (ds : List Dependency) → depends_on name ds ≡ true → DependsOn name ds
unfolding depends_on
depends_on-DependsOn name [] h = absurd (cc (h))
depends_on-DependsOn name (d ∷ ds) h = elim (Bool-cases (same_text d.name name)) [
  | inl e ↦ inl (same_text-eq d.name name e)
  | inr e ↦ inr (depends_on-DependsOn name ds (ground (arith, h, e)))
]

pub DependsOn-depends_on :
    (name : Bytes) (ds : List Dependency) → DependsOn name ds → depends_on name ds ≡ true
unfolding depends_on
DependsOn-depends_on name [] h = absurd h
DependsOn-depends_on name (d ∷ ds) (inl e) = ground (arith, e, same_text_self name)
DependsOn-depends_on name (d ∷ ds) (inr h) = ground (arith, DependsOn-depends_on name ds h)

-- Every package of the second list is found in the first by its name.
abbrev pub Known : List Package → List Package → Type 0
Known ps [] = Unit {0}
Known ps (v ∷ vs) = IsInstalled ps v.name × Known ps vs

Known-cons : (x : Package) (ps vs : List Package) → Known ps vs → Known (x ∷ ps) vs
unfolding find
Known-cons x ps [] k = tt
Known-cons x ps (v ∷ vs) ((p, e), k) = elim (Bool-cases (same_text x.name v.name)) [
  | inl h ↦ ((x, rw h refl), Known-cons x ps vs k)
  | inr h ↦ ((p, rw h e), Known-cons x ps vs k)
]

pub Known-self : (ps : List Package) → Known ps ps
unfolding find
Known-self [] = tt
Known-self (x ∷ ps) = ((x, rw (same_text_self x.name) refl), Known-cons x ps ps (Known-self ps))

pub both : (a b : Bool) → (a && b) ≡ true → (a ≡ true) × (b ≡ true)
both a b h = ground (arith, h)

pub white_of : (c : Color) → is_white c ≡ true → c ≡ white
white_of white h = refl
white_of gray h = absurd (cc)
white_of black h = absurd (cc)

-- A dependent that is not visited is out already, if it is not gray.
pub passed :
    (c : Color) (b : Bool)
    → (is_white c && b) ≡ false
    → b ≡ true
    → ¬ (is_gray c ≡ true)
    → is_black c ≡ true
passed white b h d g = ground (arith, h, d)
passed gray b h d g = absurd (g refl)
passed black b h d g = refl
