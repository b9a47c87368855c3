-- ===== src/Addons/Circle.antt =====
-- core/src/addon/addon.cpp: where `find_dependency` does not end.
use fenestra_voli_edition.Base.{ℕ, zero, suc, ◌≡◌, refl, Bool, true, false, List, [], ◌∷◌, ◌++◌}
use fenestra_voli_edition.Base.Order.{same_text}
use fenestra_voli_edition.Unicode.{Bytes}
use fenestra_voli_edition.Packages.{Package}
use fenestra_voli_edition.Addons.Dependency.{out_of_fuel, dependencies_of, search}

abbrev pub AreAll : (Package → Type 0) → List Package → Type 0
AreAll P [] = Unit {0}
AreAll P (p ∷ ps) = P p × AreAll P ps

pub AreAll-append :
    (P : Package → Type 0) (ps qs : List Package) → AreAll P ps → AreAll P qs → AreAll P (ps ++ qs)
AreAll-append P [] qs a b = b
AreAll-append P (p ∷ ps) qs (h, a) b = (h, AreAll-append P ps qs a b)

module _ (is_library : Package → Bool) (installed : List Package) (name : Bytes)
    (developer_mode : Bool) where
  abbrev IsAny : List Package → Type 0
  IsAny [] = ⊥
  IsAny (p ∷ ps) = Unit {0}

  IsAny-append : (ps qs : List Package) → IsAny qs → IsAny (ps ++ qs)
  IsAny-append [] qs h = h
  IsAny-append (p ∷ ps) qs h = tt

  -- Libraries that have other names than the one that is asked for, and that each have a dependency
  -- among them and none but those.
  pub record IsCircle (P : Package → Type 0) : Type 1 where
    pub library : (p : Package) → P p → is_library p ≡ true
    pub other : (p : Package) → P p → same_text p.name name ≡ false
    pub again :
        (p : Package) → P p → IsAny (dependencies_of is_library installed name p.dependencies)
    pub closed :
        (p : Package) → P p → AreAll P (dependencies_of is_library installed name p.dependencies)

  -- On libraries that depend on each other in a circle the loop over the queue never ends.
  pub search_circle :
      (P : Package → Type 0)
      → IsCircle P
      → (fuel : ℕ) (queue : List Package) → IsAny queue
      → AreAll P queue
      → search is_library installed name fuel developer_mode queue ≡ out_of_fuel
  unfolding search
  search_circle P c zero queue n a = refl
  search_circle P c (suc fuel) [] n a = absurd n
  search_circle P c (suc fuel) (p ∷ queue) n (h, a) =
      rw (c.other p h, c.library p h)
        (search_circle P c fuel (queue ++ dependencies_of is_library installed name p.dependencies)
          (IsAny-append queue _ (c.again p h)) (AreAll-append P queue _ a (c.closed p h)))
