-- ===== src/Addons/Distinct.antt =====
-- core/src/addon/addon_manager.cpp: the names of the addons that are loaded.
use fenestra_voli_edition.Base.{
  ◌⊎◌, true, some, ◌≡◌, refl, false, Bool-cases, List, [], ◌∷◌, ◌++◌, arith, inl, inr,
}
use fenestra_voli_edition.Base.Order.{same_text, same_text-eq, same_text_self}
use fenestra_voli_edition.Unicode.{Bytes}
use fenestra_voli_edition.Packages.{Package, find}
use fenestra_voli_edition.Packages.Visit.{has, has-append}
use fenestra_voli_edition.Addons.{Host, erase, Search, search, missing, gone, found, has_package}

-- No name stands twice.
abbrev pub AreDistinct : List Package → Type 0
AreDistinct [] = Unit {0}
AreDistinct (a ∷ bs) = (has a.name bs ≡ false) × AreDistinct bs

pub AreDistinct-append :
    (bs : List Package) (p : Package)
    → AreDistinct bs
    → has p.name bs ≡ false
    → AreDistinct (bs ++ p ∷ [])
AreDistinct-append [] p d e = (refl, tt)
AreDistinct-append (a ∷ bs) p (e, d) h = (
  ground (arith, has-append a.name bs p, e, h, same_text-eq p.name a.name, same_text_self a.name),
  AreDistinct-append bs p d (ground (arith, h)),
)

pub has-erase :
    (n name : Bytes) (bs : List Package) → has n bs ≡ false → has n (erase name bs) ≡ false
unfolding erase
has-erase n name [] e = refl
has-erase n name (a ∷ bs) e = ground (arith, has-erase n name bs, e)

pub erase-AreDistinct :
    (name : Bytes) (bs : List Package) → AreDistinct bs → AreDistinct (erase name bs)
unfolding erase
erase-AreDistinct name [] d = tt
erase-AreDistinct name (a ∷ bs) (e, d) = elim (Bool-cases (same_text a.name name)) [
  | inl h ↦ rw h d
  | inr h ↦ rw h (has-erase a.name name bs e, erase-AreDistinct name bs d)
]

module _ {W : Type 0} (host : Host W) where
  abbrev pub AreClients : List Package → Type 0
  AreClients [] = Unit {0}
  AreClients (a ∷ bs) = (host.is_library a ≡ false) × AreClients bs

  pub AreClients-append :
      (bs : List Package) (p : Package)
      → AreClients bs
      → host.is_library p ≡ false
      → AreClients (bs ++ p ∷ [])
  AreClients-append [] p c e = (e, tt)
  AreClients-append (a ∷ bs) p (h, c) e = (h, AreClients-append bs p c e)

  pub erase-AreClients :
      (name : Bytes) (bs : List Package) → AreClients bs → AreClients (erase name bs)
  unfolding erase
  erase-AreClients name [] c = tt
  erase-AreClients name (a ∷ bs) (h, c) = elim (Bool-cases (same_text a.name name)) [
    | inl e ↦ rw e c
    | inr e ↦ rw e (h, erase-AreClients name bs c)
  ]

  -- The addons have different names, and none is a library.
  pub record IsValid (addons : List Package) : Type 0 where
    pub distinct : AreDistinct addons
    pub clients : AreClients addons

  module _ (installed : List Package) where
    -- Where `find_if` finds nothing, no addon has the name.
    search-missing :
        (name : Bytes) (bs : List Package)
        → search host installed name bs ≡ missing
        → has name bs ≡ false
    unfolding search
    search-missing name [] e = refl
    search-missing name (a ∷ bs) e = ground (arith, search-missing name bs, e)

    cases :
        (name : Bytes) (bs : List Package) (s : Search)
        → search host installed name bs ≡ s
        → (search host installed name bs ≡ gone)
          ⊎ (((a : Package) × (search host installed name bs ≡ found a))
              ⊎ ((search host installed name bs ≡ missing) × (has name bs ≡ false)))
    cases name bs gone e = inl e
    cases name bs (found a) e = inr (inl (a, e))
    cases name bs missing e = inr (inr (e, search-missing name bs e))

    pub search-cases :
        (name : Bytes) (bs : List Package)
        → (search host installed name bs ≡ gone)
          ⊎ (((a : Package) × (search host installed name bs ≡ found a))
              ⊎ ((search host installed name bs ≡ missing) × (has name bs ≡ false)))
    search-cases name bs = cases name bs (search host installed name bs) refl

    -- Every addon has its package.
    abbrev pub HavePackages : List Package → Type 0
    HavePackages [] = Unit {0}
    HavePackages (a ∷ bs) = (has_package host installed a ≡ true) × HavePackages bs

    pub HavePackages-append :
        (bs : List Package) (p : Package)
        → HavePackages bs
        → find p.name installed ≡ some p
        → HavePackages (bs ++ p ∷ [])
    HavePackages-append [] p c e = (ground (arith, e), tt)
    HavePackages-append (a ∷ bs) p (h, c) e = (h, HavePackages-append bs p c e)

    pub erase-HavePackages :
        (name : Bytes) (bs : List Package) → HavePackages bs → HavePackages (erase name bs)
    unfolding erase
    erase-HavePackages name [] c = tt
    erase-HavePackages name (a ∷ bs) (h, c) = elim (Bool-cases (same_text a.name name)) [
      | inl e ↦ rw e c
      | inr e ↦ rw e (h, erase-HavePackages name bs c)
    ]

    -- Then `find_if` does not throw.
    pub search-has :
        (name : Bytes) (bs : List Package)
        → HavePackages bs
        → ((search host installed name bs ≡ missing) × (has name bs ≡ false))
          ⊎ ((a : Package) × (search host installed name bs ≡ found a) × (has name bs ≡ true))
    unfolding search
    search-has name [] c = inl (refl, refl)
    search-has name (a ∷ bs) (h, c) = elim (Bool-cases (same_text a.name name)) [
      | inl e ↦ inr (a, rw (h, e) refl, ground (arith, e))
      | inr e ↦ elim (search-has name bs c) [
        | inl (s, n) ↦ inl (rw (h, e) s, ground (arith, e, n))
        | inr (b, s, n) ↦ inr (b, rw (h, e) s, ground (arith, e, n))
      ]
    ]
