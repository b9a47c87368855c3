-- ===== src/Addons/Sets.antt =====
-- core/src/addon/addon_manager.cpp: which addons are loaded behind a call.
use mathlib.Core.Path.{subst}
use fenestra_voli_edition.Base.{
  ◌≡◌, refl, sym, ap, Bool, true, false, not, ◌&&◌, ◌||◌, Bool-cases, some, List, [], ◌∷◌, ◌++◌,
  if◌then◌else◌, arith, inl, inr,
}
use fenestra_voli_edition.Base.Order.{same_text, same_text-eq, same_text_self}
use fenestra_voli_edition.Unicode.{Bytes}
use fenestra_voli_edition.Packages.{Package, ok, find, load_order_impl}
use fenestra_voli_edition.Packages.Visit.{has, has-append}
use fenestra_voli_edition.Packages.Sorted.{Loadable, load_order_impl-Loadable}
use fenestra_voli_edition.Addons.{Host, Outcome, returned, thrown, script, load_packages, load}
use fenestra_voli_edition.Addons.Distinct.{
  AreDistinct, AreDistinct-append, HavePackages, HavePackages-append, search-has,
}

Loadable-AreDistinct :
    {installed : List Package} (rs : List Package) → Loadable installed rs → AreDistinct rs
Loadable-AreDistinct rs Loadable.nothing = tt
Loadable-AreDistinct rs (Loadable.behind before p l found needs new e) =
    subst AreDistinct (sym e) (AreDistinct-append before p (Loadable-AreDistinct before l) new)

append_assoc :
    (xs : List Package) (p : Package) (ys : List Package) → (xs ++ p ∷ []) ++ ys ≡ xs ++ p ∷ ys
append_assoc [] p ys = refl
append_assoc (x ∷ xs) p ys = ap (λ zs. x ∷ zs) (append_assoc xs p ys)

append_nil : (xs : List Package) → xs ++ [] ≡ xs
append_nil [] = refl
append_nil (x ∷ xs) = ap (λ ys. x ∷ ys) (append_nil xs)

module _ {W : Type 0} (host : Host W) where
  -- The packages that are no library and have no addon yet.
  unfoldable pub fresh : List Package → List Package → List Package
  fresh addons [] = []
  fresh addons (p ∷ ps) =
      let rest = fresh addons ps in
      if host.is_library p || has p.name addons then rest else p ∷ rest

  -- Has a package that is no library the name?
  unfoldable pub has_client : Bytes → List Package → Bool
  has_client n [] = false
  has_client n (p ∷ ps) = (not (host.is_library p) && same_text p.name n) || has_client n ps

  -- The addons that no package takes away.
  unfoldable pub remaining : List Package → List Package → List Package
  remaining ps [] = []
  remaining ps (a ∷ bs) =
      let rest = remaining ps bs in if has_client a.name ps then rest else a ∷ rest

  fresh-append :
      (p : Package) (addons ps : List Package)
      → has p.name ps ≡ false
      → fresh (addons ++ p ∷ []) ps ≡ fresh addons ps
  unfolding fresh
  fresh-append p addons [] h = refl
  fresh-append p addons (q ∷ ps) h = ground (
    arith,
    has-append q.name addons p,
    fresh-append p addons ps,
    same_text-eq p.name q.name,
    same_text_self q.name,
    h,
  )

  -- The constructors of the addons return one after the other.
  pub data Makes : List Package → W → W → Type 0 where
    made_none : (w : W) → Makes [] w w
    made :
        (p : Package) (ps : List Package) (w u : W)
        → (host.make p w).0 ≡ true
        → Makes ps (host.make p w).1 u
        → Makes (p ∷ ps) w u

  -- All the news are loaded, or those in front of the first whose constructor throws.
  pub data Loads (addons news : List Package) (w : W) : Outcome W → Type 0 where
    all : (u : W) → Makes news w u → Loads addons news w (returned (addons ++ news) u)
    until :
        (before : List Package) (p : Package) (after : List Package) (u : W)
        → news ≡ before ++ p ∷ after
        → Makes before w u
        → (host.make p u).0 ≡ false
        → Loads addons news w (thrown (script p.name) (addons ++ before) (host.make p u).1)

  Loads-behind :
      (addons news : List Package) (p : Package) (w : W) (o : Outcome W)
      → (host.make p w).0 ≡ true
      → Loads (addons ++ p ∷ []) news (host.make p w).1 o
      → Loads addons (p ∷ news) w o
  Loads-behind addons news p w _ h (all u k) =
      subst (λ bs. Loads addons (p ∷ news) w (returned bs u)) (sym (append_assoc addons p news))
        (all u (made p news w u h k))
  Loads-behind addons news p w _ h (until before q after u e k t) =
      subst (λ bs. Loads addons (p ∷ news) w (thrown (script q.name) bs (host.make q u).1))
        (sym (append_assoc addons p before))
        (until (p ∷ before) q after u (ap (λ bs. p ∷ bs) e) (made p before w u h k) t)

  Loads-nothing : (addons : List Package) (w : W) → Loads addons [] w (returned addons w)
  Loads-nothing addons w =
      subst (λ bs. Loads addons [] w (returned bs w)) (append_nil addons) (all w (made_none w))

  Loads-throw :
      (addons news : List Package) (p : Package) (w : W)
      → (host.make p w).0 ≡ false
      → Loads addons (p ∷ news) w (thrown (script p.name) addons (host.make p w).1)
  Loads-throw addons news p w h =
      subst (λ bs. Loads addons (p ∷ news) w (thrown (script p.name) bs (host.make p w).1))
        (append_nil addons) (until [] p news w refl (made_none w) h)

  -- What is to be loaded is installed.
  abbrev AreInstalled : List Package → List Package → Type 0
  AreInstalled installed [] = Unit {0}
  AreInstalled installed (p ∷ ps) = (find p.name installed ≡ some p) × AreInstalled installed ps

  AreInstalled-append :
      (installed ps : List Package) (p : Package)
      → AreInstalled installed ps
      → find p.name installed ≡ some p
      → AreInstalled installed (ps ++ p ∷ [])
  AreInstalled-append installed [] p a e = (e, tt)
  AreInstalled-append installed (q ∷ ps) p (h, a) e = (h, AreInstalled-append installed ps p a e)

  Loadable-AreInstalled :
      {installed : List Package} (rs : List Package)
      → Loadable installed rs
      → AreInstalled installed rs
  Loadable-AreInstalled rs Loadable.nothing = tt
  Loadable-AreInstalled {installed} rs (Loadable.behind before p l found_ needs new e) =
      subst (AreInstalled installed) (sym e)
        (AreInstalled-append installed before p (Loadable-AreInstalled before l) found_)

  load_packages-Loads :
      (installed ps addons : List Package) (w : W)
      → AreDistinct ps
      → AreInstalled installed ps
      → HavePackages host installed addons
      → Loads addons (fresh addons ps) w (load_packages host installed ps addons w)
  unfolding load_packages fresh
  load_packages-Loads installed [] addons w d i c = Loads-nothing addons w
  load_packages-Loads installed (p ∷ ps) addons w (new, d) (i, is) c =
      elim (Bool-cases (host.is_library p)) [
        | inl e ↦ rw e (load_packages-Loads installed ps addons w d is c)
        | inr e ↦ elim (search-has host installed p.name addons c) [
          | inr (a, s, n) ↦ rw (e, s, n) (load_packages-Loads installed ps addons w d is c)
          | inl (s, n) ↦ elim (Bool-cases (host.make p w).0) [
            | inl h ↦
                rw (e, s, n, h)
                  (Loads-behind addons (fresh addons ps) p w _ h (
                    subst
                      (λ news.
                        Loads (addons ++ p ∷ []) news (host.make p w).1
                          (load_packages host installed ps (addons ++ p ∷ []) (host.make p w).1))
                      (fresh-append p addons ps new)
                      (load_packages-Loads installed ps (addons ++ p ∷ []) (host.make p w).1 d is
                        (HavePackages-append host installed addons p c i))))
            | inr h ↦ rw (e, s, n, h) (Loads-throw addons (fresh addons ps) p w h)
          ]
        ]
      ]

  -- Where there is an order to load the names in, and each addon has its package, `load` puts those
  -- packages of the order that are no library and have no addon behind the addons, in the order: all, if
  -- their constructors return, or those in front of the first whose constructor throws.
  pub load-Loads :
      (installed rs : List Package) (names : List Bytes) (addons : List Package) (w : W)
      → HavePackages host installed addons
      → load_order_impl installed names ≡ ok rs
      → Loads addons (fresh addons rs) w (load host installed names addons w)
  unfolding load
  load-Loads installed rs names addons w c e =
      let l = (load_order_impl-Loadable installed names rs e).0 in
      rw e (
        load_packages-Loads installed rs addons w (Loadable-AreDistinct rs l)
          (Loadable-AreInstalled rs l) c)
