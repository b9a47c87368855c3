-- ===== src/Packages/Update.antt =====
-- core/src/addon/package_manager.cpp: `out_of_date`, which collects what is to be downloaded.
-- The vector `unprocessed` is a list with its back in front. The message about a package that is
-- found nowhere is left out.
use Prim.Native.Nat.Ordering.{lt, eq, gt}
use Prim.Native.Nat.{Ordering}
use fenestra_voli_edition.Base.{
  ℕ, zero, suc, ◌≡◌, refl, sym, ◌∙◌, ◌<◌, Bool, true, false, ◌&&◌, ◌||◌, Option, none, some, List,
  [], ◌∷◌, ◌++◌, if◌then◌else◌, arith, Bool-cases, Option-cases, inl, inr,
}
use fenestra_voli_edition.Base.Order.{compare_text}
use fenestra_voli_edition.Unicode.{Bytes}
use fenestra_voli_edition.Packages.{Package, find}
use fenestra_voli_edition.Packages.Versions.{Version, compare_version}

-- `package_manager::descriptor`, without where its files are.
pub record Available : Type 0 where
  pub name : Bytes
  pub version : Version
  pub dependencies : List Bytes

-- `std::lower_bound` on the sorted vector, and the test on the name found there.
unfoldable pub available_of : Bytes → List Available → Option Available
available_of name [] = none
available_of name (x ∷ xs) =
    let rest = available_of name xs in
    elim (compare_text x.name name) [ lt ↦ rest | eq ↦ some x | gt ↦ none ]

abbrev is_older : Ordering → Bool
is_older lt = true
is_older eq = false
is_older gt = false

-- Not installed, or older than what is available and not kept as it is.
unfoldable pub wanted : Option Package → Available → Bool
wanted none a = true
wanted (some p) a = is_older (compare_version p.version a.version) && p.can_update

-- The `push_back` of each dependency.
unfoldable pub push_all : List Bytes → List Bytes → List Bytes
push_all [] unprocessed = unprocessed
push_all (d ∷ ds) unprocessed = push_all ds (d ∷ unprocessed)

-- Is one of the names in the circle?
abbrev pub meets : (Bytes → Bool) → List Bytes → Bool
meets circle [] = false
meets circle (n ∷ ns) = circle n || meets circle ns

meets-push_all :
    (circle : Bytes → Bool) (ds ns : List Bytes)
    → meets circle (push_all ds ns) ≡ (meets circle ds || meets circle ns)
unfolding push_all
meets-push_all circle [] ns = refl
meets-push_all circle (d ∷ ds) ns = ground (arith, meets-push_all circle ds (d ∷ ns))

meets_tail :
    (circle : Bytes → Bool) (n : Bytes) (ns : List Bytes)
    → meets circle (n ∷ ns) ≡ true
    → ¬ (circle n ≡ true)
    → meets circle ns ≡ true
meets_tail circle n ns m h = elim (Bool-cases (circle n)) [
  | inl e ↦ absurd (h e)
  | inr e ↦ ground (arith, m, e)
]

meets_next :
    (circle : Bytes → Bool) (a : Available) (n : Bytes) (ns : List Bytes)
    → meets circle (n ∷ ns) ≡ true
    → (circle n ≡ true → meets circle a.dependencies ≡ true)
    → meets circle (push_all a.dependencies ns) ≡ true
meets_next circle a n ns m h = elim (Bool-cases (circle n)) [
  | inl e ↦ ground (arith, meets-push_all circle a.dependencies ns, h e)
  | inr e ↦ ground (arith, meets-push_all circle a.dependencies ns, m, e)
]

-- Every name ranks below `k`.
abbrev pub AllBelow : (Bytes → ℕ) → ℕ → List Bytes → Type 0
AllBelow rank k [] = Unit {0}
AllBelow rank k (n ∷ ns) = (rank n < k) × AllBelow rank k ns

module _ (installed : List Package) (available : List Available) where
  unfoldable pub loop : ℕ → List Bytes → List Available → Option (List Available)
  loop fuel [] results = some results
  loop zero (name ∷ unprocessed) results = none
  loop (suc fuel) (name ∷ unprocessed) results = elim (available_of name available) [
    | none ↦ loop fuel unprocessed results
    | some a ↦
        loop fuel (push_all a.dependencies unprocessed)
          (if wanted (find name installed) a then results ++ a ∷ [] else results)
  ]

  unfoldable pub out_of_date : ℕ → List Bytes → Option (List Available)
  out_of_date fuel names = loop fuel names []

  step_missing :
      (fuel : ℕ) (name : Bytes) (ns : List Bytes) (results : List Available)
      → available_of name available ≡ none
      → loop (suc fuel) (name ∷ ns) results ≡ loop fuel ns results
  unfolding loop
  step_missing fuel name ns results e = rw (e, loop) refl

  -- What is put out for an available package.
  abbrev add : Bytes → Available → List Available → List Available
  add name a results = if wanted (find name installed) a then results ++ a ∷ [] else results

  step_found :
      (fuel : ℕ) (name : Bytes) (ns : List Bytes) (results : List Available) {a : Available}
      → available_of name available ≡ some a
      → loop (suc fuel) (name ∷ ns) results
        ≡ loop fuel (push_all a.dependencies ns) (add name a results)
  unfolding loop
  step_found fuel name ns results e = rw (e, loop) refl

  -- A circle of available packages is searched forever: if each name of a set is available with a
  -- dependency in the set, then no number of rounds is enough for a name of the set.
  pub out_of_date_circle :
      (circle : Bytes → Bool) (fuel : ℕ) (ns : List Bytes) (results : List Available)
      → ((n : Bytes)
          → circle n ≡ true
          → (a : Available) × (available_of n available ≡ some a)
            × (meets circle a.dependencies ≡ true))
      → meets circle ns ≡ true
      → loop fuel ns results ≡ none
  unfolding loop
  out_of_date_circle circle fuel [] results h m = absurd (cc)
  out_of_date_circle circle zero (n ∷ ns) results h m = refl
  out_of_date_circle circle (suc fuel) (n ∷ ns) results h m =
      elim (Option-cases (available_of n available)) [
        | inl e ↦
            step_missing fuel n ns results e
            ∙ out_of_date_circle circle fuel ns results h
                (meets_tail circle n ns m (λ c. let (a, found, d) = h n c in absurd (cc)))
        | inr (a, e) ↦
            step_found fuel n ns results e
            ∙ out_of_date_circle circle fuel (push_all a.dependencies ns) (add n a results) h (
                meets_next circle a n ns m (λ c.
                  let (a', found, d) = h n c in
                  let same : some a' ≡ some a = sym found ∙ e in ground (arith, same, d)))
      ]

  -- The loop ends from these names on, whatever is put out before.
  abbrev Ends : List Bytes → Type 0
  Ends ns =
      (results : List Available)
      → (fuel : ℕ) × (out : List Available) × (loop fuel ns results ≡ some out)

  Ends-missing :
      (name : Bytes) (ns : List Bytes)
      → available_of name available ≡ none
      → Ends ns
      → Ends (name ∷ ns)
  Ends-missing name ns e h results =
      let (fuel, out, r) = h results in (suc fuel, out, step_missing fuel name ns results e ∙ r)

  Ends-found :
      (name : Bytes) (ns : List Bytes) (a : Available)
      → available_of name available ≡ some a
      → Ends (push_all a.dependencies ns)
      → Ends (name ∷ ns)
  Ends-found name ns a e h results =
      let (fuel, out, r) = h (add name a results) in
      (suc fuel, out, step_found fuel name ns results e ∙ r)

  Ends-push_all :
      (rank : Bytes → ℕ) (k : ℕ) (ds ns : List Bytes)
      → ((n : Bytes) (ms : List Bytes) → rank n < k → Ends ms → Ends (n ∷ ms))
      → AllBelow rank k ds
      → Ends ns
      → Ends (push_all ds ns)
  unfolding push_all
  Ends-push_all rank k [] ns one b h = h
  Ends-push_all rank k (d ∷ ds) ns one b h =
      Ends-push_all rank k ds (d ∷ ns) one b.1 (one d ns b.0 h)

  module _ (rank : Bytes → ℕ)
      (falls : (n : Bytes) (a : Available)
        → available_of n available ≡ some a
        → AllBelow rank (rank n) a.dependencies) where
    Ends-cons : (k : ℕ) (n : Bytes) (ns : List Bytes) → rank n < k → Ends ns → Ends (n ∷ ns)
    Ends-cons zero n ns b h = absurd (omega (arith, b))
    Ends-cons (suc k) n ns b h = elim (Option-cases (available_of n available)) [
      | inl e ↦ Ends-missing n ns e h
      | inr (a, e) ↦ Ends-found n ns a e (
          Ends-push_all rank (rank n) a.dependencies ns
            (λ m ms c. Ends-cons k m ms (omega (arith, b, c))) (falls n a e) h)
    ]

    Ends-all : (ns : List Bytes) → Ends ns
    unfolding loop
    Ends-all [] = λ results. (0, results, refl)
    Ends-all (n ∷ ns) = Ends-cons (suc (rank n)) n ns (omega arith) (Ends-all ns)

    -- Where the dependencies of the available packages run in no circle, the search ends on any
    -- names.
    pub out_of_date_ends :
        (names : List Bytes)
        → (fuel : ℕ) × (out : List Available) × (out_of_date fuel names ≡ some out)
    unfolding out_of_date
    out_of_date_ends names = Ends-all names []
