-- ===== src/Bindings/Press.antt =====
-- core/src/binding_manager.cpp: which binding a key goes to.
use fenestra_voli_edition.Base.{
  set, ℕ, ◌≡◌, refl, ap, ◌∙◌, Bool, true, false, not, Bool-cases, Option, none, some, List, [], ◌∷◌,
  arith, inl, inr, if◌then◌else◌,
}
use fenestra_voli_edition.Bindings.{
  KeyHandle, Binding, Manager, key_state, actual_key, write_key, is_less, insert_binding,
  lower_bound, upper_bound, remove, matches, better, best_match, finish, change_key, same_bit,
  pass_on, unbind,
}
use fenestra_voli_edition.Bindings.Insert.{
  All, rest_of, All-rest_of, insert_binding_past, insert_binding_here,
}

module _ (test : Binding → Option Bool) (b : Binding) where
  -- The test says something of the binding, and not that it matches and is more specific.
  abbrev pub IsTested : Binding → Type 0
  IsTested x = (q : Bool) × (test x ≡ some q) × (q ≡ true → is_less b x ≡ false)

  -- One step of the loop, by the binding that is best behind it.
  best_match_step :
      (x : Binding) (xs : List Binding) (q : Bool) (best : Option Binding)
      → test x ≡ some q
      → best_match test (x ∷ xs) best ≡ best_match test xs (if q then better best x else best)
  unfolding best_match
  best_match_step x xs q best e = rw (best_match, e) refl

  best_kept :
      (x : Binding) (q : Bool)
      → (q ≡ true → is_less b x ≡ false)
      → (if q then better (some b) x else some b) ≡ some b
  best_kept x true h = rw (h refl) refl
  best_kept x false h = refl

  best_match_kept :
      (xs : List Binding) → All IsTested xs → best_match test xs (some b) ≡ some (some b)
  unfolding best_match
  best_match_kept [] h = refl
  best_match_kept (x ∷ xs) ((q, e, less), h) =
      best_match_step x xs q (some b) e
      ∙ (ap (best_match test xs) (best_kept x q less) ∙ best_match_kept xs h)

  -- A binding that is less specific gives way.
  better_less :
      (x : Binding) (q : Bool) (best : Option Binding)
      → is_less x b ≡ true
      → better best b ≡ some b
      → better (if q then better best x else best) b ≡ some b
  better_less x true none h e = rw h refl
  better_less x true (some a) h e = ground (arith, h, e)
  better_less x false best h e = e

  best_match-insert_binding :
      (xs : List Binding) (best : Option Binding)
      → test b ≡ some true
      → better best b ≡ some b
      → All IsTested xs
      → best_match test (insert_binding b xs) best ≡ some (some b)
  unfolding insert_binding lower_bound upper_bound remove
  best_match-insert_binding [] best t e h =
      best_match_step b [] true best t ∙ (ap (best_match test []) e ∙ best_match_kept [] tt)
  best_match-insert_binding (x ∷ xs) best t e h = elim (Bool-cases (is_less x b)) [
    | inl p ↦
        let (q, tested, less) = h.0 in
        ap (λ l. best_match test l best) (insert_binding_past b x xs p)
        ∙ (best_match_step x (insert_binding b xs) q best tested
            ∙ best_match-insert_binding xs (if q then better best x else best) t
                (better_less x q best p e) h.1)
    | inr p ↦
        ap (λ l. best_match test l best) (insert_binding_here b x xs p)
        ∙ (best_match_step b (rest_of b (x ∷ xs)) true best t
            ∙ (ap (best_match test (rest_of b (x ∷ xs))) e
                ∙ best_match_kept (rest_of b (x ∷ xs)) (All-rest_of IsTested b (x ∷ xs) h)))
  ]

pub write_key-bindings :
    (key : KeyHandle) (state : Bool) (m : Manager) → (write_key key state m).bindings ≡ m.bindings
unfolding write_key
write_key-bindings key state m = ground arith

module _ {σ : Type 0} (handle : ℕ → σ → Bool × σ) where
  -- A key whose state is set goes to a binding that was inserted last, if this matches and no other
  -- binding that matches is more specific; each key that is looked at has a state. A key that has the
  -- state already is swallowed. Else the binding's handler decides: the key is swallowed if it replies
  -- `true`, and passed on, and the binding removed, if not.
  pub change_key-insert_binding :
      (b : Binding) (bs : List Binding) (key : KeyHandle) (state old : Bool) (m : Manager) (s : σ)
      → m.bindings ≡ insert_binding b bs
      → key_state key m ≡ some old
      → let key' = actual_key key in
        let m' = write_key key' state m in
        let test = matches key' (set m.flags 0 (not state)) m' in
        test b ≡ some true
        → All (IsTested test b) bs
        → change_key handle key state m s
          ≡ some (
              if same_bit old state
              then (true, m', s)
              else if (handle b.handler s).0
              then (true, m', (handle b.handler s).1)
              else (false, pass_on key' state (unbind b m'), (handle b.handler s).1))
  unfolding change_key finish
  change_key-insert_binding b bs key state old m s table e t h =
      let key' = actual_key key in
      let m' = write_key key' state m in
      let test = matches key' (set m.flags 0 (not state)) m' in
      let found : best_match test m'.bindings none ≡ some (some b) =
        ap (λ l. best_match test l none) (write_key-bindings key' state m ∙ table)
        ∙ best_match-insert_binding test b bs none t refl h in
      rw (change_key, e, found) (ground arith)
