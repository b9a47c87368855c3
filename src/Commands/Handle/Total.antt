-- ===== src/Commands/Handle/Total.antt =====
-- core/src/command_manager.cpp: `handle_command` ends.
use mathlib.Core.Path.{subst}
use fenestra_voli_edition.Base.{
  ℕ, zero, suc, ◌+◌, ◌≤◌, ◌<◌, ◌≡◌, refl, ◌⊎◌, Bool, true, Option, none, some, List, [], ◌∷◌,
  length, arith, Bool-cases, inl, inr,
}
use fenestra_voli_edition.Base.Order.{compare_text_self}
use fenestra_voli_edition.Unicode.{Bytes, Icu}
use fenestra_voli_edition.Commands.Parse.{Parsed}
use fenestra_voli_edition.Commands.Registry.{
  Manager, Descriptor, NameView, Layer, client, core, addon, script, at, view_of, same_name, remove,
  equal_range, find_in, find_layers, find, Error, Result, ok, err, unregister_command, missing,
  update, ◌>>=◌, is_eq, compare_view,
}
use fenestra_voli_edition.Commands.Handle.{
  Outcome, registry, Reply, returned, thrown, dispatch, run, run_unknown, expand, name_of,
  count_commands, handle_command, reads_overwritten, fault,
}

-- Every descriptor notes the layer that it stands in.
abbrev pub Within : Layer → List Descriptor → Type 0
Within l [] = Unit {0}
Within l (d ∷ ds) = (d.layer ≡ l) × Within l ds

abbrev pub Placed : Manager → Type 0
Placed m = (l : Layer) → Within l (at l m)

abbrev exact : Descriptor → NameView
exact d = record { component = some d.component; command = d.command }

same_name_self : (d : Descriptor) → same_name (view_of d) (exact d) ≡ true
unfolding same_name
same_name_self d = ground (arith, compare_text_self d.command, compare_text_self d.component)

length-remove : (name : NameView) (ds : List Descriptor) → length (remove name ds) ≤ length ds
unfolding remove
length-remove name [] = omega arith
length-remove name (x ∷ ds) = ground (arith, length-remove name ds)

Within-remove :
    (l : Layer) (name : NameView) (ds : List Descriptor) → Within l ds → Within l (remove name ds)
unfolding remove
Within-remove l name [] w = tt
Within-remove l name (x ∷ ds) w = ground (arith, Within-remove l name ds w.1, w.0)

-- What a layer finds stands in it, and its removal makes the layer shorter.
abbrev Found : Layer → List Descriptor → Descriptor → Type 0
Found l ds d = (d.layer ≡ l) × (length (remove (exact d) ds) < length ds)

head-Found : (l : Layer) (x : Descriptor) (ds : List Descriptor) → x.layer ≡ l → Found l (x ∷ ds) x
unfolding remove
head-Found l x ds h = (h, ground (arith, same_name_self x, length-remove (exact x) ds))

tail-Found :
    (l : Layer) (x d : Descriptor) (ds : List Descriptor) → Found l ds d → Found l (x ∷ ds) d
unfolding remove
tail-Found l x d ds f = (f.0, ground (arith, f.1))

equal_range-Found :
    (name : NameView) (l : Layer) (ds : List Descriptor) (d : Descriptor) {more : List Descriptor}
    → Within l ds
    → equal_range name ds ≡ d ∷ more
    → Found l ds d
unfolding equal_range
equal_range-Found name l [] d w e = absurd cc
equal_range-Found name l (x ∷ ds) d {more} w e =
    elim (Bool-cases (is_eq (compare_view (view_of x) name))) [
      | inl h ↦
          let p : x ≡ d = ground (arith, e, h) in
          subst (λ y. Found l (x ∷ ds) y) p (head-Found l x ds w.0)
      | inr h ↦
          tail-Found l x d ds
            (equal_range-Found name l ds d {more = more} w.1 (ground (arith, e, h)))
    ]

only :
    (component : Option Bytes) (cs : List Descriptor) (d : Descriptor)
    → find_in component cs ≡ ok (some d)
    → cs ≡ d ∷ []
unfolding find_in
only component [] d e = ground (arith, e)
only component (c ∷ []) d e = ground (arith, e)
only none (c ∷ c' ∷ cs) d e = ground (arith, e)
only (some x) (c ∷ c' ∷ cs) d e = ground (arith, e)

find_in-Found :
    (name : NameView) (l : Layer) (ds : List Descriptor) (d : Descriptor)
    → Within l ds
    → find_in name.component (equal_range name ds) ≡ ok (some d)
    → Found l ds d
find_in-Found name l ds d w e =
    equal_range-Found name l ds d w (only name.component (equal_range name ds) d e)

Found-at :
    (layer : Layer) (m : Manager) (d : Descriptor)
    → Found layer (at layer m) d
    → count_commands (unregister_command d.layer d.component d.command m) < count_commands m
unfolding unregister_command
Found-at client m d f = ground (arith, f.0, f.1)
Found-at core m d f = ground (arith, f.0, f.1)
Found-at addon m d f = ground (arith, f.0, f.1)
Found-at script m d f = ground (arith, f.0, f.1)

abbrev Shrinks : Manager → Descriptor → Type 0
Shrinks m d = count_commands (unregister_command d.layer d.component d.command m) < count_commands m

-- What the layers find, one of them finds.
layer_cases :
    (a : Result (Option Descriptor)) (b : Result (Option Descriptor)) (d : Descriptor)
    → (a >>= elim [ none ↦ b | some d ↦ ok (some d) ]) ≡ ok (some d)
    → (a ≡ ok (some d)) ⊎ (b ≡ ok (some d))
layer_cases (err x) b d e = absurd (ground (arith, e))
layer_cases (ok none) b d e = inr e
layer_cases (ok (some x)) b d e = inl e

known :
    (component : Option Bytes) (r : Result (Option Descriptor)) (d : Descriptor)
    → (r >>= missing component) ≡ ok (some d)
    → r ≡ ok (some d)
unfolding missing
known component (err x) d e = absurd (ground (arith, e))
known component (ok (some x)) d e = e
known none (ok none) d e = e
known (some c) (ok none) d e = absurd (ground (arith, e))

find-Shrinks :
    (name : NameView) (m : Manager) (d : Descriptor)
    → Placed m
    → find name m ≡ ok (some d)
    → Shrinks m d
unfolding find find_layers
find-Shrinks name m d p e =
    let at_layer : (l : Layer)
        → find_in name.component (equal_range name (at l m)) ≡ ok (some d)
        → Shrinks m d =
      λ l h. Found-at l m d (find_in-Found name l (at l m) d (p l) h) in
    elim (layer_cases _ _ d (known name.component _ d e)) [
      | inl h ↦ at_layer client h
      | inr e1 ↦ elim (layer_cases _ _ d e1) [
        | inl h ↦ at_layer core h
        | inr e2 ↦ elim (layer_cases _ _ d e2) [
          | inl h ↦ at_layer addon h
          | inr e3 ↦ elim (layer_cases _ _ d e3) [
            | inl h ↦ at_layer script h
            | inr e4 ↦ absurd (ground (arith, e4))
          ]
        ]
      ]
    ]

pub update-Within :
    (l layer : Layer) (ds : List Descriptor) (m : Manager)
    → Within layer ds
    → Within l (at l m)
    → Within l (at l (update layer ds m))
update-Within client client ds m h q = h
update-Within client core ds m h q = q
update-Within client addon ds m h q = q
update-Within client script ds m h q = q
update-Within core client ds m h q = q
update-Within core core ds m h q = h
update-Within core addon ds m h q = q
update-Within core script ds m h q = q
update-Within addon client ds m h q = q
update-Within addon core ds m h q = q
update-Within addon addon ds m h q = h
update-Within addon script ds m h q = q
update-Within script client ds m h q = q
update-Within script core ds m h q = q
update-Within script addon ds m h q = q
update-Within script script ds m h q = h

pub unregister_command-Placed :
    (layer : Layer) (component command : Bytes) (m : Manager)
    → Placed m
    → Placed (unregister_command layer component command m)
unfolding unregister_command
unregister_command-Placed layer component command m p l =
    update-Within l layer _ m (Within-remove layer _ (at layer m) (p layer)) (p l)

module _ {σ : Type 0} (put_utf8 : ℕ → Bytes) (icu : Icu) (alive : ℕ → Bool)
    (handler : ℕ → List Bytes → σ → Reply × σ)
    (trigger_unknown_command : Bytes → σ → Bool × σ) where
  abbrev Ends : ℕ → Bytes → Parsed → Manager → σ → Type 0
  Ends fuel command_string p m s =
      (r : Outcome (Unit {0}) × Manager × σ) × (dispatch put_utf8 icu alive handler
          trigger_unknown_command fuel command_string p m s
        ≡ some r)

  -- A turn, by what `find` gives.
  dispatch_err :
      (fuel : ℕ) (command_string : Bytes) (p : Parsed) (m : Manager) (s : σ) {x : Error}
      → find (name_of command_string p) m ≡ err x
      → Ends (suc fuel) command_string p m s
  unfolding dispatch
  dispatch_err fuel command_string p m s {x} e = ((thrown (registry x), m, s), ground (arith, e))

  dispatch_unknown :
      (fuel : ℕ) (command_string : Bytes) (p : Parsed) (m : Manager) (s : σ)
      → find (name_of command_string p) m ≡ ok none
      → Ends (suc fuel) command_string p m s
  unfolding dispatch
  dispatch_unknown fuel command_string p m s e =
      let o : Outcome (Unit {0}) × σ =
        run_unknown put_utf8 icu alive handler trigger_unknown_command command_string p s in
      ((o.0, m, o.1), ground (arith, e))

  dispatch_found :
      (fuel : ℕ) (command_string : Bytes) (p : Parsed) (m : Manager) (s : σ) (d : Descriptor)
      → find (name_of command_string p) m ≡ ok (some d)
      → Ends fuel command_string p (unregister_command d.layer d.component d.command m) s
      → Ends (suc fuel) command_string p m s
  unfolding dispatch
  dispatch_found fuel command_string p m s d e (r, f) = elim (Bool-cases (alive d.tag)) [
    | inl h ↦
        let o : Outcome (Unit {0}) × σ =
          run put_utf8 icu alive handler trigger_unknown_command command_string p d s in
        ((o.0, m, o.1), ground (arith, e, h))
    | inr h ↦ elim (Bool-cases (reads_overwritten d m)) [
      | inl o ↦ ((thrown fault, m, s), ground (arith, e, h, o))
      | inr o ↦ (r, ground (arith, e, h, o, f))
    ]
  ]

  dispatch_turn :
      (fuel : ℕ) (command_string : Bytes) (p : Parsed) (m : Manager) (s : σ)
      (r : Result (Option Descriptor))
      → ((d : Descriptor)
          → r ≡ ok (some d)
          → Ends fuel command_string p (unregister_command d.layer d.component d.command m) s)
      → find (name_of command_string p) m ≡ r
      → Ends (suc fuel) command_string p m s
  dispatch_turn fuel command_string p m s (err x) ih e = dispatch_err fuel command_string p m s e
  dispatch_turn fuel command_string p m s (ok none) ih e =
      dispatch_unknown fuel command_string p m s e
  dispatch_turn fuel command_string p m s (ok (some d)) ih e =
      dispatch_found fuel command_string p m s d e (ih d refl)

  dispatch-Ends :
      (fuel : ℕ) (command_string : Bytes) (p : Parsed) (m : Manager) (s : σ)
      → Placed m
      → count_commands m < fuel
      → Ends fuel command_string p m s
  dispatch-Ends zero command_string p m s w h = absurd (omega (arith, h))
  dispatch-Ends (suc fuel) command_string p m s w h =
      dispatch_turn fuel command_string p m s (find (name_of command_string p) m)
        (λ d e.
          dispatch-Ends fuel command_string p _ s
            (unregister_command-Placed d.layer d.component d.command m w)
            (omega (arith, h, find-Shrinks (name_of command_string p) m d w e)))
        refl

  abbrev pub Handled : Bytes → Manager → σ → Type 0
  Handled command_string m s =
      (r : Outcome (Unit {0}) × Manager × σ) × (handle_command put_utf8 icu alive handler
          trigger_unknown_command command_string m s
        ≡ some r)

  handle_expanded :
      (command_string : Bytes) (m : Manager) (s : σ) (o : Outcome (Bytes × Parsed))
      → Placed m
      → expand icu command_string m ≡ o
      → Handled command_string m s
  unfolding handle_command
  handle_expanded command_string m s (thrown x) w e = ((thrown x, m, s), ground (arith, e))
  handle_expanded command_string m s (returned (string, p)) w e =
      let (r, f) = dispatch-Ends (count_commands m + 1) string p m s w (omega arith) in
      (r, ground (arith, e, f))

  -- The loop over commands whose tag has expired ends, so every command line is handled, if each
  -- descriptor stands in the layer that it notes.
  pub handle_command_ends :
      (command_string : Bytes) (m : Manager) (s : σ)
      → Placed m
      → (r : Outcome (Unit {0}) × Manager × σ) × (handle_command put_utf8 icu alive handler
            trigger_unknown_command command_string m s
          ≡ some r)
  handle_command_ends command_string m s w =
      handle_expanded command_string m s (expand icu command_string m) w refl
