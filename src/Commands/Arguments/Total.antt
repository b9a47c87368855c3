-- ===== src/Commands/Arguments/Total.antt =====
-- core/src/command_manager.cpp: `parse_arguments` ends, and keeps to the count.
use fenestra_voli_edition.Base.{
  ℕ, zero, suc, ◌+◌, ◌≤◌, ◌<◌, ◌≡◌, ◌⊎◌, inl, inr, refl, ◌∙◌, Bool, true, false, ◌&&◌, Option, none,
  some, List, [], ◌∷◌, ◌++◌, ◌==◌, leb, if◌then◌else◌, length, length-append, length-drop,
  get_elem?, get_elem?_all, all_of, take, drop, arith, Bool-cases,
}
use fenestra_voli_edition.Unicode.{Bytes, Icu, next_code_point}
use fenestra_voli_edition.Commands.Parse.{Next, go, halt}
use fenestra_voli_edition.Commands.Unescape.Correct.{unescape_total}
use fenestra_voli_edition.Commands.Arguments.{
  state_table, entry, class_of, next, Output, State, emplace, append, append_alone, act, round,
  finish, loop, parse_arguments,
}

-- Every argument that is put out is taken off the count.
abbrev Pays : Output → Output → Type 0
Pays o o' = length o'.arguments + o'.count ≤ length o.arguments + o.count

abbrev inside : Next × ℕ → Bool
inside (go state, action) = leb state 5 && leb action 3
inside (halt, action) = leb action 3

abbrev is_halt : Option (Next × ℕ) → Bool
is_halt none = false
is_halt (some (go state, action)) = false
is_halt (some (halt, action)) = true

abbrev row_inside : List (Next × ℕ) → Bool
row_inside row = length row == 7 && (is_halt (get_elem? row 6) && all_of inside row)

abbrev Inside : Next → Type 0
Inside (go state) = state ≤ 5
Inside halt = Unit {0}

inside-Inside : (e : Next × ℕ) → inside e ≡ true → Inside e.0 × (e.1 ≤ 3)
inside-Inside (go state, action) h = (ground (arith, h), ground (arith, h))
inside-Inside (halt, action) h = (tt, ground (arith, h))

-- A round stays in the table.
entry-Inside :
    (state char_class : ℕ)
    → state ≤ 5
    → char_class ≤ 6
    → (e : Next × ℕ) × (entry state char_class ≡ some e) × Inside e.0 × (e.1 ≤ 3)
unfolding entry
entry-Inside state char_class h k =
    let (row, found, ok) = get_elem?_all row_inside state_table state (omega (arith, h)) refl in
    let (e, got, fits) =
      get_elem?_all inside row char_class (ground (arith, ok)) (ground (arith, ok)) in
    let (i, j) = inside-Inside e fits in (e, rw (found, got), i, j)

-- At the end the loop is left.
halting : (o : Option (Next × ℕ)) → is_halt o ≡ true → (action : ℕ) × (o ≡ some (halt, action))
halting none h = absurd (ground (arith, h))
halting (some (go state, action)) h = absurd (ground (arith, h))
halting (some (halt, action)) h = (action, refl)

entry_end :
    (state : ℕ) → state ≤ 5 → (action : ℕ) × (entry state 6 ≡ some (halt, action)) × (action ≤ 3)
unfolding entry
entry_end state h =
    let (row, found, ok) = get_elem?_all row_inside state_table state (omega (arith, h)) refl in
    let (action, at_end) = halting (get_elem? row 6) (ground (arith, ok)) in
    let (e, got, fits) = get_elem?_all inside row 6 (ground (arith, ok)) (ground (arith, ok)) in
    (action, rw (found, at_end), ground (arith, at_end, got, inside-Inside e fits))

class_of_bound : (icu : Icu) (c : ℕ) → class_of icu c ≤ 5
unfolding class_of
class_of_bound icu c = ground arith

-- Either the end, or a character of at least one byte.
next_total :
    (icu : Icu) (rest : Bytes)
    → (next icu rest ≡ (6, 0))
      ⊎ ((c : ℕ) × (n : ℕ) × (next icu rest ≡ (c, n))
          × (c ≤ 5)
          × (length (drop n rest) < length rest))
unfolding next next_code_point
next_total icu [] = inl refl
next_total icu (b ∷ bs) = inr (
  class_of icu (icu.u8_next (b ∷ bs)).0,
  (icu.u8_next (b ∷ bs)).1,
  refl,
  class_of_bound icu _,
  omega (arith, icu.takes_some b bs, length-drop (icu.u8_next (b ∷ bs)).1 (b ∷ bs)),
)

finish_bound : (s : State) → length (finish s) ≤ length s.output.arguments + 1
unfolding finish
finish_bound s = ground (arith, length-append s.output.arguments ((s.pending ++ s.rest) ∷ []))

module _ (put_utf8 : ℕ → Bytes) where
  append_total :
      (bytes : Bytes) (allow_empty : Bool) (o : Output)
      → 0 < o.count
      → (o' : Output) × (append put_utf8 bytes allow_empty o ≡ some o') × Pays o o'
  unfolding append
  append_total [] false o h = (o, refl, omega arith)
  append_total [] true o h =
      (emplace [] o, refl, omega (arith, length-append o.arguments ([] ∷ []), h))
  append_total (b ∷ bs) allow_empty o h =
      let (argument, e) = unescape_total put_utf8 (b ∷ bs) in
      (
        emplace argument o,
        ground (arith, e),
        omega (arith, length-append o.arguments (argument ∷ []), h),
      )

  append_alone_total :
      (c rest : Bytes) (o : Output)
      → (s' : State) × (append_alone put_utf8 c rest o ≡ some s')
        × Pays o s'.output
        × (s'.rest ≡ rest)
  unfolding append_alone
  append_alone_total c rest o = elim (Bool-cases (o.count == 0)) [
    | inl h ↦ (record { output = o; pending = c; rest = rest }, rw h refl, omega arith, refl)
    | inr h ↦
        let (o', e, p) = append_total c false o (ground (arith, h)) in
        (record { output = o'; pending = []; rest = rest }, ground (arith, h, e), p, refl)
  ]

  act_total :
      (action : ℕ) (c rest : Bytes) (s : State)
      → action ≤ 3
      → 0 < s.output.count
      → (s' : State) × (act put_utf8 action c rest s ≡ some s')
        × Pays s.output s'.output
        × (s'.rest ≡ rest)
  unfolding act
  act_total zero c rest s h k = (_, refl, omega arith, refl)
  act_total (suc zero) c rest s h k =
      let (o, e, p) = append_total s.pending false s.output k in
      (
        record { output = o; pending = if o.count == 0 then c else []; rest = rest },
        rw e refl,
        p,
        refl,
      )
  act_total (suc (suc zero)) c rest s h k =
      let (o, e, p) = append_total s.pending true s.output k in
      (record { output = o; pending = []; rest = rest }, rw e refl, p, refl)
  act_total (suc (suc (suc zero))) c rest s h k =
      let (o, e, p) = append_total s.pending false s.output k in
      let (s', f, q, r) = append_alone_total c rest o in (s', rw e f, omega (arith, p, q), r)
  act_total (suc (suc (suc (suc n)))) c rest s h k = absurd (omega (arith, h))

  pub round_step :
      (icu : Icu) (state : ℕ) (s : State) {c n action : ℕ} {next_state : Next} {s' : State}
      → next icu s.rest ≡ (c, n)
      → entry state c ≡ some (next_state, action)
      → act put_utf8 action (take n s.rest) (drop n s.rest) s ≡ some s'
      → round put_utf8 icu state s ≡ some (next_state, s')
  unfolding round
  round_step icu state s e f g = ground (arith, e, f, g)

  -- A round leaves the loop, or takes something off the rest.
  abbrev Advances : State → Next → State → Type 0
  Advances s halt s' = Unit {0}
  Advances s (go state) s' = (state ≤ 5) × (length s'.rest < length s.rest)

  advances :
      (s s' : State) (next_state : Next)
      → Inside next_state
      → length s'.rest < length s.rest
      → Advances s next_state s'
  advances s s' (go state) i h = (i, h)
  advances s s' halt i h = tt

  round_total :
      (icu : Icu) (state : ℕ) (s : State)
      → state ≤ 5
      → 0 < s.output.count
      → (next_state : Next) × (s' : State) × (round put_utf8 icu state s ≡ some (next_state, s'))
        × Advances s next_state s'
        × Pays s.output s'.output
  round_total icu state s h k = elim (next_total icu s.rest) [
    | inl e ↦
        let (action, f, a) = entry_end state h in
        let (s', g, p, r) = act_total action (take 0 s.rest) (drop 0 s.rest) s a k in
        (halt, s', round_step icu state s e f g, tt, p)
    | inr (c, n, e, c_le, shorter) ↦
        let (entry_, f, i, a) = entry-Inside state c h (omega (arith, c_le)) in
        let (s', g, p, r) = act_total entry_.1 (take n s.rest) (drop n s.rest) s a k in
        (entry_.0, s', round_step icu state s e f g, advances s s' entry_.0 i (rw r shorter), p)
  ]

  pub loop_halt :
      (fuel : ℕ) (icu : Icu) (state : ℕ) (s : State) {s' : State}
      → 0 < s.output.count
      → round put_utf8 icu state s ≡ some (halt, s')
      → loop put_utf8 (suc fuel) icu state s ≡ some (finish s')
  unfolding loop
  loop_halt fuel icu state s h e = ground (arith, h, e)

  pub loop_go :
      (fuel : ℕ) (icu : Icu) (state : ℕ) (s : State) {state' : ℕ} {s' : State}
      → 0 < s.output.count
      → round put_utf8 icu state s ≡ some (go state', s')
      → loop put_utf8 (suc fuel) icu state s ≡ loop put_utf8 fuel icu state' s'
  unfolding loop
  loop_go fuel icu state s h e = ground (arith, h, e)

  pub loop_spent :
      (fuel : ℕ) (icu : Icu) (state : ℕ) (s : State)
      → s.output.count ≡ 0
      → loop put_utf8 (suc fuel) icu state s ≡ some (finish s)
  unfolding loop
  loop_spent fuel icu state s h = ground (arith, h)

  -- What the loop puts out, when it starts in this state.
  abbrev Bounded : ℕ → Icu → ℕ → State → Type 0
  Bounded fuel icu state s =
      (out : List Bytes) × (loop put_utf8 fuel icu state s ≡ some out)
      × (length out ≤ length s.output.arguments + s.output.count + 1)

  turn_total :
      (fuel : ℕ) (icu : Icu) (state : ℕ) (s : State) (next_state : Next) (s' : State)
      → ((state' : ℕ) → state' ≤ 5 → length s'.rest < fuel → Bounded fuel icu state' s')
      → 0 < s.output.count
      → round put_utf8 icu state s ≡ some (next_state, s')
      → Advances s next_state s'
      → Pays s.output s'.output
      → length s.rest < suc fuel
      → Bounded (suc fuel) icu state s
  turn_total fuel icu state s halt s' ih left e a p k =
      (finish s', loop_halt fuel icu state s left e, omega (arith, finish_bound s', p))
  turn_total fuel icu state s (go state') s' ih left e a p k =
      let (out, f, b) = ih state' a.0 (omega (arith, a.1, k)) in
      (out, loop_go fuel icu state s left e ∙ f, omega (arith, b, p))

  loop_total :
      (fuel : ℕ) (icu : Icu) (state : ℕ) (s : State)
      → state ≤ 5
      → length s.rest < fuel
      → Bounded fuel icu state s
  loop_total zero icu state s h k = absurd (omega (arith, k))
  loop_total (suc fuel) icu state s h k = elim (Bool-cases (s.output.count == 0)) [
    | inl z ↦
        (finish s, loop_spent fuel icu state s (ground (arith, z)), omega (arith, finish_bound s))
    | inr z ↦
        let left : 0 < s.output.count = ground (arith, z) in
        let (next_state, s', e, a, p) = round_total icu state s h left in
        turn_total fuel icu state s next_state s' (λ state'. loop_total fuel icu state' s') left e a
          p k
  ]

  -- Every string is parsed, without a fault and with the fuel given, into at most one argument more
  -- than the count: the last then holds the rest of the string.
  pub parse_arguments_total :
      (icu : Icu) (argument_string : Bytes) (count : ℕ)
      → (out : List Bytes) × (parse_arguments put_utf8 icu argument_string count ≡ some out)
        × (length out ≤ count + 1)
  unfolding parse_arguments
  parse_arguments_total icu argument_string count =
      let (out, e, b) =
        loop_total (length argument_string + 1) icu 0
          (record {
            output = record { arguments = []; count = count };
            pending = [];
            rest = argument_string;
          })
          (omega arith) (omega arith) in
      (out, e, omega (arith, b))
