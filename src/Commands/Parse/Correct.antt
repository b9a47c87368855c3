-- ===== src/Commands/Parse/Correct.antt =====
-- core/src/command_manager.cpp: the state machine of `parse_command` reads its grammar.
use native.Mathlib.Nat.{add-zero}
use fenestra_voli_edition.Base.{
  ℕ, zero, suc, ◌+◌, ◌-◌, ◌<◌, ◌≡◌, ◌⊎◌, inl, inr, refl, ap, ◌∙◌, true, false, Option, none, some,
  [], ◌∷◌, ◌++◌, ◌==◌, length, length-append, drop, arith, Bool-cases,
}
use fenestra_voli_edition.Unicode.{Bytes, Icu, next_code_point}
use fenestra_voli_edition.Commands.Names.{is_name_char, is_name_char_below, IsName}
use fenestra_voli_edition.Commands.Parse.{
  p1, SyntaxError, ok, syntax_error, next, class_of, entry, State, act, round, advance, loop,
  parse_command, Next, go, halt,
}
use fenestra_voli_edition.Commands.Parse.Reference.{
  span_name, span_name_lem, Follow, ending, colon, other, follow, qualified, second_name,
  first_name, reference, Stops, Classes, follow-Classes,
}

class_of_name : (icu : Icu) (b : ℕ) → is_name_char b ≡ true → class_of icu b ≡ 2
unfolding class_of is_name_char
class_of_name icu b h = ground arith

next_name : (icu : Icu) (b : ℕ) (bs : Bytes) → is_name_char b ≡ true → next icu (b ∷ bs) ≡ (2, 1)
unfolding next next_code_point
next_name icu b bs h = ground (arith, icu.ascii b bs, is_name_char_below b h, class_of_name icu b h)

abbrev state_at : ℕ → Bytes → ℕ → Option (ℕ × ℕ) → State
state_at it rest mark first = record {
  it = it;
  rest = rest;
  mark = mark;
  first = first;
  second = (0, 0);
}

next-nil : (icu : Icu) → next icu [] ≡ (4, 0)
unfolding next
next-nil icu = refl

-- One turn of the loop, by what the table and the action say.
module _ (icu : Icu) (fuel state : ℕ) (s : State) {c n action : ℕ}
    (class : next icu s.rest ≡ (c, n)) where
  turn_go :
      {state' : ℕ} {s' : State}
      → entry state c ≡ some (go state', action)
      → act action (s.it + n) s ≡ ok s'
      → loop (suc fuel) icu state s ≡ loop fuel icu state' (advance n s')
  unfolding loop round
  turn_go e a = ground (arith, class, e, a)

  turn_halt :
      {s' : State}
      → entry state c ≡ some (halt, action)
      → act action (s.it + n) s ≡ ok s'
      → loop (suc fuel) icu state s ≡ ok (record { component = s'.first; command = s'.second })
  unfolding loop round
  turn_halt e a = ground (arith, class, e, a)

  turn_throw :
      {next_state : Next} {err : SyntaxError}
      → entry state c ≡ some (next_state, action)
      → act action (s.it + n) s ≡ syntax_error err
      → loop (suc fuel) icu state s ≡ syntax_error err
  unfolding loop round
  turn_throw e a = ground (arith, class, e, a)

module _ (icu : Icu) where
  -- The name's characters are passed in the state 3, behind a colon in the state 4.
  loop_names_3 :
      (name : Bytes) (fuel k it mark : ℕ) (rest : Bytes) (first : Option (ℕ × ℕ))
      → IsName name
      → fuel ≡ length name + k
      → loop fuel icu 3 (state_at it (name ++ rest) mark first)
        ≡ loop k icu 3 (state_at (it + length name) rest mark first)
  unfolding entry act
  loop_names_3 [] fuel k it mark rest first h e =
      let e' : fuel ≡ k = omega arith in rw (e', add-zero it)
  loop_names_3 (b ∷ name) zero k it mark rest first h e = absurd (omega arith)
  loop_names_3 (b ∷ name) (suc fuel) k it mark rest first h e =
      let moved : it + 1 + length name ≡ it + suc (length name) = omega arith in
      turn_go icu fuel 3 (state_at it (b ∷ (name ++ rest)) mark first)
        (next_name icu b (name ++ rest) h.0) refl refl
      ∙ loop_names_3 name fuel k (it + 1) mark rest first h.1 (omega arith)
      ∙ ap (λ i. loop k icu 3 (state_at i rest mark first)) moved

  loop_names_4 :
      (name : Bytes) (fuel k it mark : ℕ) (rest : Bytes) (first : Option (ℕ × ℕ))
      → IsName name
      → fuel ≡ length name + k
      → loop fuel icu 4 (state_at it (name ++ rest) mark first)
        ≡ loop k icu 4 (state_at (it + length name) rest mark first)
  unfolding entry act
  loop_names_4 [] fuel k it mark rest first h e =
      let e' : fuel ≡ k = omega arith in rw (e', add-zero it)
  loop_names_4 (b ∷ name) zero k it mark rest first h e = absurd (omega arith)
  loop_names_4 (b ∷ name) (suc fuel) k it mark rest first h e =
      let moved : it + 1 + length name ≡ it + suc (length name) = omega arith in
      turn_go icu fuel 4 (state_at it (b ∷ (name ++ rest)) mark first)
        (next_name icu b (name ++ rest) h.0) refl refl
      ∙ loop_names_4 name fuel k (it + 1) mark rest first h.1 (omega arith)
      ∙ ap (λ i. loop k icu 4 (state_at i rest mark first)) moved

  -- Behind the colon, where no name follows.
  behind_colon :
      (k from : ℕ) (rest : Bytes) (component : ℕ × ℕ) (f : Follow)
      → Classes icu rest f
      → loop (suc k) icu 2 (state_at from rest from (some component))
        ≡ qualified component from [] f
  unfolding entry act qualified
  behind_colon k from rest component ending (n, e) =
      turn_throw icu k 2 (state_at from rest from (some component)) e refl refl
  behind_colon k from rest component colon (_, e) =
      turn_throw icu k 2 (state_at from rest from (some component)) e refl refl
  behind_colon k from rest component other (inl (n, e)) =
      turn_throw icu k 2 (state_at from rest from (some component)) e refl refl
  behind_colon k from rest component other (inr (n, e)) =
      turn_throw icu k 2 (state_at from rest from (some component)) e refl refl

  -- Behind the second name.
  behind_second :
      (k from : ℕ) (rest : Bytes) (component : ℕ × ℕ) (b : ℕ) (name : Bytes) (f : Follow)
      → Classes icu rest f
      → loop (suc k) icu 4 (state_at (from + length (b ∷ name)) rest from (some component))
        ≡ qualified component from (b ∷ name) f
  unfolding entry act qualified
  behind_second k from rest component b name ending (n, e) =
      turn_halt icu k 4 (state_at (from + length (b ∷ name)) rest from (some component)) e refl refl
  behind_second k from rest component b name colon (_, e) =
      turn_throw icu k 4 (state_at (from + length (b ∷ name)) rest from (some component)) e refl
        refl
  behind_second k from rest component b name other (inl (n, e)) =
      turn_throw icu k 4 (state_at (from + length (b ∷ name)) rest from (some component)) e refl
        refl
  behind_second k from rest component b name other (inr (n, e)) =
      turn_throw icu k 4 (state_at (from + length (b ∷ name)) rest from (some component)) e refl
        refl

  second_name_lem :
      (name : Bytes) (fuel from : ℕ) (rest : Bytes) (component : ℕ × ℕ)
      → IsName name
      → Stops rest
      → length name < fuel
      → loop fuel icu 2 (state_at from (name ++ rest) from (some component))
        ≡ qualified component from name (follow icu rest)
  unfolding entry act
  second_name_lem name zero from rest component h stops k = absurd (omega arith)
  second_name_lem [] (suc fuel) from rest component h stops k =
      behind_colon fuel from rest component (follow icu rest) (follow-Classes icu rest stops)
  second_name_lem (b ∷ name) (suc fuel) from rest component h stops k =
      let left = fuel - length name - 1 in
      let moved : from + 1 + length name ≡ from + suc (length name) = omega arith in
      turn_go icu fuel 2 (state_at from (b ∷ (name ++ rest)) from (some component))
        (next_name icu b (name ++ rest) h.0) refl refl
      ∙ loop_names_4 name fuel (suc left) (from + 1) from rest (some component) h.1 (omega arith)
      ∙ ap (λ i. loop (suc left) icu 4 (state_at i rest from (some component))) moved
      ∙ behind_second left from rest component b name (follow icu rest)
          (follow-Classes icu rest stops)

  -- The part behind a colon, from the state 2 on.
  second_part :
      (k from : ℕ) (rest : Bytes) (component : ℕ × ℕ)
      → length rest < k
      → loop k icu 2 (state_at from rest from (some component))
        ≡ second_name icu component from (span_name rest)
  second_part k from rest component h =
      let (name, rest') = span_name rest in
      let (e, names, stops) = span_name_lem rest in
      let sizes : length rest ≡ length name + length rest' =
        ap length e ∙ length-append name rest' in
      ap (λ r. loop k icu 2 (state_at from r from (some component))) e
      ∙ second_name_lem name k from rest' component names stops (omega arith)

  -- A colon behind the first name, which ends at `it`.
  colon_turn :
      (state k it : ℕ) (rest : Bytes)
      → entry state 1 ≡ some (go 2, 1)
      → Classes icu rest colon
      → length rest < suc k
      → loop (suc k) icu state (state_at it rest 1 none)
        ≡ second_name icu (1, it) (it + 1) (span_name (drop 1 rest))
  unfolding act
  colon_turn state k it rest e (cut, class) h =
      let sizes : length rest ≡ suc (length (drop 1 rest)) = ap length cut in
      turn_go icu k state (state_at it rest 1 none) class e refl
      ∙ second_part k (it + 1) (drop 1 rest) (1, it) (omega arith)

  behind_slash :
      (k : ℕ) (rest : Bytes) (f : Follow)
      → Classes icu rest f
      → length rest < suc k
      → loop (suc k) icu 1 (state_at 1 rest 1 none) ≡ first_name icu [] rest f
  unfolding entry act first_name
  behind_slash k rest ending (n, e) h = turn_throw icu k 1 (state_at 1 rest 1 none) e refl refl
  behind_slash k rest colon c h = colon_turn 1 k 1 rest refl c h
  behind_slash k rest other (inl (n, e)) h = turn_throw icu k 1 (state_at 1 rest 1 none) e refl refl
  behind_slash k rest other (inr (n, e)) h = turn_throw icu k 1 (state_at 1 rest 1 none) e refl refl

  behind_name :
      (k it b : ℕ) (name rest : Bytes) (f : Follow)
      → it ≡ 1 + length (b ∷ name)
      → Classes icu rest f
      → length rest < suc k
      → loop (suc k) icu 3 (state_at it rest 1 none) ≡ first_name icu (b ∷ name) rest f
  unfolding entry act first_name
  behind_name k it b name rest ending i (n, e) h =
      rw i (turn_halt icu k 3 (state_at _ rest 1 none) e refl refl)
  behind_name k it b name rest colon i c h = rw i (colon_turn 3 k _ rest refl c h)
  behind_name k it b name rest other i (inl (n, e)) h =
      rw i (turn_throw icu k 3 (state_at _ rest 1 none) e refl refl)
  behind_name k it b name rest other i (inr (n, e)) h =
      rw i (turn_throw icu k 3 (state_at _ rest 1 none) e refl refl)

  behind_first :
      (name rest : Bytes) (fuel : ℕ)
      → IsName name
      → Stops rest
      → length name + length rest < fuel
      → loop fuel icu 1 (state_at 1 (name ++ rest) 1 none)
        ≡ first_name icu name rest (follow icu rest)
  unfolding entry act
  behind_first name rest zero h stops k = absurd (omega arith)
  behind_first [] rest (suc fuel) h stops k =
      behind_slash fuel rest (follow icu rest) (follow-Classes icu rest stops) (omega arith)
  behind_first (b ∷ name) rest (suc fuel) h stops k =
      let left = fuel - length name - 1 in
      turn_go icu fuel 1 (state_at 1 (b ∷ (name ++ rest)) 1 none)
        (next_name icu b (name ++ rest) h.0) refl refl
      ∙ loop_names_3 name fuel (suc left) 2 1 rest none h.1 (omega arith)
      ∙ behind_name left (2 + length name) b name rest (follow icu rest) (omega arith)
          (follow-Classes icu rest stops) (omega arith)

  class_of_slash : class_of icu b'/' ≡ 0
  unfolding class_of
  class_of_slash = refl

  next_slash : (bs : Bytes) → next icu (b'/' ∷ bs) ≡ (0, 1)
  unfolding next next_code_point
  next_slash bs = ground (arith, icu.ascii b'/' bs, class_of_slash)

  -- At any other character the first round throws.
  next_other :
      (b : ℕ) (bs : Bytes)
      → (b == b'/') ≡ false
      → (n : ℕ) × (c : ℕ) × (next icu (b ∷ bs) ≡ (c, n)) × ((c ≡ 1) ⊎ (c ≡ 2) ⊎ (c ≡ 3) ⊎ (c ≡ 4))
  unfolding next next_code_point class_of
  next_other b bs h = (
    (icu.u8_next (b ∷ bs)).1,
    class_of icu (icu.u8_next (b ∷ bs)).0,
    refl,
    ground (arith, icu.ascii b bs, icu.beyond_ascii b bs),
  )

  first_turn :
      (k : ℕ) (s : State) (n c : ℕ)
      → next icu s.rest ≡ (c, n)
      → (c ≡ 1) ⊎ (c ≡ 2) ⊎ (c ≡ 3) ⊎ (c ≡ 4)
      → loop (suc k) icu 0 s
        ≡ syntax_error
            (record { code = p1; mark_index = s.it; begin_index = s.it; end_index = s.it })
  unfolding entry act
  first_turn k s n c e (inl x) = turn_throw icu k 0 s (e ∙ ap (λ i. (i, n)) x) refl refl
  first_turn k s n c e (inr (inl x)) = turn_throw icu k 0 s (e ∙ ap (λ i. (i, n)) x) refl refl
  first_turn k s n c e (inr (inr (inl x))) = turn_throw icu k 0 s (e ∙ ap (λ i. (i, n)) x) refl refl
  first_turn k s n c e (inr (inr (inr x))) = turn_throw icu k 0 s (e ∙ ap (λ i. (i, n)) x) refl refl

-- The first round on text that is not empty.
start :
    (icu : Icu) (b : ℕ) (bs : Bytes)
    → parse_command icu (b ∷ bs) ≡ loop (suc (length bs + 1)) icu 0 (state_at 0 (b ∷ bs) 0 none)
unfolding parse_command
start icu b bs =
    let e : length (b ∷ bs) + 1 ≡ suc (length bs + 1) = omega arith in
    ap (λ f. loop f icu 0 (state_at 0 (b ∷ bs) 0 none)) e

after_slash :
    (icu : Icu) (bs : Bytes)
    → parse_command icu (b'/' ∷ bs)
      ≡ first_name icu (span_name bs).0 (span_name bs).1 (follow icu (span_name bs).1)
unfolding entry act
after_slash icu bs =
    let (name, rest) = span_name bs in
    let (e, names, stops) = span_name_lem bs in
    let sizes : length bs ≡ length name + length rest = ap length e ∙ length-append name rest in
    start icu b'/' bs
    ∙ turn_go icu (length bs + 1) 0 (state_at 0 (b'/' ∷ bs) 0 none) (next_slash icu bs) refl refl
    ∙ ap (λ r. loop (length bs + 1) icu 1 (state_at 1 r 1 none)) e
    ∙ behind_first icu name rest (length bs + 1) names stops (omega arith)

-- On every input the state machine does what the grammar says: the same ranges, and the same
-- exception with the same offsets. It always ends, and never leaves its table.
pub parse_command-reference : (icu : Icu) (s : Bytes) → parse_command icu s ≡ reference icu s
unfolding reference
parse_command-reference icu [] =
    unfold parse_command entry act in
    turn_throw icu 0 0 (state_at 0 [] 0 none) (next-nil icu) refl refl
parse_command-reference icu (b ∷ bs) = elim (Bool-cases (b == b'/')) [
  | inl slash ↦ let e : b ≡ b'/' = ground arith in rw e (after_slash icu bs)
  | inr no_slash ↦
      let (n, c, class, cs) = next_other icu b bs no_slash in
      rw no_slash
        (start icu b bs ∙ first_turn icu (length bs + 1) (state_at 0 (b ∷ bs) 0 none) n c class cs)
]
