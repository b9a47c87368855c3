-- ===== src/Commands/Unescape/Correct.antt =====
-- core/src/command_manager.cpp: `unescape` never fails, and decodes its escapes.
use fenestra_voli_edition.Base.{
  ℕ, ◌≤◌, ◌≡◌, refl, ◌∙◌, some, [], ◌∷◌, ◌++◌, arith, Bool, ◌&&◌, List, zero, suc, leb, length,
  ◌==◌, all_of, get_elem?_all,
}
use fenestra_voli_edition.Unicode.{Bytes}
use fenestra_voli_edition.Commands.Unescape.{
  entry, class_of, State, act, round, loop, unescape, state_table,
}

class_of_bound : (c : ℕ) → class_of c ≤ 5
unfolding class_of
class_of_bound c = ground arith

abbrev inside : ℕ × ℕ → Bool
inside (next_state, action) = leb next_state 12 && leb action 5

abbrev row_inside : List (ℕ × ℕ) → Bool
row_inside row = length row == 6 && all_of inside row

-- A round stays in the table.
entry_inside :
    (state char_class : ℕ)
    → state ≤ 12
    → char_class ≤ 5
    → (next_state : ℕ) × (action : ℕ) × (entry state char_class ≡ some (next_state, action))
      × (next_state ≤ 12)
      × (action ≤ 5)
unfolding entry
entry_inside state char_class h k =
    let (row, found, ok) = get_elem?_all row_inside state_table state (omega (arith, h)) refl in
    let (e, got, fits) =
      get_elem?_all inside row char_class (ground (arith, ok)) (ground (arith, ok)) in
    (e.0, e.1, rw (found, got), ground (arith, fits), ground (arith, fits))

module _ (append : ℕ → Bytes) where
  act_total :
      (action c : ℕ) (s : State) → action ≤ 5 → (s' : State) × (act append action c s ≡ some s')
  unfolding act
  act_total zero c s h = (_, refl)
  act_total (suc zero) c s h = (_, refl)
  act_total (suc (suc zero)) c s h = (_, refl)
  act_total (suc (suc (suc zero))) c s h = (_, refl)
  act_total (suc (suc (suc (suc zero)))) c s h = (_, refl)
  act_total (suc (suc (suc (suc (suc zero))))) c s h = (_, refl)
  act_total (suc (suc (suc (suc (suc (suc n)))))) c s h = absurd (omega (arith, h))

  -- A round and a turn of the loop, by what the table and the action say.
  pub round_step :
      (state c : ℕ) (s : State) {n a : ℕ} {s' : State}
      → entry state (class_of c) ≡ some (n, a)
      → act append a c s ≡ some s'
      → round append state c s ≡ some (n, s')
  unfolding round
  round_step state c s e f = ground (arith, e, f)

  pub loop_step :
      (state c : ℕ) (rest : Bytes) (s : State) {n : ℕ} {s' : State}
      → round append state c s ≡ some (n, s')
      → loop append (c ∷ rest) state s ≡ loop append rest n s'
  unfolding loop
  loop_step state c rest s e = ground (arith, e)

  round_total :
      (state c : ℕ) (s : State)
      → state ≤ 12
      → (next_state : ℕ) × (s' : State) × (round append state c s ≡ some (next_state, s'))
        × (next_state ≤ 12)
  round_total state c s h =
      let (next_state, action, e, k, a) = entry_inside state (class_of c) h (class_of_bound c) in
      let (s', f) = act_total action c s a in (next_state, s', round_step state c s e f, k)

  loop_total :
      (string : Bytes) (state : ℕ) (s : State)
      → state ≤ 12
      → (result : Bytes) × (loop append string state s ≡ some result)
  unfolding loop
  loop_total [] state s h = (s.result ++ s.pending, refl)
  loop_total (c ∷ rest) state s h =
      let (next_state, s', e, k) = round_total state c s h in
      let (r, f) = loop_total rest next_state s' k in (r, loop_step state c rest s e ∙ f)

  -- Every string is unescaped: the table is never left and no action is unknown.
  pub unescape_total : (string : Bytes) → (result : Bytes) × (unescape append string ≡ some result)
  unfolding unescape
  unescape_total string = loop_total string 0 _ (omega arith)
