-- ===== src/Commands/Arguments/Words.antt =====
-- core/src/command_manager.cpp: `parse_arguments` on words with a space behind each.
use mathlib.Core.List.{append-nil, append_assoc}
use fenestra_voli_edition.Base.{
  ℕ, suc, ◌+◌, ◌-◌, ◌<◌, ◌≡◌, ◌≢◌, refl, ap, sym, ◌∙◌, Bool, true, false, ◌&&◌, not, some, List, [],
  ◌∷◌, ◌++◌, ◌==◌, within, if◌then◌else◌, length, length-append, arith,
}
use fenestra_voli_edition.Unicode.{Bytes, Icu, next_code_point, is_autotranslate}
use fenestra_voli_edition.Commands.Unescape.Digits.{Plain, unescape-Plain}
use fenestra_voli_edition.Commands.Arguments.{
  entry, class_of, next, Output, State, emplace, append, act, finish, loop, parse_arguments,
}
use fenestra_voli_edition.Commands.Arguments.Total.{round_step, loop_halt, loop_go, loop_spent}

-- A visible ASCII character that is no quote and no backslash.
abbrev is_word_char : ℕ → Bool
is_word_char c = within 33 126 c && (not (c == b'\\') && (not (c == b'\'') && not (c == b'"')))

abbrev pub WordChars : Bytes → Type 0
WordChars [] = Unit {0}
WordChars (c ∷ w) = (is_word_char c ≡ true) × WordChars w

abbrev pub Words : List Bytes → Type 0
Words [] = Unit {0}
Words (w ∷ ws) = (w ≢ []) × WordChars w × Words ws

abbrev pub unwords : List Bytes → Bytes
unwords [] = []
unwords (w ∷ ws) = w ++ b' ' ∷ unwords ws

next_word_char : (icu : Icu) (c : ℕ) (r : Bytes) → is_word_char c ≡ true → next icu (c ∷ r) ≡ (5, 1)
unfolding next next_code_point class_of is_autotranslate
next_word_char icu c r h = ground (arith, h, icu.ascii c r, icu.ascii_spaces c)

next_space : (icu : Icu) (r : Bytes) → next icu (b' ' ∷ r) ≡ (4, 1)
unfolding next next_code_point class_of is_autotranslate
next_space icu r = ground (arith, icu.ascii b' ' r, icu.ascii_spaces b' ')

WordChars-Plain : (w : Bytes) → WordChars w → Plain w
WordChars-Plain [] h = tt
WordChars-Plain (c ∷ w) h = (ground (arith, h.0), WordChars-Plain w h.1)

abbrev state_of : Output → Bytes → Bytes → State
state_of o pending rest = record { output = o; pending = pending; rest = rest }

module _ (put_utf8 : ℕ → Bytes) (icu : Icu) where
  loop_word :
      (w r pending : Bytes) (o : Output) (fuel : ℕ)
      → WordChars w
      → 0 < o.count
      → loop put_utf8 (length w + fuel) icu 0 (state_of o pending (w ++ r))
        ≡ loop put_utf8 fuel icu 0 (state_of o (pending ++ w) r)
  unfolding entry act
  loop_word [] r pending o fuel h k =
      ap (λ f. loop put_utf8 f icu 0 (state_of o pending r)) (omega arith)
      ∙ ap (λ p. loop put_utf8 fuel icu 0 (state_of o p r)) (sym (append-nil pending))
  loop_word (c ∷ w) r pending o fuel h k =
      ap (λ f. loop put_utf8 f icu 0 (state_of o pending (c ∷ w ++ r))) (omega arith)
      ∙ loop_go put_utf8 (length w + fuel) icu 0 (state_of o pending (c ∷ w ++ r)) k
          (round_step put_utf8 icu 0 _ (next_word_char icu c (w ++ r) h.0) refl refl)
      ∙ loop_word w r (pending ++ c ∷ []) o fuel h.1 k
      ∙ ap (λ p. loop put_utf8 fuel icu 0 (state_of o p r)) (append_assoc pending (c ∷ []) w)

  append_word :
      (w : Bytes) (o : Output)
      → w ≢ []
      → WordChars w
      → append put_utf8 w false o ≡ some (emplace w o)
  unfolding append
  append_word [] o n h = absurd (n refl)
  append_word (c ∷ w) o n h =
      ground (arith, unescape-Plain put_utf8 (c ∷ w) (WordChars-Plain (c ∷ w) h))

  act_space :
      (w r : Bytes) (o : Output)
      → w ≢ []
      → WordChars w
      → act put_utf8 1 (b' ' ∷ []) r (state_of o w (b' ' ∷ r))
        ≡ some (state_of (emplace w o) (if o.count - 1 == 0 then b' ' ∷ [] else []) r)
  unfolding act
  act_space w r o n h = ground (arith, append_word w o n h)

  turn_space :
      (w r : Bytes) (o : Output) (fuel : ℕ)
      → w ≢ []
      → WordChars w
      → 0 < o.count
      → loop put_utf8 (suc fuel) icu 0 (state_of o w (b' ' ∷ r))
        ≡ loop put_utf8 fuel icu 0
            (state_of (emplace w o) (if o.count - 1 == 0 then b' ' ∷ [] else []) r)
  unfolding entry
  turn_space w r o fuel n h k =
      loop_go put_utf8 fuel icu 0 _ k
        (round_step put_utf8 icu 0 _ (next_space icu r) refl (act_space w r o n h))

  act_end : (o : Output) → act put_utf8 1 [] [] (state_of o [] []) ≡ some (state_of o [] [])
  unfolding act append
  act_end o = ground arith

  turn_end :
      (o : Output) (fuel : ℕ)
      → 0 < o.count
      → loop put_utf8 (suc fuel) icu 0 (state_of o [] []) ≡ some o.arguments
  unfolding entry next finish
  turn_end o fuel k =
      loop_halt put_utf8 fuel icu 0 _ k (round_step put_utf8 icu 0 _ refl refl (act_end o)) ∙ refl

  -- A word and the space behind it.
  turn_word :
      (w r : Bytes) (o : Output) (fuel : ℕ)
      → w ≢ []
      → WordChars w
      → 0 < o.count
      → loop put_utf8 (length w + suc fuel) icu 0 (state_of o [] (w ++ b' ' ∷ r))
        ≡ loop put_utf8 fuel icu 0
            (state_of (emplace w o) (if o.count - 1 == 0 then b' ' ∷ [] else []) r)
  turn_word w r o fuel n h k =
      loop_word w (b' ' ∷ r) [] o (suc fuel) h k ∙ turn_space w r o fuel n h k

  -- With a count left.
  turn_more :
      (w r : Bytes) (o : Output) (fuel : ℕ)
      → w ≢ []
      → WordChars w
      → 1 < o.count
      → loop put_utf8 (length w + suc fuel) icu 0 (state_of o [] (w ++ b' ' ∷ r))
        ≡ loop put_utf8 fuel icu 0 (state_of (emplace w o) [] r)
  turn_more w r o fuel n h k = ground (arith, k, turn_word w r o fuel n h (omega (arith, k)))

  loop-Words :
      (ws : List Bytes) (o : Output) (fuel : ℕ)
      → Words ws
      → length ws < o.count
      → loop put_utf8 (length (unwords ws) + suc fuel) icu 0 (state_of o [] (unwords ws))
        ≡ some (o.arguments ++ ws)
  loop-Words [] o fuel h k =
      ap (λ f. loop put_utf8 f icu 0 (state_of o [] [])) (omega arith)
      ∙ turn_end o fuel (omega (arith, k))
      ∙ ap some (sym (append-nil o.arguments))
  loop-Words (w ∷ ws) o fuel h k =
      ap (λ f. loop put_utf8 f icu 0 (state_of o [] (w ++ b' ' ∷ unwords ws)))
        (omega (arith, length-append w (b' ' ∷ unwords ws)))
      ∙ turn_more w (unwords ws) o (length (unwords ws) + suc fuel) h.0 h.1 (omega (arith, k))
      ∙ loop-Words ws (emplace w o) fuel h.2 (omega (arith, k))
      ∙ ap some (append_assoc o.arguments (w ∷ []) ws)

  turn_last :
      (w r : Bytes) (o : Output) (fuel : ℕ)
      → w ≢ []
      → WordChars w
      → o.count ≡ 1
      → loop put_utf8 (length w + suc (suc fuel)) icu 0 (state_of o [] (w ++ b' ' ∷ r))
        ≡ some ((o.arguments ++ w ∷ []) ++ (b' ' ∷ r) ∷ [])
  unfolding finish
  turn_last w r o fuel n h k =
      turn_word w r o (suc fuel) n h (omega (arith, k))
      ∙ loop_spent put_utf8 fuel icu 0 _ (omega (arith, k))
      ∙ ground (arith, k)

  loop_counted :
      (w : Bytes) (ws : List Bytes) (r : Bytes) (o : Output) (fuel : ℕ)
      → Words (w ∷ ws)
      → suc (length ws) ≡ o.count
      → loop put_utf8
          (length (unwords (w ∷ ws) ++ r) + suc fuel)
          icu
          0
          (state_of o [] (unwords (w ∷ ws) ++ r))
        ≡ some (o.arguments ++ w ∷ ws ++ (b' ' ∷ r) ∷ [])
  loop_counted w [] r o fuel h k =
      ap (λ x. loop put_utf8 (length x + suc fuel) icu 0 (state_of o [] x))
        (append_assoc w (b' ' ∷ []) r)
      ∙ ap (λ f. loop put_utf8 f icu 0 (state_of o [] (w ++ b' ' ∷ r)))
          (omega (arith, length-append w (b' ' ∷ r)))
      ∙ turn_last w r o (length r + fuel) h.0 h.1 (omega (arith, k))
  loop_counted w (v ∷ vs) r o fuel h k =
      let s : Bytes = unwords (v ∷ vs) ++ r in
      ap (λ x. loop put_utf8 (length x + suc fuel) icu 0 (state_of o [] x))
        (append_assoc w (b' ' ∷ unwords (v ∷ vs)) r)
      ∙ ap (λ f. loop put_utf8 f icu 0 (state_of o [] (w ++ b' ' ∷ s)))
          (omega (arith, length-append w (b' ' ∷ s)))
      ∙ turn_more w s o (length s + suc fuel) h.0 h.1 (omega (arith, k))
      ∙ loop_counted v vs r (emplace w o) fuel h.2 (omega (arith, k))
      ∙ ap (λ x. some (x ++ (b' ' ∷ r) ∷ [])) (append_assoc o.arguments (w ∷ []) (v ∷ vs))

  -- Words with a space behind each are the arguments, if the count is higher than their number.
  pub parse_arguments-unwords :
      (ws : List Bytes) (count : ℕ)
      → Words ws
      → length ws < count
      → parse_arguments put_utf8 icu (unwords ws) count ≡ some ws
  unfolding parse_arguments
  parse_arguments-unwords ws count h k =
      loop-Words ws (record { arguments = []; count = count }) 0 h k

  -- With as many words as the count, whatever stands behind them is the last argument, with the
  -- space in front of it and nothing in it unescaped.
  pub parse_arguments_counted :
      (w : Bytes) (ws : List Bytes) (rest : Bytes)
      → Words (w ∷ ws)
      → parse_arguments put_utf8 icu (unwords (w ∷ ws) ++ rest) (length ws + 1)
        ≡ some (w ∷ ws ++ (b' ' ∷ rest) ∷ [])
  unfolding parse_arguments
  parse_arguments_counted w ws rest h =
      loop_counted w ws rest (record { arguments = []; count = length ws + 1 }) 0 h (omega arith)
